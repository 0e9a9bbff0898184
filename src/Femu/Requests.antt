-- ===== src/Femu/Requests.antt =====
-- `alloc_req_id`, `dispatch_io`, `femu_init`, `femu_read`, `femu_write` and `femu_reset` of
-- src/femu/femu.c. The clock is an argument: `start` is the reading that stamps the request, `now`
-- the readings of the dies, `poll` those of the loop that waits.
use lsm_based_on_zns_ssd.Base.{
  ℕ, zero, suc, ◌+◌, ◌/◌, Bool, true, false, List, [], Option, none, some, ◌>>=◌, if◌then◌else◌,
  leb, ◌==◌, add64, sub64,
}
use lsm_based_on_zns_ssd.Ftl.Types.{
  Config, NvmeRequest, FemuCtrl, nvme_cmd_write, nvme_cmd_read, nvme_cmd_reset,
}
use lsm_based_on_zns_ssd.Ftl.Params.{ssd_init_params}
use lsm_based_on_zns_ssd.Ftl.Init.{ssd_init, zns_init}
use lsm_based_on_zns_ssd.Ftl.Commands.{FtlErr, zns_write, zns_read, zns_reset}

-- The request's number, and the controller with its counter increased.
unfoldable pub alloc_req_id : FemuCtrl → ℕ × FemuCtrl
alloc_req_id femu = (femu.req_id, record femu { req_id = add64 femu.req_id 1 })

-- The switch over the opcode. An unknown one leaves the latency unset, which is `none`.
unfoldable pub dispatch : FemuCtrl → NvmeRequest → (ℕ → ℕ) → Option (FemuCtrl × ℕ × List FtlErr)
dispatch femu req now =
    if req.opcode == nvme_cmd_write
    then zns_write femu req now
    else if req.opcode == nvme_cmd_read
    then zns_read femu req now
    else if req.opcode == nvme_cmd_reset
    then (zns_reset femu req now >>= λ n. some (n, 0, []))
    else none

-- The loop that waits, from the i-th reading on: the number of the reading that ends it.
unfoldable pub wait_until : ℕ → ℕ → (ℕ → ℕ) → ℕ → Option ℕ
wait_until zero i poll expire_time = none
wait_until (suc fuel) i poll expire_time =
    let rest = wait_until fuel (i + 1) poll expire_time in
    if leb expire_time (poll i) then some i else rest

unfoldable pub make_request : FemuCtrl → ℕ → ℕ → ℕ → ℕ → NvmeRequest
make_request femu len offset op start =
    let secsz = femu.ssd.sp.secsz in
    let start_lba = offset / secsz in
    let end_lba = add64 offset len / secsz in
    record {
      id = femu.req_id;
      slba = start_lba;
      nlb = sub64 end_lba start_lba;
      opcode = op;
      stime = start;
      reqlat = 0;
      expire_time = start;
      completed = false;
    }

-- The controller after the request, the messages, and the reading at which it returns (0 if it
-- does not wait).
unfoldable pub dispatch_io :
    FemuCtrl → ℕ → ℕ → Bool → ℕ → ℕ → (ℕ → ℕ) → (ℕ → ℕ) → ℕ → Option (FemuCtrl × List FtlErr × ℕ)
unfolding alloc_req_id dispatch wait_until
dispatch_io femu len offset wait op start now poll fuel = do
  let req = make_request femu len offset op start
  let (_, femu₁) = alloc_req_id femu
  (femu₂, lat, errs) ← dispatch femu₁ req now
  let expire_time = if femu₂.enable_latency then req.expire_time + lat else req.expire_time
  let waited = wait_until fuel 0 poll expire_time
  if wait then (waited >>= λ i. some (femu₂, errs, i)) else some (femu₂, errs, 0)

-- Memory that `g_malloc0` returns is zero.
unfoldable pub femu_init : Config → ℕ → Bool → Bool → FemuCtrl
unfolding ssd_init zns_init
femu_init c ssd_size enable_backend enable_latency =
    let blank : FemuCtrl = record {
      zone_array = [];
      ssd = record { sp = ssd_init_params c 0; ch = []; commands = [] };
      backend = enable_backend;
      devsz = ssd_size;
      zone_size = 0;
      num_zones = 0;
      num_fcg = 0;
      enable_latency = enable_latency;
      dataplane_started = false;
      req_id = 0;
    } in
    record (zns_init c (ssd_init c blank)) { dataplane_started = true }

unfoldable pub femu_read :
    FemuCtrl → ℕ → ℕ → Bool → ℕ → (ℕ → ℕ) → (ℕ → ℕ) → ℕ → Option (FemuCtrl × List FtlErr × ℕ)
unfolding dispatch_io
femu_read femu len offset wait start now poll fuel =
    dispatch_io femu len offset wait nvme_cmd_read start now poll fuel

unfoldable pub femu_write :
    FemuCtrl → ℕ → ℕ → Bool → ℕ → (ℕ → ℕ) → (ℕ → ℕ) → ℕ → Option (FemuCtrl × List FtlErr × ℕ)
unfolding dispatch_io
femu_write femu len offset wait start now poll fuel =
    dispatch_io femu len offset wait nvme_cmd_write start now poll fuel

unfoldable pub femu_reset :
    FemuCtrl → ℕ → ℕ → ℕ → (ℕ → ℕ) → (ℕ → ℕ) → ℕ → Option (FemuCtrl × List FtlErr × ℕ)
unfolding dispatch_io
femu_reset femu len offset start now poll fuel =
    dispatch_io femu len offset false nvme_cmd_reset start now poll fuel
