-- ===== src/Femu/Bytes.antt =====
-- `femu_write` and `femu_read` of src/femu/femu.c, whose requests are given in bytes, and the loop
-- of `dispatch_io` that waits.
use native.Mathlib.Nat.{mul-div_cancel}
use lsm_based_on_zns_ssd.Base.{
  ℕ, zero, suc, ◌+◌, ◌*◌, ◌/◌, ◌≤◌, ◌<◌, ◌≡◌, refl, ap, subst, ◌∙◌, arith, false, [], ◌++◌, some,
  get_elem?, set, add64, sub64, add64-eq, sub64-eq, u64_mod, le-mul_pos, dec_lt, le→leb,
  lt→leb_false,
}
use native.Mathlib.Nat.{mul-le-mul_right}
use lsm_based_on_zns_ssd.Ftl.Types.{SsdParams, NvmeZone, FemuCtrl, nvme_cmd_write, nvme_cmd_read}
use lsm_based_on_zns_ssd.Ftl.Commands.{zns_write, zns_read}
use lsm_based_on_zns_ssd.Ftl.Geometry.{Geometry, zone_pages, secsz_pos}
use lsm_based_on_zns_ssd.Ftl.Calls.{carry_out, sent}
use lsm_based_on_zns_ssd.Ftl.Transfer.{user_write, user_read, pages_from}
use lsm_based_on_zns_ssd.Ftl.Device.{HasPages, IsDevice, AsksFor}
use lsm_based_on_zns_ssd.Ftl.Write.{zns_write-WriteResult}
use lsm_based_on_zns_ssd.Ftl.Read.{zns_read-ReadResult}
use lsm_based_on_zns_ssd.Femu.Requests.{make_request, wait_until, femu_write, femu_read}

-- The request that is handed to the commands, and the controller it is handed with.
abbrev numbered : FemuCtrl → FemuCtrl
numbered n = record n { req_id = add64 n.req_id 1 }

femu_write-steps :
    (n n' : FemuCtrl) (len offset start lat : ℕ) (now poll : ℕ → ℕ) (fuel : ℕ)
    → zns_write (numbered n) (make_request n len offset nvme_cmd_write start) now
      ≡ some (n', lat, [])
    → femu_write n len offset false start now poll fuel ≡ some (n', [], 0)
unfolding femu_write make_request
femu_write-steps n n' len offset start lat now poll fuel e = rw e

femu_read-steps :
    (n n' : FemuCtrl) (len offset start lat : ℕ) (now poll : ℕ → ℕ) (fuel : ℕ)
    → zns_read (numbered n) (make_request n len offset nvme_cmd_read start) now ≡ some (n', lat, [])
    → femu_read n len offset false start now poll fuel ≡ some (n', [], 0)
unfolding femu_read make_request
femu_read-steps n n' len offset start lat now poll fuel e = rw e

-- Bytes that are a multiple of a page of `s` blocks of `z` bytes, in blocks.
first_sector : (p s z : ℕ) → 0 < z → p * (s * z) / z ≡ p * s
first_sector p s z h =
    ap (λ x. x / z) {x = p * (s * z)} {y = p * s * z} (omega arith) ∙ mul-div_cancel (p * s) h

sectors :
    (p c s z : ℕ)
    → 0 < z
    → p * (s * z) + c * (s * z) < u64_mod
    → sub64 (add64 (p * (s * z)) (c * (s * z)) / z) (p * (s * z) / z) ≡ c * s
sectors p c s z h k =
    let both : p * (s * z) + c * (s * z) ≡ (p + c) * (s * z) = omega arith in
    let fits : (p + c) * s < u64_mod = omega (arith, le-mul_pos ((p + c) * s) z h) in
    rw
      (
        add64-eq (p * (s * z)) (c * (s * z)) k,
        both,
        first_sector (p + c) s z h,
        first_sector p s z h,
        sub64-eq ((p + c) * s) (p * s) (omega arith) fits,
      )
      (omega arith)

module _ {spp : SsdParams} {num_fcg zone_cap num_zones : ℕ}
    (g : Geometry spp num_fcg zone_cap num_zones) where
  abbrev pub page_bytes : ℕ
  page_bytes = spp.secs_per_pg * spp.secsz

  device_bytes : num_zones * zone_pages g * page_bytes ≡ num_zones * zone_cap
  device_bytes = rw g.cap (omega arith)

  make_request-AsksFor :
      (n : FemuCtrl) (p c op start : ℕ)
      → n.ssd.sp ≡ spp
      → 0 < c
      → p + c ≤ num_zones * zone_pages g
      → AsksFor g p c (make_request n (c * page_bytes) (p * page_bytes) op start)
  unfolding make_request
  make_request-AsksFor n p c op start same some_page in_range =
      let fits : p * page_bytes + c * page_bytes < u64_mod =
        omega (arith, g.lba_fits, device_bytes, mul-le-mul_right page_bytes in_range) in
      record {
        some_page = some_page;
        in_range = in_range;
        slba =
            ap (λ (s : SsdParams). p * page_bytes / s.secsz) same
            ∙ first_sector p spp.secs_per_pg spp.secsz (secsz_pos g);
        nlb =
            ap
              (λ (s : SsdParams).
                sub64 (add64 (p * page_bytes) (c * page_bytes) / s.secsz)
                  (p * page_bytes / s.secsz))
              same
            ∙ sectors p c spp.secs_per_pg spp.secsz (secsz_pos g) fits;
      }

  numbered-IsDevice : (n : FemuCtrl) → IsDevice g n → IsDevice g (numbered n)
  numbered-IsDevice n d = record {
    params = d.params;
    groups = d.groups;
    size = d.size;
    count = d.count;
    array = d.array;
    shape = d.shape;
    zones = d.zones;
  }

  pub record Stored (n : FemuCtrl) (i k c start : ℕ) (now poll : ℕ → ℕ) (fuel : ℕ) : Type 0 where
    pub n' : FemuCtrl
    pub zone' : NvmeZone
    pub latency : ℕ
    pub returns :
        femu_write n
          (c * page_bytes)
          ((i * zone_pages g + k) * page_bytes)
          false
          start
          now
          poll
          fuel
        ≡ some (n', [], 0)
    pub programs :
        carry_out (user_write start) (pages_from g (i * zone_pages g + k) c) 0 n.ssd now 0
        ≡ some (n'.ssd, latency)
    pub commands :
        n'.ssd.commands
        ≡ n.ssd.commands ++ sent (user_write start) (pages_from g (i * zone_pages g + k) c)
    pub device : IsDevice g n'
    pub pages : HasPages g i zone' (k + c)
    pub zones : n'.zone_array ≡ set n.zone_array i zone'

  -- On a device in order, a write of `c > 0` pages, given in bytes, that begins at the write pointer of zone
  -- `i`, fits the zone and does not wait, returns without a message, sends the dies a program of each of
  -- the next `c` pages of the zone, in order, and no other command, moves the write pointer by `c` pages and keeps the device in order.
  pub femu_write-Stored :
      (n : FemuCtrl) (i k c start : ℕ) (zone : NvmeZone) (now poll : ℕ → ℕ) (fuel : ℕ)
      → IsDevice g n
      → get_elem? n.zone_array i ≡ some zone
      → HasPages g i zone k
      → 0 < c
      → i * zone_pages g + k + c ≤ num_zones * zone_pages g
      → k + c ≤ zone_pages g
      → Stored n i k c start now poll fuel
  unfolding make_request
  femu_write-Stored n i k c start zone now poll fuel d found z some_page in_range h =
      let bytes = c * page_bytes in
      let from = (i * zone_pages g + k) * page_bytes in
      let req = make_request n bytes from nvme_cmd_write start in
      let asks =
        make_request-AsksFor n (i * zone_pages g + k) c nvme_cmd_write start d.params some_page
          in_range in
      let w =
        zns_write-WriteResult g (numbered n) i k c zone req now (numbered-IsDevice n d) found z asks
          h in
      record {
        n' = w.n';
        zone' = w.zone';
        latency = w.latency;
        returns = femu_write-steps n w.n' bytes from start w.latency now poll fuel w.returns;
        programs = w.programs;
        commands = w.commands;
        device = w.device;
        pages = w.pages;
        zones = w.zones;
      }

  pub record Loaded (n : FemuCtrl) (p c start : ℕ) (now poll : ℕ → ℕ) (fuel : ℕ) : Type 0 where
    pub n' : FemuCtrl
    pub latency : ℕ
    pub returns :
        femu_read n (c * page_bytes) (p * page_bytes) false start now poll fuel ≡ some (n', [], 0)
    pub visits :
        carry_out (user_read start) (pages_from g p c) 0 n.ssd now 0 ≡ some (n'.ssd, latency)
    pub commands : n'.ssd.commands ≡ n.ssd.commands ++ sent (user_read start) (pages_from g p c)
    pub device : IsDevice g n'
    pub zones : n'.zone_array ≡ n.zone_array

  -- On a device in order, a read of `c > 0` pages of the device, given in bytes, that does not wait, returns
  -- without a message, sends the dies a read of each of these pages, in order, and no other command, and keeps the zones and the device in order.
  pub femu_read-Loaded :
      (n : FemuCtrl) (p c start : ℕ) (now poll : ℕ → ℕ) (fuel : ℕ)
      → IsDevice g n
      → 0 < c
      → p + c ≤ num_zones * zone_pages g
      → Loaded n p c start now poll fuel
  unfolding make_request
  femu_read-Loaded n p c start now poll fuel d some_page in_range =
      let bytes = c * page_bytes in
      let from = p * page_bytes in
      let req = make_request n bytes from nvme_cmd_read start in
      let asks = make_request-AsksFor n p c nvme_cmd_read start d.params some_page in_range in
      let r = zns_read-ReadResult g (numbered n) p c req now (numbered-IsDevice n d) asks in
      record {
        n' = record (numbered n) { ssd = r.ssd' };
        latency = r.latency;
        returns = femu_read-steps n _ bytes from start 0 now poll fuel r.returns;
        visits = r.visits;
        commands = r.commands;
        device = r.device;
        zones = refl;
      }

-- If the (i + j)-th reading has reached the request's end, fuel for more than `j` readings is enough for
-- the loop to end, and it ends at a reading that has reached it, not later than that one.
pub wait_until-ends :
    (fuel i j : ℕ) (poll : ℕ → ℕ) (expire_time : ℕ)
    → j < fuel
    → expire_time ≤ poll (i + j)
    → (m : ℕ) × (wait_until fuel i poll expire_time ≡ some (i + m))
      × (m ≤ j)
      × (expire_time ≤ poll (i + m))
unfolding wait_until
wait_until-ends zero i j poll expire_time h l = elim h [ ]
wait_until-ends (suc fuel) i zero poll expire_time h l =
    let now : expire_time ≤ poll i = subst (λ t. expire_time ≤ poll t) (omega arith) l in
    (0, rw (le→leb expire_time (poll i) now) (ap some (omega arith)), omega arith, l)
wait_until-ends (suc fuel) i (suc j) poll expire_time h l = elim (dec_lt (poll i) expire_time) [
  | no p ↦
      let now : expire_time ≤ poll i = omega (arith, p) in
      (
        0,
        rw (le→leb expire_time (poll i) now) (ap some (omega arith)),
        omega arith,
        subst (λ t. expire_time ≤ poll t) (omega arith) now,
      )
  | yes p ↦
      let (m, e, le, reached) =
        wait_until-ends fuel (i + 1) j poll expire_time (omega arith)
          (subst (λ t. expire_time ≤ poll t) (omega arith) l) in
      (
        m + 1,
        rw (lt→leb_false expire_time (poll i) p) (e ∙ ap some (omega arith)),
        omega arith,
        subst (λ t. expire_time ≤ poll t) (omega arith) reached,
      )
]
