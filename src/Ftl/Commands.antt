-- ===== src/Ftl/Commands.antt =====
-- The zone commands of src/femu/ftl.c: `zns_zone_idx`, `zns_get_zone_by_lba`, `zns_check_zone_write`,
-- `zns_write`, `zns_read` and `zns_reset`. `none` is a failed assertion, an access out of bounds, or
-- a loop that does not end. What `ftl_err` prints is a list of messages; the commands go on after
-- one. `now i` is the clock at the i-th command that the die receives.
use lsm_based_on_zns_ssd.Base.{
  ℕ, zero, suc, ◌+◌, ◌-◌, ◌*◌, ◌/◌, ◌%◌, Bool, true, false, not, ◌&&◌, ◌||◌, if◌then◌else◌, ltb,
  leb, ◌==◌, List, [], ◌∷◌, ◌++◌, Option, none, some, ◌>>=◌, get_elem?, set, add64, sub64, to_u32,
}
use lsm_based_on_zns_ssd.Ftl.Types.{
  Ppa, NandCmd, SsdParams, Ssd, NvmeZone, NvmeZoneState, zone_empty, zone_open, zone_full,
  NvmeRequest, FemuCtrl, nand_read, nand_write, nand_erase, user_io, gc_io,
}
use lsm_based_on_zns_ssd.Ftl.Pointer.{
  block_bytes, end_of, zns_advance_write_pointer, get_zns_page, get_next_page, locate_page,
  zns_reset_wpp,
}
use lsm_based_on_zns_ssd.Ftl.Timing.{get_lun, put_lun, ssd_advance_status}

pub data FtlErr : Type 0 where
  beyond_device boundary_error zone_is_full invalid_write : FtlErr

abbrev pub is_full : NvmeZoneState → Bool
is_full zone_full = true
is_full zone_empty = false
is_full zone_open = false

unfoldable pub zns_zone_idx : FemuCtrl → ℕ → SsdParams → ℕ
zns_zone_idx n slba spp = to_u32 (slba / (n.zone_size / spp.secsz))

-- The pointer into `zone_array` is an index.
unfoldable pub zns_get_zone_by_lba : FemuCtrl → ℕ → SsdParams → Option ℕ
unfolding zns_zone_idx
zns_get_zone_by_lba n slba spp =
    let zone_idx = zns_zone_idx n slba spp in
    if ltb zone_idx n.num_zones then some zone_idx else none

unfoldable pub max_lat : ℕ → ℕ → ℕ
max_lat a b = if ltb b a then a else b

abbrev pub message : Bool → FtlErr → List FtlErr
message true e = e ∷ []
message false e = []

unfoldable pub zns_check_zone_write : FemuCtrl → NvmeZone → ℕ → ℕ → List FtlErr
zns_check_zone_write n zone slba nlb =
    let spp = n.ssd.sp in
    message (ltb spp.tt_secs (add64 slba nlb)) beyond_device
    ++ (message (ltb (add64 zone.start_lba (zone.zone_cap / spp.secsz)) (add64 slba nlb))
          boundary_error
        ++ (message (is_full zone.state) zone_is_full
            ++ message (not (zone.write_ptr == slba)) invalid_write))

-- The loop of `zns_write`, with `k` pages left of which the next is the i-th.
unfoldable pub write_pages :
    ℕ → ℕ → ℕ → NvmeZone → Ssd → ℕ → (ℕ → ℕ) → ℕ → Option (NvmeZone × Ssd × ℕ)
write_pages zero i num_fcg zone ssd stime now maxlat = some (zone, ssd, maxlat)
write_pages (suc k) i num_fcg zone ssd stime now maxlat = do
  let ppa = get_zns_page zone
  let swr : NandCmd = record { type = user_io; cmd = nand_write; stime = stime }
  (ssd', curlat) ← ssd_advance_status ssd ppa swr (now i)
  write_pages k (i + 1) num_fcg (zns_advance_write_pointer num_fcg zone ssd.sp) ssd' stime now
      (max_lat curlat maxlat)

-- The pages from the logical block `slba` on, `nlb` blocks long.
unfoldable pub lpn_count : SsdParams → ℕ → ℕ → ℕ
lpn_count spp slba nlb = sub64 (add64 slba nlb) 1 / spp.secs_per_pg + 1 - slba / spp.secs_per_pg

unfoldable pub zns_write : FemuCtrl → NvmeRequest → (ℕ → ℕ) → Option (FemuCtrl × ℕ × List FtlErr)
unfolding zns_get_zone_by_lba zns_check_zone_write write_pages lpn_count
zns_write n req now = do
  let spp = n.ssd.sp
  idx ← zns_get_zone_by_lba n req.slba spp
  zone ← get_elem? n.zone_array idx
  let errs = zns_check_zone_write n zone req.slba req.nlb
  (zone', ssd', maxlat) ←
      write_pages (lpn_count spp req.slba req.nlb) 0 n.num_fcg
        (record zone { write_ptr = add64 zone.write_ptr req.nlb }) n.ssd req.stime now 0
  some (record n { zone_array = set n.zone_array idx zone'; ssd = ssd' }, maxlat, errs)

-- The loop of `zns_read`: the page `ppa` of the zone number `idx` is next. The latency that it
-- finds is not returned.
unfoldable pub read_pages : ℕ → ℕ → ℕ → List NvmeZone → ℕ → ℕ → Ppa → Ssd → ℕ → (ℕ → ℕ) → Option Ssd
read_pages zero i num_fcg zones idx last ppa ssd stime now = some ssd
read_pages (suc k) i num_fcg zones idx last ppa ssd stime now = do
  let srd : NandCmd = record { type = user_io; cmd = nand_read; stime = stime }
  (ssd', sublat) ← ssd_advance_status ssd ppa srd (now i)
  zone ← get_elem? zones idx
  let (done, ppa') = get_next_page zone num_fcg ssd.sp ppa
  let again = λ (idx' : ℕ) (p : Ppa). read_pages k (i + 1) num_fcg zones idx' last p ssd' stime now
  if done && not (idx == last)
      then (get_elem? zones (idx + 1) >>= λ zone'.
          again (idx + 1) (locate_page num_fcg ssd.sp zone' 0))
      else again idx ppa'

unfoldable pub zns_read : FemuCtrl → NvmeRequest → (ℕ → ℕ) → Option (FemuCtrl × ℕ × List FtlErr)
unfolding zns_get_zone_by_lba read_pages lpn_count
zns_read n req now = do
  let spp = n.ssd.sp
  idx ← zns_get_zone_by_lba n req.slba spp
  last ← zns_get_zone_by_lba n (sub64 (add64 req.slba req.nlb) 1) spp
  zone ← get_elem? n.zone_array idx
  let start_lpn = req.slba / spp.secs_per_pg
  let end_lpn = sub64 (add64 req.slba req.nlb) 1 / spp.secs_per_pg
  let lpn_in_zone = start_lpn % (n.zone_size / (spp.secs_per_pg * spp.secsz))
  ssd' ←
      read_pages (lpn_count spp req.slba req.nlb) 0 n.num_fcg n.zone_array idx last
        (locate_page n.num_fcg spp zone lpn_in_zone) n.ssd req.stime now
  some (record n { ssd = ssd' }, 0, message (leb spp.tt_pgs end_lpn) beyond_device)

-- The body of the inner loop of `zns_reset`: the erase of one block.
unfoldable pub erase_block : Ssd → Ppa → ℕ → Option Ssd
erase_block ssd ppa now = do
  let gce : NandCmd = record { type = gc_io; cmd = nand_erase; stime = 0 }
  (ssd', _) ← if ssd.sp.enable_gc_delay then ssd_advance_status ssd ppa gce now else some (ssd, 0)
  lun ← get_lun ssd' ppa
  put_lun ssd' ppa (record lun { gc_endtime = lun.next_lun_avail_time })

-- The inner loop, at the block `blk`; the number of erases so far is returned beside the device.
unfoldable pub erase_blocks : ℕ → ℕ → ℕ → ℕ → ℕ → ℕ → ℕ → Ssd → (ℕ → ℕ) → Option (Ssd × ℕ)
unfolding erase_block
erase_blocks zero i ch lun start end blk ssd now = none
erase_blocks (suc fuel) i ch lun start end blk ssd now =
    let ppa : Ppa = record { blk = blk; pg = 0; pl = 0; lun = lun; ch = ch } in
    let rest = erase_block ssd ppa (now i) >>= λ ssd'.
    erase_blocks fuel (i + 1) ch lun start end (to_u32 (blk + 1)) ssd' now in
    if (blk == start) || not (blk % end == 0) then rest else some (ssd, i)

-- The outer loop, with `k` channels left.
unfoldable pub erase_channels : ℕ → ℕ → ℕ → ℕ → ℕ → ℕ → Ssd → (ℕ → ℕ) → Option (Ssd × ℕ)
unfolding erase_blocks
erase_channels zero i ch lun start end ssd now = some (ssd, i)
erase_channels (suc k) i ch lun start end ssd now = do
  (ssd', i') ← erase_blocks (end + 1) i ch lun start end start ssd now
  erase_channels k i' (ch + 1) lun start end ssd' now

unfoldable pub zns_reset : FemuCtrl → NvmeRequest → (ℕ → ℕ) → Option FemuCtrl
unfolding zns_get_zone_by_lba erase_channels
zns_reset n req now = do
  let spp = n.ssd.sp
  idx ← zns_get_zone_by_lba n req.slba spp
  zone ← get_elem? n.zone_array idx
  let block_size = block_bytes spp
  let zone' = zns_reset_wpp (record zone { write_ptr = zone.start_lba }) spp n.num_fcg block_size
  let end = end_of n.num_fcg spp zone block_size
  let top = spp.nchs / n.num_fcg * (zone'.wpp.fcg_id + 1)
  let erased =
      erase_channels (top - zone'.wpp.ch) 0 zone'.wpp.ch zone'.wpp.lun zone'.wpp.blk end n.ssd now
  if is_full zone.state
      then (erased >>= λ r. some (record n { zone_array = set n.zone_array idx zone'; ssd = r.0 }))
      else some n
