-- ===== src/Tests/Device.antt =====
-- Runs of src/femu on small devices, and the theorems applied to them.
use lsm_based_on_zns_ssd.Base.{
  ◌+◌, ◌++◌, ℕ, ◌-◌, ◌*◌, ◌/◌, ◌≤◌, ◌<◌, ◌≡◌, refl, arith, true, false, [], ◌∷◌, some, add64,
  get_elem?, to_u8, to_u32,
}
use lsm_based_on_zns_ssd.Ftl.Types.{
  Config, Ppa, SsdParams, Ssd, NvmeZone, NvmeRequest, FemuCtrl, NandCmd, NandLun, user_io,
  nand_write, default_config, nvme_cmd_write, nvme_cmd_read, nvme_cmd_reset,
}
use lsm_based_on_zns_ssd.Ftl.Params.{ssd_init_params}
use lsm_based_on_zns_ssd.Ftl.Init.{zns_init_zone}
use lsm_based_on_zns_ssd.Ftl.Pointer.{
  locate_page, get_next_page, get_zns_page, zns_advance_write_pointer,
}
use lsm_based_on_zns_ssd.Ftl.Geometry.{Geometry, zone_pages}
use lsm_based_on_zns_ssd.Ftl.Device.{HasPages, IsDevice, AsksFor}
use lsm_based_on_zns_ssd.Ftl.Timing.{get_lun, ssd_advance_status}
use lsm_based_on_zns_ssd.Ftl.Commands.{
  boundary_error, invalid_write, zns_check_zone_write, zns_reset, erase_blocks,
}
use lsm_based_on_zns_ssd.Ftl.Shape.{OnDevice, arrival, nand_latency, ssd_advance_status_lem}
use lsm_based_on_zns_ssd.Ftl.Walk.{advance-locate_page, get_next_page-locate_page}
use lsm_based_on_zns_ssd.Ftl.Disjoint.{locate_page-injective, locate_page-bounds}
use lsm_based_on_zns_ssd.Ftl.Write.{WriteResult, zns_write-WriteResult}
use lsm_based_on_zns_ssd.Ftl.Check.{zns_check_zone_write_lem}
use lsm_based_on_zns_ssd.Ftl.Read.{ReadResult, zns_read-ReadResult}
use lsm_based_on_zns_ssd.Ftl.Reset.{ResetsZone, ResetResult, zns_reset-open, zns_reset-ResetResult}
use lsm_based_on_zns_ssd.Ftl.Calls.{sent, gc_erase}
use lsm_based_on_zns_ssd.Ftl.Erase.{Erases, blocks_from, erase_blocks-all}
use lsm_based_on_zns_ssd.Femu.Bytes.{
  Stored, Loaded, femu_write-Stored, femu_read-Loaded, wait_until-ends,
}
use lsm_based_on_zns_ssd.Femu.ReadBack.{ReadsBack, femu_write-femu_read}
use lsm_based_on_zns_ssd.Femu.Requests.{femu_init, wait_until}
use lsm_based_on_zns_ssd.Femu.Start.{femu_init-IsDevice, zns_init_zone-HasPages}

-- Two groups of two channels, a zone of two blocks on each channel of its group.
abbrev small : Config
small = record {
  ssd_secsz = 4;
  ssd_secs_per_pg = 2;
  ssd_pgs_per_blk = 2;
  ssd_blks_per_pl = 4;
  ssd_pls_per_lun = 1;
  ssd_luns_per_ch = 1;
  ssd_nchs = 4;
  zone_size = 64;
  num_fcgs = 2;
}

abbrev small_geometry : Geometry (ssd_init_params small 256) (to_u8 2) 64 (to_u32 (256 / 64))
unfolding ssd_init_params to_u8 to_u32
small_geometry = record {
  chips = 2;
  blocks = 2;
  slots = 2;
  chips_pos = omega arith;
  blocks_pos = omega arith;
  slots_pos = omega arith;
  groups_pos = omega arith;
  pages_pos = omega arith;
  bytes_pos = omega arith;
  one_plane = omega arith;
  secs = refl;
  channels = refl;
  cap = refl;
  die = refl;
  fits = omega arith;
  u64_fits = omega arith;
  u32_fits = omega arith;
  lba_fits = omega arith;
  secs_fit = omega arith;
  pages_fit = omega arith;
  small_channels = omega arith;
  small_die = omega arith;
  small_block = omega arith;
  some_die = omega arith;
  block_fits = omega arith;
  int_fits = omega arith;
  erases_wait = refl;
}

-- The device that the build is configured for: 512 GB in zones of 512 MB.
abbrev default_geometry :
    Geometry
      (ssd_init_params default_config 549_755_813_888)
      (to_u8 1)
      536_870_912
      (to_u32 (549_755_813_888 / 536_870_912))
unfolding ssd_init_params to_u8 to_u32
default_geometry = record {
  chips = 8;
  blocks = 4;
  slots = 128;
  chips_pos = omega arith;
  blocks_pos = omega arith;
  slots_pos = omega arith;
  groups_pos = omega arith;
  pages_pos = omega arith;
  bytes_pos = omega arith;
  one_plane = omega arith;
  secs = refl;
  channels = refl;
  cap = refl;
  die = refl;
  fits = omega arith;
  u64_fits = omega arith;
  u32_fits = omega arith;
  lba_fits = omega arith;
  secs_fit = omega arith;
  pages_fit = omega arith;
  small_channels = omega arith;
  small_die = omega arith;
  small_block = omega arith;
  some_die = omega arith;
  block_fits = omega arith;
  int_fits = omega arith;
  erases_wait = refl;
}

femu_init-IsDevice_example :
    IsDevice default_geometry (femu_init default_config 549_755_813_888 true true)
femu_init-IsDevice_example =
    femu_init-IsDevice default_config 549_755_813_888 true true default_geometry

abbrev spp : SsdParams
spp = ssd_init_params small 256

-- The device as it starts, and its zone 0.
abbrev device : FemuCtrl
device = femu_init small 256 true true

abbrev device-IsDevice : IsDevice small_geometry device
device-IsDevice = femu_init-IsDevice small 256 true true small_geometry

abbrev zone_at : ℕ → NvmeZone
zone_at i = zns_init_zone small spp 64 (to_u8 2) i (i * 64)

abbrev zone_0-HasPages : HasPages small_geometry 0 (zone_at 0) 0
unfolding ssd_init_params to_u32
zone_0-HasPages = zns_init_zone-HasPages small_geometry small 0 refl (omega arith)

abbrev zone_1-HasPages : HasPages small_geometry 1 (zone_at 1) 0
unfolding ssd_init_params to_u32
zone_1-HasPages = zns_init_zone-HasPages small_geometry small 1 refl (omega arith)

abbrev zone_0-found : get_elem? device.zone_array 0 ≡ some (zone_at 0)
unfolding femu_init to_u32
zone_0-found = refl

abbrev zone_1-found : get_elem? device.zone_array 1 ≡ some (zone_at 1)
unfolding femu_init to_u32 add64
zone_1-found = refl

abbrev clock : ℕ → ℕ
clock i = 1000 + i

abbrev request : ℕ → ℕ → ℕ → NvmeRequest
request op slba nlb = record {
  id = 0;
  slba = slba;
  nlb = nlb;
  opcode = op;
  stime = 500;
  reqlat = 0;
  expire_time = 500;
  completed = false;
}

abbrev whole_zone :
    AsksFor small_geometry (0 * zone_pages small_geometry + 0) 8 (request nvme_cmd_write 0 16)
unfolding ssd_init_params to_u32 small_geometry
whole_zone = record { some_page = omega arith; in_range = omega arith; slba = refl; nlb = refl }

zns_write-WriteResult_example :
    WriteResult small_geometry device 0 0 8 (request nvme_cmd_write 0 16) clock
unfolding ssd_init_params to_u32 small_geometry
zns_write-WriteResult_example =
    zns_write-WriteResult small_geometry device 0 0 8 (zone_at 0) (request nvme_cmd_write 0 16)
      clock device-IsDevice zone_0-found zone_0-HasPages whole_zone (omega arith)

-- The device after zone 0 is written.
abbrev filled : WriteResult small_geometry device 0 0 8 (request nvme_cmd_write 0 16) clock
unfolding ssd_init_params to_u8 to_u32 small_geometry
filled =
    zns_write-WriteResult small_geometry device 0 0 8 (zone_at 0) (request nvme_cmd_write 0 16)
      clock device-IsDevice zone_0-found zone_0-HasPages whole_zone (omega arith)

abbrev three_pages : AsksFor small_geometry 6 3 (request nvme_cmd_read 12 6)
unfolding ssd_init_params to_u8 to_u32 small_geometry
three_pages = record { some_page = omega arith; in_range = omega arith; slba = refl; nlb = refl }

-- A read of the last two pages of zone 0 and the first of zone 1.
zns_read-ReadResult_example :
    ReadResult small_geometry filled.n' 6 3 (request nvme_cmd_read 12 6) clock
zns_read-ReadResult_example =
    zns_read-ReadResult small_geometry filled.n' 6 3 (request nvme_cmd_read 12 6) clock
      filled.device three_pages

abbrev in_zone_0 : ResetsZone small_geometry 0 (request nvme_cmd_reset 5 0)
unfolding ssd_init_params to_u8 to_u32 small_geometry
in_zone_0 = record {
  page = 2;
  rest = 1;
  slba = refl;
  in_page = omega arith;
  in_range = omega arith;
  zone = refl;
}

zns_reset-ResetResult_example :
    ResetResult small_geometry filled.n' 0 (request nvme_cmd_reset 5 0) clock
unfolding ssd_init_params to_u8 to_u32 small_geometry
zns_reset-ResetResult_example =
    zns_reset-ResetResult small_geometry filled.n' 0 filled.zone' (request nvme_cmd_reset 5 0) clock
      filled.device filled.here filled.pages in_zone_0

zns_reset-open_example : zns_reset device (request nvme_cmd_reset 5 0) clock ≡ some device
unfolding ssd_init_params to_u8 to_u32 small_geometry
zns_reset-open_example =
    zns_reset-open small_geometry device 0 0 (zone_at 0) (request nvme_cmd_reset 5 0) clock
      device-IsDevice zone_0-found zone_0-HasPages (omega arith) in_zone_0

abbrev past_the_end : AsksFor small_geometry 6 3 (request nvme_cmd_write 12 6)
unfolding ssd_init_params to_u8 to_u32 small_geometry
past_the_end = record { some_page = omega arith; in_range = omega arith; slba = refl; nlb = refl }

-- Three pages from page 6 on, when no page of zone 0 is written, which has eight.
zns_check_zone_write_example :
    zns_check_zone_write device (zone_at 0) 12 6 ≡ boundary_error ∷ (invalid_write ∷ [])
unfolding ssd_init_params to_u8 to_u32 small_geometry
zns_check_zone_write_example =
    zns_check_zone_write_lem small_geometry device 0 0 6 3 (zone_at 0) (request nvme_cmd_write 12 6)
      device-IsDevice zone_0-HasPages past_the_end

abbrev sixth : ℕ
sixth = 5

locate_page-injective_example : ((zone_at 0).zone_id ≡ (zone_at 0).zone_id) × (sixth ≡ sixth)
locate_page-injective_example =
    locate_page-injective small_geometry (zone_at 0) (zone_at 0) sixth sixth
      zone_0-HasPages.written.at.is_zone zone_0-HasPages.written.at.is_zone refl

locate_page-bounds_example :
    let p = locate_page (to_u8 2) spp (zone_at 1) 7 in
    (p.ch < spp.nchs)
    × (p.lun < spp.luns_per_ch)
    × (p.pl < spp.pls_per_lun)
    × (p.blk < spp.blks_per_pl)
    × (p.pg < spp.pgs_per_blk)
unfolding ssd_init_params to_u8 to_u32 small_geometry
locate_page-bounds_example =
    locate_page-bounds small_geometry (zone_at 1) 7 zone_1-HasPages.written.at.is_zone (omega arith)

advance-locate_page_example :
    get_zns_page (zns_advance_write_pointer (to_u8 2) (zone_at 1) spp)
    ≡ locate_page (to_u8 2) spp (zone_at 1) 1
unfolding ssd_init_params to_u8 to_u32 small_geometry
advance-locate_page_example =
    advance-locate_page small_geometry (zone_at 1) 0 zone_1-HasPages.written.at (omega arith)

get_next_page-locate_page_example :
    get_next_page (zone_at 1) (to_u8 2) spp (locate_page (to_u8 2) spp (zone_at 1) 7)
    ≡ (true, locate_page (to_u8 2) spp (zone_at 1) 8)
unfolding ssd_init_params to_u8 to_u32 small_geometry
get_next_page-locate_page_example =
    get_next_page-locate_page small_geometry (zone_at 1) 7 zone_1-HasPages.written.at.is_zone
      (omega arith)

-- The die of channel 1, and a program that reaches it at 700.
abbrev die : Ppa
die = record { blk = 0; pg = 0; pl = 0; lun = 0; ch = 1 }

abbrev program : NandCmd
program = record { type = user_io; cmd = nand_write; stime = 0 }

abbrev die-OnDevice : OnDevice device.ssd die
unfolding femu_init
die-OnDevice = record { channel = omega arith; die = omega arith }

ssd_advance_status_example :
    (ssd' : Ssd) × (lat : ℕ) × (lun' : NandLun) × (ssd_advance_status device.ssd die program 700
      ≡ some (ssd', lat))
    × (get_lun ssd' die ≡ some lun')
    × (lun'.next_lun_avail_time ≡ arrival program 700 + lat)
    × (lat ≡ (0 - arrival program 700) + nand_latency device.ssd.sp nand_write)
unfolding femu_init get_lun
ssd_advance_status_example =
    ssd_advance_status_lem device.ssd die device-IsDevice.shape die-OnDevice program 700 refl
      (omega arith) (omega arith) (omega arith)

erase_blocks-all_example :
    (e : Erases
      (erase_blocks 3 0 1 0 2 2 2 device.ssd clock)
      (blocks_from 1 0 2 2)
      0
      device.ssd
      clock)
    × (e.ssd'.commands ≡ device.ssd.commands ++ sent gc_erase (blocks_from 1 0 2 2))
unfolding femu_init ssd_init_params
erase_blocks-all_example =
    erase_blocks-all 1 0 2 2 clock (omega arith) refl (omega arith) 0 device.ssd
      device-IsDevice.shape (record { channel = omega arith; die = omega arith }) refl

femu_write-Stored_example : Stored small_geometry device 1 0 3 500 clock clock 0
unfolding ssd_init_params to_u8 to_u32 small_geometry
femu_write-Stored_example =
    femu_write-Stored small_geometry device 1 0 3 500 (zone_at 1) clock clock 0 device-IsDevice
      zone_1-found zone_1-HasPages (omega arith) (omega arith) (omega arith)

femu_read-Loaded_example : Loaded small_geometry device 6 3 500 clock clock 0
unfolding ssd_init_params to_u8 to_u32 small_geometry
femu_read-Loaded_example =
    femu_read-Loaded small_geometry device 6 3 500 clock clock 0 device-IsDevice (omega arith)
      (omega arith)

femu_write-femu_read_example : ReadsBack small_geometry device 8 3 500 900 clock clock clock 0
unfolding ssd_init_params to_u8 to_u32 small_geometry
femu_write-femu_read_example =
    femu_write-femu_read small_geometry device 1 0 3 500 900 (zone_at 1) clock clock clock 0
      device-IsDevice zone_1-found zone_1-HasPages (omega arith) (omega arith) (omega arith)

wait_until-ends_example :
    (m : ℕ) × (wait_until 9 0 clock 1004 ≡ some (0 + m)) × (m ≤ 4) × (1004 ≤ clock (0 + m))
wait_until-ends_example = wait_until-ends 9 0 4 clock 1004 (omega arith) (omega arith)
