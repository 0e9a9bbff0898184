-- ===== src/Ftl/Types.antt =====
-- The structures of src/femu/ftl.h, src/femu/nvme.h and the macros of src/femu/ftl_config.h.
-- C's `int` fields are plain numbers: the program never makes them negative, and `Geometry` asks that they fit. The
-- fields `gc_thres_*` (doubles that nothing reads), `ssdname`, `arg` and `num_poller` are left out.
use lsm_based_on_zns_ssd.Base.{ℕ, Bool, List}

-- The macros, as the values of one build.
pub record Config : Type 0 where
  pub ssd_secsz : ℕ
  pub ssd_secs_per_pg : ℕ
  pub ssd_pgs_per_blk : ℕ
  pub ssd_blks_per_pl : ℕ
  pub ssd_pls_per_lun : ℕ
  pub ssd_luns_per_ch : ℕ
  pub ssd_nchs : ℕ
  pub zone_size : ℕ
  pub num_fcgs : ℕ

pub record Ppa : Type 0 where
  pub blk : ℕ
  pub pg : ℕ
  pub pl : ℕ
  pub lun : ℕ
  pub ch : ℕ

pub record NandBlock : Type 0 where
  pub npgs : ℕ
  pub erase_cnt : ℕ

pub record NandPlane : Type 0 where
  pub blk : List NandBlock
  pub nblks : ℕ

pub record NandLun : Type 0 where
  pub pl : List NandPlane
  pub npls : ℕ
  pub next_lun_avail_time : ℕ
  pub busy : Bool
  pub gc_endtime : ℕ

pub record SsdChannel : Type 0 where
  pub lun : List NandLun
  pub nluns : ℕ
  pub next_ch_avail_time : ℕ
  pub busy : Bool
  pub gc_endtime : ℕ

pub record SsdParams : Type 0 where
  pub secsz : ℕ
  pub secs_per_pg : ℕ
  pub pgs_per_blk : ℕ
  pub blks_per_pl : ℕ
  pub pls_per_lun : ℕ
  pub luns_per_ch : ℕ
  pub nchs : ℕ
  pub pg_rd_lat : ℕ
  pub pg_wr_lat : ℕ
  pub blk_er_lat : ℕ
  pub ch_xfer_lat : ℕ
  pub enable_gc_delay : Bool
  pub secs_per_blk : ℕ
  pub secs_per_pl : ℕ
  pub secs_per_lun : ℕ
  pub secs_per_ch : ℕ
  pub tt_secs : ℕ
  pub pgs_per_pl : ℕ
  pub pgs_per_lun : ℕ
  pub pgs_per_ch : ℕ
  pub tt_pgs : ℕ
  pub blks_per_lun : ℕ
  pub blks_per_ch : ℕ
  pub tt_blks : ℕ
  pub secs_per_line : ℕ
  pub pgs_per_line : ℕ
  pub blks_per_line : ℕ
  pub tt_lines : ℕ
  pub pls_per_ch : ℕ
  pub tt_pls : ℕ
  pub tt_luns : ℕ
  pub device_size : ℕ
  pub flash_size : ℕ

pub record ZnsWritePointer : Type 0 where
  pub fcg_id : ℕ
  pub ch : ℕ
  pub lun : ℕ
  pub pg : ℕ
  pub blk : ℕ
  pub pl : ℕ

pub record NandCmd : Type 0 where
  pub type : ℕ
  pub cmd : ℕ
  pub stime : ℕ

-- `commands` is no field of the source's `struct ssd`: it records the calls of `ssd_advance_status` with the page
-- that each was given, the latest last.
pub record Ssd : Type 0 where
  pub sp : SsdParams
  pub ch : List SsdChannel
  pub commands : List (NandCmd × Ppa)

pub data NvmeZoneState : Type 0 where
  zone_empty zone_open zone_full : NvmeZoneState

-- `NvmeZone`, with the fields of its `NvmeZoneDescr d` beside the others.
pub record NvmeZone : Type 0 where
  pub zone_id : ℕ
  pub state : NvmeZoneState
  pub start_lba : ℕ
  pub zone_cap : ℕ
  pub write_ptr : ℕ
  pub wpp : ZnsWritePointer

pub record NvmeRequest : Type 0 where
  pub id : ℕ
  pub slba : ℕ
  pub nlb : ℕ
  pub opcode : ℕ
  pub stime : ℕ
  pub reqlat : ℕ
  pub expire_time : ℕ
  pub completed : Bool

-- `backend` says whether memory was allocated for it; nothing reads that memory.
pub record FemuCtrl : Type 0 where
  pub zone_array : List NvmeZone
  pub ssd : Ssd
  pub backend : Bool
  pub devsz : ℕ
  pub zone_size : ℕ
  pub num_zones : ℕ
  pub num_fcg : ℕ
  pub enable_latency : Bool
  pub dataplane_started : Bool
  pub req_id : ℕ

abbrev pub nand_read : ℕ
nand_read = 0

abbrev pub nand_write : ℕ
nand_write = 1

abbrev pub nand_erase : ℕ
nand_erase = 2

abbrev pub nand_read_latency : ℕ
nand_read_latency = 40_000

abbrev pub nand_prog_latency : ℕ
nand_prog_latency = 200_000

abbrev pub nand_erase_latency : ℕ
nand_erase_latency = 2_000_000

abbrev pub user_io : ℕ
user_io = 0

abbrev pub gc_io : ℕ
gc_io = 1

abbrev pub nvme_cmd_write : ℕ
nvme_cmd_write = 1

abbrev pub nvme_cmd_read : ℕ
nvme_cmd_read = 2

abbrev pub nvme_cmd_reset : ℕ
nvme_cmd_reset = 3

-- The build that is switched on in ftl_config.h: 512 GB, with zones of 512 MB.
abbrev pub default_config : Config
default_config = record {
  ssd_secsz = 512;
  ssd_secs_per_pg = 32;
  ssd_pgs_per_blk = 1024;
  ssd_blks_per_pl = 512;
  ssd_pls_per_lun = 1;
  ssd_luns_per_ch = 8;
  ssd_nchs = 8;
  zone_size = 536_870_912;
  num_fcgs = 1;
}
