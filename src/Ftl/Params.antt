-- ===== src/Ftl/Params.antt =====
-- `ssd_init_params` of src/femu/ftl.c and `get_zns_meta` of src/femu/femu.c.
use lsm_based_on_zns_ssd.Base.{ℕ, ◌*◌, ◌/◌, true, mul64}
use lsm_based_on_zns_ssd.Ftl.Types.{
  Config, SsdParams, nand_read_latency, nand_prog_latency, nand_erase_latency,
}

-- The products of `int`s are plain: from 2 ^ 31 on C leaves them undefined, and `Geometry` asks that they are below. `flash_size` is
-- a product of `uint64_t`s, each of them wrapped. `check_params` is an assertion that is compiled
-- to nothing unless FEMU_DEBUG_FTL is set.
unfoldable pub ssd_init_params : Config → ℕ → SsdParams
ssd_init_params c devsz =
    let secs_per_blk = c.ssd_secs_per_pg * c.ssd_pgs_per_blk in
    let secs_per_pl = secs_per_blk * c.ssd_blks_per_pl in
    let secs_per_lun = secs_per_pl * c.ssd_pls_per_lun in
    let secs_per_ch = secs_per_lun * c.ssd_luns_per_ch in
    let pgs_per_pl = c.ssd_pgs_per_blk * c.ssd_blks_per_pl in
    let pgs_per_lun = pgs_per_pl * c.ssd_pls_per_lun in
    let pgs_per_ch = pgs_per_lun * c.ssd_luns_per_ch in
    let blks_per_lun = c.ssd_blks_per_pl * c.ssd_pls_per_lun in
    let blks_per_ch = blks_per_lun * c.ssd_luns_per_ch in
    let pls_per_ch = c.ssd_pls_per_lun * c.ssd_luns_per_ch in
    let tt_luns = c.ssd_luns_per_ch * c.ssd_nchs in
    let pgs_per_line = tt_luns * c.ssd_pgs_per_blk in
    record {
      secsz = c.ssd_secsz;
      secs_per_pg = c.ssd_secs_per_pg;
      pgs_per_blk = c.ssd_pgs_per_blk;
      blks_per_pl = c.ssd_blks_per_pl;
      pls_per_lun = c.ssd_pls_per_lun;
      luns_per_ch = c.ssd_luns_per_ch;
      nchs = c.ssd_nchs;
      pg_rd_lat = nand_read_latency;
      pg_wr_lat = nand_prog_latency;
      blk_er_lat = nand_erase_latency;
      ch_xfer_lat = 0;
      enable_gc_delay = true;
      secs_per_blk = secs_per_blk;
      secs_per_pl = secs_per_pl;
      secs_per_lun = secs_per_lun;
      secs_per_ch = secs_per_ch;
      tt_secs = secs_per_ch * c.ssd_nchs;
      pgs_per_pl = pgs_per_pl;
      pgs_per_lun = pgs_per_lun;
      pgs_per_ch = pgs_per_ch;
      tt_pgs = pgs_per_ch * c.ssd_nchs;
      blks_per_lun = blks_per_lun;
      blks_per_ch = blks_per_ch;
      tt_blks = blks_per_ch * c.ssd_nchs;
      secs_per_line = pgs_per_line * c.ssd_secs_per_pg;
      pgs_per_line = pgs_per_line;
      blks_per_line = tt_luns;
      tt_lines = blks_per_lun;
      pls_per_ch = pls_per_ch;
      tt_pls = pls_per_ch * c.ssd_nchs;
      tt_luns = tt_luns;
      device_size = devsz;
      flash_size =
          mul64
            (mul64
              (mul64
                (mul64 (mul64 (mul64 c.ssd_secsz c.ssd_secs_per_pg) c.ssd_pgs_per_blk)
                  c.ssd_blks_per_pl)
                c.ssd_pls_per_lun)
              c.ssd_luns_per_ch)
            c.ssd_nchs;
    }

-- The four words that `get_zns_meta` stores into `meta`.
pub record ZnsMeta : Type 0 where
  pub zone_size : ℕ
  pub num_fcgs : ℕ
  pub zones_per_die : ℕ
  pub capacity : ℕ

unfoldable pub get_zns_meta : Config → ZnsMeta
get_zns_meta c =
    let block_size = c.ssd_secsz * c.ssd_secs_per_pg * c.ssd_pgs_per_blk in
    record {
      zone_size = c.zone_size;
      num_fcgs = c.num_fcgs;
      zones_per_die = c.ssd_blks_per_pl / (c.zone_size / block_size / (c.ssd_nchs / c.num_fcgs));
      capacity = mul64 (mul64 (mul64 block_size c.ssd_blks_per_pl) c.ssd_luns_per_ch) c.ssd_nchs;
    }
