-- ===== src/Ftl/Init.antt =====
-- `ssd_init` and `zns_init` of src/femu/ftl.c.
use lsm_based_on_zns_ssd.Base.{
  ℕ, zero, suc, ◌+◌, ◌*◌, ◌/◌, ◌%◌, false, List, [], ◌∷◌, replicate, add64, mul64, to_u32, to_u8,
}
use lsm_based_on_zns_ssd.Ftl.Types.{
  Config, NandBlock, NandPlane, NandLun, SsdChannel, SsdParams, NvmeZone, zone_empty, FemuCtrl,
}
use lsm_based_on_zns_ssd.Ftl.Params.{ssd_init_params}

-- Each array is allocated and every element gets the same contents.
unfoldable pub ssd_init_nand_blk : SsdParams → NandBlock
ssd_init_nand_blk spp = record { npgs = spp.pgs_per_blk; erase_cnt = 0 }

unfoldable pub ssd_init_nand_plane : SsdParams → NandPlane
unfolding ssd_init_nand_blk
ssd_init_nand_plane spp = record {
  blk = replicate spp.blks_per_pl (ssd_init_nand_blk spp);
  nblks = spp.blks_per_pl;
}

unfoldable pub ssd_init_nand_lun : SsdParams → NandLun
unfolding ssd_init_nand_plane
ssd_init_nand_lun spp = record {
  pl = replicate spp.pls_per_lun (ssd_init_nand_plane spp);
  npls = spp.pls_per_lun;
  next_lun_avail_time = 0;
  busy = false;
  gc_endtime = 0;
}

unfoldable pub ssd_init_ch : SsdParams → SsdChannel
unfolding ssd_init_nand_lun
ssd_init_ch spp = record {
  lun = replicate spp.luns_per_ch (ssd_init_nand_lun spp);
  nluns = spp.luns_per_ch;
  next_ch_avail_time = 0;
  busy = false;
  gc_endtime = 0;
}

unfoldable pub ssd_init : Config → FemuCtrl → FemuCtrl
unfolding ssd_init_params ssd_init_ch
ssd_init c n =
    let sp = ssd_init_params c n.devsz in
    record n { ssd = record { sp = sp; ch = replicate sp.nchs (ssd_init_ch sp); commands = [] } }

-- The body of the loop of `zns_init`, for the zone `i` at the byte `start`.
unfoldable pub zns_init_zone : Config → SsdParams → ℕ → ℕ → ℕ → ℕ → NvmeZone
zns_init_zone c spp zone_size num_fcg i start =
    let block_size = spp.secsz * spp.secs_per_pg * spp.pgs_per_blk in
    record {
      zone_id = i;
      state = zone_empty;
      start_lba = start / c.ssd_secsz;
      zone_cap = zone_size;
      write_ptr = start / c.ssd_secsz;
      wpp = record {
        fcg_id = i % num_fcg;
        ch = (spp.nchs / num_fcg) * (i % num_fcg);
        lun = i / (mul64 (mul64 spp.blks_per_pl block_size) spp.nchs / zone_size);
        pg = 0;
        blk = mul64 (zone_size / block_size / (spp.nchs / num_fcg)) (i / num_fcg) % spp.blks_per_pl;
        pl = 0;
      };
    }

-- The loop, with `k` rounds left.
unfoldable pub zns_init_zones : Config → SsdParams → ℕ → ℕ → ℕ → ℕ → ℕ → List NvmeZone
unfolding zns_init_zone
zns_init_zones c spp zone_size num_fcg zero i start = []
zns_init_zones c spp zone_size num_fcg (suc k) i start =
    zns_init_zone c spp zone_size num_fcg i start
    ∷ zns_init_zones c spp zone_size num_fcg k (i + 1) (add64 start zone_size)

unfoldable pub zns_init : Config → FemuCtrl → FemuCtrl
unfolding zns_init_zones
zns_init c n =
    let num_zones = to_u32 (n.devsz / c.zone_size) in
    let num_fcg = to_u8 c.num_fcgs in
    record n {
      zone_size = c.zone_size;
      num_zones = num_zones;
      num_fcg = num_fcg;
      zone_array = zns_init_zones c n.ssd.sp c.zone_size num_fcg num_zones 0 0;
    }
