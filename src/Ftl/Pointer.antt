-- ===== src/Ftl/Pointer.antt =====
-- The order in which a zone's pages are written and read: `zns_advance_write_pointer`,
-- `get_zns_page`, `get_next_page`, `locate_page` and `zns_reset_wpp` of src/femu/ftl.c.
-- A division by zero faults in C and gives 0 here; the theorems are about geometries without one.
use lsm_based_on_zns_ssd.Base.{
  ℕ, ◌*◌, ◌/◌, ◌%◌, Bool, false, if◌then◌else◌, ◌==◌, add64, mul64, mul32, to_u32,
}
use lsm_based_on_zns_ssd.Ftl.Types.{
  Ppa, SsdParams, ZnsWritePointer, NvmeZone, zone_empty, zone_full,
}

-- `block_size` as `zns_advance_write_pointer` and `zns_reset` compute it.
abbrev pub block_bytes : SsdParams → ℕ
block_bytes spp = spp.pgs_per_blk * spp.secs_per_pg * spp.secsz

-- `block_size` as `get_next_page` and `locate_page` compute it.
abbrev pub block_bytes' : SsdParams → ℕ
block_bytes' spp = spp.secs_per_blk * spp.secsz

-- `end`: the blocks that a zone has on each of its channels.
unfoldable pub end_of : ℕ → SsdParams → NvmeZone → ℕ → ℕ
end_of num_fcg spp zone block_size = to_u32 (zone.zone_cap / block_size / (spp.nchs / num_fcg))

-- The first of these blocks.
unfoldable pub first_block : ℕ → SsdParams → NvmeZone → ℕ → ℕ
first_block num_fcg spp zone end = mul32 end (zone.zone_id / num_fcg) % spp.blks_per_pl

-- Past the last page of the row: back to the first block, on the next page.
unfoldable pub advance_page : NvmeZone → SsdParams → ZnsWritePointer → NvmeZone
advance_page zone spp wpp =
    let pg = add64 wpp.pg 1 in
    record zone {
      state = if pg == spp.pgs_per_blk then zone_full else zone.state;
      wpp = record wpp { pg = pg };
    }

-- Past the last channel: back to the first channel, on the next block.
unfoldable pub advance_block : ℕ → NvmeZone → SsdParams → ZnsWritePointer → NvmeZone
unfolding advance_page
advance_block num_fcg zone spp wpp =
    let blk = add64 wpp.blk 1 in
    let end = end_of num_fcg spp zone (block_bytes spp) in
    if blk % end == 0
    then advance_page zone spp (record wpp { blk = first_block num_fcg spp zone end })
    else record zone { wpp = record wpp { blk = blk } }

unfoldable pub zns_advance_write_pointer : ℕ → NvmeZone → SsdParams → NvmeZone
unfolding advance_block
zns_advance_write_pointer num_fcg zone spp =
    let nchs = spp.nchs / num_fcg in
    let ch = add64 zone.wpp.ch 1 in
    if ch % nchs == 0
    then advance_block num_fcg zone spp (record zone.wpp { ch = nchs * zone.wpp.fcg_id })
    else record zone { wpp = record zone.wpp { ch = ch } }

unfoldable pub get_zns_page : NvmeZone → Ppa
get_zns_page zone = record {
  blk = zone.wpp.blk;
  pg = zone.wpp.pg;
  pl = zone.wpp.pl;
  lun = zone.wpp.lun;
  ch = zone.wpp.ch;
}

-- The page after `page`, and whether the zone ends before it.
unfoldable pub get_next_page : NvmeZone → ℕ → SsdParams → Ppa → Bool × Ppa
get_next_page zone num_fcg spp page =
    let nchs = spp.nchs / num_fcg in
    let ch = add64 page.ch 1 in
    let blk = add64 page.blk 1 in
    let pg = add64 page.pg 1 in
    let end = end_of num_fcg spp zone (block_bytes' spp) in
    if ch % nchs == 0
    then (if blk % end == 0
        then (
          pg == spp.pgs_per_blk,
          record page {
            ch = nchs * zone.wpp.fcg_id;
            blk = first_block num_fcg spp zone end;
            pg = pg;
          },
        )
        else (false, record page { ch = nchs * zone.wpp.fcg_id; blk = blk }))
    else (false, record page { ch = ch })

unfoldable pub locate_page : ℕ → SsdParams → NvmeZone → ℕ → Ppa
locate_page num_fcg spp zone start_lpn =
    let num_chip = spp.nchs / num_fcg in
    let end = end_of num_fcg spp zone (block_bytes' spp) in
    record {
      blk = add64 ((start_lpn / num_chip) % end) (first_block num_fcg spp zone end);
      pg = start_lpn / num_chip / end;
      pl = 0;
      lun = zone.wpp.lun;
      ch = add64 (start_lpn % num_chip) (zone.wpp.fcg_id * num_chip);
    }

-- `int id` and `int num_fcg` are non-negative; `blk` is computed in 64 bits here.
unfoldable pub zns_reset_wpp : NvmeZone → SsdParams → ℕ → ℕ → NvmeZone
zns_reset_wpp zone spp num_fcg block_size =
    let id = zone.zone_id in
    record zone {
      state = zone_empty;
      wpp = record {
        fcg_id = id % num_fcg;
        ch = (spp.nchs / num_fcg) * (id % num_fcg);
        lun = id / (mul64 (mul64 spp.blks_per_pl block_size) spp.nchs / zone.zone_cap);
        pg = 0;
        blk =
            mul64 (zone.zone_cap / block_size / (spp.nchs / num_fcg)) (id / num_fcg)
            % spp.blks_per_pl;
        pl = 0;
      };
    }
