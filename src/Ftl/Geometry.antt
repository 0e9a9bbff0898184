-- ===== src/Ftl/Geometry.antt =====
-- How zones are laid out over channels, dies and blocks, for every device whose sizes divide:
-- what the index arithmetic of src/femu/ftl.c amounts to there.
use native.Mathlib.Nat.{mul-div_cancel, mul_comm}
use lsm_based_on_zns_ssd.Base.{
  ℕ, ◌*◌, ◌/◌, ◌%◌, ◌≤◌, ◌<◌, ◌≡◌, arith, u64_mod, u32_mod, int_mod, true, mul64, to_u32-eq,
  mul32-eq, mul64-eq, mul-mod_common, mul-pos, pos-mul_left, pos-mul_right, le-mul_pos,
  mul-div-le_of_lt,
}
use lsm_based_on_zns_ssd.Ftl.Types.{SsdParams, NvmeZone}
use lsm_based_on_zns_ssd.Ftl.Pointer.{block_bytes, block_bytes', end_of, first_block}

-- A zone takes `blocks` blocks on each of the `chips` channels of its group, and a die of
-- a channel has room for `slots` zones of the group, one above the other. The sectors of the device, of which no count
-- is greater, and the bytes of a block fit an `int`; an erase is a command to the die.
pub record Geometry (spp : SsdParams) (num_fcg zone_cap num_zones : ℕ) : Type 0 where
  pub chips : ℕ
  pub blocks : ℕ
  pub slots : ℕ
  pub chips_pos : 0 < chips
  pub blocks_pos : 0 < blocks
  pub slots_pos : 0 < slots
  pub groups_pos : 0 < num_fcg
  pub pages_pos : 0 < spp.pgs_per_blk
  pub bytes_pos : 0 < block_bytes spp
  pub one_plane : 0 < spp.pls_per_lun
  pub secs : block_bytes' spp ≡ block_bytes spp
  pub channels : spp.nchs ≡ chips * num_fcg
  pub cap : zone_cap ≡ blocks * chips * block_bytes spp
  pub die : spp.blks_per_pl ≡ slots * blocks
  pub fits : num_zones ≤ spp.luns_per_ch * (slots * num_fcg)
  pub u64_fits : slots * num_fcg * zone_cap < u64_mod
  pub u32_fits : blocks * num_zones < u32_mod
  pub lba_fits : num_zones * zone_cap < u64_mod
  pub secs_fit : num_zones * (zone_cap / spp.secsz) ≤ spp.tt_secs
  pub pages_fit : num_zones * (spp.pgs_per_blk * blocks * chips) ≤ spp.tt_pgs
  pub small_channels : spp.nchs < u32_mod
  pub small_die : spp.blks_per_pl < u32_mod
  pub small_block : spp.pgs_per_blk < u32_mod
  pub some_die : 0 < spp.luns_per_ch
  pub block_fits : block_bytes spp < int_mod
  pub int_fits : spp.tt_secs < int_mod
  pub erases_wait : spp.enable_gc_delay ≡ true

module _ {spp : SsdParams} {num_fcg zone_cap num_zones : ℕ}
    (g : Geometry spp num_fcg zone_cap num_zones) where
  open g use {
    chips, blocks, slots, chips_pos, blocks_pos, slots_pos, groups_pos, pages_pos, bytes_pos, secs,
    channels, cap, die, u64_fits, u32_fits, small_die,
  }

  -- The pages of a zone.
  abbrev pub zone_pages : ℕ
  zone_pages = spp.pgs_per_blk * blocks * chips

  -- The logical blocks of a zone.
  abbrev pub zone_lbas : ℕ
  zone_lbas = zone_pages * spp.secs_per_pg

  pub zone_pages_pos : 0 < zone_pages
  zone_pages_pos = mul-pos _ chips (mul-pos spp.pgs_per_blk blocks pages_pos blocks_pos) chips_pos

  pub secsz_pos : 0 < spp.secsz
  secsz_pos = pos-mul_right (spp.pgs_per_blk * spp.secs_per_pg) spp.secsz bytes_pos

  pub secs_per_pg_pos : 0 < spp.secs_per_pg
  secs_per_pg_pos =
      pos-mul_right spp.pgs_per_blk spp.secs_per_pg
        (pos-mul_left (spp.pgs_per_blk * spp.secs_per_pg) spp.secsz bytes_pos)

  -- The sizes that the commands compute from the zone's size in bytes.
  pub zone_lbas-eq : zone_cap / spp.secsz ≡ zone_lbas
  zone_lbas-eq =
      let e : zone_cap ≡ zone_lbas * spp.secsz = rw cap (omega arith) in
      rw e (mul-div_cancel zone_lbas secsz_pos)

  pub zone_pages-eq : zone_cap / (spp.secs_per_pg * spp.secsz) ≡ zone_pages
  zone_pages-eq =
      let e : zone_cap ≡ zone_pages * (spp.secs_per_pg * spp.secsz) = rw cap (omega arith) in
      rw e (mul-div_cancel zone_pages (mul-pos _ _ secs_per_pg_pos secsz_pos))

  pub chips-eq : spp.nchs / num_fcg ≡ chips
  chips-eq = rw channels (mul-div_cancel chips groups_pos)

  pub blocks-eq : zone_cap / block_bytes spp / (spp.nchs / num_fcg) ≡ blocks
  blocks-eq =
      rw (chips-eq, cap, mul-div_cancel (blocks * chips) bytes_pos)
        (mul-div_cancel blocks chips_pos)

  die_bytes : spp.blks_per_pl * block_bytes spp * spp.nchs ≡ slots * num_fcg * zone_cap
  die_bytes = rw (channels, cap, die) (omega arith)

  nchs_pos : 0 < spp.nchs
  nchs_pos = rw channels (mul-pos chips num_fcg chips_pos groups_pos)

  die_fits : spp.blks_per_pl * block_bytes spp < u64_mod
  die_fits =
      omega (
        arith,
        die_bytes,
        u64_fits,
        le-mul_pos (spp.blks_per_pl * block_bytes spp) spp.nchs nchs_pos,
      )

  zone_cap_pos : 0 < zone_cap
  zone_cap_pos =
      rw cap (mul-pos (blocks * chips) _ (mul-pos blocks chips blocks_pos chips_pos) bytes_pos)

  -- The zones that fit on one die of the channels: what the code divides the zone's number by.
  pub zones_per_die :
      mul64 (mul64 spp.blks_per_pl (block_bytes spp)) spp.nchs / zone_cap ≡ slots * num_fcg
  zones_per_die =
      rw
        (
          mul64-eq spp.blks_per_pl (block_bytes spp) die_fits,
          mul64-eq (spp.blks_per_pl * block_bytes spp) spp.nchs (rw die_bytes u64_fits),
          die_bytes,
        )
        (mul-div_cancel (slots * num_fcg) zone_cap_pos)

  module _ (zone : NvmeZone) (same_cap : zone.zone_cap ≡ zone_cap) where
    pub end_of-eq : end_of num_fcg spp zone (block_bytes spp) ≡ blocks
    unfolding end_of
    end_of-eq =
        rw (same_cap, blocks-eq)
          (to_u32-eq blocks (
            omega
              (arith, die, small_die, le-mul_pos blocks slots slots_pos, mul_comm slots blocks)))

    pub end_of-eq' : end_of num_fcg spp zone (block_bytes' spp) ≡ blocks
    end_of-eq' = rw secs end_of-eq

    pub first_block-eq :
        zone.zone_id < num_zones
        → first_block num_fcg spp zone blocks ≡ blocks * (zone.zone_id / num_fcg % slots)
    unfolding first_block
    first_block-eq h =
        rw
          (
            mul32-eq blocks (zone.zone_id / num_fcg)
                (omega (arith, u32_fits, mul-div-le_of_lt blocks zone.zone_id num_zones num_fcg h)),
            die,
          )
          (mul-mod_common blocks (zone.zone_id / num_fcg) slots blocks_pos slots_pos)
