-- ===== src/Ftl/Fresh.antt =====
-- Zones whose write pointer is at their start: `zns_reset_wpp` and `zns_init` of src/femu/ftl.c.
use native.Mathlib.Nat.{mul_comm, zero-div, zero-mod}
use lsm_based_on_zns_ssd.Base.{
  ℕ, ◌*◌, ◌/◌, ◌%◌, ◌<◌, ◌≡◌, refl, sym, ap, ◌∙◌, arith, mul64, mul64-eq, mul-mod_common,
  mul-div-le_of_lt,
}
use lsm_based_on_zns_ssd.Ftl.Types.{Config, SsdParams, NvmeZone, ZnsWritePointer, zone_empty}
use lsm_based_on_zns_ssd.Ftl.Pointer.{block_bytes, zns_reset_wpp}
use lsm_based_on_zns_ssd.Ftl.Init.{zns_init_zone}
use lsm_based_on_zns_ssd.Ftl.Geometry.{Geometry, zone_pages_pos, chips-eq, blocks-eq, zones_per_die}
use lsm_based_on_zns_ssd.Ftl.Layout.{base_block}
use lsm_based_on_zns_ssd.Ftl.Transfer.{WrittenTo}

module _ {spp : SsdParams} {num_fcg zone_cap num_zones : ℕ}
    (g : Geometry spp num_fcg zone_cap num_zones) where
  open g use {chips, blocks, slots, blocks_pos, slots_pos}

  base_block_64 :
      (id : ℕ)
      → id < num_zones
      → mul64 (zone_cap / block_bytes spp / (spp.nchs / num_fcg)) (id / num_fcg) % spp.blks_per_pl
        ≡ base_block g id
  base_block_64 id h =
      rw
        (
          blocks-eq g,
          mul64-eq blocks (id / num_fcg)
              (omega (arith, g.u32_fits, mul-div-le_of_lt blocks id num_zones num_fcg h)),
          g.die,
        )
        (mul-mod_common blocks (id / num_fcg) slots blocks_pos slots_pos)

  -- A zone in state empty with these fields in its write pointer has no page written.
  start-WrittenTo :
      (zone : NvmeZone)
      → zone.zone_id < num_zones
      → zone.zone_cap ≡ zone_cap
      → zone.state ≡ zone_empty
      → zone.wpp ≡ record {
        fcg_id = zone.zone_id % num_fcg;
        ch = (spp.nchs / num_fcg) * (zone.zone_id % num_fcg);
        lun = zone.zone_id / (mul64 (mul64 spp.blks_per_pl (block_bytes spp)) spp.nchs / zone_cap);
        pg = 0;
        blk =
            mul64 (zone_cap / block_bytes spp / (spp.nchs / num_fcg)) (zone.zone_id / num_fcg)
            % spp.blks_per_pl;
        pl = 0;
      }
      → WrittenTo g zone 0
  start-WrittenTo zone known cap empty start = record {
    at = record {
      is_zone = record {
        known = known;
        same_cap = cap;
        group = ap (λ (w : ZnsWritePointer). w.fcg_id) start;
        die =
            ap (λ (w : ZnsWritePointer). w.lun) start
            ∙ ap (λ z. zone.zone_id / z) (zones_per_die g);
        plane = ap (λ (w : ZnsWritePointer). w.pl) start;
      };
      channel =
          ap (λ (w : ZnsWritePointer). w.ch) start
          ∙ rw (chips-eq g, zero-mod chips, mul_comm chips (zone.zone_id % num_fcg)) (omega arith);
      block =
          ap (λ (w : ZnsWritePointer). w.blk) start
          ∙ base_block_64 zone.zone_id known
          ∙ rw (zero-div chips, zero-mod blocks) (omega arith);
      page = ap (λ (w : ZnsWritePointer). w.pg) start ∙ rw (zero-div chips) (sym (zero-div blocks));
    };
    inside = omega arith;
    state = empty ∙ ground (arith, zone_pages_pos g);
  }

  pub zns_reset_wpp-WrittenTo :
      (zone : NvmeZone)
      → zone.zone_id < num_zones
      → zone.zone_cap ≡ zone_cap
      → WrittenTo g (zns_reset_wpp zone spp num_fcg (block_bytes spp)) 0
  unfolding zns_reset_wpp
  zns_reset_wpp-WrittenTo zone known cap = start-WrittenTo _ known cap refl (rw cap)

  pub zns_init_zone-WrittenTo :
      (c : Config) (i start : ℕ)
      → i < num_zones
      → WrittenTo g (zns_init_zone c spp zone_cap num_fcg i start) 0
  unfolding zns_init_zone
  zns_init_zone-WrittenTo c i start known =
      let e : spp.secsz * spp.secs_per_pg * spp.pgs_per_blk ≡ block_bytes spp = omega arith in
      start-WrittenTo _ known refl refl (rw e)
