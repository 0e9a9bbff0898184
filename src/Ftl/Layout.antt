-- ===== src/Ftl/Layout.antt =====
-- Where each page of a zone lies: `locate_page` of src/femu/ftl.c, in closed form, and its bounds.
use native.Mathlib.Nat.{mod-lt, mul_comm, div-lt_iff_lt-mul}
use lsm_based_on_zns_ssd.Base.{◌↔◌, row-lt, ℕ, ◌*◌, ◌/◌, ◌%◌, ◌+◌, ◌<◌, ◌≡◌, arith, add64-eq}
use lsm_based_on_zns_ssd.Ftl.Types.{Ppa, SsdParams, NvmeZone}
use lsm_based_on_zns_ssd.Ftl.Pointer.{locate_page}
use lsm_based_on_zns_ssd.Ftl.Geometry.{Geometry, zone_pages, chips-eq, end_of-eq', first_block-eq}

module _ {spp : SsdParams} {num_fcg zone_cap num_zones : ℕ}
    (g : Geometry spp num_fcg zone_cap num_zones) where
  open g use {
    chips, blocks, slots, chips_pos, blocks_pos, slots_pos, groups_pos, channels, small_channels,
    small_die, small_block,
  }

  -- A zone of the device, wherever its write pointer stands.
  pub record IsZone (zone : NvmeZone) : Type 0 where
    pub known : zone.zone_id < num_zones
    pub same_cap : zone.zone_cap ≡ zone_cap
    pub group : zone.wpp.fcg_id ≡ zone.zone_id % num_fcg
    pub die : zone.wpp.lun ≡ zone.zone_id / (slots * num_fcg)
    pub plane : zone.wpp.pl ≡ 0

  -- The first channel and the first block of the zone `id`, and the place of its page `k`.
  abbrev pub channel_at : ℕ → ℕ → ℕ
  channel_at id k = k % chips + id % num_fcg * chips

  abbrev pub base_block : ℕ → ℕ
  base_block id = blocks * (id / num_fcg % slots)

  abbrev pub block_at : ℕ → ℕ → ℕ
  block_at id k = k / chips % blocks + base_block id

  abbrev pub page_at : ℕ → ℕ
  page_at k = k / chips / blocks

  -- Every page lies on the device.
  pub channel_at-lt : (id k : ℕ) → channel_at id k < spp.nchs
  channel_at-lt id k =
      rw channels (
        row-lt (k % chips) (id % num_fcg) chips num_fcg (mod-lt k chips_pos) (mod-lt id groups_pos))

  pub block_at-lt : (id k : ℕ) → block_at id k < spp.blks_per_pl
  block_at-lt id k =
      rw (g.die, mul_comm slots blocks, mul_comm blocks (id / num_fcg % slots))
        (row-lt (k / chips % blocks) (id / num_fcg % slots) blocks slots
          (mod-lt (k / chips) blocks_pos) (mod-lt (id / num_fcg) slots_pos))

  pub page_at-lt : (k : ℕ) → (page_at k < spp.pgs_per_blk) ↔ (k < zone_pages g)
  page_at-lt k = (
    λ h. (div-lt_iff_lt-mul chips_pos).0 ((div-lt_iff_lt-mul blocks_pos).0 h),
    λ h. (div-lt_iff_lt-mul blocks_pos).1 ((div-lt_iff_lt-mul chips_pos).1 h),
  )

  abbrev pub place : ℕ → ℕ → Ppa
  place id k = record {
    blk = block_at id k;
    pg = page_at k;
    pl = 0;
    lun = id / (slots * num_fcg);
    ch = channel_at id k;
  }

  -- `locate_page` computes the place directly.
  pub locate_page-eq :
      (zone : NvmeZone) (k : ℕ)
      → IsZone zone
      → locate_page num_fcg spp zone k ≡ place zone.zone_id k
  unfolding locate_page
  locate_page-eq zone k z = rw (
    chips-eq g,
    end_of-eq' g zone z.same_cap,
    first_block-eq g zone z.same_cap z.known,
    z.group,
    z.die,
    add64-eq (k / chips % blocks) (base_block zone.zone_id)
        (omega (arith, block_at-lt zone.zone_id k, small_die)),
    add64-eq (k % chips) (zone.zone_id % num_fcg * chips)
        (omega (arith, channel_at-lt zone.zone_id k, small_channels)),
  )
