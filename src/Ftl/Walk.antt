-- ===== src/Ftl/Walk.antt =====
-- The walk of the write pointer through a zone: the order of its pages.
use native.Mathlib.Nat.{mod-lt, mul_comm}
use lsm_based_on_zns_ssd.Base.{
  Bool, true, false, ◌&&◌, ◌↔◌, ℕ, ◌+◌, ◌*◌, ◌/◌, ◌%◌, ◌<◌, ◌≡◌, refl, sym, ap, ◌∙◌, arith,
  if◌then◌else◌, ◌==◌, add64, add64-eq, row_test, mod-suc_if, div-suc_if,
}
use lsm_based_on_zns_ssd.Ftl.Types.{Ppa, SsdParams, NvmeZone, zone_full}
use lsm_based_on_zns_ssd.Ftl.Pointer.{
  block_bytes, block_bytes', end_of, first_block, advance_page, advance_block,
  zns_advance_write_pointer, get_zns_page, get_next_page, locate_page,
}
use lsm_based_on_zns_ssd.Ftl.Layout.{
  IsZone, place, channel_at, base_block, block_at, page_at, channel_at-lt, block_at-lt, page_at-lt,
  locate_page-eq,
}
use lsm_based_on_zns_ssd.Ftl.Geometry.{
  Geometry, zone_pages, chips-eq, end_of-eq, end_of-eq', first_block-eq,
}

-- One step of the walk, by three tests: is the channel the last, the block the last, the page the
-- last. `ch'`, `blk'` and `pg'` are the counters after an increment, `ch₀` and `blk₀` the first ones.
abbrev moved : Bool → Bool → Bool → ℕ → ℕ → ℕ → ℕ → ℕ → NvmeZone → NvmeZone
moved a b c ch₀ ch' blk₀ blk' pg' zone = record zone {
  state = if a && (b && c) then zone_full else zone.state;
  wpp = record zone.wpp {
    ch = if a then ch₀ else ch';
    blk = if a then (if b then blk₀ else blk') else zone.wpp.blk;
    pg = if a then (if b then pg' else zone.wpp.pg) else zone.wpp.pg;
  };
}

-- The same step of the read path.
abbrev stepped : Bool → Bool → Bool → ℕ → ℕ → ℕ → ℕ → ℕ → Ppa → Bool × Ppa
stepped a b c ch₀ ch' blk₀ blk' pg' page = (
  a && (b && c),
  record page {
    ch = if a then ch₀ else ch';
    blk = if a then (if b then blk₀ else blk') else page.blk;
    pg = if a then (if b then pg' else page.pg) else page.pg;
  },
)

next-stepped :
    (zone : NvmeZone) (num_fcg : ℕ) (spp : SsdParams) (page : Ppa)
    → let end = end_of num_fcg spp zone (block_bytes' spp) in
      get_next_page zone num_fcg spp page
      ≡ stepped
          (add64 page.ch 1 % (spp.nchs / num_fcg) == 0)
          (add64 page.blk 1 % end == 0)
          (add64 page.pg 1 == spp.pgs_per_blk)
          (spp.nchs / num_fcg * zone.wpp.fcg_id)
          (add64 page.ch 1)
          (first_block num_fcg spp zone end)
          (add64 page.blk 1)
          (add64 page.pg 1)
          page
unfolding get_next_page
next-stepped zone num_fcg spp page = ground arith

advance-moved :
    (num_fcg : ℕ) (zone : NvmeZone) (spp : SsdParams)
    → let end = end_of num_fcg spp zone (block_bytes spp) in
      zns_advance_write_pointer num_fcg zone spp
      ≡ moved
          (add64 zone.wpp.ch 1 % (spp.nchs / num_fcg) == 0)
          (add64 zone.wpp.blk 1 % end == 0)
          (add64 zone.wpp.pg 1 == spp.pgs_per_blk)
          (spp.nchs / num_fcg * zone.wpp.fcg_id)
          (add64 zone.wpp.ch 1)
          (first_block num_fcg spp zone end)
          (add64 zone.wpp.blk 1)
          (add64 zone.wpp.pg 1)
          zone
unfolding zns_advance_write_pointer advance_block advance_page
advance-moved num_fcg zone spp = ground arith

-- A step changes the write pointer and the state, and nothing else.
pub advance_keeps :
    (num_fcg : ℕ) (zone : NvmeZone) (spp : SsdParams)
    → let next = zns_advance_write_pointer num_fcg zone spp in
      (next.zone_id ≡ zone.zone_id)
      × (next.start_lba ≡ zone.start_lba)
      × (next.write_ptr ≡ zone.write_ptr)
advance_keeps num_fcg zone spp = rw (advance-moved num_fcg zone spp) (refl, refl, refl)

-- The walk leaves the last page exactly when the quotient that is the page's number leaves its range.
ends :
    (a b : Bool) (p p' n k z : ℕ)
    → p < n
    → k < z
    → p' ≡ (if a then (if b then p + 1 else p) else p)
    → ((p' < n) ↔ (k + 1 < z))
    → (a && (b && (p + 1 == n))) ≡ (k + 1 == z)
ends true true p p' n k z h i e f = ground arith
ends true false p p' n k z h i e f = ground arith
ends false b p p' n k z h i e f = ground arith

module _ {spp : SsdParams} {num_fcg zone_cap num_zones : ℕ}
    (g : Geometry spp num_fcg zone_cap num_zones) where
  open g use {
    chips, blocks, slots, chips_pos, blocks_pos, slots_pos, groups_pos, channels, small_channels,
    small_die, small_block,
  }

  -- The write pointer of the zone stands at the page `k`.
  pub record At (zone : NvmeZone) (k : ℕ) : Type 0 where
    pub is_zone : IsZone g zone
    pub channel : zone.wpp.ch ≡ channel_at g zone.zone_id k
    pub block : zone.wpp.blk ≡ block_at g zone.zone_id k
    pub page : zone.wpp.pg ≡ page_at g k

  channel_at-suc :
      (id k : ℕ)
      → channel_at g id (k + 1)
        ≡ (if k % chips + 1 == chips then id % num_fcg * chips else channel_at g id k + 1)
  channel_at-suc id k = ground (arith, mod-suc_if k chips chips_pos)

  block_at-suc :
      (id k : ℕ)
      → block_at g id (k + 1) ≡ (
          if k % chips + 1 == chips
          then (if k / chips % blocks + 1 == blocks then base_block g id else block_at g id k + 1)
          else block_at g id k)
  block_at-suc id k =
      rw (div-suc_if k chips chips_pos) (ground (arith, mod-suc_if (k / chips) blocks blocks_pos))

  page_at-suc :
      (k : ℕ)
      → page_at g (k + 1) ≡ (
          if k % chips + 1 == chips
          then (if k / chips % blocks + 1 == blocks then page_at g k + 1 else page_at g k)
          else page_at g k)
  page_at-suc k =
      rw (div-suc_if k chips chips_pos) (ground (arith, div-suc_if (k / chips) blocks blocks_pos))

  -- The tests of the code, on the place of the page `k`.
  end_of_channels : (id k : ℕ) → ((channel_at g id k + 1) % chips == 0) ≡ (k % chips + 1 == chips)
  end_of_channels id k = row_test (k % chips) (id % num_fcg) chips (mod-lt k chips_pos)

  end_of_blocks :
      (id k : ℕ) → ((block_at g id k + 1) % blocks == 0) ≡ (k / chips % blocks + 1 == blocks)
  end_of_blocks id k =
      rw (mul_comm blocks (id / num_fcg % slots)) (
        row_test (k / chips % blocks) (id / num_fcg % slots) blocks (mod-lt (k / chips) blocks_pos))

  -- The step from the last page of the zone, and no other, ends the walk.
  last_page :
      (k : ℕ)
      → k < zone_pages g
      → ((k % chips + 1 == chips)
          && ((k / chips % blocks + 1 == blocks) && (page_at g k + 1 == spp.pgs_per_blk)))
        ≡ (k + 1 == zone_pages g)
  last_page k inside =
      ends (k % chips + 1 == chips) (k / chips % blocks + 1 == blocks) (page_at g k)
        (page_at g (k + 1)) spp.pgs_per_blk k (zone_pages g) ((page_at-lt g k).1 inside) inside
        (page_at-suc k) (page_at-lt g (k + 1))

  module _ (zone : NvmeZone) (k : ℕ) (at : At zone k) (inside : k < zone_pages g) where
    -- The counters do not wrap.
    ch_64 : add64 zone.wpp.ch 1 ≡ channel_at g zone.zone_id k + 1
    ch_64 = rw at.channel (
        add64-eq (channel_at g zone.zone_id k) 1
          (omega (arith, channel_at-lt g zone.zone_id k, small_channels)))

    blk_64 : add64 zone.wpp.blk 1 ≡ block_at g zone.zone_id k + 1
    blk_64 = rw at.block (
        add64-eq (block_at g zone.zone_id k) 1
          (omega (arith, block_at-lt g zone.zone_id k, small_die)))

    pg_64 : add64 zone.wpp.pg 1 ≡ page_at g k + 1
    pg_64 =
        rw at.page
          (add64-eq (page_at g k) 1 (omega (arith, (page_at-lt g k).1 inside, small_block)))

    advance-eq :
        zns_advance_write_pointer num_fcg zone spp
        ≡ moved
            (k % chips + 1 == chips)
            (k / chips % blocks + 1 == blocks)
            (page_at g k + 1 == spp.pgs_per_blk)
            (zone.zone_id % num_fcg * chips)
            (channel_at g zone.zone_id k + 1)
            (base_block g zone.zone_id)
            (block_at g zone.zone_id k + 1)
            (page_at g k + 1)
            zone
    advance-eq = rw (
      advance-moved num_fcg zone spp,
      ch_64,
      blk_64,
      pg_64,
      chips-eq g,
      end_of-eq g zone at.is_zone.same_cap,
      first_block-eq g zone at.is_zone.same_cap at.is_zone.known,
      end_of_channels zone.zone_id k,
      end_of_blocks zone.zone_id k,
      at.is_zone.group,
      mul_comm chips (zone.zone_id % num_fcg),
    )

    pub advance-At : At (zns_advance_write_pointer num_fcg zone spp) (k + 1)
    advance-At = rw advance-eq (record {
      is_zone = record {
        known = at.is_zone.known;
        same_cap = at.is_zone.same_cap;
        group = at.is_zone.group;
        die = at.is_zone.die;
        plane = at.is_zone.plane;
      };
      channel = rw (channel_at-suc zone.zone_id k);
      block = rw (block_at-suc zone.zone_id k, at.block);
      page = rw (page_at-suc k, at.page);
    })

    pub advance-state :
        (zns_advance_write_pointer num_fcg zone spp).state
        ≡ (if k + 1 == zone_pages g then zone_full else zone.state)
    advance-state = rw (advance-eq, last_page k inside)

  pub At-place : (zone : NvmeZone) (k : ℕ) → At zone k → get_zns_page zone ≡ place g zone.zone_id k
  unfolding get_zns_page
  At-place zone k at = ground (arith, at.is_zone.plane)

  pub At-locate_page :
      (zone : NvmeZone) (k : ℕ) → At zone k → get_zns_page zone ≡ locate_page num_fcg spp zone k
  At-locate_page zone k at = At-place zone k at ∙ sym (locate_page-eq g zone k at.is_zone)

  -- For a zone whose write pointer stands at its page `k`, the write path's next step takes the pointer to
  -- the page that the read path locates under the number `k + 1`.
  pub advance-locate_page :
      (zone : NvmeZone) (k : ℕ)
      → At zone k
      → k < zone_pages g
      → get_zns_page (zns_advance_write_pointer num_fcg zone spp)
        ≡ locate_page num_fcg spp zone (k + 1)
  advance-locate_page zone k at inside =
      At-place (zns_advance_write_pointer num_fcg zone spp) (k + 1) (advance-At zone k at inside)
      ∙ ap (λ i. place g i (k + 1)) ((advance_keeps num_fcg zone spp).0)
      ∙ sym (locate_page-eq g zone (k + 1) at.is_zone)

  -- For every page `k` of a zone, `get_next_page` steps from where page `k` lies to where page `k + 1` would
  -- lie, and reports the zone's end exactly when `k` is the last page.
  pub get_next_page-locate_page :
      (zone : NvmeZone) (k : ℕ)
      → IsZone g zone
      → k < zone_pages g
      → get_next_page zone num_fcg spp (locate_page num_fcg spp zone k)
        ≡ (k + 1 == zone_pages g, locate_page num_fcg spp zone (k + 1))
  get_next_page-locate_page zone k z inside = rw (
    next-stepped zone num_fcg spp (locate_page num_fcg spp zone k),
    locate_page-eq g zone k z,
    locate_page-eq g zone (k + 1) z,
    add64-eq (channel_at g zone.zone_id k) 1
        (omega (arith, channel_at-lt g zone.zone_id k, small_channels)),
    add64-eq (block_at g zone.zone_id k) 1 (omega (arith, block_at-lt g zone.zone_id k, small_die)),
    add64-eq (page_at g k) 1 (omega (arith, (page_at-lt g k).1 inside, small_block)),
    chips-eq g,
    end_of-eq' g zone z.same_cap,
    first_block-eq g zone z.same_cap z.known,
    end_of_channels zone.zone_id k,
    end_of_blocks zone.zone_id k,
    z.group,
    mul_comm chips (zone.zone_id % num_fcg),
    last_page k inside,
    channel_at-suc zone.zone_id k,
    block_at-suc zone.zone_id k,
    page_at-suc k,
  )
