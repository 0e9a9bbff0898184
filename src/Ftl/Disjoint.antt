-- ===== src/Ftl/Disjoint.antt =====
-- Where `locate_page` of src/femu/ftl.c puts the pages of different zones, and the bounds of the device.
use native.Mathlib.Nat.{mod-lt, mul_comm, div-lt_iff_lt-mul, div-add-mod', div-div-eq-div-mul}
use lsm_based_on_zns_ssd.Base.{
  ℕ, ◌*◌, ◌/◌, ◌%◌, ◌+◌, ◌<◌, ◌≡◌, sym, ap, ap₂, ◌∙◌, arith, mul-pos, div-of_parts, mod-of_parts,
}
use lsm_based_on_zns_ssd.Ftl.Types.{Ppa, SsdParams, NvmeZone}
use lsm_based_on_zns_ssd.Ftl.Pointer.{locate_page}
use lsm_based_on_zns_ssd.Ftl.Geometry.{Geometry, zone_pages}
use lsm_based_on_zns_ssd.Ftl.Layout.{
  IsZone, place, channel_at-lt, block_at-lt, page_at-lt, locate_page-eq,
}

-- A number is determined by its quotient and its remainder.
parts_injective : (a b n : ℕ) → a / n ≡ b / n → a % n ≡ b % n → a ≡ b
parts_injective a b n q r = sym (div-add-mod' a n) ∙ (ap₂ (λ x y. x * n + y) q r) ∙ div-add-mod' b n

-- So is a pair of column and row by its index.
index_injective : (c f c' f' n : ℕ) → c < n → c' < n → c + f * n ≡ c' + f' * n → (c ≡ c') × (f ≡ f')
index_injective c f c' f' n h h' e =
    let e' : f * n + c ≡ f' * n + c' = omega (arith) in
    (
      sym (mod-of_parts f c n h) ∙ ap (λ x. x % n) e' ∙ mod-of_parts f' c' n h',
      sym (div-of_parts f c n h) ∙ ap (λ x. x / n) e' ∙ div-of_parts f' c' n h',
    )

module _ {spp : SsdParams} {num_fcg zone_cap num_zones : ℕ}
    (g : Geometry spp num_fcg zone_cap num_zones) where
  open g use {chips, blocks, slots, chips_pos, blocks_pos, slots_pos, groups_pos}

  -- The group, the die and the slot on the die together name the zone.
  zone_of_place :
      (i j : ℕ)
      → i % num_fcg ≡ j % num_fcg
      → i / (slots * num_fcg) ≡ j / (slots * num_fcg)
      → i / num_fcg % slots ≡ j / num_fcg % slots
      → i ≡ j
  zone_of_place i j group die slot =
      parts_injective i j num_fcg (parts_injective (i / num_fcg) (j / num_fcg) slots die' slot)
        group
    where
      die' : i / num_fcg / slots ≡ j / num_fcg / slots
      die' =
          rw
            (
              div-div-eq-div-mul i num_fcg slots,
              div-div-eq-div-mul j num_fcg slots,
              mul_comm num_fcg slots,
            )
            die

  place_injective : (i j k k' : ℕ) → place g i k ≡ place g j k' → (i ≡ j) × (k ≡ k')
  place_injective i j k k' e =
      let channels =
        index_injective (k % chips) (i % num_fcg) (k' % chips) (j % num_fcg) chips
          (mod-lt k chips_pos) (mod-lt k' chips_pos) (ap (λ (p : Ppa). p.ch) e) in
      let rows =
        index_injective (k / chips % blocks) (i / num_fcg % slots) (k' / chips % blocks)
          (j / num_fcg % slots) blocks (mod-lt (k / chips) blocks_pos)
          (mod-lt (k' / chips) blocks_pos) (omega (arith, ap (λ (p : Ppa). p.blk) e)) in
      (
        zone_of_place i j channels.1 (ap (λ (p : Ppa). p.lun) e) rows.1,
        parts_injective k k' chips
            (parts_injective (k / chips) (k' / chips) blocks (ap (λ (p : Ppa). p.pg) e) rows.0)
            channels.0,
      )

  -- Two pages of zones of the device that `locate_page` puts at the same place are the same page of the
  -- same zone.
  pub locate_page-injective :
      (z z' : NvmeZone) (k k' : ℕ)
      → IsZone g z
      → IsZone g z'
      → locate_page num_fcg spp z k ≡ locate_page num_fcg spp z' k'
      → (z.zone_id ≡ z'.zone_id) × (k ≡ k')
  locate_page-injective z z' k k' w w' e =
      place_injective z.zone_id z'.zone_id k k'
        (sym (locate_page-eq g z k w) ∙ e ∙ locate_page-eq g z' k' w')

  -- `locate_page` puts every page of a zone on a channel, die, plane, block and page that the device has.
  pub locate_page-bounds :
      (z : NvmeZone) (k : ℕ)
      → IsZone g z
      → k < zone_pages g
      → let p = locate_page num_fcg spp z k in
        (p.ch < spp.nchs)
        × (p.lun < spp.luns_per_ch)
        × (p.pl < spp.pls_per_lun)
        × (p.blk < spp.blks_per_pl)
        × (p.pg < spp.pgs_per_blk)
  locate_page-bounds z k w inside = rw (locate_page-eq g z k w) (
    channel_at-lt g z.zone_id k,
    (div-lt_iff_lt-mul {k = slots * num_fcg} (mul-pos slots num_fcg slots_pos groups_pos)).1
        (omega (arith, w.known, g.fits)),
    g.one_plane,
    block_at-lt g z.zone_id k,
    (page_at-lt g k).1 inside,
  )
