-- ===== src/Ftl/ReadLoop.antt =====
-- `zns_read` of src/femu/ftl.c on a device that is in order: the pages that its loop visits.
use native.Mathlib.Nat.{mod-lt, div-lt_iff_lt-mul}
use lsm_based_on_zns_ssd.Base.{
  ℕ, zero, suc, ◌+◌, ◌*◌, ◌/◌, ◌%◌, ◌≤◌, ◌<◌, ◌≡◌, refl, sym, ap, ap₂, subst₂, ◌∙◌, arith, Bool,
  false, List, some, Bool-cases, ==_iff, past_last, inl, inr, ◌==◌, div-suc_inside, mod-suc_inside,
  div-suc_wrap, mod-suc_wrap,
}
use lsm_based_on_zns_ssd.Ftl.Types.{Ppa, SsdParams, Ssd, NvmeZone}
use lsm_based_on_zns_ssd.Ftl.Pointer.{get_next_page, locate_page}
use lsm_based_on_zns_ssd.Ftl.Timing.{ssd_advance_status}
use lsm_based_on_zns_ssd.Ftl.Commands.{max_lat, read_pages}
use lsm_based_on_zns_ssd.Ftl.Geometry.{Geometry, zone_pages, zone_pages_pos}
use lsm_based_on_zns_ssd.Ftl.Layout.{IsZone, place, locate_page-eq}
use lsm_based_on_zns_ssd.Ftl.Shape.{HasShape, ssd_advance_status-total}
use lsm_based_on_zns_ssd.Ftl.Calls.{carry_out, carry_out-cons}
use lsm_based_on_zns_ssd.Ftl.Transfer.{user_read, pages_from, device_page, place-OnDevice}
use lsm_based_on_zns_ssd.Ftl.ReadStep.{
  read_pages-inside, read_pages-last, read_pages-cross, IsZoneArray, zone_at, next_place,
}

not_last : (r last z : ℕ) → r < last + 1 → (r == last) ≡ false → last < z → r + 1 < z
not_last r last z h e k = ground arith

module _ {spp : SsdParams} {num_fcg zone_cap num_zones : ℕ}
    (g : Geometry spp num_fcg zone_cap num_zones) where
  -- What `n` rounds of the loop of `zns_read` come to.
  pub record Reads (zones : List NvmeZone) (q n i idx last : ℕ) (ppa : Ppa) (ssd : Ssd) (stime : ℕ)
      (now : ℕ → ℕ) (m : ℕ) : Type 0 where
    pub ssd' : Ssd
    pub latency : ℕ
    pub returns : read_pages n i num_fcg zones idx last ppa ssd stime now ≡ some ssd'
    pub visits : carry_out (user_read stime) (pages_from g q n) i ssd now m ≡ some (ssd', latency)
    pub shape : HasShape ssd'
    pub params : ssd'.sp ≡ spp

  module _ (zones : List NvmeZone) (last stime : ℕ) (now : ℕ → ℕ) where
    abbrev From : ℕ → ℕ → ℕ → ℕ → Ppa → Ssd → ℕ → Type 0
    From q n i idx ppa ssd m = Reads zones q n i idx last ppa ssd stime now m

    -- One round, and the rounds after it.
    one_more :
        (q n i idx idx' : ℕ) (ppa' : Ppa) (ssd ssd₁ : Ssd) (m lat : ℕ)
        → ssd_advance_status ssd (device_page g q) (user_read stime) (now i) ≡ some (ssd₁, lat)
        → read_pages (suc n) i num_fcg zones idx last (device_page g q) ssd stime now
          ≡ read_pages n (i + 1) num_fcg zones idx' last ppa' ssd₁ stime now
        → From (q + 1) n (i + 1) idx' ppa' ssd₁ (max_lat lat m)
        → From q (suc n) i idx (device_page g q) ssd m
    one_more q n i idx idx' ppa' ssd ssd₁ m lat run step rest = record {
      ssd' = rest.ssd';
      latency = rest.latency;
      returns = step ∙ rest.returns;
      visits =
          carry_out-cons (user_read stime) (device_page g q) (pages_from g (q + 1) n) i ssd ssd₁ now
            m lat run
          ∙ rest.visits;
      shape = rest.shape;
      params = rest.params;
    }

    -- Where the loop stands before its next round, if there is one.
    abbrev Starts : ℕ → ℕ → ℕ → Ppa → Type 0
    Starts q n idx ppa = 0 < n → (ppa ≡ device_page g q) × (idx ≡ q / zone_pages g)

    abbrev Rounds : ℕ → Type 0
    Rounds n =
        (q i idx : ℕ) (ppa : Ppa) (ssd : Ssd) (m : ℕ)
        → q + n ≤ (last + 1) * zone_pages g
        → Starts q n idx ppa
        → HasShape ssd
        → ssd.sp ≡ spp
        → From q n i idx ppa ssd m

    begin_inside :
        (q n : ℕ)
        → (q % zone_pages g + 1 == zone_pages g) ≡ false
        → Starts (q + 1) n (q / zone_pages g) (place g (q / zone_pages g) (q % zone_pages g + 1))
    begin_inside q n inside = λ _. (ap₂ (place g) (sym same) (sym next), sym same)
      where
        short : q % zone_pages g + 1 < zone_pages g
        short = ground (arith, mod-lt q (zone_pages_pos g))

        same : (q + 1) / zone_pages g ≡ q / zone_pages g
        same = div-suc_inside q (zone_pages g) (zone_pages_pos g) short

        next : (q + 1) % zone_pages g ≡ q % zone_pages g + 1
        next = mod-suc_inside q (zone_pages g) (zone_pages_pos g) short

    begin_cross :
        (q n : ℕ) (zone' : NvmeZone) (sp : SsdParams)
        → sp ≡ spp
        → q % zone_pages g + 1 ≡ zone_pages g
        → IsZone g zone'
        → zone'.zone_id ≡ q / zone_pages g + 1
        → Starts (q + 1) n (q / zone_pages g + 1) (locate_page num_fcg sp zone' 0)
    begin_cross q n zone' sp same wrap z' id' = λ _. (
      ap (λ (s : SsdParams). locate_page num_fcg s zone' 0) same
          ∙ locate_page-eq g zone' 0 z'
          ∙ ap₂ (place g) (id' ∙ sym up) (sym start),
      sym up,
    )
      where
        up : (q + 1) / zone_pages g ≡ q / zone_pages g + 1
        up = div-suc_wrap q (zone_pages g) (zone_pages_pos g) wrap

        start : (q + 1) % zone_pages g ≡ 0
        start = mod-suc_wrap q (zone_pages g) (zone_pages_pos g) wrap

    round :
        (n q i : ℕ) (ssd : Ssd) (m : ℕ)
        → Rounds n
        → IsZoneArray g zones
        → last < num_zones
        → q + suc n ≤ (last + 1) * zone_pages g
        → HasShape ssd
        → ssd.sp ≡ spp
        → From q (suc n) i (q / zone_pages g) (device_page g q) ssd m
    round n q i ssd m rounds array known bound shape same =
        let zp = zone_pages g in
        let pos = zone_pages_pos g in
        let idx_le : q / zp < last + 1 = (div-lt_iff_lt-mul pos).1 (omega arith) in
        let (zone, found, z, id) = zone_at g zones (q / zp) array (omega arith) in
        let (ssd₁, lat, run, shape₁, same₁) =
          ssd_advance_status-total ssd (device_page g q) shape
            (place-OnDevice g ssd (q / zp) (q % zp) same (omega arith)) (user_read stime) (now i) in
        let next : get_next_page zone num_fcg ssd.sp (device_page g q)
            ≡ (q % zp + 1 == zp, place g (q / zp) (q % zp + 1)) =
          ap (λ (s : SsdParams). get_next_page zone num_fcg s (device_page g q)) same
          ∙ next_place g zone (q / zp) (q % zp) z id (mod-lt q pos) in
        elim (Bool-cases (q % zp + 1 == zp)) [
          | inr inside ↦
              one_more q n i (q / zp) (q / zp) (place g (q / zp) (q % zp + 1)) ssd ssd₁ m lat run
                (read_pages-inside n i num_fcg (q / zp) last stime lat zones (device_page g q) _ ssd
                  ssd₁ now zone run found
                  (next ∙ ap (λ (b : Bool). (b, place g (q / zp) (q % zp + 1))) inside))
                (rounds (q + 1) (i + 1) (q / zp) _ ssd₁ (max_lat lat m) (omega arith)
                  (begin_inside q n inside) shape₁ (same₁ ∙ same))
          | inl wrap ↦ elim (Bool-cases (q / zp == last)) [
            | inl end ↦
                one_more q n i (q / zp) (q / zp) (place g (q / zp) (q % zp + 1)) ssd ssd₁ m lat run
                  (read_pages-last n i num_fcg (q / zp) last stime lat zones (device_page g q) _ ssd
                    ssd₁ now zone run found
                    (next ∙ ap (λ (b : Bool). (b, place g (q / zp) (q % zp + 1))) wrap) end)
                  (rounds (q + 1) (i + 1) (q / zp) _ ssd₁ (max_lat lat m) (omega arith)
                    (λ left. absurd (
                      omega (
                        arith,
                        past_last q n zp last ((==_iff _ _).0 wrap) ((==_iff _ _).0 end) bound,
                      )))
                    shape₁ (same₁ ∙ same))
            | inr more ↦
                let (zone', found', z', id') =
                  zone_at g zones (q / zp + 1) array (not_last _ _ _ idx_le more known) in
                one_more q n i (q / zp) (q / zp + 1) (locate_page num_fcg ssd.sp zone' 0) ssd ssd₁ m
                  lat run
                  (read_pages-cross n i num_fcg (q / zp) last stime lat zones (device_page g q) _
                    ssd ssd₁ now zone zone' run found
                    (next ∙ ap (λ (b : Bool). (b, place g (q / zp) (q % zp + 1))) wrap) more found')
                  (rounds (q + 1) (i + 1) (q / zp + 1) _ ssd₁ (max_lat lat m) (omega arith)
                    (begin_cross q n zone' ssd.sp same ((==_iff _ _).0 wrap) z' id') shape₁
                    (same₁ ∙ same))
          ]
        ]

    pub read_pages-Reads : IsZoneArray g zones → last < num_zones → (n : ℕ) → Rounds n
    unfolding read_pages carry_out
    read_pages-Reads array known zero q i idx ppa ssd m bound starts shape same = record {
      ssd' = ssd;
      latency = m;
      returns = refl;
      visits = refl;
      shape = shape;
      params = same;
    }
    read_pages-Reads array known (suc n) q i idx ppa ssd m bound starts shape same =
        let (page, zone) = starts (omega arith) in
        subst₂ (λ x p. From q (suc n) i x p ssd m) (sym zone) (sym page)
          (round n q i ssd m (read_pages-Reads array known n) array known bound shape same)
