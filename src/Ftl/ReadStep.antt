-- ===== src/Ftl/ReadStep.antt =====
-- The loop of `zns_read` of src/femu/ftl.c, one round at a time.

use lsm_based_on_zns_ssd.Base.{
  ℕ, suc, ◌+◌, ◌<◌, ◌≡◌, sym, ap, subst, ◌∙◌, arith, true, false, List, some, ◌==◌, length,
  get_elem?, get_elem?-lt,
}
use lsm_based_on_zns_ssd.Ftl.Types.{Ppa, SsdParams, Ssd, NvmeZone}
use lsm_based_on_zns_ssd.Ftl.Pointer.{get_next_page, locate_page}
use lsm_based_on_zns_ssd.Ftl.Timing.{ssd_advance_status}
use lsm_based_on_zns_ssd.Ftl.Commands.{read_pages}
use lsm_based_on_zns_ssd.Ftl.Geometry.{Geometry, zone_pages}
use lsm_based_on_zns_ssd.Ftl.Layout.{IsZone, place, locate_page-eq}
use lsm_based_on_zns_ssd.Ftl.Walk.{get_next_page-locate_page}
use lsm_based_on_zns_ssd.Ftl.Transfer.{user_read}

-- One round of the loop, inside a zone and at a zone's end.
pub read_pages-inside :
    (n i num_fcg idx last stime lat : ℕ) (zones : List NvmeZone) (p p' : Ppa) (ssd ssd₁ : Ssd)
    (now : ℕ → ℕ) (zone : NvmeZone)
    → ssd_advance_status ssd p (user_read stime) (now i) ≡ some (ssd₁, lat)
    → get_elem? zones idx ≡ some zone
    → get_next_page zone num_fcg ssd.sp p ≡ (false, p')
    → read_pages (suc n) i num_fcg zones idx last p ssd stime now
      ≡ read_pages n (i + 1) num_fcg zones idx last p' ssd₁ stime now
unfolding read_pages
read_pages-inside n i num_fcg idx last stime lat zones p p' ssd ssd₁ now zone run found next =
    rw (run, found, next)

pub read_pages-last :
    (n i num_fcg idx last stime lat : ℕ) (zones : List NvmeZone) (p p' : Ppa) (ssd ssd₁ : Ssd)
    (now : ℕ → ℕ) (zone : NvmeZone)
    → ssd_advance_status ssd p (user_read stime) (now i) ≡ some (ssd₁, lat)
    → get_elem? zones idx ≡ some zone
    → get_next_page zone num_fcg ssd.sp p ≡ (true, p')
    → (idx == last) ≡ true
    → read_pages (suc n) i num_fcg zones idx last p ssd stime now
      ≡ read_pages n (i + 1) num_fcg zones idx last p' ssd₁ stime now
unfolding read_pages
read_pages-last n i num_fcg idx last stime lat zones p p' ssd ssd₁ now zone run found next end =
    rw (run, found, next, end)

pub read_pages-cross :
    (n i num_fcg idx last stime lat : ℕ) (zones : List NvmeZone) (p p' : Ppa) (ssd ssd₁ : Ssd)
    (now : ℕ → ℕ) (zone zone' : NvmeZone)
    → ssd_advance_status ssd p (user_read stime) (now i) ≡ some (ssd₁, lat)
    → get_elem? zones idx ≡ some zone
    → get_next_page zone num_fcg ssd.sp p ≡ (true, p')
    → (idx == last) ≡ false
    → get_elem? zones (idx + 1) ≡ some zone'
    → read_pages (suc n) i num_fcg zones idx last p ssd stime now
      ≡ read_pages n
          (i + 1)
          num_fcg
          zones
          (idx + 1)
          last
          (locate_page num_fcg ssd.sp zone' 0)
          ssd₁
          stime
          now
unfolding read_pages
read_pages-cross n i num_fcg idx last stime lat zones p p' ssd ssd₁ now zone zone' run found next
      more found' =
    rw (run, found, next, more, found')

module _ {spp : SsdParams} {num_fcg zone_cap num_zones : ℕ}
    (g : Geometry spp num_fcg zone_cap num_zones) where
  -- The zone array, as far as reading depends on it.
  pub record IsZoneArray (zones : List NvmeZone) : Type 0 where
    pub array : length zones ≡ num_zones
    pub each :
        (j : ℕ) (zone : NvmeZone)
        → get_elem? zones j ≡ some zone
        → IsZone g zone × (zone.zone_id ≡ j)

  pub zone_at :
      (zones : List NvmeZone) (j : ℕ)
      → IsZoneArray zones
      → j < num_zones
      → (zone : NvmeZone) × (get_elem? zones j ≡ some zone) × IsZone g zone × (zone.zone_id ≡ j)
  zone_at zones j a h =
      let (zone, e) = get_elem?-lt zones j (omega (arith, a.array)) in
      (zone, e, (a.each j zone e).0, (a.each j zone e).1)

  pub next_place :
      (zone : NvmeZone) (j k : ℕ)
      → IsZone g zone
      → zone.zone_id ≡ j
      → k < zone_pages g
      → get_next_page zone num_fcg spp (place g j k) ≡ (k + 1 == zone_pages g, place g j (k + 1))
  next_place zone j k z e h =
      subst
        (λ i.
          get_next_page zone num_fcg spp (place g i k) ≡ (k + 1 == zone_pages g, place g i (k + 1)))
        e
        (ap (get_next_page zone num_fcg spp) (sym (locate_page-eq g zone k z))
          ∙ get_next_page-locate_page g zone k z h
          ∙ ap (λ (p : Ppa). (k + 1 == zone_pages g, p)) (locate_page-eq g zone (k + 1) z))
