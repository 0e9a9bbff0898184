-- ===== src/Zones/Counts.antt =====
-- Zones whose counts change, and nothing else: what `deleteTable` of src/include/utils.cpp does to `zone_metas`.
use mathlib.Core.Option.{some-injective}
use lsm_based_on_zns_ssd.Base.{
  ℕ, ◌≡◌, refl, sym, ap, subst, ◌∙◌, arith, List, some, get_elem?, set, lt-get_elem?, length-set,
  get_elem?-set_self, get_elem?-set_ne, ℕ_discrete,
}
use lsm_based_on_zns_ssd.Cache.Queues.{QueueCache}
use lsm_based_on_zns_ssd.Zones.State.{ZoneMeta}
use lsm_based_on_zns_ssd.Zones.Slots.{AreZones, IsZoneMeta, IsWritten}
use lsm_based_on_zns_ssd.Zones.Free.{HasRoom, AreFree}

-- A description of a zone that differs in what is counted only.
pub record SamePlace (meta meta' : ZoneMeta) : Type 0 where
  pub start : meta'.start ≡ meta.start
  pub end : meta'.end ≡ meta.end
  pub at : meta'.write_ptr ≡ meta.write_ptr

module _ (metas : List ZoneMeta) (z : ℕ) (meta meta' : ZoneMeta)
    (here : get_elem? metas z ≡ some meta) (same : SamePlace meta meta') where
  -- What was there before, and what is there now.
  set-back :
      (i : ℕ) (mi : ZoneMeta)
      → get_elem? (set metas z meta') i ≡ some mi
      → (old : ZoneMeta) × (get_elem? metas i ≡ some old) × SamePlace old mi
  set-back i mi e = elim (ℕ_discrete z i) [
    | yes p ↦
        let new : some meta' ≡ some mi =
          sym (get_elem?-set_self metas z meta' (lt-get_elem? metas z meta here))
          ∙ ap (get_elem? (set metas z meta')) p
          ∙ e in
        (
          meta,
          ap (get_elem? metas) (sym p) ∙ here,
          subst (SamePlace meta) (some-injective meta' mi new) same,
        )
    | no p ↦ (
      mi,
      sym (get_elem?-set_ne metas z i meta' p) ∙ e,
      record { start = refl; end = refl; at = refl },
    )
  ]

  set-on :
      (i : ℕ) (old : ZoneMeta)
      → get_elem? metas i ≡ some old
      → (mi : ZoneMeta) × (get_elem? (set metas z meta') i ≡ some mi) × SamePlace old mi
  set-on i old e = elim (ℕ_discrete z i) [
    | yes p ↦ (
      meta',
      ap (get_elem? (set metas z meta')) (sym p)
          ∙ get_elem?-set_self metas z meta' (lt-get_elem? metas z meta here),
      subst (λ m. SamePlace m meta')
          (some-injective meta old (sym here ∙ ap (get_elem? metas) p ∙ e)) same,
    )
    | no p ↦ (
      old,
      get_elem?-set_ne metas z i meta' p ∙ e,
      record { start = refl; end = refl; at = refl },
    )
  ]

  pub same-AreZones : (slots : ℕ) → AreZones slots metas → AreZones slots (set metas z meta')
  same-AreZones slots w = record {
    slots_pos = w.slots_pos;
    device = rw (length-set metas z meta') w.device;
    each = λ i mi e.
        let b = set-back i mi e in
        let m : IsZoneMeta slots i (b.0) = w.each i (b.0) (b.1) in
        let s : SamePlace (b.0) mi = b.2 in
        record {
          used = m.used;
          begins = s.start ∙ m.begins;
          ends = s.end ∙ m.ends;
          at = s.at ∙ m.at;
          fits = m.fits;
        };
  }

  pub same-IsWritten :
      (slots s : ℕ) → IsWritten slots metas s → IsWritten slots (set metas z meta') s
  same-IsWritten slots s r =
      let b = set-on r.zone r.meta r.here in
      let p : SamePlace r.meta (b.0) = b.2 in
      record {
        zone = r.zone;
        meta = b.0;
        slot = r.slot;
        here = b.1;
        at = r.at;
        below = omega (arith, r.below, p.at);
      }

  pub same-AreFree :
      (open_zone : List ℕ) (q : QueueCache)
      → AreFree metas open_zone q
      → AreFree (set metas z meta') open_zone q
  same-AreFree open_zone q w = record {
    queue = w.queue;
    once = w.once;
    roomy = λ i h.
        let r : HasRoom metas i = w.roomy i h in
        let b = set-on i r.meta r.here in
        let p : SamePlace r.meta (b.0) = b.2 in
        record { meta = b.0; here = b.1; room = omega (arith, r.room, p.at, p.end) };
  }
