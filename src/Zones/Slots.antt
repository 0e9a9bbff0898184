-- ===== src/Zones/Slots.antt =====
-- Where the tables of `MemoryManager` (src/include/utils.h) lie: a zone is a row of slots, one for a table,
-- and its first slots are written.
use native.Mathlib.Nat.{mul-le-mul_right}
use mathlib.Core.Option.{some-injective}
use lsm_based_on_zns_ssd.Base.{
  ℕ, suc, ◌+◌, ◌-◌, ◌*◌, ◌≤◌, ◌<◌, ◌≡◌, sym, ap, subst, ◌∙◌, arith, List, some, length, get_elem?,
  set, get_elem?-set_self, get_elem?-set_ne, lt-get_elem?, length-set, ℕ_discrete, dec_lt, u64_mod,
  div-of_parts, ◌/◌,
}
use lsm_based_on_zns_ssd.Zones.State.{ZoneMeta, default_sstable_size}

-- Zone `i`, whose first `used` slots are written.
pub record IsZoneMeta (slots i : ℕ) (meta : ZoneMeta) : Type 0 where
  pub used : ℕ
  pub begins : meta.start ≡ i * (slots * default_sstable_size)
  pub ends : meta.end ≡ i * (slots * default_sstable_size) + slots * default_sstable_size - 1
  pub at : meta.write_ptr ≡ i * (slots * default_sstable_size) + used * default_sstable_size
  pub fits : used ≤ slots

pub record AreZones (slots : ℕ) (metas : List ZoneMeta) : Type 0 where
  pub slots_pos : 0 < slots
  pub device : length metas * (slots * default_sstable_size) < u64_mod
  pub each : (i : ℕ) (meta : ZoneMeta) → get_elem? metas i ≡ some meta → IsZoneMeta slots i meta

-- The slot `s` is one of those that are written.
pub record IsWritten (slots : ℕ) (metas : List ZoneMeta) (s : ℕ) : Type 0 where
  pub zone : ℕ
  pub meta : ZoneMeta
  pub slot : ℕ
  pub here : get_elem? metas zone ≡ some meta
  pub at : s ≡ zone * (slots * default_sstable_size) + slot * default_sstable_size
  pub below : s + default_sstable_size ≤ meta.write_ptr

abbrev pub zone_bytes : ℕ → ℕ
zone_bytes slots = slots * default_sstable_size

-- A number in the row of zone `i` and in the row of zone `z`.
same_zone : (i z n s : ℕ) → i * n ≤ s → s < i * n + n → z * n ≤ s → s < z * n + n → i ≡ z
same_zone i z n s a b c d = elim (dec_lt i z) [
  | yes p ↦ absurd (omega (arith, mul-le-mul_right {m = suc i} {n = z} n (omega (arith, p))))
  | no p ↦ elim (dec_lt z i) [
    | yes q ↦ absurd (omega (arith, mul-le-mul_right {m = suc z} {n = i} n (omega (arith, q))))
    | no q ↦ omega (arith, p, q)
  ]
]

module _ (slots z : ℕ) (metas : List ZoneMeta) (meta meta' : ZoneMeta) (w : AreZones slots metas)
    (here : get_elem? metas z ≡ some meta) (room : meta.write_ptr < meta.end)
    (same_start : meta'.start ≡ meta.start) (same_end : meta'.end ≡ meta.end)
    (next : meta'.write_ptr ≡ meta.write_ptr + default_sstable_size) where
  zone_top : z * zone_bytes slots + zone_bytes slots < u64_mod
  zone_top = omega (
    arith,
    w.device,
    mul-le-mul_right {m = suc z} {n = length metas} (zone_bytes slots)
        (omega (arith, lt-get_elem? metas z meta here)),
  )

  -- There is a slot left.
  slot_left : (w.each z meta here).used < slots
  slot_left =
      let m : IsZoneMeta slots z meta = w.each z meta here in omega (arith, m.at, m.ends, room)

  pub write_ptr-fits : meta.write_ptr + default_sstable_size < u64_mod
  write_ptr-fits =
      let m : IsZoneMeta slots z meta = w.each z meta here in
      omega (arith, m.at, slot_left, zone_top)

  pub advance-IsZoneMeta : IsZoneMeta slots z meta'
  advance-IsZoneMeta =
      let m : IsZoneMeta slots z meta = w.each z meta here in
      record {
        used = m.used + 1;
        begins = same_start ∙ m.begins;
        ends = same_end ∙ m.ends;
        at = omega (arith, next, m.at);
        fits = omega (arith, slot_left);
      }

  pub advance-AreZones : AreZones slots (set metas z meta')
  advance-AreZones = record {
    slots_pos = w.slots_pos;
    device = rw (length-set metas z meta') w.device;
    each = λ i mi e. elim (ℕ_discrete z i) [
      | yes p ↦
          let same : some meta' ≡ some mi =
            sym (get_elem?-set_self metas z meta' (lt-get_elem? metas z meta here))
            ∙ ap (get_elem? (set metas z meta')) p
            ∙ e in
          subst (λ x. IsZoneMeta slots i x) (some-injective meta' mi same)
            (subst (λ j. IsZoneMeta slots j meta') p advance-IsZoneMeta)
      | no p ↦ w.each i mi (sym (get_elem?-set_ne metas z i meta' p) ∙ e)
    ];
  }

  pub advance-IsWritten : (s : ℕ) → IsWritten slots metas s → IsWritten slots (set metas z meta') s
  advance-IsWritten s r = elim (ℕ_discrete z r.zone) [
    | yes p ↦
        let same : meta ≡ r.meta =
          some-injective meta r.meta (sym here ∙ ap (get_elem? metas) p ∙ r.here) in
        let less : s + default_sstable_size ≤ meta.write_ptr =
          subst (λ (x : ZoneMeta). s + default_sstable_size ≤ x.write_ptr) (sym same) r.below in
        record {
          zone = z;
          meta = meta';
          slot = r.slot;
          here = get_elem?-set_self metas z meta' (lt-get_elem? metas z meta here);
          at = r.at ∙ ap (λ j. j * zone_bytes slots + r.slot * default_sstable_size) (sym p);
          below = omega (arith, less, next);
        }
    | no p ↦ record {
      zone = r.zone;
      meta = r.meta;
      slot = r.slot;
      here = get_elem?-set_ne metas z r.zone meta' p ∙ r.here;
      at = r.at;
      below = r.below;
    }
  ]

  -- The next slot is written then, and was not before.
  pub next-IsWritten : IsWritten slots (set metas z meta') meta.write_ptr
  next-IsWritten =
      let m : IsZoneMeta slots z meta = w.each z meta here in
      record {
        zone = z;
        meta = meta';
        slot = m.used;
        here = get_elem?-set_self metas z meta' (lt-get_elem? metas z meta here);
        at = m.at;
        below = omega (arith, next);
      }

  pub not-IsWritten : ¬ IsWritten slots metas meta.write_ptr
  not-IsWritten r =
      let m : IsZoneMeta slots z meta = w.each z meta here in
      let mr : IsZoneMeta slots r.zone r.meta = w.each r.zone r.meta r.here in
      let p : z ≡ r.zone =
        same_zone z r.zone (zone_bytes slots) meta.write_ptr (omega (arith, m.at))
          (omega (arith, m.at, slot_left)) (omega (arith, r.at))
          (omega (arith, mr.at, mr.fits, r.below)) in
      let same : meta ≡ r.meta =
        some-injective meta r.meta (sym here ∙ ap (get_elem? metas) p ∙ r.here) in
      let equal : meta.write_ptr ≡ r.meta.write_ptr = ap (λ (x : ZoneMeta). x.write_ptr) same in
      omega (arith, equal, r.below)

-- The zone of a slot, and that the slot's end does not wrap.
module _ (slots : ℕ) (metas : List ZoneMeta) (s : ℕ) (w : AreZones slots metas)
    (r : IsWritten slots metas s) where
  pub zone-of_slot : s / zone_bytes slots ≡ r.zone
  zone-of_slot =
      let m : IsZoneMeta slots r.zone r.meta = w.each r.zone r.meta r.here in
      rw r.at (
        div-of_parts r.zone (r.slot * default_sstable_size) (zone_bytes slots)
          (omega (arith, m.at, m.fits, r.at, r.below)))

  pub slot-fits : s + default_sstable_size + default_sstable_size ≤ u64_mod
  slot-fits =
      let m : IsZoneMeta slots r.zone r.meta = w.each r.zone r.meta r.here in
      omega (
        arith,
        w.device,
        m.at,
        m.fits,
        r.below,
        mul-le-mul_right {m = suc r.zone} {n = length metas} (zone_bytes slots)
            (omega (arith, lt-get_elem? metas r.zone r.meta r.here)),
      )
