-- ===== src/Zones/Place.antt =====
-- The invariant of `MemoryManager` (src/include/utils.h), and `writeTable` on it.
use lsm_based_on_zns_ssd.Base.{
  ℕ, ◌+◌, ◌*◌, ◌≤◌, ◌<◌, ◌≡◌, refl, arith, Bool, true, false, List, [], ◌∷◌, ◌++◌, Option, none,
  some, length, get_elem?, set, length-set, length-append, dec_lt, add64, lt→ltb, le→ltb_false,
  le→leb, lt→leb_false, ne→==_false, u32_mod,
}
use lsm_based_on_zns_ssd.Cache.Queues.{QueueCache, get, empty}
use lsm_based_on_zns_ssd.Cache.Rounds.{turn}
use lsm_based_on_zns_ssd.Cache.Turns.{Gets, get-Gets, taken}
use lsm_based_on_zns_ssd.Cache.Keys.{Holds}
use lsm_based_on_zns_ssd.Zones.State.{MemoryManager, ZoneMeta, assign, insert, default_sstable_size}
use lsm_based_on_zns_ssd.Zones.Tables.{next_open, enter_table, to_u16}
use lsm_based_on_zns_ssd.Zones.Slots.{AreZones, IsWritten}
use lsm_based_on_zns_ssd.Zones.Placement.{
  IsPlacement, place_of, place_of-extend, extend-IsPlacement,
}
use lsm_based_on_zns_ssd.Zones.Free.{AreFree, keep-AreFree, rotate-AreFree}

pub record IsManager (slots : ℕ) (m : MemoryManager) : Type 0 where
  pub cap : m.zone_cap ≡ slots * default_sstable_size
  pub zones : AreZones slots m.zone_metas
  pub count : length m.zone_metas ≡ m.zone_num
  pub few : m.zone_num < u32_mod
  pub free : AreFree m.zone_metas m.open_zone m.empty_zone
  pub in_turn : m.which_zone < length m.open_zone
  pub opens : length m.open_zone ≡ m.open_zone_num
  pub levels : length m.complete_table ≡ length m.mapping_table
  pub placement : IsPlacement m.mapping_table m.remapping_table
  pub written : (s : ℕ) (p : ℕ × ℕ) → m.remapping_table s ≡ some p → IsWritten slots m.zone_metas s
  pub pages : (keys : List ℕ) × Holds m.page_cache keys
  pub pages_cap : 0 < m.page_cache.cap

-- The zone that is written, with one more table.
abbrev pub filled : ZoneMeta → ZoneMeta
filled meta = record meta {
  write_ptr = add64 meta.write_ptr default_sstable_size;
  valid_table_num = to_u16 (meta.valid_table_num + 1);
}

-- What `next_open` comes to: only the free zones change.
pub record Rotates (metas : List ZoneMeta) (zone : ℕ) (meta : ZoneMeta) (m : MemoryManager)
    : Type 0 where
  pub open_zone : List ℕ
  pub empty_zone : QueueCache
  pub full_zone : List ℕ
  pub returns :
      next_open zone meta m
      ≡ some (record m { open_zone = open_zone; empty_zone = empty_zone; full_zone = full_zone })
  pub free : AreFree metas open_zone empty_zone
  pub opens : length open_zone ≡ length m.open_zone

next_open-room :
    (zone : ℕ) (meta : ZoneMeta) (m : MemoryManager)
    → meta.write_ptr < meta.end
    → next_open zone meta m ≡ some m
unfolding next_open
next_open-room zone meta m h = rw (lt→leb_false meta.end meta.write_ptr h) refl

next_open-full :
    (zone v : ℕ) (q : QueueCache) (meta : ZoneMeta) (m : MemoryManager)
    → meta.end ≤ meta.write_ptr
    → 0 < m.empty_zone.size
    → get (length m.empty_zone.queues) m.empty_zone ≡ some (v, q)
    → next_open zone meta m
      ≡ some (record m {
        open_zone = set m.open_zone m.which_zone v;
        empty_zone = q;
        full_zone = insert zone m.full_zone;
      })
unfolding next_open empty
next_open-full zone v q meta m h pos e =
    rw
      (
        le→leb meta.end meta.write_ptr h,
        e,
        ne→==_false m.empty_zone.size 0 (λ p. absurd (omega (arith, p, pos))),
      )
      refl

pub next_open-Rotates :
    (metas : List ZoneMeta) (zone : ℕ) (meta : ZoneMeta) (m : MemoryManager)
    → AreFree metas m.open_zone m.empty_zone
    → get_elem? m.open_zone m.which_zone ≡ some zone
    → zone < length metas
    → 0 < m.empty_zone.size
    → Rotates (set metas zone meta) zone meta m
next_open-Rotates metas zone meta m free here known pos = elim (dec_lt meta.write_ptr meta.end) [
  | yes p ↦ record {
    open_zone = m.open_zone;
    empty_zone = m.empty_zone;
    full_zone = m.full_zone;
    returns = next_open-room zone meta m p;
    free = keep-AreFree metas m.open_zone m.empty_zone free zone meta known p;
    opens = refl;
  }
  | no p ↦
      let g : Gets m.empty_zone free.queue (length m.empty_zone.queues) =
        get-Gets m.empty_zone free.queue (length m.empty_zone.queues) pos (omega arith) in
      record {
        open_zone = set m.open_zone m.which_zone g.v;
        empty_zone = taken m.empty_zone (turn m.empty_zone g.m) g.rest;
        full_zone = insert zone m.full_zone;
        returns = next_open-full zone g.v _ meta m (omega (arith, p)) pos g.returns;
        free = rotate-AreFree metas m.open_zone m.empty_zone free zone m.which_zone meta g here;
        opens = length-set m.open_zone m.which_zone g.v;
      }
]

-- The two lists of levels, with one more if the level is new.
pub record Grows (level : ℕ) (m : MemoryManager) : Type 0 where
  pub mapping : List (ℕ → Option ℕ)
  pub complete : List (ℕ → Bool)
  pub returns :
      (num s : ℕ) (table : ℕ → Option ℕ) (pending : ℕ → Bool)
      → get_elem? mapping level ≡ some table
      → get_elem? complete level ≡ some pending
      → enter_table level num s m
        ≡ some (record m {
          mapping_table = set mapping level (assign table num (some s));
          remapping_table = assign m.remapping_table s (some (level, num));
          complete_table = set complete level (assign pending num true);
        })
  pub same : (l n : ℕ) → place_of mapping l n ≡ place_of m.mapping_table l n
  pub known : level < length mapping
  pub levels : length complete ≡ length mapping
  pub placement : IsPlacement mapping m.remapping_table

pub grow :
    (level : ℕ) (m : MemoryManager)
    → level ≤ length m.mapping_table
    → length m.complete_table ≡ length m.mapping_table
    → IsPlacement m.mapping_table m.remapping_table
    → Grows level m
unfolding enter_table
grow level m h levels w = elim (dec_lt level (length m.mapping_table)) [
  | yes p ↦ record {
    mapping = m.mapping_table;
    complete = m.complete_table;
    returns = λ num s table pending e e'.
        rw
          (enter_table, le→ltb_false (length m.mapping_table) (level + 1) (omega (arith, p)), e, e')
          refl;
    same = λ l n. refl;
    known = p;
    levels = levels;
    placement = w;
  }
  | no p ↦ record {
    mapping = m.mapping_table ++ ((λ n. none) ∷ []);
    complete = m.complete_table ++ ((λ n. false) ∷ []);
    returns = λ num s table pending e e'.
        rw (enter_table, lt→ltb (length m.mapping_table) (level + 1) (omega (arith, p, h)), e, e')
          refl;
    same = place_of-extend m.mapping_table;
    known = omega (arith, p, h, length-append m.mapping_table ((λ n. none) ∷ []));
    levels = omega (
      arith,
      levels,
      length-append m.mapping_table ((λ n. none) ∷ []),
      length-append m.complete_table ((λ n. false) ∷ []),
    );
    placement = extend-IsPlacement m.mapping_table m.remapping_table w;
  }
]
