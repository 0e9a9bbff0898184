-- ===== src/Zones/Delete.antt =====
-- `deleteTable` of src/include/utils.cpp, on a manager that keeps its invariant.

use lsm_based_on_zns_ssd.Base.{
  ℕ, ◌+◌, ◌-◌, ◌/◌, ◌≡◌, refl, sym, ap, ◌∙◌, arith, Bool, true, false, ◌&&◌, if◌then◌else◌, ◌==◌,
  leb, [], ◌∷◌, ◌++◌, Option, none, some, ◌>>=◌, get_elem?, set, get_elem?-lt, lt→leb_false,
  lt-get_elem?, length-set, add64, add64-eq, to_u32, to_u32-eq,
}
use lsm_based_on_zns_ssd.Zones.State.{
  MemoryManager, ZoneMeta, assign, insert, default_sstable_size, default_page_size,
}
use lsm_based_on_zns_ssd.Zones.Tables.{manager_delete_table, to_u16}
use lsm_based_on_zns_ssd.Zones.Slots.{IsWritten, zone-of_slot, slot-fits}
use lsm_based_on_zns_ssd.Zones.Placement.{place_of, place_of-set, leave-IsPlacement}
use lsm_based_on_zns_ssd.Zones.Place.{IsManager}
use lsm_based_on_zns_ssd.Zones.Pages.{Forgets, forget_pages-Forgets}
use lsm_based_on_zns_ssd.Zones.Counts.{SamePlace, same-AreZones, same-IsWritten, same-AreFree}

-- The zone in which a table was, with one table less.
abbrev emptied : ℕ → ZoneMeta → ZoneMeta
emptied s meta = record meta {
  valid_table_num = to_u16 (meta.valid_table_num + 65_535);
  deleted_table = meta.deleted_table ++ (s ∷ []);
}

-- The table is gone, its pages are not in the cache, and nothing else is asked of the device.
pub record Deletes (slots level num s : ℕ) (m : MemoryManager) : Type 0 where
  pub after : MemoryManager
  pub returns : manager_delete_table level num m ≡ some after
  pub keeps : IsManager slots after
  pub entry :
      (l n : ℕ)
      → place_of after.mapping_table l n ≡ (
          if level == l
          then (if num == n then none else place_of m.mapping_table l n)
          else place_of m.mapping_table l n)
  pub cached :
      (page : ℕ)
      → after.page_cache.map page ≡ (
          if leb (s / default_page_size) page
            && leb page ((s + default_sstable_size) / default_page_size)
          then none
          else m.page_cache.map page)
  pub quiet : after.events ≡ m.events

reset_if :
    (b : Bool) (order : ℕ) (m : MemoryManager)
    → (if b then record m { reset_zones = insert order m.reset_zones } else m)
      ≡ record m { reset_zones = if b then insert order m.reset_zones else m.reset_zones }
reset_if true order m = refl
reset_if false order m = refl

module _ (slots level num s : ℕ) (m : MemoryManager) (w : IsManager slots m) where
  -- A table that is there and is not being written.
  pub manager_delete_table-Deletes :
      place_of m.mapping_table level num ≡ some s
      → (pending : ℕ → Bool) → get_elem? m.complete_table level ≡ some pending
      → pending num ≡ false
      → Deletes slots level num s m
  unfolding manager_delete_table
  manager_delete_table-Deletes here pending e done =
      let t : (table : ℕ → Option ℕ) × (get_elem? m.mapping_table level ≡ some table) =
        get_elem?-lt m.mapping_table level
          (omega (arith, w.levels, lt-get_elem? m.complete_table level pending e)) in
      let there : t.0 num ≡ some s =
        ap (λ (o : Option (ℕ → Option ℕ)). o >>= λ f. f num) (sym (t.1)) ∙ here in
      let r : IsWritten slots m.zone_metas s =
        w.written s (level, num) (w.placement.forward level num s here) in
      let order : to_u32 (s / m.zone_cap) ≡ r.zone =
        ap (λ c. to_u32 (s / c)) w.cap
        ∙ ap to_u32 (zone-of_slot slots m.zone_metas s w.zones r)
        ∙ to_u32-eq r.zone
            (omega (arith, w.few, w.count, lt-get_elem? m.zone_metas r.zone r.meta r.here)) in
      let first = s / default_page_size in
      let last = (s + default_sstable_size) / default_page_size in
      let right : add64 s default_sstable_size ≡ s + default_sstable_size =
        add64-eq s default_sstable_size (omega (arith, slot-fits slots m.zone_metas s w.zones r)) in
      let f : Forgets (last + 1 - first) first m.page_cache =
        forget_pages-Forgets (last + 1 - first) first m.page_cache (w.pages.0) (w.pages.1) in
      let same : SamePlace r.meta (emptied s r.meta) = record {
        start = refl;
        end = refl;
        at = refl;
      } in
      let metas = set m.zone_metas r.zone (emptied s r.meta) in
      let full = leb r.meta.end r.meta.write_ptr in
      record {
        after = record m {
          mapping_table = set m.mapping_table level (assign (t.0) num none);
          remapping_table = assign m.remapping_table s none;
          page_cache = f.after;
          zone_metas = metas;
          reset_zones = if full then insert r.zone m.reset_zones else m.reset_zones;
        };
        returns =
            rw (e, t.1)
              (rw (◌>>=◌, there, order)
                (rw (r.here, right)
                  (rw (f.returns, lt→leb_false r.meta.write_ptr s (omega (arith, r.below)), done)
                    (ap some (reset_if full r.zone _)))));
        keeps = record {
          cap = w.cap;
          zones =
              same-AreZones m.zone_metas r.zone r.meta (emptied s r.meta) r.here same slots w.zones;
          count = length-set m.zone_metas r.zone (emptied s r.meta) ∙ w.count;
          few = w.few;
          free =
              same-AreFree m.zone_metas r.zone r.meta (emptied s r.meta) r.here same m.open_zone
                m.empty_zone w.free;
          in_turn = w.in_turn;
          opens = w.opens;
          levels = w.levels ∙ sym (length-set m.mapping_table level (assign (t.0) num none));
          placement =
              leave-IsPlacement m.mapping_table m.remapping_table w.placement level num (t.0) (t.1)
                s there;
          written = λ k p q.
              same-IsWritten m.zone_metas r.zone r.meta (emptied s r.meta) r.here same slots k
                (w.written k p (ground arith));
          pages = (f.keys, f.holds);
          pages_cap = rw f.cap w.pages_cap;
        };
        entry = λ l n. place_of-set m.mapping_table level num l n none (t.0) (t.1);
        cached = λ page. f.lookups page ∙ ground arith;
        quiet = refl;
      }
