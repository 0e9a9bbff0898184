-- ===== src/Zones/Write.antt =====
-- `writeTable` of src/include/utils.cpp after its loop, on a manager that keeps its invariant.
use lsm_based_on_zns_ssd.Base.{
  ℕ, suc, ◌+◌, ◌*◌, ◌%◌, ◌≤◌, ◌<◌, ◌≡◌, refl, sym, eq→==, get_elem?-set_self, Bool, true, ap, subst,
  ◌∙◌, arith, Bool, true, if◌then◌else◌, ◌==◌, ◌∷◌, Option, none, some, ◌>>=◌, length, get_elem?,
  set, inl, inr, Option-cases, get_elem?-lt, lt-get_elem?, le→ltb_false, length-set, ℕ_discrete,
  add64-eq,
}
use native.Mathlib.Nat.{mod-lt}
use lsm_based_on_zns_ssd.Zones.State.{
  MemoryManager, enqueue_write, assign, log, default_sstable_size,
}
use lsm_based_on_zns_ssd.Zones.Tables.{place_table, with_meta}
use lsm_based_on_zns_ssd.Cache.Queues.{getsize}
use lsm_based_on_zns_ssd.Zones.Reset.{manager_write_table}
use lsm_based_on_zns_ssd.Zones.Slots.{
  IsWritten, write_ptr-fits, advance-AreZones, advance-IsWritten, next-IsWritten, not-IsWritten,
}
use lsm_based_on_zns_ssd.Zones.Placement.{place_of, place_of-set, enter-IsPlacement}
use lsm_based_on_zns_ssd.Zones.Free.{HasRoom, open-HasRoom}
use lsm_based_on_zns_ssd.Zones.Place.{IsManager, filled, Rotates, next_open-Rotates, Grows, grow}

-- A table is entered at a slot that no table had, and a worker is told to write there.
pub record Places (slots level num : ℕ) (m : MemoryManager) : Type 0 where
  pub slot : ℕ
  pub after : MemoryManager
  pub returns : place_table level num m ≡ some after
  pub keeps : IsManager slots after
  pub fresh : m.remapping_table slot ≡ none
  pub entry :
      (l n : ℕ)
      → place_of after.mapping_table l n ≡ (
          if level == l
          then (if num == n then some slot else place_of m.mapping_table l n)
          else place_of m.mapping_table l n)
  pub pending :
      (table : ℕ → Bool) × (get_elem? after.complete_table level ≡ some table) × (table num ≡ true)
  pub task :
      after.events
      ≡ enqueue_write ((m.which_zone + 1) % m.open_zone_num + 1) default_sstable_size slot
        ∷ m.events

module _ (slots level num : ℕ) (m : MemoryManager) (w : IsManager slots m) where
  module _ (zone : ℕ) (r : HasRoom m.zone_metas zone) where
    next_slot : (filled r.meta).write_ptr ≡ r.meta.write_ptr + default_sstable_size
    next_slot = add64-eq r.meta.write_ptr default_sstable_size (
        write_ptr-fits slots zone m.zone_metas r.meta
          (record r.meta { write_ptr = r.meta.write_ptr + default_sstable_size }) w.zones r.here
          r.room refl refl refl)

    free_slot : m.remapping_table r.meta.write_ptr ≡ none
    free_slot = elim (Option-cases (m.remapping_table r.meta.write_ptr)) [
      | inl e ↦ e
      | inr p ↦ absurd (
          not-IsWritten slots zone m.zone_metas r.meta (filled r.meta) w.zones r.here r.room refl
            refl next_slot (w.written r.meta.write_ptr (p.0) (p.1)))
    ]

    written_after :
        (s : ℕ) (p : ℕ × ℕ)
        → assign m.remapping_table r.meta.write_ptr (some (level, num)) s ≡ some p
        → IsWritten slots (set m.zone_metas zone (filled r.meta)) s
    written_after s p e = elim (ℕ_discrete r.meta.write_ptr s) [
      | yes q ↦ subst (IsWritten slots (set m.zone_metas zone (filled r.meta))) q (
          next-IsWritten slots zone m.zone_metas r.meta (filled r.meta) w.zones r.here r.room refl
            refl next_slot)
      | no q ↦
          let old : m.remapping_table s ≡ some p = ground arith in
          advance-IsWritten slots zone m.zone_metas r.meta (filled r.meta) w.zones r.here r.room
            refl refl next_slot s (w.written s p old)
    ]

  -- With an empty zone at hand, and a table that is not there yet.
  pub place_table-Places :
      level ≤ length m.mapping_table
      → place_of m.mapping_table level num ≡ none
      → 0 < m.empty_zone.size
      → Places slots level num m
  unfolding place_table
  place_table-Places h gone pos =
      let z : (zone : ℕ) × (get_elem? m.open_zone m.which_zone ≡ some zone) =
        get_elem?-lt m.open_zone m.which_zone w.in_turn in
      let r : HasRoom m.zone_metas (z.0) =
        open-HasRoom m.zone_metas m.open_zone m.empty_zone w.free (z.0) m.which_zone (z.1) in
      let known : z.0 < length m.zone_metas = lt-get_elem? m.zone_metas (z.0) r.meta r.here in
      let m₀ : MemoryManager = with_meta (z.0) (filled r.meta) m in
      let n : Rotates (set m.zone_metas (z.0) (filled r.meta)) (z.0) (filled r.meta) m₀ =
        next_open-Rotates m.zone_metas (z.0) (filled r.meta) m₀ w.free (z.1) known pos in
      let which = (m.which_zone + 1) % m.open_zone_num in
      let m₁ : MemoryManager = record m₀ {
        open_zone = n.open_zone;
        empty_zone = n.empty_zone;
        full_zone = n.full_zone;
        which_zone = which;
      } in
      let g : Grows level m₁ = grow level m₁ h w.levels w.placement in
      let t : (table : ℕ → Option ℕ) × (get_elem? g.mapping level ≡ some table) =
        get_elem?-lt g.mapping level g.known in
      let c : (pending : ℕ → Bool) × (get_elem? g.complete level ≡ some pending) =
        get_elem?-lt g.complete level (omega (arith, g.known, g.levels)) in
      let s = r.meta.write_ptr in
      record {
        slot = s;
        after = log (enqueue_write (which + 1) default_sstable_size s) (record m₁ {
          mapping_table = set g.mapping level (assign (t.0) num (some s));
          remapping_table = assign m.remapping_table s (some (level, num));
          complete_table = set g.complete level (assign (c.0) num true);
        });
        returns = rw (z.1, r.here, n.returns, g.returns num s (t.0) (c.0) (t.1) (c.1)) refl;
        keeps = record {
          cap = w.cap;
          zones =
              advance-AreZones slots (z.0) m.zone_metas r.meta (filled r.meta) w.zones r.here r.room
                refl refl (next_slot (z.0) r);
          few = w.few;
          pages = w.pages;
          pages_cap = w.pages_cap;
          count = length-set m.zone_metas (z.0) (filled r.meta) ∙ w.count;
          free = n.free;
          in_turn = omega (
            arith,
            n.opens,
            w.opens,
            w.in_turn,
            mod-lt (m.which_zone + 1) {m = m.open_zone_num} (omega (arith, w.opens, w.in_turn)),
          );
          opens = n.opens ∙ w.opens;
          levels =
              length-set g.complete level (assign (c.0) num true)
              ∙ g.levels
              ∙ sym (length-set g.mapping level (assign (t.0) num (some s)));
          placement =
              enter-IsPlacement g.mapping m.remapping_table g.placement level num (t.0) (t.1) s
                (ap (λ (o : Option (ℕ → Option ℕ)). o >>= λ f. f num) (sym (t.1))
                  ∙ g.same level num
                  ∙ gone)
                (free_slot (z.0) r);
          written = written_after (z.0) r;
        };
        fresh = free_slot (z.0) r;
        entry =
            λ l k. place_of-set g.mapping level num l k (some s) (t.0) (t.1) ∙ rw (g.same l k) refl;
        pending = (
          assign (c.0) num true,
          get_elem?-set_self g.complete level (assign (c.0) num true)
              (omega (arith, g.known, g.levels)),
          rw (eq→== num num refl) refl,
        );
        task = refl;
      }

  -- `writeTable` itself, when enough zones are empty.
  pub manager_write_table-Places :
      (fuel : ℕ)
      → level ≤ length m.mapping_table
      → place_of m.mapping_table level num ≡ none
      → m.zone_num ≤ 20 * m.empty_zone.size
      → (p : Places slots level num m) × (manager_write_table (suc fuel) level num m ≡ some p.after)
  unfolding manager_write_table getsize
  manager_write_table-Places fuel h gone enough =
      let z : (zone : ℕ) × (get_elem? m.open_zone m.which_zone ≡ some zone) =
        get_elem?-lt m.open_zone m.which_zone w.in_turn in
      let r : HasRoom m.zone_metas (z.0) =
        open-HasRoom m.zone_metas m.open_zone m.empty_zone w.free (z.0) m.which_zone (z.1) in
      let p : Places slots level num m =
        place_table-Places h gone
          (omega (arith, enough, w.count, lt-get_elem? m.zone_metas (z.0) r.meta r.here)) in
      (p, rw (le→ltb_false (20 * m.empty_zone.size) m.zone_num enough) p.returns)
