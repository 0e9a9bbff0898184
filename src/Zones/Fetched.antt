-- ===== src/Zones/Fetched.antt =====
-- The reads of the device in `getValue` of src/include/utils.cpp.
use lsm_based_on_zns_ssd.Base.{
  ℕ, ◌+◌, ◌-◌, ◌*◌, ◌≤◌, ◌≡◌, refl, sym, ap, ap₂, ◌∙◌, arith, true, List, [], ◌∷◌, ◌++◌, add64,
  sub64, mul64, add64-eq, sub64-eq, mul64-eq, u64_mod,
}
use lsm_based_on_zns_ssd.Zones.State.{MemoryManager, Event, femu_read_call, default_page_size}
use lsm_based_on_zns_ssd.Zones.Reads.{read_intervals}
use lsm_based_on_zns_ssd.Zones.Missed.{Apart, no_interval, next_interval}

-- One read for each interval, of all its pages; the latest event comes first.
abbrev pub fetched : List (ℕ × ℕ) → List Event → List Event
fetched [] es = es
fetched ((first, last) ∷ rest) es =
    fetched rest (
      femu_read_call ((last + 1 - first) * default_page_size) (first * default_page_size) true ∷ es)

fetched-append :
    (xs ys : List (ℕ × ℕ)) (es : List Event) → fetched (xs ++ ys) es ≡ fetched ys (fetched xs es)
fetched-append [] ys es = refl
fetched-append ((a, b) ∷ xs) ys es = fetched-append xs ys _

read_intervals-append :
    (xs ys : List (ℕ × ℕ)) (m : MemoryManager)
    → read_intervals (xs ++ ys) m ≡ read_intervals ys (read_intervals xs m)
unfolding read_intervals
read_intervals-append [] ys m = refl
read_intervals-append ((a, b) ∷ xs) ys m = read_intervals-append xs ys _

-- The arithmetic of a read does not wrap.
read-len :
    (first last : ℕ)
    → first ≤ last
    → (last + 2) * default_page_size ≤ u64_mod
    → mul64 (add64 (sub64 last first) 1) default_page_size ≡ (last + 1 - first) * default_page_size
read-len first last h k =
    ap (λ d. mul64 (add64 d 1) default_page_size) (sub64-eq last first h (omega arith))
    ∙ ap (λ d. mul64 d default_page_size) (add64-eq (last - first) 1 (omega arith))
    ∙ mul64-eq (last - first + 1) default_page_size (omega arith)
    ∙ ap (λ d. d * default_page_size) (omega arith)

pub read_intervals-fetched :
    (top : ℕ) (interval : List (ℕ × ℕ)) (m : MemoryManager)
    → Apart top interval
    → top * default_page_size ≤ u64_mod
    → read_intervals interval m ≡ record m { events = fetched interval m.events }
unfolding read_intervals
read_intervals-fetched _ _ m (no_interval top) h = refl
read_intervals-fetched _ _ m (next_interval top first last rest apart under up) h =
    let r : read_intervals rest m ≡ record m { events = fetched rest m.events } =
      read_intervals-fetched top rest m apart (omega (arith, under, up, h)) in
    read_intervals-append rest ((first, last) ∷ []) m
    ∙ ap (read_intervals ((first, last) ∷ [])) r
    ∙ ap₂
        (λ len offset. record m { events = femu_read_call len offset true ∷ fetched rest m.events })
        (read-len first last up h) (mul64-eq first default_page_size (omega (arith, up, h)))
    ∙ ap (λ es. record m { events = es }) (sym (fetched-append rest ((first, last) ∷ []) m.events))
