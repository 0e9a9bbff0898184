-- ===== src/Zones/Placement.antt =====
-- The two tables of places of `MemoryManager` (src/include/utils.h): from a table to its slot, and from a slot
-- to its table.

use lsm_based_on_zns_ssd.Base.{
  ℕ, zero, suc, ◌≡◌, refl, sym, ap, ◌∙◌, arith, if◌then◌else◌, ◌==◌, List, [], ◌∷◌, ◌++◌, Option,
  none, some, ◌>>=◌, get_elem?, set, get_elem?-set_self, get_elem?-set_ne, lt-get_elem?, ℕ_discrete,
  eq→==, ne→==_false,
}
use lsm_based_on_zns_ssd.Zones.State.{assign}

abbrev pub Mapping : Type 0
Mapping = List (ℕ → Option ℕ)

abbrev pub place_of : Mapping → ℕ → ℕ → Option ℕ
place_of mapping level num = get_elem? mapping level >>= λ table. table num

-- Each table has one slot, and each slot one table.
pub record IsPlacement (mapping : Mapping) (remapping : ℕ → Option (ℕ × ℕ)) : Type 0 where
  pub forward :
      (level num s : ℕ) → place_of mapping level num ≡ some s → remapping s ≡ some (level, num)
  pub backward :
      (level num s : ℕ) → remapping s ≡ some (level, num) → place_of mapping level num ≡ some s

pub place_of-set :
    (mapping : Mapping) (level num l n : ℕ) (v : Option ℕ) (table : ℕ → Option ℕ)
    → get_elem? mapping level ≡ some table
    → place_of (set mapping level (assign table num v)) l n ≡ (
        if level == l then (if num == n then v else place_of mapping l n) else place_of mapping l n)
place_of-set mapping level num l n v table here = elim (ℕ_discrete level l) [
  | yes p ↦
      let there : get_elem? mapping l ≡ some table = ap (get_elem? mapping) (sym p) ∙ here in
      let new : get_elem? (set mapping level (assign table num v)) l ≡ some (assign table num v) =
        ap (get_elem? (set mapping level (assign table num v))) (sym p)
        ∙ get_elem?-set_self mapping level (assign table num v)
            (lt-get_elem? mapping level table here) in
      rw (new, there, eq→== level l p) refl
  | no p ↦ rw (get_elem?-set_ne mapping level l (assign table num v) p, ne→==_false level l p) refl
]

-- A level without tables at the end changes nothing.
pub place_of-extend :
    (mapping : Mapping) (l n : ℕ)
    → place_of (mapping ++ ((λ k. none) ∷ [])) l n ≡ place_of mapping l n
place_of-extend [] zero n = refl
place_of-extend [] (suc l) n = refl
place_of-extend (t ∷ mapping) zero n = refl
place_of-extend (t ∷ mapping) (suc l) n = place_of-extend mapping l n

-- The two tables after a change, at one table `(l, n)`, which was at `p`, and one slot `t`, which held `r`.
module _ (level num l n t : ℕ) (p : Option ℕ) (r : Option (ℕ × ℕ)) where
  abbrev at_table : Option ℕ → Option ℕ
  at_table v = if level == l then (if num == n then v else p) else p

  entered :
      (s : ℕ)
      → (p ≡ some t → r ≡ some (l, n))
      → (s ≡ t → r ≡ none)
      → at_table (some s) ≡ some t
      → (if s == t then some (level, num) else r) ≡ some (l, n)
  entered s forward free e = ground arith

  entered_back :
      (s : ℕ)
      → (r ≡ some (l, n) → p ≡ some t)
      → (if s == t then some (level, num) else r) ≡ some (l, n)
      → (level ≡ l → num ≡ n → p ≡ none)
      → at_table (some s) ≡ some t
  entered_back s backward e gone = ground arith

  left :
      (s : ℕ)
      → (p ≡ some t → r ≡ some (l, n))
      → (s ≡ t → r ≡ some (level, num))
      → at_table none ≡ some t
      → (if s == t then none else r) ≡ some (l, n)
  left s forward was e = ground arith

  left_back :
      (s : ℕ)
      → (r ≡ some (l, n) → p ≡ some t)
      → (level ≡ l → num ≡ n → p ≡ some s)
      → (if s == t then none else r) ≡ some (l, n)
      → at_table none ≡ some t
  left_back s backward was e = ground arith

  moved :
      (from to : ℕ)
      → (p ≡ some t → r ≡ some (l, n))
      → (from ≡ t → r ≡ some (level, num))
      → (to ≡ t → r ≡ none)
      → at_table (some to) ≡ some t
      → (if to == t then some (level, num) else if from == t then none else r) ≡ some (l, n)
  moved from to forward was free e = ground arith

  moved_back :
      (from to : ℕ)
      → (r ≡ some (l, n) → p ≡ some t)
      → (level ≡ l → num ≡ n → p ≡ some from)
      → (if to == t then some (level, num) else if from == t then none else r) ≡ some (l, n)
      → at_table (some to) ≡ some t
  moved_back from to backward was e = ground arith

module _ (mapping : Mapping) (remapping : ℕ → Option (ℕ × ℕ)) (w : IsPlacement mapping remapping)
    (level num : ℕ) (table : ℕ → Option ℕ) (here : get_elem? mapping level ≡ some table) where
  value : (l n : ℕ) (v : Option ℕ) → table num ≡ v → level ≡ l → num ≡ n → place_of mapping l n ≡ v
  value l n v e p q = rw (← p, ← q, here) e

  place_after :
      (l n t : ℕ) (v : Option ℕ)
      → place_of (set mapping level (assign table num v)) l n ≡ some t
      → (if level == l
          then (if num == n then v else place_of mapping l n)
          else place_of mapping l n)
        ≡ some t
  place_after l n t v e = sym (place_of-set mapping level num l n v table here) ∙ e

  pub enter-IsPlacement :
      (s : ℕ)
      → table num ≡ none
      → remapping s ≡ none
      → IsPlacement
          (set mapping level (assign table num (some s)))
          (assign remapping s (some (level, num)))
  enter-IsPlacement s gone free = record {
    forward = λ l n t e.
        entered level num l n t (place_of mapping l n) (remapping t) s (w.forward l n t)
          (λ q. ap remapping (sym q) ∙ free) (place_after l n t (some s) e);
    backward = λ l n t e.
        place_of-set mapping level num l n (some s) table here
        ∙ entered_back level num l n t (place_of mapping l n) (remapping t) s (w.backward l n t) e
            (value l n none gone);
  }

  held : (s t : ℕ) → table num ≡ some s → s ≡ t → remapping t ≡ some (level, num)
  held s t was q = ap remapping (sym q) ∙ w.forward level num s (rw here was)

  pub leave-IsPlacement :
      (s : ℕ)
      → table num ≡ some s
      → IsPlacement (set mapping level (assign table num none)) (assign remapping s none)
  leave-IsPlacement s was = record {
    forward = λ l n t e.
        left level num l n t (place_of mapping l n) (remapping t) s (w.forward l n t) (held s t was)
          (place_after l n t none e);
    backward = λ l n t e.
        place_of-set mapping level num l n none table here
        ∙ left_back level num l n t (place_of mapping l n) (remapping t) s (w.backward l n t)
            (value l n (some s) was) e;
  }

  pub move-IsPlacement :
      (from to : ℕ)
      → table num ≡ some from
      → remapping to ≡ none
      → IsPlacement
          (set mapping level (assign table num (some to)))
          (assign (assign remapping from none) to (some (level, num)))
  move-IsPlacement from to was free = record {
    forward = λ l n t e.
        moved level num l n t (place_of mapping l n) (remapping t) from to (w.forward l n t)
          (held from t was) (λ q. ap remapping (sym q) ∙ free) (place_after l n t (some to) e);
    backward = λ l n t e.
        place_of-set mapping level num l n (some to) table here
        ∙ moved_back level num l n t (place_of mapping l n) (remapping t) from to (w.backward l n t)
            (value l n (some from) was) e;
  }

pub extend-IsPlacement :
    (mapping : Mapping) (remapping : ℕ → Option (ℕ × ℕ))
    → IsPlacement mapping remapping
    → IsPlacement (mapping ++ ((λ n. none) ∷ [])) remapping
extend-IsPlacement mapping remapping w = record {
  forward = λ l n t e. w.forward l n t (sym (place_of-extend mapping l n) ∙ e);
  backward = λ l n t e. place_of-extend mapping l n ∙ w.backward l n t e;
}
