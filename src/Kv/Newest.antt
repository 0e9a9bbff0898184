-- ===== src/Kv/Newest.antt =====
-- The value of a key in several tables, of which a later one is newer: what the merge of
-- src/LSM-Tree/kvstore.cc has to keep.
use mathlib.Core.Option.{some-injective}
use lsm_based_on_zns_ssd.Base.{
  ℕ, zero, suc, ◌<◌, ◌≡◌, ◌≢◌, refl, ap, arith, if◌then◌else◌, ◌==◌, List, [], ◌∷◌, Option, none,
  some, ◌⊎◌, inl, inr, Option-cases, get_elem?, set, eq→==, ne→==_false,
}
use lsm_based_on_zns_ssd.SkipList.Columns.{Pairs, Ascends, no_pair, one_more}

abbrev pub find_pair : ℕ → Pairs → Option (List ℕ)
find_pair key [] = none
find_pair key ((k, v) ∷ rest) = if k == key then some v else find_pair key rest

-- What the first of two has, or else the second.
abbrev pub or_else : Option (List ℕ) → Option (List ℕ) → Option (List ℕ)
or_else (some v) o = some v
or_else none o = o

abbrev pub newest : ℕ → List Pairs → Option (List ℕ)
newest key [] = none
newest key (pairs ∷ newer) = or_else (newest key newer) (find_pair key pairs)

pub find_pair-below :
    (low key : ℕ) (pairs : Pairs) → Ascends low pairs → key < low → find_pair key pairs ≡ none
find_pair-below _ key _ (no_pair low) h = refl
find_pair-below _ key _ (one_more low k v rest up more) h =
    rw (ne→==_false k key (λ e. absurd (omega (arith, e, up, h))))
      (find_pair-below (suc k) key rest more (omega (arith, up, h)))

-- If no table has the key, and if just one has it.
pub newest-none :
    (key : ℕ) (ts : List Pairs)
    → ((i : ℕ) (ps : Pairs) → get_elem? ts i ≡ some ps → find_pair key ps ≡ none)
    → newest key ts ≡ none
newest-none key [] h = refl
newest-none key (ps ∷ ts) h = rw (newest-none key ts (λ i q e. h (suc i) q e), h 0 ps refl) refl

pub newest-only :
    (key : ℕ) (ts : List Pairs) (n : ℕ) (ps : Pairs)
    → get_elem? ts n ≡ some ps
    → ((i : ℕ) (q : Pairs) → i ≢ n → get_elem? ts i ≡ some q → find_pair key q ≡ none)
    → newest key ts ≡ find_pair key ps
newest-only key [] n ps e h = absurd (ground arith)
newest-only key (p ∷ ts) zero ps e h =
    rw (newest-none key ts (λ i q e'. h (suc i) q (λ z. absurd (omega (arith, z))) e'))
      (ap (find_pair key) (some-injective p ps e))
newest-only key (p ∷ ts) (suc n) ps e h =
    let rest : newest key ts ≡ find_pair key ps =
      newest-only key ts n ps e (λ i q ne e'. h (suc i) q (λ z. ne (omega (arith, z))) e') in
    let none_here : find_pair key p ≡ none = h 0 p (λ z. absurd (omega (arith, z))) refl in
    rw (rest, none_here) (or_none (find_pair key ps))
  where
    or_none : (o : Option (List ℕ)) → or_else o none ≡ o
    or_none none = refl
    or_none (some v) = refl

-- Some table has the key.
pub newest-some :
    (key : ℕ) (ts : List Pairs) (n : ℕ) (v : List ℕ) (rest : Pairs)
    → get_elem? ts n ≡ some ((key, v) ∷ rest)
    → (w : List ℕ) × (newest key ts ≡ some w)
newest-some key [] n v rest e = absurd (ground arith)
newest-some key (p ∷ ts) zero v rest e = elim (Option-cases (newest key ts)) [
  | inl q ↦
      let same : p ≡ (key, v) ∷ rest = some-injective p ((key, v) ∷ rest) e in
      (v, rw (q, same, eq→== key key refl) refl)
  | inr (w, q) ↦ (w, rw q refl)
]
newest-some key (p ∷ ts) (suc n) v rest e =
    let (w, q) = newest-some key ts n v rest e in (w, rw q refl)

-- The first pair of a table goes: that changes nothing for another key, nor if a newer table has the key.
pub newest-drop :
    (key : ℕ) (ts : List Pairs) (n k : ℕ) (v : List ℕ) (rest : Pairs)
    → get_elem? ts n ≡ some ((k, v) ∷ rest)
    → ((k ≢ key)
        ⊎ ((m : ℕ) × (w : List ℕ) × (more : Pairs) × (n < m)
            × (get_elem? ts m ≡ some ((key, w) ∷ more))))
    → newest key (set ts n rest) ≡ newest key ts
newest-drop key [] n k v rest e h = absurd (ground arith)
newest-drop key (p ∷ ts) zero k v rest e (inl ne) =
    let same : p ≡ (k, v) ∷ rest = some-injective p ((k, v) ∷ rest) e in
    rw (same, ne→==_false k key ne) refl
newest-drop key (p ∷ ts) zero k v rest e (inr (zero, w, more, less, there)) =
    absurd (omega (arith, less))
newest-drop key (p ∷ ts) zero k v rest e (inr (suc m, w, more, less, there)) =
    let (u, q) = newest-some key ts m w more there in rw q refl
newest-drop key (p ∷ ts) (suc n) k v rest e (inl ne) =
    ap (λ o. or_else o (find_pair key p)) (newest-drop key ts n k v rest e (inl ne))
newest-drop key (p ∷ ts) (suc n) k v rest e (inr (zero, w, more, less, there)) =
    absurd (omega (arith, less))
newest-drop key (p ∷ ts) (suc n) k v rest e (inr (suc m, w, more, less, there)) =
    ap (λ o. or_else o (find_pair key p))
      (newest-drop key ts n k v rest e (inr (m, w, more, omega (arith, less), there)))
