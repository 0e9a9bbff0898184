-- ===== src/Zones/Missed.antt =====
-- Which pages `getValue` of src/include/utils.cpp has to read, and in which runs.
use mathlib.Core.List.{append_assoc, append-nil}
use lsm_based_on_zns_ssd.Base.{
  ℕ, zero, suc, ◌+◌, ◌-◌, ◌≤◌, ◌≡◌, refl, sym, ap, ◌∙◌, arith, true, false, if◌then◌else◌, List, [],
  ◌∷◌, ◌++◌,
}
use lsm_based_on_zns_ssd.Cache.Turns.{numbers}
use lsm_based_on_zns_ssd.Cache.Keys.{contains, recent_put}

-- The keys of a cache when the `k` pages from `page` on have been used.
abbrev pub touched : (cap k page : ℕ) → List ℕ → List ℕ
touched cap zero page keys = keys
touched cap (suc k) page keys = touched cap k (page + 1) (recent_put cap page keys)

-- Those of them that are not in the cache when it is their turn.
abbrev pub missed : (cap k page : ℕ) → List ℕ → List ℕ
missed cap zero page keys = []
missed cap (suc k) page keys =
    let rest = missed cap k (page + 1) (recent_put cap page keys) in
    if contains page keys then rest else page ∷ rest

-- The pages from `first` to `last`, and those of several intervals.
abbrev pub pages : ℕ → ℕ → List ℕ
pages first last = numbers first (last + 1 - first)

abbrev pub all_pages : List (ℕ × ℕ) → List ℕ
all_pages [] = []
all_pages ((first, last) ∷ rest) = pages first last ++ all_pages rest

-- Between two intervals there is a page that is in neither, and the last one ends before page `top - 1`.
pub data Apart : ℕ → List (ℕ × ℕ) → Type 0 where
  no_interval : (top : ℕ) → Apart top []
  next_interval :
      (top first last : ℕ) (rest : List (ℕ × ℕ))
      → Apart top rest
      → top ≤ first
      → first ≤ last
      → Apart (last + 2) (rest ++ ((first, last) ∷ []))

pub all_pages-append : (xs ys : List (ℕ × ℕ)) → all_pages (xs ++ ys) ≡ all_pages xs ++ all_pages ys
all_pages-append [] ys = refl
all_pages-append ((a, b) ∷ xs) ys =
    ap (λ r. pages a b ++ r) (all_pages-append xs ys)
    ∙ sym (append_assoc (pages a b) (all_pages xs) (all_pages ys))

pub all_pages-snoc :
    (xs : List (ℕ × ℕ)) (a b : ℕ) → all_pages (xs ++ ((a, b) ∷ [])) ≡ all_pages xs ++ pages a b
all_pages-snoc xs a b =
    all_pages-append xs ((a, b) ∷ []) ∙ ap (λ r. all_pages xs ++ r) (append-nil (pages a b))

numbers-snoc : (a n : ℕ) → numbers a (suc n) ≡ numbers a n ++ ((a + n) ∷ [])
numbers-snoc a zero = ap (λ x. x ∷ []) (omega arith)
numbers-snoc a (suc n) =
    ap (λ r. a ∷ r) (numbers-snoc (a + 1) n ∙ ap (λ x. numbers (a + 1) n ++ (x ∷ [])) (omega arith))

pub pages-snoc :
    (first last : ℕ)
    → first ≤ last + 1
    → pages first (last + 1) ≡ pages first last ++ ((last + 1) ∷ [])
pages-snoc first last h =
    let n = last + 1 - first in
    ap (numbers first) {y = suc n} (omega arith)
    ∙ numbers-snoc first n
    ∙ ap (λ x. numbers first n ++ (x ∷ [])) (omega arith)

pub pages-one : (page : ℕ) → pages page page ≡ page ∷ []
pages-one page = ap (numbers page) {y = 1} (omega arith)

module _ (cap k page : ℕ) (keys : List ℕ) where
  abbrev later : List ℕ
  later = missed cap k (page + 1) (recent_put cap page keys)

  pub missed-hit : contains page keys ≡ true → missed cap (suc k) page keys ≡ later
  missed-hit e = ap (λ b. if b then later else page ∷ later) e

  pub missed-miss : contains page keys ≡ false → missed cap (suc k) page keys ≡ page ∷ later
  missed-miss e = ap (λ b. if b then later else page ∷ later) e
