-- ===== src/Zones/Cover.antt =====
-- The pages that the intervals of `getValue` in src/include/utils.cpp cover, page by page.
use mathlib.Core.List.{append_assoc, append-nil}
use lsm_based_on_zns_ssd.Base.{
  ℕ, suc, ◌+◌, ◌≤◌, ◌≡◌, sym, ap, ◌∙◌, arith, true, false, if◌then◌else◌, ◌==◌, List, [], ◌∷◌, ◌++◌,
}
use lsm_based_on_zns_ssd.Cache.Keys.{contains, recent_put}
use lsm_based_on_zns_ssd.Zones.Reads.{no_batch}
use lsm_based_on_zns_ssd.Zones.Missed.{
  missed, pages, pages-snoc, pages-one, missed-hit, missed-miss,
}

-- The interval that is open, if there is one.
abbrev pub open_pages : ℕ → ℕ → List ℕ
open_pages batch_left batch_right =
    if batch_left == no_batch then [] else pages batch_left batch_right

pub open_pages-some :
    (left right : ℕ) → (left == no_batch) ≡ false → open_pages left right ≡ pages left right
open_pages-some left right e = ap (λ b. if b then [] else pages left right) e

-- What is covered when a batch begins, ends, or goes on at a page.
module _ (cap k page left right : ℕ) (keys : List ℕ) (before : List ℕ) where
  abbrev later : List ℕ
  later = missed cap k (page + 1) (recent_put cap page keys)

  pub batch_begins :
      (page == no_batch) ≡ false
      → contains page keys ≡ false
      → before ++ open_pages page page ++ later ≡ before ++ [] ++ missed cap (suc k) page keys
  batch_begins new q =
      ap (λ o. before ++ o ++ later) (open_pages-some page page new ∙ pages-one page)
      ∙ append_assoc before (page ∷ []) later
      ∙ ap (λ y. y ++ (page ∷ later)) (sym (append-nil before))
      ∙ ap (λ ms. before ++ [] ++ ms) (sym (missed-miss cap k page keys q))

  pub batch_ends :
      (left == no_batch) ≡ false
      → contains page keys ≡ true
      → before ++ pages left right ++ [] ++ later
        ≡ before ++ open_pages left right ++ missed cap (suc k) page keys
  batch_ends some_batch q =
      ap (λ x. x ++ later) (append-nil (before ++ pages left right))
      ∙ ap (λ o. before ++ o ++ later) (sym (open_pages-some left right some_batch))
      ∙ ap (λ ms. before ++ open_pages left right ++ ms) (sym (missed-hit cap k page keys q))

  pub batch_grows :
      (left == no_batch) ≡ false
      → contains page keys ≡ false
      → left ≤ right
      → right + 1 ≡ page
      → before ++ open_pages left page ++ later
        ≡ before ++ open_pages left right ++ missed cap (suc k) page keys
  batch_grows some_batch q up next =
      let grown : pages left page ≡ pages left right ++ (page ∷ []) =
        ap (pages left) (sym next)
        ∙ pages-snoc left right (omega arith)
        ∙ ap (λ x. pages left right ++ (x ∷ [])) next in
      ap (λ o. before ++ o ++ later) (open_pages-some left page some_batch ∙ grown)
      ∙ ap (λ x. x ++ later) (sym (append_assoc before (pages left right) (page ∷ [])))
      ∙ append_assoc (before ++ pages left right) (page ∷ []) later
      ∙ ap (λ o. before ++ o ++ (page ∷ later)) (sym (open_pages-some left right some_batch))
      ∙ ap (λ ms. before ++ open_pages left right ++ ms) (sym (missed-miss cap k page keys q))
