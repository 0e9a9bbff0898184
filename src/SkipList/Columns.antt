-- ===== src/SkipList/Columns.antt =====
-- The towers of a `SkipList` (src/LSM-Tree/SkipList.cpp): what can be reached from a node.
use lsm_based_on_zns_ssd.Base.{
  ℕ, suc, ◌≤◌, ◌<◌, ◌≡◌, refl, arith, if◌then◌else◌, eq→==, ne→==_false, ◌==◌, List, [], ◌∷◌, ◌++◌,
  Option, none, some,
}
use lsm_based_on_zns_ssd.SkipList.Memory.{Node}

abbrev pub Pairs : Type 0
Pairs = List (ℕ × List ℕ)

-- The pairs whose keys grow, from above `low` on.
pub data Ascends : ℕ → Pairs → Type 0 where
  no_pair : (low : ℕ) → Ascends low []
  one_more :
      (low key : ℕ) (value : List ℕ) (rest : Pairs)
      → low ≤ key
      → Ascends (suc key) rest
      → Ascends low ((key, value) ∷ rest)

pub Ascends-weaken : (low low' : ℕ) (ps : Pairs) → low' ≤ low → Ascends low ps → Ascends low' ps
Ascends-weaken _ low' _ h (no_pair low) = no_pair low'
Ascends-weaken _ low' _ h (one_more low k v rest up more) =
    one_more low' k v rest (omega (arith, up, h)) more

-- The value of a key, or the empty string.
abbrev pub value_of : ℕ → Pairs → List ℕ
value_of key [] = []
value_of key ((k, v) ∷ rest) = if k == key then v else value_of key rest

-- Node `a` stands on `level` levels, and the pairs behind its tower are `pairs`: the nodes of the lowest level, of
-- which a higher level skips some.
pub data Column (nodes : ℕ → Option Node) : ℕ → ℕ → Pairs → Type 0 where
  bottom_end :
      (a : ℕ) (node : Node)
      → nodes a ≡ some node
      → node.down ≡ none
      → node.right ≡ none
      → Column nodes 0 a []
  bottom_next :
      (a b : ℕ) (node next : Node) (rest : Pairs)
      → nodes a ≡ some node
      → node.down ≡ none
      → node.right ≡ some b
      → nodes b ≡ some next
      → Column nodes 0 b rest
      → Column nodes 0 a ((next.key, next.val) ∷ rest)
  upper_end :
      (level a d : ℕ) (node : Node) (pairs : Pairs)
      → nodes a ≡ some node
      → node.down ≡ some d
      → node.right ≡ none
      → Column nodes level d pairs
      → Column nodes (suc level) a pairs
  upper_next :
      (level a b d : ℕ) (node next : Node) (skipped rest : Pairs)
      → nodes a ≡ some node
      → node.down ≡ some d
      → node.right ≡ some b
      → nodes b ≡ some next
      → Column nodes level d (skipped ++ ((next.key, next.val) ∷ rest))
      → Column nodes (suc level) b rest
      → Column nodes (suc level) a (skipped ++ ((next.key, next.val) ∷ rest))

pub value_of-below :
    (key low : ℕ) (pairs : Pairs) → Ascends low pairs → key < low → value_of key pairs ≡ []
value_of-below key _ _ (no_pair low) h = refl
value_of-below key _ _ (one_more low k v rest up more) h =
    rw (ne→==_false k key (λ e. absurd (omega (arith, e, up, h))))
      (value_of-below key (suc k) rest more (omega (arith, up, h)))

module _ (key k : ℕ) (v : List ℕ) (rest : Pairs) where
  -- A pair in the middle: what comes before it has lower keys.
  pub Ascends-after :
      (low : ℕ) (skipped : Pairs)
      → Ascends low (skipped ++ ((k, v) ∷ rest))
      → (low ≤ k) × Ascends (suc k) rest
  Ascends-after low [] (one_more _ _ _ _ up more) = (up, more)
  Ascends-after low ((k', v') ∷ skipped) (one_more _ _ _ _ up more) =
      let r = Ascends-after (suc k') skipped more in (omega (arith, up, r.0), r.1)

  pub value_of-after :
      (low : ℕ) (skipped : Pairs)
      → Ascends low (skipped ++ ((k, v) ∷ rest))
      → k < key
      → value_of key (skipped ++ ((k, v) ∷ rest)) ≡ value_of key rest
  value_of-after low [] w h = rw (ne→==_false k key (λ e. absurd (omega (arith, e, h)))) refl
  value_of-after low ((k', v') ∷ skipped) (one_more _ _ _ _ up more) h =
      let r = Ascends-after (suc k') skipped more in
      rw (ne→==_false k' key (λ e. absurd (omega (arith, e, h, r.0))))
        (value_of-after (suc k') skipped more h)

  pub value_of-at :
      (low : ℕ) (skipped : Pairs)
      → Ascends low (skipped ++ ((k, v) ∷ rest))
      → k ≡ key
      → value_of key (skipped ++ ((k, v) ∷ rest)) ≡ v
  value_of-at low [] w h = rw (eq→== k key h) refl
  value_of-at low ((k', v') ∷ skipped) (one_more _ _ _ _ up more) h =
      let r = Ascends-after (suc k') skipped more in
      rw (ne→==_false k' key (λ e. absurd (omega (arith, e, h, r.0))))
        (value_of-at (suc k') skipped more h)
