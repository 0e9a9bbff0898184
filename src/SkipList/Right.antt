-- ===== src/SkipList/Right.antt =====
-- The loop to the right in `SkipList::get` of src/LSM-Tree/SkipList.cpp.
use mathlib.Core.Option.{some-injective}
use lsm_based_on_zns_ssd.Base.{
  ℕ, zero, suc, ◌+◌, ◌≤◌, ◌<◌, ◌≡◌, refl, sym, ap, ◌∙◌, arith, true, false, if◌then◌else◌, ltb,
  ltb→lt, [], ◌∷◌, ◌++◌, Option, none, some, ◌>>=◌, length, length-append, Bool-cases, inl, inr,
}
use lsm_based_on_zns_ssd.SkipList.Memory.{Node, go_right}
use lsm_based_on_zns_ssd.SkipList.Columns.{
  Pairs, Ascends, value_of, Column, bottom_end, bottom_next, upper_end, upper_next, Ascends-after,
  value_of-after,
}

module _ (nodes : ℕ → Option Node) (key : ℕ) where
  -- Where the loop to the right ends: no smaller key comes next, and the value of the key is still ahead.
  pub record Stops (wide level a : ℕ) (pairs : Pairs) : Type 0 where
    pub at : ℕ
    pub low : ℕ
    pub ahead : Pairs
    pub returns : go_right wide (λ k. ltb k key) nodes a ≡ some at
    pub column : Column nodes level at ahead
    pub ascends : Ascends low ahead
    pub same : value_of key ahead ≡ value_of key pairs
    pub fewer : length ahead ≤ length pairs
    pub stops :
        (node next : Node) (b : ℕ)
        → nodes at ≡ some node
        → node.right ≡ some b
        → nodes b ≡ some next
        → ltb next.key key ≡ false

  go_right-last :
      (wide a : ℕ) (node : Node)
      → nodes a ≡ some node
      → node.right ≡ none
      → go_right (suc wide) (λ k. ltb k key) nodes a ≡ some a
  unfolding go_right
  go_right-last wide a node e r = rw (e, ◌>>=◌, r) refl

  go_right-next :
      (wide a b : ℕ) (node next : Node)
      → nodes a ≡ some node
      → node.right ≡ some b
      → nodes b ≡ some next
      → go_right (suc wide) (λ k. ltb k key) nodes a
        ≡ (if ltb next.key key then go_right wide (λ k. ltb k key) nodes b else some a)
  unfolding go_right
  go_right-next wide a b node next e r e' = rw (e, ◌>>=◌, r) (rw (e', ◌>>=◌) refl)

  -- At the end of a level.
  last-Stops :
      (wide level a low : ℕ) (node : Node) (pairs : Pairs)
      → nodes a ≡ some node
      → node.right ≡ none
      → Column nodes level a pairs
      → Ascends low pairs
      → Stops (suc wide) level a pairs
  last-Stops wide level a low node pairs e r c w = record {
    at = a;
    low = low;
    ahead = pairs;
    returns = go_right-last wide a node e r;
    column = c;
    ascends = w;
    same = refl;
    fewer = omega arith;
    stops = λ node' next b e' r' q.
        let same : node ≡ node' = some-injective node node' (sym e ∙ e') in
        let no : none ≡ some b = sym r ∙ ap (λ (n : Node). n.right) same ∙ r' in
        absurd (ground arith);
  }

  -- At a key that is not smaller.
  here-Stops :
      (wide level a b low : ℕ) (node next : Node) (pairs : Pairs)
      → nodes a ≡ some node
      → node.right ≡ some b
      → nodes b ≡ some next
      → ltb next.key key ≡ false
      → Column nodes level a pairs
      → Ascends low pairs
      → Stops (suc wide) level a pairs
  here-Stops wide level a b low node next pairs e r q stop c w = record {
    at = a;
    low = low;
    ahead = pairs;
    returns = go_right-next wide a b node next e r q ∙ rw stop refl;
    column = c;
    ascends = w;
    same = refl;
    fewer = omega arith;
    stops = λ node' next' b' e' r' q'.
        let same : node ≡ node' = some-injective node node' (sym e ∙ e') in
        let there : b ≡ b' = some-injective b b' (sym r ∙ ap (λ (n : Node). n.right) same ∙ r') in
        let same' : next ≡ next' = some-injective next next' (sym q ∙ ap nodes there ∙ q') in
        ap (λ (n : Node). ltb n.key key) (sym same') ∙ stop;
  }

  -- One step to the right.
  on-Stops :
      (wide level a b : ℕ) (node next : Node) (pairs rest : Pairs)
      → nodes a ≡ some node
      → node.right ≡ some b
      → nodes b ≡ some next
      → ltb next.key key ≡ true
      → value_of key pairs ≡ value_of key rest
      → length rest ≤ length pairs
      → Stops wide level b rest
      → Stops (suc wide) level a pairs
  on-Stops wide level a b node next pairs rest e r q go same fewer s = record {
    at = s.at;
    low = s.low;
    ahead = s.ahead;
    returns = go_right-next wide a b node next e r q ∙ rw go s.returns;
    column = s.column;
    ascends = s.ascends;
    same = s.same ∙ sym same;
    fewer = omega (arith, s.fewer, fewer);
    stops = s.stops;
  }

  pub go_right-Stops :
      (wide level a low : ℕ) (pairs : Pairs)
      → Column nodes level a pairs
      → Ascends low pairs
      → length pairs < wide
      → Stops wide level a pairs
  go_right-Stops zero level a low pairs c w h = absurd (omega (arith, h))
  go_right-Stops (suc wide) _ a low _ (bottom_end _ node e d r) w h =
      last-Stops wide 0 a low node [] e r (bottom_end a node e d r) w
  go_right-Stops (suc wide) _ a low _ (bottom_next _ b node next rest e d r q c) w h =
      elim (Bool-cases (ltb next.key key)) [
        | inl go ↦
            let up : (low ≤ next.key) × Ascends (suc next.key) rest =
              Ascends-after key next.key next.val rest low [] w in
            on-Stops wide 0 a b node next ((next.key, next.val) ∷ rest) rest e r q go
              (value_of-after key next.key next.val rest low [] w (ltb→lt next.key key go))
              (omega arith)
              (go_right-Stops wide 0 b (suc next.key) rest c (up.1) (omega (arith, h)))
        | inr stop ↦
            here-Stops wide 0 a b low node next ((next.key, next.val) ∷ rest) e r q stop
              (bottom_next a b node next rest e d r q c) w
      ]
  go_right-Stops (suc wide) _ a low _ (upper_end level _ d node pairs e l r c) w h =
      last-Stops wide (suc level) a low node pairs e r (upper_end level a d node pairs e l r c) w
  go_right-Stops (suc wide) _ a low _ (upper_next level _ b d node next skipped rest e l r q c c') w
        h =
      elim (Bool-cases (ltb next.key key)) [
        | inl go ↦
            let up : (low ≤ next.key) × Ascends (suc next.key) rest =
              Ascends-after key next.key next.val rest low skipped w in
            let size : length (skipped ++ ((next.key, next.val) ∷ rest))
                ≡ length skipped + suc (length rest) =
              length-append skipped ((next.key, next.val) ∷ rest) in
            on-Stops wide (suc level) a b node next (skipped ++ ((next.key, next.val) ∷ rest)) rest
              e r q go
              (value_of-after key next.key next.val rest low skipped w (ltb→lt next.key key go))
              (omega (arith, size))
              (go_right-Stops wide (suc level) b (suc next.key) rest c' (up.1)
                (omega (arith, h, size)))
        | inr stop ↦
            here-Stops wide (suc level) a b low node next (skipped ++ ((next.key, next.val) ∷ rest))
              e r q stop (upper_next level a b d node next skipped rest e l r q c c') w
      ]
