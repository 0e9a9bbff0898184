-- ===== src/Cache/Nodes.antt =====
-- The list of nodes of `LRUCache` (src/include/cache.h), whose numbers and values are distinct: what erasing
-- and popping do to the values, and to the node that holds a value.
use lsm_based_on_zns_ssd.Base.{
  ℕ, ◌<◌, ◌≡◌, ◌≢◌, refl, sym, ap, ◌∙◌, arith, Bool, true, false, if◌then◌else◌, ◌==◌, eq→==,
  ne→==_false, ℕ_discrete, List, [], ◌∷◌, Option, none, some, length,
}
use lsm_based_on_zns_ssd.Cache.Lru.{Node, deref, list_erase, back, pop_back}

abbrev pub id_of : ℕ → List Node → Option ℕ
id_of k [] = none
id_of k (n ∷ ns) = if n.value == k then some n.id else id_of k ns

abbrev pub has_id : ℕ → List Node → Bool
has_id j [] = false
has_id j (n ∷ ns) = if n.id == j then true else has_id j ns

abbrev pub values : List Node → List ℕ
values [] = []
values (n ∷ ns) = n.value ∷ values ns

pub data Distinct : List Node → Type 0 where
  no_node : Distinct []
  one_more :
      (n : Node) (ns : List Node)
      → has_id n.id ns ≡ false
      → id_of n.value ns ≡ none
      → Distinct ns
      → Distinct (n ∷ ns)

pub id_of-has_id : (k i : ℕ) (ns : List Node) → id_of k ns ≡ some i → has_id i ns ≡ true
id_of-has_id k i [] e = absurd (ground arith)
id_of-has_id k i (n ∷ ns) e =
    let rest : id_of k ns ≡ some i → has_id i ns ≡ true = id_of-has_id k i ns in ground arith

pub id_of-deref :
    (k i : ℕ) (ns : List Node) → Distinct ns → id_of k ns ≡ some i → deref i ns ≡ some k
unfolding deref
id_of-deref k i [] d e = absurd (ground arith)
id_of-deref k i (n ∷ ns) (one_more _ _ a b d) e =
    let here : id_of k ns ≡ some i → has_id i ns ≡ true = id_of-has_id k i ns in
    let rest : id_of k ns ≡ some i → deref i ns ≡ some k = id_of-deref k i ns d in ground arith

-- The list of values without the one that is `key`, and without its last.
abbrev pub remove : ℕ → List ℕ → List ℕ
remove key [] = []
remove key (v ∷ vs) = if v == key then vs else v ∷ remove key vs

abbrev pub drop_last : List ℕ → List ℕ
drop_last [] = []
drop_last (v ∷ []) = []
drop_last (v ∷ (w ∷ vs)) = v ∷ drop_last (w ∷ vs)

pub list_erase-values :
    (k i : ℕ) (ns : List Node)
    → Distinct ns
    → id_of k ns ≡ some i
    → values (list_erase i ns) ≡ remove k (values ns)
unfolding list_erase
list_erase-values k i [] d e = refl
list_erase-values k i (n ∷ ns) (one_more _ _ a b d) e =
    let here : id_of k ns ≡ some i → has_id i ns ≡ true = id_of-has_id k i ns in
    let rest : id_of k ns ≡ some i → values (list_erase i ns) ≡ remove k (values ns) =
      list_erase-values k i ns d in
    ground arith

pub list_erase-has_id :
    (i j : ℕ) (ns : List Node) → has_id j ns ≡ false → has_id j (list_erase i ns) ≡ false
unfolding list_erase
list_erase-has_id i j [] h = refl
list_erase-has_id i j (n ∷ ns) h =
    let rest : has_id j ns ≡ false → has_id j (list_erase i ns) ≡ false =
      list_erase-has_id i j ns in
    ground arith

pub list_erase-id_of :
    (key i k : ℕ) (ns : List Node)
    → Distinct ns
    → id_of key ns ≡ some i
    → id_of k (list_erase i ns) ≡ (if key == k then none else id_of k ns)
unfolding list_erase
list_erase-id_of key i k [] d e = absurd (ground arith)
list_erase-id_of key i k (n ∷ ns) (one_more _ _ a b d) e =
    let here : id_of key ns ≡ some i → has_id i ns ≡ true = id_of-has_id key i ns in
    let rest : id_of key ns ≡ some i
        → id_of k (list_erase i ns) ≡ (if key == k then none else id_of k ns) =
      list_erase-id_of key i k ns d in
    let same : n.value ≡ k → id_of k ns ≡ none = λ p. ap (λ x. id_of x ns) (sym p) ∙ b in
    ground arith

pub list_erase-Distinct :
    (key i : ℕ) (ns : List Node) → Distinct ns → id_of key ns ≡ some i → Distinct (list_erase i ns)
unfolding list_erase
list_erase-Distinct key i [] d e = d
list_erase-Distinct key i (n ∷ ns) (one_more _ _ a b d) e = elim (ℕ_discrete n.value key) [
  | yes p ↦ let same : n.id ≡ i = ground arith in rw (eq→== n.id i same) d
  | no p ↦
      let there : id_of key ns ≡ some i = ground arith in
      let other : ¬ (n.id ≡ i) = λ q. absurd (ground (arith, id_of-has_id key i ns there)) in
      rw (ne→==_false n.id i other) (
        one_more n (list_erase i ns) (list_erase-has_id i n.id ns a)
          (list_erase-id_of key i n.value ns d there ∙ rw b (ground arith))
          (list_erase-Distinct key i ns d there))
]

pub pop_back-values : (ns : List Node) → values (pop_back ns) ≡ drop_last (values ns)
unfolding pop_back
pop_back-values [] = refl
pop_back-values (n ∷ []) = refl
pop_back-values (n ∷ (m ∷ ns)) = ap (λ vs. n.value ∷ vs) (pop_back-values (m ∷ ns))

pub pop_back-has_id :
    (j : ℕ) (ns : List Node) → has_id j ns ≡ false → has_id j (pop_back ns) ≡ false
unfolding pop_back
pop_back-has_id j [] h = refl
pop_back-has_id j (n ∷ []) h = refl
pop_back-has_id j (n ∷ (m ∷ ns)) h =
    let rest : has_id j (m ∷ ns) ≡ false → has_id j (pop_back (m ∷ ns)) ≡ false =
      pop_back-has_id j (m ∷ ns) in
    ground arith

-- The last node, of a list that is not empty.
pub back-total : (ns : List Node) → 0 < length ns → (v : ℕ) × (back ns ≡ some v)
unfolding back
back-total [] h = elim h [ ]
back-total (n ∷ []) h = (n.value, refl)
back-total (n ∷ (m ∷ ns)) h = back-total (m ∷ ns) (omega arith)

back-id_of : (v : ℕ) (ns : List Node) → back ns ≡ some v → (i : ℕ) × (id_of v ns ≡ some i)
unfolding back
back-id_of v [] e = absurd (ground arith)
back-id_of v (n ∷ []) e = (n.id, ground arith)
back-id_of v (n ∷ (m ∷ ns)) e = elim (ℕ_discrete n.value v) [
  | yes p ↦ (n.id, ground arith)
  | no p ↦ let (i, found) = back-id_of v (m ∷ ns) e in (i, ground arith)
]

pub pop_back-id_of :
    (v k : ℕ) (ns : List Node)
    → Distinct ns
    → back ns ≡ some v
    → id_of k (pop_back ns) ≡ (if v == k then none else id_of k ns)
unfolding pop_back back
pop_back-id_of v k [] d e = absurd (ground arith)
pop_back-id_of v k (n ∷ []) d e = ground arith
pop_back-id_of v k (n ∷ (m ∷ ns)) (one_more _ _ a b d) e =
    let rest : id_of k (pop_back (m ∷ ns)) ≡ (if v == k then none else id_of k (m ∷ ns)) =
      pop_back-id_of v k (m ∷ ns) d e in
    let (i, found) = back-id_of v (m ∷ ns) e in
    let other : n.value ≢ v = λ p.
      let gone : none ≡ some i = sym b ∙ ap (λ x. id_of x (m ∷ ns)) p ∙ found in
      absurd (ground arith) in
    rw rest (ground (arith, other))

pub pop_back-Distinct :
    (v : ℕ) (ns : List Node) → Distinct ns → back ns ≡ some v → Distinct (pop_back ns)
unfolding pop_back back
pop_back-Distinct v [] d e = d
pop_back-Distinct v (n ∷ []) d e = no_node
pop_back-Distinct v (n ∷ (m ∷ ns)) (one_more _ _ a b d) e =
    one_more n (pop_back (m ∷ ns)) (pop_back-has_id n.id (m ∷ ns) a)
      (pop_back-id_of v n.value (m ∷ ns) d e ∙ rw b (ground arith))
      (pop_back-Distinct v (m ∷ ns) d e)
