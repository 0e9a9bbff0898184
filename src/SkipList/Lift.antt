-- ===== src/SkipList/Lift.antt =====
-- `insert_up`, the loop of `SkipList::put` (src/LSM-Tree/SkipList.cpp), over all the levels that the coin allows.
use lsm_based_on_zns_ssd.Base.{
  ℕ, suc, ◌+◌, ◌<◌, ◌≡◌, ◌≢◌, refl, ap, ◌∙◌, arith, Bool, true, false, List, [], ◌∷◌, Option, some,
  Bool-cases, inl, inr, length,
}
use lsm_based_on_zns_ssd.SkipList.Memory.{Node, SkipList, head_key, insert_up}
use lsm_based_on_zns_ssd.SkipList.Columns.{Ascends}
use lsm_based_on_zns_ssd.SkipList.Cells.{
  Cell, node_of, Row, Each, Linked-last_before, pairs_of, last_before, insert_cell, Above, Upper,
  top_row, upper_row, path_of,
}
use lsm_based_on_zns_ssd.SkipList.Insert.{linked_in, linked_in-new}
use lsm_based_on_zns_ssd.SkipList.Depth.{Depth, higher, Keeps, Depth-Keeps}
use lsm_based_on_zns_ssd.SkipList.Standing.{Above-Each, Above-Ascends, Above-new, Above-insert_cell}
use lsm_based_on_zns_ssd.SkipList.Upward.{
  Free, Same, IsRow, IsRow-Same, upper-IsRow, Upper-Same, Upper-insert_cell, step-Keeps, step-Same,
  step-Free, step-IsRow,
}

abbrev pub new_cell : ℕ → List ℕ → ℕ → Option ℕ → Cell
new_cell key value at down = record { at = at; key = key; val = value; down = down }

module _ (coin : ℕ → Bool) (key : ℕ) (value : List ℕ) where
  -- After the loop: the row of the level `k` has its new cell, and the rows above it stand on it.
  pub record Lifts (k : ℕ) (s : SkipList) (h : Cell) (cs : List Cell) (t : Cell) (count : ℕ)
      (r : SkipList × Option ℕ × Bool) : Type 0 where
    pub rows : List Row
    pub ts : List Cell
    pub row : IsRow (r.0).nodes k h cs
    pub upper : Upper (r.0).nodes h cs rows t ts
    pub keeps : Keeps s.nodes (r.0).nodes
    pub same : Same s.nodes (r.0).nodes (λ j. j < k)
    pub free : Free (r.0).nodes (r.0).fresh
    pub counted : length rows ≡ count
    pub same_size : (r.0).size ≡ s.size
    pub same_head : (r.0).head ≡ s.head
    pub same_least : (r.0).min_key ≡ s.min_key
    pub same_greatest : (r.0).max_key ≡ s.max_key
    pub same_stamp : (r.0).time_stamp ≡ s.time_stamp
    pub top :
        r.2 ≡ true
        → (d : ℕ) × (r.1 ≡ some d) × ((f : ℕ) → Above (new_cell key value f (some d) ∷ []) ts)

  abbrev pub Lifted : ℕ → SkipList → Option ℕ → Cell → List Cell → List Row → Cell → Type 0
  Lifted k s below h cs rows t =
      (r : SkipList × Option ℕ × Bool) × (insert_up coin key value
          ((last_before key h cs).at ∷ path_of key rows) below s
        ≡ some r)
      × Lifts k s h (insert_cell (new_cell key value s.fresh below) cs) t (length rows) r

  -- The state after one round.
  abbrev stepped : SkipList → Option ℕ → Cell → Option ℕ → SkipList
  stepped s below p r = record s {
    nodes = linked_in s.nodes (new_cell key value s.fresh below) p r;
    fresh = s.fresh + 1;
    throws = s.throws + 1;
  }

  abbrev pub NewDeep : (ℕ → Option Node) → ℕ → Option ℕ → ℕ → Type 0
  NewDeep nodes at below k =
      (nodes' : ℕ → Option Node)
      → Keeps nodes nodes'
      → (n : Node) → nodes' at ≡ some n
      → n.down ≡ below
      → Depth nodes' at k

  -- One round, on a row of the level `k`.
  module _ (k : ℕ) (s : SkipList) (below : Option ℕ) (h : Cell) (cs : List Cell)
      (w : IsRow s.nodes k h cs) (up : Ascends 0 (pairs_of cs))
      (low : Each (λ c. c.key < head_key) cs) (free : Free s.nodes s.fresh)
      (new_deep : NewDeep s.nodes s.fresh below k) (r : Option ℕ)
      (there : s.nodes (last_before key h cs).at ≡ some (node_of (last_before key h cs) r)) where
    abbrev s₁ : SkipList
    s₁ = stepped s below (last_before key h cs) r

    abbrev new : Cell
    new = new_cell key value s.fresh below

    round-Keeps : Keeps s.nodes s₁.nodes
    round-Keeps = step-Keeps s.nodes s.fresh k h cs new free refl w up low new_deep r there

    round-Same : Same s.nodes s₁.nodes (λ j. j ≢ k)
    round-Same = step-Same s.nodes s.fresh k h cs new free refl w up low new_deep r there

    round-Free : Free s₁.nodes s₁.fresh
    round-Free = step-Free s.nodes s.fresh k h cs new free refl w up low new_deep r there

    round-IsRow : IsRow s₁.nodes k h (insert_cell new cs)
    round-IsRow = step-IsRow s.nodes s.fresh k h cs new free refl w up low new_deep r there

    round-Depth : Depth s₁.nodes s.fresh k
    round-Depth =
        new_deep s₁.nodes round-Keeps (node_of new r)
          (linked_in-new s.nodes new (free s.fresh (omega arith)) (last_before key h cs) r r there)
          refl

    -- The coin ends the tower.
    insert_up_stop :
        (rows : List Row) (t : Cell) (ts : List Cell)
        → Upper s.nodes h cs rows t ts
        → coin s.throws ≡ false
        → Lifted k s below h cs rows t
    unfolding insert_up
    insert_up_stop rows t ts upper off =
        let (ts', upper') = Upper-insert_cell s₁.nodes new h cs rows t ts (
          Upper-Same s.nodes s₁.nodes k h cs rows t ts w
            (λ a j d less. round-Same a j d (λ q. absurd (omega (arith, less, q)))) upper) in
        (
          (s₁, some s.fresh, false),
          rw (there, off) refl,
          record {
            rows = rows;
            ts = ts';
            row = round-IsRow;
            upper = upper';
            keeps = round-Keeps;
            same = λ a j d less. round-Same a j d (λ q. absurd (omega (arith, less, q)));
            free = round-Free;
            counted = refl;
            same_size = refl;
            same_head = refl;
            same_least = refl;
            same_greatest = refl;
            same_stamp = refl;
            top = λ e. absurd (ground arith);
          },
        )

    -- There is no higher row.
    insert_up_top : coin s.throws ≡ true → Lifted k s below h cs [] h
    unfolding insert_up
    insert_up_top on = (
      (s₁, some s.fresh, true),
      rw (there, on) refl,
      record {
        rows = [];
        ts = insert_cell new cs;
        row = round-IsRow;
        upper = top_row h (insert_cell new cs);
        keeps = round-Keeps;
        same = λ a j d less. round-Same a j d (λ q. absurd (omega (arith, less, q)));
        free = round-Free;
        counted = refl;
        same_size = refl;
        same_head = refl;
        same_least = refl;
        same_greatest = refl;
        same_stamp = refl;
        top = λ e. (s.fresh, refl, λ f. Above-new f new cs);
      },
    )

    -- The tower goes on in the next row.
    module _ (h' : Cell) (cs' : List Cell) (rows : List Row) (t : Cell) (ts : List Cell)
        (next : IsRow s.nodes (suc k) h' cs') (down : h'.down ≡ some h.at)
        (above : Above cs' cs) where
      next-IsRow : IsRow s₁.nodes (suc k) h' cs'
      next-IsRow =
          IsRow-Same s.nodes s₁.nodes (suc k) h' cs' next round-Keeps
            (λ a j d e. round-Same a j d (λ q. absurd (omega (arith, e, q))))

      next-Upper : Upper s.nodes h' cs' rows t ts → Upper s₁.nodes h' cs' rows t ts
      next-Upper =
          Upper-Same s.nodes s₁.nodes (suc k) h' cs' rows t ts next
            (λ a j d less. round-Same a j d (λ q. absurd (omega (arith, less, q))))

      next_deep : NewDeep s₁.nodes s₁.fresh (some s.fresh) (suc k)
      next_deep nodes' keeps n e q =
          higher s₁.fresh s.fresh k n e q (Depth-Keeps s₁.nodes nodes' keeps s.fresh k round-Depth)

      insert_up_on :
          coin s.throws ≡ true
          → Lifted (suc k) s₁ (some s.fresh) h' cs' rows t
          → Lifted k s below h cs ((h', cs') ∷ rows) t
      unfolding insert_up
      insert_up_on on (res, run, l) = (
        res,
        rw (there, on) run,
        record {
          rows = (h', insert_cell (new_cell key value s₁.fresh (some s.fresh)) cs') ∷ l.rows;
          ts = l.ts;
          row =
              IsRow-Same s₁.nodes (res.0).nodes k h (insert_cell new cs) round-IsRow l.keeps
                (λ a j d e. l.same a j d (omega (arith, e)));
          upper =
              upper_row h (insert_cell new cs) h'
                (insert_cell (new_cell key value s₁.fresh (some s.fresh)) cs') l.rows t l.ts
                l.row.linked l.row.head down (Above-insert_cell s₁.fresh new 0 cs' cs above up)
                l.upper;
          keeps = λ a n e.
              let (n₁, e₁, d₁) = round-Keeps a n e in
              let (n₂, e₂, d₂) = l.keeps a n₁ e₁ in (n₂, e₂, d₂ ∙ d₁);
          same = λ a j d less.
              l.same a j (Depth-Keeps s.nodes s₁.nodes round-Keeps a j d) (omega (arith, less))
              ∙ round-Same a j d (λ q. absurd (omega (arith, less, q)));
          free = l.free;
          counted = ap suc l.counted;
          same_size = l.same_size;
          same_head = l.same_head;
          same_least = l.same_least;
          same_greatest = l.same_greatest;
          same_stamp = l.same_stamp;
          top = l.top;
        },
      )

  pub insert_up-Lifts :
      (k : ℕ) (s : SkipList) (below : Option ℕ) (h : Cell) (cs : List Cell) (rows : List Row)
      (t : Cell) (ts : List Cell)
      → IsRow s.nodes k h cs
      → Upper s.nodes h cs rows t ts
      → Ascends 0 (pairs_of cs)
      → Each (λ c. c.key < head_key) cs
      → Free s.nodes s.fresh
      → NewDeep s.nodes s.fresh below k
      → Lifted k s below h cs rows t
  insert_up-Lifts k s below h cs [] _ _ w (top_row _ _) up low free deep =
      let (r, there) = Linked-last_before s.nodes key h cs w.linked in
      elim (Bool-cases (coin s.throws)) [
        | inl on ↦ insert_up_top k s below h cs w up low free deep r there on
        | inr off ↦
            insert_up_stop k s below h cs w up low free deep r there [] h cs (top_row h cs) off
      ]
  insert_up-Lifts k s below h cs ((h', cs') ∷ rows) t ts w
        (upper_row _ _ _ _ _ _ _ linked head down above more) up low free deep =
      let (r, there) = Linked-last_before s.nodes key h cs w.linked in
      let next : IsRow s.nodes (suc k) h' cs' =
        upper-IsRow s.nodes k h cs h' cs' w linked head down above in
      elim (Bool-cases (coin s.throws)) [
        | inl on ↦
            insert_up_on k s below h cs w up low free deep r there h' cs' rows t ts next down above
              on
              (insert_up-Lifts (suc k) (stepped s below (last_before key h cs) r) (some s.fresh) h'
                cs' rows t ts
                (next-IsRow k s below h cs w up low free deep r there h' cs' rows t ts next down
                  above)
                (next-Upper k s below h cs w up low free deep r there h' cs' rows t ts next down
                  above more)
                (Above-Ascends 0 cs' cs above up) (Above-Each (λ x. x < head_key) cs' cs above low)
                (round-Free k s below h cs w up low free deep r there)
                (next_deep k s below h cs w up low free deep r there h' cs' rows t ts next down
                  above))
        | inr off ↦
            insert_up_stop k s below h cs w up low free deep r there ((h', cs') ∷ rows) t ts
              (upper_row h cs h' cs' rows t ts linked head down above more) off
      ]
