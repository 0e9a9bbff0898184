-- ===== src/Base/Divide.antt =====
-- Quotients and remainders of a running index, and of an index shifted by a multiple.
use Prim.Native.Nat.{ℕ, zero, suc, ◌+◌, ◌-◌, ◌*◌, ◌/◌, ◌%◌, ◌≤◌, ◌<◌}
use mathlib.Core.Path.{◌≡◌, sym, ap, ◌∙◌}
use native.Mathlib.Omega.{arith}
use lsm_based_on_zns_ssd.Base.Tests.{
  ◌==◌, if◌then◌else◌, ltb, lt→ltb, le→ltb_false, eq→==, ne→==_false,
}
use native.Mathlib.Decide.{dec_lt, ℕ_discrete}
use native.Mathlib.Nat.{
  add-mul-mod_self_right, mod_self, div-add-mod', mod-lt, mul-add-div_right, mul-add-mod_self_right,
  div-eq_of_lt, mod-eq_of_lt, mul_comm, add-zero, mul-le-mul_left, div-le_self, le_trans,
  mul-lt-mul_of_pos_right, mul-le-mul_right, mul-div_cancel,
}

module _ (q r n : ℕ) (h : r < n) where
  -- A number below `n` is the remainder of `q * n + r`, and `q` the quotient.
  pub div-of_parts : (q * n + r) / n ≡ q
  div-of_parts = rw (mul-add-div_right {m = n} (omega arith) q r, div-eq_of_lt h) (add-zero q)

  pub mod-of_parts : (q * n + r) % n ≡ r
  mod-of_parts = mul-add-mod_self_right q n r ∙ mod-eq_of_lt h

module _ (k n : ℕ) (pos : 0 < n) where
  -- One step further inside a row of `n`.
  pub div-suc_inside : k % n + 1 < n → (k + 1) / n ≡ k / n
  div-suc_inside h =
      let e : k + 1 ≡ k / n * n + (k % n + 1) = omega (arith, div-add-mod' k n) in
      rw e (div-of_parts (k / n) (k % n + 1) n h)

  pub mod-suc_inside : k % n + 1 < n → (k + 1) % n ≡ k % n + 1
  mod-suc_inside h =
      let e : k + 1 ≡ k / n * n + (k % n + 1) = omega (arith, div-add-mod' k n) in
      rw e (mod-of_parts (k / n) (k % n + 1) n h)

  -- The step from the end of a row to the next row.
  pub div-suc_wrap : k % n + 1 ≡ n → (k + 1) / n ≡ k / n + 1
  div-suc_wrap h =
      let e : k + 1 ≡ (k / n + 1) * n + 0 = omega (arith, div-add-mod' k n, mul_comm (k / n) n) in
      rw e (div-of_parts (k / n + 1) 0 n pos)

  pub mod-suc_wrap : k % n + 1 ≡ n → (k + 1) % n ≡ 0
  mod-suc_wrap h =
      let e : k + 1 ≡ (k / n + 1) * n + 0 = omega (arith, div-add-mod' k n, mul_comm (k / n) n) in
      rw e (mod-of_parts (k / n + 1) 0 n pos)

-- The test by which an index in a shifted row of `n` is found to be at the row's end.
pub row_test : (c f n : ℕ) → c < n → ((c + f * n + 1) % n == 0) ≡ (c + 1 == n)
row_test c f n h =
    let e : (c + 1 + f * n) % n ≡ (c + 1) % n = add-mul-mod_self_right (c + 1) f n in
    let s : c + f * n + 1 ≡ c + 1 + f * n = omega arith in
    rw (s, e) (ground (arith, mod-eq_of_lt {n = c + 1} {m = n}, mod_self n))

-- The column and the row of the next index.
pub mod-suc_if : (k n : ℕ) → 0 < n → (k + 1) % n ≡ (if k % n + 1 == n then 0 else k % n + 1)
mod-suc_if k n pos = ground (arith, mod-lt k pos, mod-suc_inside k n pos, mod-suc_wrap k n pos)

pub div-suc_if : (k n : ℕ) → 0 < n → (k + 1) / n ≡ (if k % n + 1 == n then k / n + 1 else k / n)
div-suc_if k n pos = ground (arith, mod-lt k pos, div-suc_inside k n pos, div-suc_wrap k n pos)

-- A common factor leaves a remainder.
pub mul-mod_common : (b x s : ℕ) → 0 < b → 0 < s → (b * x) % (s * b) ≡ b * (x % s)
mul-mod_common b x s hb hs =
    let lt : b * (x % s) < s * b = grind (arith, mod-lt x {m = s} hs) in
    let e : b * x ≡ x / s * (s * b) + b * (x % s) = omega (arith, ap-mul (div-add-mod' x s)) in
    rw e (mod-of_parts (x / s) (b * (x % s)) (s * b) lt)
  where
    ap-mul : x / s * s + x % s ≡ x → (x / s * s + x % s) * b ≡ x * b
    ap-mul p = rw p

pub mul-pos : (a b : ℕ) → 0 < a → 0 < b → 0 < a * b
mul-pos a b p q = grind arith

pub le-mul_pos : (a b : ℕ) → 0 < b → a ≤ a * b
le-mul_pos a b p = grind arith

pub mul-div-le_of_lt : (b x n m : ℕ) → x < n → b * (x / m) ≤ b * n
mul-div-le_of_lt b x n m h = mul-le-mul_left b (le_trans (div-le_self x m) (omega arith))

-- An index into `m` rows of `n`.
pub row-lt : (c f n m : ℕ) → c < n → f < m → c + f * n < n * m
row-lt c f n m h k = grind arith

pub pos-mul_left : (a b : ℕ) → 0 < a * b → 0 < a
pos-mul_left a b h = grind arith

pub pos-mul_right : (a b : ℕ) → 0 < a * b → 0 < b
pos-mul_right a b h = grind arith

-- The end of a part of the i-th of `n` rows of length `l`.
pub row_end-le : (i j n l : ℕ) → i < n → j ≤ l → i * l + j ≤ n * l
row_end-le i j n l h k = grind arith

-- The last item of `c` rows of length `s` that begin with the row `p`.
pub last_item : (p c s : ℕ) → 0 < c → 0 < s → p * s + c * s - 1 ≡ (p + c - 1) * s + (s - 1)
last_item p (suc c) s h k =
    let e : (p + suc c - 1) * s ≡ p * s + c * s = rw (pred_sum p c) (omega arith) in
    omega (arith, e)
  where
    pred_sum : (p c : ℕ) → p + suc c - 1 ≡ p + c
    pred_sum p c = omega arith
last_item p zero s h k = elim h [ ]

-- After the last item of the last row nothing is left.
pub past_last :
    (q n zp last : ℕ) → q % zp + 1 ≡ zp → q / zp ≡ last → q + suc n ≤ (last + 1) * zp → n ≡ 0
past_last q n zp last wrap end h =
    let e : last * zp ≡ q / zp * zp = ap (λ r. r * zp) (sym end) in
    omega (arith, div-add-mod' q zp, e)

pub row_end-le' : (i n l : ℕ) → i < n → i * l + l ≤ l * n
row_end-le' i n l h = grind arith

-- Tests on multiples of `s` are tests on the factors.
pub ltb-mul : (a b s : ℕ) → 0 < s → ltb (a * s) (b * s) ≡ ltb a b
ltb-mul a b s pos = elim (dec_lt a b) [
  | yes h ↦ lt→ltb (a * s) (b * s) (mul-lt-mul_of_pos_right h pos) ∙ sym (lt→ltb a b h)
  | no h ↦
      le→ltb_false (a * s) (b * s) (mul-le-mul_right s (omega (arith, h)))
      ∙ sym (le→ltb_false a b (omega (arith, h)))
]

pub ==-mul : (a b s : ℕ) → 0 < s → (a * s == b * s) ≡ (a == b)
==-mul a b s pos = elim (ℕ_discrete a b) [
  | yes h ↦ eq→== (a * s) (b * s) (ap (λ x. x * s) h) ∙ sym (eq→== a b h)
  | no h ↦
      ne→==_false (a * s) (b * s)
        (λ e. h (sym (mul-div_cancel a pos) ∙ ap (λ x. x / s) e ∙ mul-div_cancel b pos))
      ∙ sym (ne→==_false a b h)
]
