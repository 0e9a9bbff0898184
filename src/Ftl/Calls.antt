-- ===== src/Ftl/Calls.antt =====
-- The commands that the loops of `zns_write`, `zns_read` and `zns_reset` (src/femu/ftl.c) send to the dies, against
-- plain lists of pages and blocks: what the device's record of calls says of them.
use mathlib.Core.Option.{some-injective}
use mathlib.Core.List.{append_assoc, append-nil}
use lsm_based_on_zns_ssd.Base.{
  ℕ, ◌+◌, ◌≡◌, refl, sym, ap, ap₂, ◌∙◌, arith, Bool, true, List, [], ◌∷◌, ◌++◌, Option, none, some,
  ◌>>=◌, if◌then◌else◌, Option-cases, inl, inr, length,
}
use lsm_based_on_zns_ssd.Ftl.Types.{Ppa, NandLun, NandCmd, SsdParams, Ssd, gc_io, nand_erase}
use lsm_based_on_zns_ssd.Ftl.Timing.{
  get_ch, get_lun, put_lun, command_cost, record_call, ssd_advance_status,
}
use lsm_based_on_zns_ssd.Ftl.Commands.{max_lat, erase_block}

-- One command after the other, each to its page: the device after them, and the longest latency.
unfoldable pub carry_out : NandCmd → List Ppa → ℕ → Ssd → (ℕ → ℕ) → ℕ → Option (Ssd × ℕ)
carry_out cmd [] i ssd now m = some (ssd, m)
carry_out cmd (p ∷ ps) i ssd now m = do
  (ssd', lat) ← ssd_advance_status ssd p cmd (now i)
  carry_out cmd ps (i + 1) ssd' now (max_lat lat m)

pub carry_out-cons :
    (cmd : NandCmd) (p : Ppa) (ps : List Ppa) (i : ℕ) (ssd ssd₁ : Ssd) (now : ℕ → ℕ) (m lat : ℕ)
    → ssd_advance_status ssd p cmd (now i) ≡ some (ssd₁, lat)
    → carry_out cmd (p ∷ ps) i ssd now m ≡ carry_out cmd ps (i + 1) ssd₁ now (max_lat lat m)
unfolding carry_out
carry_out-cons cmd p ps i ssd ssd₁ now m lat e = rw e

-- One erase after the other.
unfoldable pub erase_run : List Ppa → ℕ → Ssd → (ℕ → ℕ) → Option Ssd
erase_run [] i ssd now = some ssd
erase_run (p ∷ ps) i ssd now = do ssd' ← erase_block ssd p (now i); erase_run ps (i + 1) ssd' now

pub erase_run-append :
    (ps qs : List Ppa) (i : ℕ) (ssd ssd₁ : Ssd) (now : ℕ → ℕ)
    → erase_run ps i ssd now ≡ some ssd₁
    → erase_run (ps ++ qs) i ssd now ≡ erase_run qs (i + length ps) ssd₁ now
unfolding erase_run
erase_run-append [] qs i ssd ssd₁ now e =
    ap₂ (λ j s. erase_run qs j s now) (omega arith) (some-injective ssd ssd₁ e)
erase_run-append (p ∷ ps) qs i ssd ssd₁ now e = elim (Option-cases (erase_block ssd p (now i))) [
  | inl none_ ↦ absurd (ground arith)
  | inr (ssd₂, done) ↦
      rw (done, ◌>>=◌)
        (erase_run-append ps qs (i + 1) ssd₂ ssd₁ now (rw done at e)
          ∙ ap (λ j. erase_run qs j ssd₁ now) (omega arith))
]

-- The same command to each of the pages, as it is recorded.
abbrev pub sent : NandCmd → List Ppa → List (NandCmd × Ppa)
sent cmd [] = []
sent cmd (p ∷ ps) = (cmd, p) ∷ sent cmd ps

abbrev pub gc_erase : NandCmd
gc_erase = record { type = gc_io; cmd = nand_erase; stime = 0 }

-- Storing a die keeps the parameters and the record.
put_lun-keeps :
    (ssd ssd' : Ssd) (p : Ppa) (lun : NandLun)
    → put_lun ssd p lun ≡ some ssd'
    → (ssd'.sp ≡ ssd.sp) × (ssd'.commands ≡ ssd.commands)
unfolding put_lun
put_lun-keeps ssd ssd' p lun e = elim (Option-cases (get_ch ssd p)) [
  | inl q ↦ absurd (ground arith)
  | inr (ch, q) ↦
      let same = sym (some-injective _ ssd' (rw q at e)) in
      (ap (λ (s : Ssd). s.sp) same, ap (λ (s : Ssd). s.commands) same)
]

stored-first :
    (o : Option Ssd) (x lat : ℕ) (ssd' : Ssd)
    → ◌>>=◌ {B = Ssd × ℕ} o (λ s. some (s, x)) ≡ some (ssd', lat)
    → o ≡ some ssd'
stored-first none x lat ssd' e = absurd (ground arith)
stored-first (some s) x lat ssd' e =
    ap (λ (y : Ssd × ℕ). some (y.0)) (some-injective (s, x) (ssd', lat) e)

-- A command that is carried out is recorded with its page.
ssd_advance_status-records :
    (ssd ssd' : Ssd) (p : Ppa) (cmd : NandCmd) (now lat : ℕ)
    → ssd_advance_status ssd p cmd now ≡ some (ssd', lat)
    → (ssd'.sp ≡ ssd.sp) × (ssd'.commands ≡ ssd.commands ++ ((cmd, p) ∷ []))
unfolding ssd_advance_status
ssd_advance_status-records ssd ssd' p cmd now lat e = elim (Option-cases (get_lun ssd p)) [
  | inl q ↦ absurd (ground arith)
  | inr (lun, q) ↦ elim (Option-cases (command_cost ssd.sp cmd)) [
    | inl r ↦
        let same =
          sym (ap (λ (x : Ssd × ℕ). x.0) (some-injective _ (ssd', lat) (rw (q, r) at e))) in
        (ap (λ (s : Ssd). s.sp) same, ap (λ (s : Ssd). s.commands) same)
    | inr (cost, r) ↦
        put_lun-keeps (record_call ssd cmd p) ssd' p _
          (stored-first (put_lun (record_call ssd cmd p) p _) _ lat ssd' (rw (q, r) at e))
  ]
]

-- The commands that are carried out are recorded, each with its page, in their order.
pub carry_out-commands :
    (cmd : NandCmd) (ps : List Ppa) (i : ℕ) (ssd ssd' : Ssd) (now : ℕ → ℕ) (m lat : ℕ)
    → carry_out cmd ps i ssd now m ≡ some (ssd', lat)
    → ssd'.commands ≡ ssd.commands ++ sent cmd ps
unfolding carry_out
carry_out-commands cmd [] i ssd ssd' now m lat e =
    sym (ap (λ (x : Ssd × ℕ). x.0.commands) (some-injective (ssd, m) (ssd', lat) e))
    ∙ sym (append-nil ssd.commands)
carry_out-commands cmd (p ∷ ps) i ssd ssd' now m lat e =
    elim (Option-cases (ssd_advance_status ssd p cmd (now i))) [
      | inl q ↦ absurd (ground arith)
      | inr ((ssd₁, l), q) ↦
          carry_out-commands cmd ps (i + 1) ssd₁ ssd' now (max_lat l m) lat (rw q at e)
          ∙ ap (λ cs. cs ++ sent cmd ps) (ssd_advance_status-records ssd ssd₁ p cmd (now i) l q).1
          ∙ append_assoc ssd.commands ((cmd, p) ∷ []) (sent cmd ps)
    ]

if_true : {A : Type 0} (b : Bool) (x y : A) → b ≡ true → (if b then x else y) ≡ x
if_true b x y e = rw e refl

-- Where erases take time, the erase of a block is a command to its die.
erase_block-records :
    (ssd ssd' : Ssd) (p : Ppa) (now : ℕ)
    → ssd.sp.enable_gc_delay ≡ true
    → erase_block ssd p now ≡ some ssd'
    → (ssd'.sp ≡ ssd.sp) × (ssd'.commands ≡ ssd.commands ++ ((gc_erase, p) ∷ []))
unfolding erase_block
erase_block-records ssd ssd' p now waits e =
    let taken =
      if_true {A = Option (Ssd × ℕ)} ssd.sp.enable_gc_delay (ssd_advance_status ssd p gc_erase now)
        (some (ssd, 0)) waits in
    elim (Option-cases (ssd_advance_status ssd p gc_erase now)) [
      | inl q ↦ absurd (ground (arith, rw (taken, q) at e))
      | inr ((ssd₁, l), q) ↦ elim (Option-cases (get_lun ssd₁ p)) [
        | inl r ↦ absurd (ground (arith, rw (taken, q, r) at e))
        | inr (lun, r) ↦
            let first = ssd_advance_status-records ssd ssd₁ p gc_erase now l q in
            let stored = put_lun-keeps ssd₁ ssd' p _ (rw (taken, q, r) at e) in
            (stored.0 ∙ first.0, stored.1 ∙ first.1)
      ]
    ]

pub erase_run-commands :
    (ps : List Ppa) (i : ℕ) (ssd ssd' : Ssd) (now : ℕ → ℕ)
    → ssd.sp.enable_gc_delay ≡ true
    → erase_run ps i ssd now ≡ some ssd'
    → ssd'.commands ≡ ssd.commands ++ sent gc_erase ps
unfolding erase_run
erase_run-commands [] i ssd ssd' now waits e =
    sym (ap (λ (s : Ssd). s.commands) (some-injective ssd ssd' e)) ∙ sym (append-nil ssd.commands)
erase_run-commands (p ∷ ps) i ssd ssd' now waits e =
    elim (Option-cases (erase_block ssd p (now i))) [
      | inl q ↦ absurd (ground arith)
      | inr (ssd₁, q) ↦
          let one = erase_block-records ssd ssd₁ p (now i) waits q in
          erase_run-commands ps (i + 1) ssd₁ ssd' now
            (ap (λ (s : SsdParams). s.enable_gc_delay) one.0 ∙ waits) (rw q at e)
          ∙ ap (λ cs. cs ++ sent gc_erase ps) one.1
          ∙ append_assoc ssd.commands ((gc_erase, p) ∷ []) (sent gc_erase ps)
    ]
