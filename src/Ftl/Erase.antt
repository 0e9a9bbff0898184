-- ===== src/Ftl/Erase.antt =====
-- The inner loop of `zns_reset` of src/femu/ftl.c, against a plain list of blocks.
use native.Mathlib.Nat.{mod-add-mod, mod-eq_of_lt, add-mod_right}
use lsm_based_on_zns_ssd.Base.{
  ℕ, zero, suc, ◌+◌, ◌%◌, ◌<◌, ◌≡◌, refl, sym, ap, subst, subst₂, ◌∙◌, arith, Bool, true, false,
  ◌||◌, not, List, [], ◌∷◌, ◌++◌, Option, some, if◌then◌else◌, ◌==◌, length, to_u32, to_u32-eq,
  u32_mod,
}
use lsm_based_on_zns_ssd.Ftl.Types.{Ppa, SsdParams, Ssd}
use lsm_based_on_zns_ssd.Ftl.Timing.{ssd_advance_status}
use lsm_based_on_zns_ssd.Ftl.Commands.{erase_block, erase_blocks}
use lsm_based_on_zns_ssd.Ftl.Calls.{sent, gc_erase, erase_run, erase_run-commands}
use lsm_based_on_zns_ssd.Ftl.Shape.{
  HasShape, OnDevice, get_lun-total, put_lun-total, ssd_advance_status-total,
}

abbrev pub block_ppa : ℕ → ℕ → ℕ → Ppa
block_ppa ch lun blk = record { blk = blk; pg = 0; pl = 0; lun = lun; ch = ch }

abbrev pub blocks_from : ℕ → ℕ → ℕ → ℕ → List Ppa
blocks_from ch lun blk zero = []
blocks_from ch lun blk (suc n) = block_ppa ch lun blk ∷ blocks_from ch lun (blk + 1) n

-- The blocks of `k` channels, channel after channel.
abbrev pub channels_from : ℕ → ℕ → ℕ → ℕ → ℕ → List Ppa
channels_from zero ch lun start n = []
channels_from (suc k) ch lun start n =
    blocks_from ch lun start n ++ channels_from k (ch + 1) lun start n

pub length-blocks_from : (ch lun blk n : ℕ) → length (blocks_from ch lun blk n) ≡ n
length-blocks_from ch lun blk zero = refl
length-blocks_from ch lun blk (suc n) = ap suc (length-blocks_from ch lun (blk + 1) n)

pub same-OnDevice : (ssd ssd₁ : Ssd) (p : Ppa) → ssd₁.sp ≡ ssd.sp → OnDevice ssd p → OnDevice ssd₁ p
same-OnDevice ssd ssd₁ p same on = record {
  channel = subst (λ (s : SsdParams). p.ch < s.nchs) (sym same) on.channel;
  die = subst (λ (s : SsdParams). p.lun < s.luns_per_ch) (sym same) on.die;
}

-- An erase on the device is carried out.
record Erased (ssd : Ssd) (p : Ppa) (now : ℕ) : Type 0 where
  ssd' : Ssd
  returns : erase_block ssd p now ≡ some ssd'
  shape : HasShape ssd'
  params : ssd'.sp ≡ ssd.sp

delay_total :
    (b : Bool) (ssd : Ssd) (p : Ppa) (now : ℕ)
    → HasShape ssd
    → OnDevice ssd p
    → (ssd₁ : Ssd) × (lat : ℕ) × ((if b
          then ssd_advance_status ssd p gc_erase now
          else some (ssd, 0))
        ≡ some (ssd₁, lat))
      × HasShape ssd₁
      × (ssd₁.sp ≡ ssd.sp)
delay_total true ssd p now shape on = ssd_advance_status-total ssd p shape on gc_erase now
delay_total false ssd p now shape on = (ssd, 0, refl, shape, refl)

erase_block-Erased :
    (ssd : Ssd) (p : Ppa) (now : ℕ) → HasShape ssd → OnDevice ssd p → Erased ssd p now
unfolding erase_block
erase_block-Erased ssd p now shape on =
    let (ssd₁, lat, run, shape₁, same₁) = delay_total ssd.sp.enable_gc_delay ssd p now shape on in
    let on₁ = same-OnDevice ssd ssd₁ p same₁ on in
    let (lun, _, _, _, found) = get_lun-total ssd₁ p shape₁ on₁ in
    let (ssd₂, stored, shape₂, same₂, _) =
      put_lun-total ssd₁ p shape₁ on₁ (record lun { gc_endtime = lun.next_lun_avail_time }) in
    record { ssd' = ssd₂; returns = rw (run, found) stored; shape = shape₂; params = same₂ ∙ same₁ }

-- What the rounds of a loop come to that erases `ps` and counts the erases.
pub record Erases (loop : Option (Ssd × ℕ)) (ps : List Ppa) (i : ℕ) (ssd : Ssd) (now : ℕ → ℕ)
    : Type 0 where
  pub ssd' : Ssd
  pub returns : loop ≡ some (ssd', i + length ps)
  pub erases : erase_run ps i ssd now ≡ some ssd'
  pub shape : HasShape ssd'
  pub params : ssd'.sp ≡ ssd.sp

-- The test of the inner loop fails after `n` blocks, and not before.
goes_on :
    (start j n : ℕ)
    → start % n ≡ 0
    → j < n
    → (((start + j) == start) || not ((start + j) % n == 0)) ≡ true
goes_on start j n h l =
    let e : (start + j) % n ≡ j =
      sym (mod-add-mod start n j) ∙ rw h (mod-eq_of_lt {n = 0 + j} (omega arith) ∙ omega arith) in
    rw e (ground arith)

stops :
    (start n : ℕ)
    → 0 < n
    → start % n ≡ 0
    → (((start + n) == start) || not ((start + n) % n == 0)) ≡ false
stops start n pos h = rw (add-mod_right start n, h) (ground arith)

module _ (ch lun start n : ℕ) (now : ℕ → ℕ) (pos : 0 < n) (row : start % n ≡ 0)
    (fits : start + n < u32_mod) where
  erase_blocks-Erases :
      (r j i : ℕ) (ssd : Ssd)
      → j + r ≡ n
      → HasShape ssd
      → OnDevice ssd (block_ppa ch lun start)
      → Erases
          (erase_blocks (suc r) i ch lun start n (start + j) ssd now)
          (blocks_from ch lun (start + j) r)
          i
          ssd
          now
  unfolding erase_blocks erase_run
  erase_blocks-Erases zero j i ssd e shape on = record {
    ssd' = ssd;
    returns =
        let e' : j ≡ n = omega arith in
        rw (e', stops start n pos row) (ap (λ k. some (ssd, k)) (omega arith));
    erases = refl;
    shape = shape;
    params = refl;
  }
  erase_blocks-Erases (suc r) j i ssd e shape on =
      let one = erase_block-Erased ssd (block_ppa ch lun (start + j)) (now i) shape on' in
      let more =
        erase_blocks-Erases r (j + 1) (i + 1) one.ssd' (omega arith) one.shape
          (same-OnDevice ssd one.ssd' _ one.params on) in
      record {
        ssd' = more.ssd';
        returns =
            rw (goes_on start j n row (omega arith), one.returns)
              (ap (λ b. erase_blocks (suc r) (i + 1) ch lun start n b one.ssd' now) wrap
                ∙ more.returns
                ∙ ap (λ k. some (more.ssd', k))
                    (omega (
                      arith,
                      length-blocks_from ch lun (start + (j + 1)) r,
                      length-blocks_from ch lun (start + j + 1) r,
                    )));
        erases =
            rw one.returns (
              ap (λ b. erase_run (blocks_from ch lun b r) (i + 1) one.ssd' now) assoc
              ∙ more.erases);
        shape = more.shape;
        params = more.params ∙ one.params;
      }
    where
      on' : OnDevice ssd (block_ppa ch lun (start + j))
      on' = record { channel = on.channel; die = on.die }

      assoc : start + j + 1 ≡ start + (j + 1)
      assoc = omega arith

      wrap : to_u32 (start + j + 1) ≡ start + (j + 1)
      wrap = to_u32-eq (start + j + 1) (omega arith) ∙ assoc

  -- The fuel `n + 1` is enough for the `n` blocks from `start` on.
  pub erase_row :
      (i : ℕ) (ssd : Ssd)
      → HasShape ssd
      → OnDevice ssd (block_ppa ch lun start)
      → Erases
          (erase_blocks (n + 1) i ch lun start n start ssd now)
          (blocks_from ch lun start n)
          i
          ssd
          now
  erase_row i ssd shape on =
      subst₂
        (λ f b.
          Erases (erase_blocks f i ch lun start n b ssd now) (blocks_from ch lun b n) i ssd now)
        (omega arith) (omega arith) (erase_blocks-Erases n 0 i ssd (omega arith) shape on)

  -- For a zone of `n` blocks from `start` on, a multiple of `n` that does not wrap, on a die of a device whose
  -- erases take time, the fuel `n + 1` is enough for the inner loop to end, and it sends the die an erase of each
  -- of these `n` blocks, once each, in order, and no other command.
  pub erase_blocks-all :
      (i : ℕ) (ssd : Ssd)
      → HasShape ssd
      → OnDevice ssd (block_ppa ch lun start)
      → ssd.sp.enable_gc_delay ≡ true
      → (e : Erases
          (erase_blocks (n + 1) i ch lun start n start ssd now)
          (blocks_from ch lun start n)
          i
          ssd
          now)
        × (e.ssd'.commands ≡ ssd.commands ++ sent gc_erase (blocks_from ch lun start n))
  erase_blocks-all i ssd shape on waits =
      let e = erase_row i ssd shape on in
      (e, erase_run-commands (blocks_from ch lun start n) i ssd e.ssd' now waits e.erases)
