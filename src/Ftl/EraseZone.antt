-- ===== src/Ftl/EraseZone.antt =====
-- The outer loop of `zns_reset` of src/femu/ftl.c, against the list of a zone's blocks.

use lsm_based_on_zns_ssd.Base.{
  ℕ, zero, suc, ◌+◌, ◌%◌, ◌≤◌, ◌<◌, ◌≡◌, refl, ap, length-append, ◌∙◌, arith, some, length, u32_mod,
}
use lsm_based_on_zns_ssd.Ftl.Types.{SsdParams, Ssd}
use lsm_based_on_zns_ssd.Ftl.Commands.{erase_blocks, erase_channels}
use lsm_based_on_zns_ssd.Ftl.Shape.{HasShape}
use lsm_based_on_zns_ssd.Ftl.Calls.{erase_run, erase_run-append}
use lsm_based_on_zns_ssd.Ftl.Erase.{blocks_from, channels_from, Erases, erase_row}

module _ (lun start n : ℕ) (now : ℕ → ℕ) (pos : 0 < n) (row : start % n ≡ 0)
    (fits : start + n < u32_mod) where
  pub erase_channels-Erases :
      (k ch i : ℕ) (ssd : Ssd)
      → HasShape ssd
      → ch + k ≤ ssd.sp.nchs
      → lun < ssd.sp.luns_per_ch
      → Erases
          (erase_channels k i ch lun start n ssd now)
          (channels_from k ch lun start n)
          i
          ssd
          now
  unfolding erase_channels erase_run
  erase_channels-Erases zero ch i ssd shape bound die = record {
    ssd' = ssd;
    returns = ap (λ k. some (ssd, k)) (omega arith);
    erases = refl;
    shape = shape;
    params = refl;
  }
  erase_channels-Erases (suc k) ch i ssd shape bound die =
      let one : Erases (erase_blocks (n + 1) i ch lun start n start ssd now)
          (blocks_from ch lun start n) i ssd now =
        erase_row ch lun start n now pos row fits i ssd shape
          (record { channel = omega arith; die = die }) in
      let more =
        erase_channels-Erases k (ch + 1) (i + length (blocks_from ch lun start n)) one.ssd'
          one.shape (omega (arith, ap (λ (s : SsdParams). s.nchs) one.params))
          (omega (arith, ap (λ (s : SsdParams). s.luns_per_ch) one.params)) in
      record {
        ssd' = more.ssd';
        returns = rw one.returns (
            more.returns
            ∙ ap (λ c. some (more.ssd', c))
                (omega (
                  arith,
                  length-append (blocks_from ch lun start n) (channels_from k (ch + 1) lun start n),
                )));
        erases =
            erase_run-append (blocks_from ch lun start n) _ i ssd one.ssd' now one.erases
            ∙ more.erases;
        shape = more.shape;
        params = more.params ∙ one.params;
      }
