-- ===== src/Ftl/Transfer.antt =====
-- The loops of `zns_write` and `zns_read` (src/femu/ftl.c) against a plain list of pages: which
-- pages a request touches, in which order.
use native.Mathlib.Nat.{div-lt_iff_lt-mul}
use lsm_based_on_zns_ssd.Base.{
  ℕ, zero, suc, ◌+◌, ◌*◌, ◌/◌, ◌%◌, ◌≤◌, ◌<◌, ◌≡◌, refl, sym, ap, subst, ◌∙◌, arith, List, [], ◌∷◌,
  some, if◌then◌else◌, ◌==◌, mul-pos, div-of_parts, mod-of_parts,
}
use lsm_based_on_zns_ssd.Ftl.Types.{
  Ppa, NandCmd, SsdParams, Ssd, NvmeZone, zone_full, zone_empty, user_io, nand_write, nand_read,
}
use lsm_based_on_zns_ssd.Ftl.Pointer.{zns_advance_write_pointer, get_zns_page}
use lsm_based_on_zns_ssd.Ftl.Timing.{ssd_advance_status}
use lsm_based_on_zns_ssd.Ftl.Commands.{max_lat, write_pages}
use lsm_based_on_zns_ssd.Ftl.Calls.{carry_out, carry_out-cons}
use lsm_based_on_zns_ssd.Ftl.Geometry.{Geometry, zone_pages}
use lsm_based_on_zns_ssd.Ftl.Layout.{place, channel_at-lt}
use lsm_based_on_zns_ssd.Ftl.Walk.{At, At-place, advance-At, advance-state, advance_keeps}
use lsm_based_on_zns_ssd.Ftl.Shape.{HasShape, OnDevice, ssd_advance_status-total}

abbrev pub user_write : ℕ → NandCmd
user_write stime = record { type = user_io; cmd = nand_write; stime = stime }

abbrev pub user_read : ℕ → NandCmd
user_read stime = record { type = user_io; cmd = nand_read; stime = stime }

write_pages-suc :
    (p : Ppa) (n i num_fcg : ℕ) (zone : NvmeZone) (ssd ssd₁ : Ssd) (stime : ℕ) (now : ℕ → ℕ)
    (m lat : ℕ)
    → get_zns_page zone ≡ p
    → ssd_advance_status ssd p (user_write stime) (now i) ≡ some (ssd₁, lat)
    → write_pages (suc n) i num_fcg zone ssd stime now m
      ≡ write_pages n
          (i + 1)
          num_fcg
          (zns_advance_write_pointer num_fcg zone ssd.sp)
          ssd₁
          stime
          now
          (max_lat lat m)
unfolding write_pages
write_pages-suc p n i num_fcg zone ssd ssd₁ stime now m lat page run = rw (page, run)

module _ {spp : SsdParams} {num_fcg zone_cap num_zones : ℕ}
    (g : Geometry spp num_fcg zone_cap num_zones) where
  open g use {slots, slots_pos, groups_pos}

  -- The device's pages in the order of their numbers: zone after zone.
  abbrev pub device_page : ℕ → Ppa
  device_page p = place g (p / zone_pages g) (p % zone_pages g)

  abbrev pub pages_from : ℕ → ℕ → List Ppa
  pages_from p zero = []
  pages_from p (suc n) = device_page p ∷ pages_from (p + 1) n

  pub device_page-eq :
      (id k : ℕ) → k < zone_pages g → device_page (id * zone_pages g + k) ≡ place g id k
  device_page-eq id k h =
      rw (div-of_parts id k (zone_pages g) h, mod-of_parts id k (zone_pages g) h)

  pub place-OnDevice :
      (ssd : Ssd) (id k : ℕ) → ssd.sp ≡ spp → id < num_zones → OnDevice ssd (place g id k)
  place-OnDevice ssd id k same known = record {
    channel =
        subst (λ (s : SsdParams). (place g id k).ch < s.nchs) (sym same) (channel_at-lt g id k);
    die =
        subst (λ (s : SsdParams). id / (slots * num_fcg) < s.luns_per_ch) (sym same)
          ((div-lt_iff_lt-mul {k = slots * num_fcg} (mul-pos slots num_fcg slots_pos groups_pos)).1
            (omega (arith, g.fits)));
  }

  -- A zone with `k` pages written, and the state that belongs to it.
  pub record WrittenTo (zone : NvmeZone) (k : ℕ) : Type 0 where
    pub at : At g zone k
    pub inside : k ≤ zone_pages g
    pub state : zone.state ≡ (if k == zone_pages g then zone_full else zone_empty)

  advance-WrittenTo :
      (zone : NvmeZone) (k : ℕ)
      → WrittenTo zone k
      → k < zone_pages g
      → WrittenTo (zns_advance_write_pointer num_fcg zone spp) (k + 1)
  advance-WrittenTo zone k w h = record {
    at = advance-At g zone k w.at h;
    inside = omega arith;
    state = advance-state g zone k w.at h ∙ ground (arith, w.state);
  }

  -- What `n` rounds of the loop of `zns_write` come to.
  pub record Writes (zone : NvmeZone) (k n i : ℕ) (ssd : Ssd) (stime : ℕ) (now : ℕ → ℕ) (m : ℕ)
      : Type 0 where
    pub zone' : NvmeZone
    pub ssd' : Ssd
    pub latency : ℕ
    pub returns : write_pages n i num_fcg zone ssd stime now m ≡ some (zone', ssd', latency)
    pub programs :
        carry_out (user_write stime) (pages_from (zone.zone_id * zone_pages g + k) n) i ssd now m
        ≡ some (ssd', latency)
    pub written : WrittenTo zone' (k + n)
    pub shape : HasShape ssd'
    pub params : ssd'.sp ≡ spp
    pub same_id : zone'.zone_id ≡ zone.zone_id
    pub same_start : zone'.start_lba ≡ zone.start_lba
    pub same_ptr : zone'.write_ptr ≡ zone.write_ptr

  pub write_pages-Writes :
      (zone : NvmeZone) (k n i : ℕ) (ssd : Ssd) (stime : ℕ) (now : ℕ → ℕ) (m : ℕ)
      → WrittenTo zone k
      → k + n ≤ zone_pages g
      → HasShape ssd
      → ssd.sp ≡ spp
      → Writes zone k n i ssd stime now m
  unfolding write_pages carry_out
  write_pages-Writes zone k zero i ssd stime now m w h shape same = record {
    zone' = zone;
    ssd' = ssd;
    latency = m;
    returns = refl;
    programs = refl;
    written = subst (λ j. WrittenTo zone j) (omega arith) w;
    shape = shape;
    params = same;
    same_id = refl;
    same_start = refl;
    same_ptr = refl;
  }
  write_pages-Writes zone k (suc n) i ssd stime now m w h shape same =
      let (ssd₁, lat, run, shape₁, same₁) =
        ssd_advance_status-total ssd (place g zone.zone_id k) shape
          (place-OnDevice ssd zone.zone_id k same w.at.is_zone.known) (user_write stime) (now i) in
      let later = pages_from (zone.zone_id * zone_pages g + k + 1) n in
      let next = zns_advance_write_pointer num_fcg zone spp in
      let keeps = advance_keeps num_fcg zone spp in
      let rest =
        write_pages-Writes next (k + 1) n (i + 1) ssd₁ stime now (max_lat lat m)
          (advance-WrittenTo zone k w (omega arith)) (omega arith) shape₁ (same₁ ∙ same) in
      record {
        zone' = rest.zone';
        ssd' = rest.ssd';
        latency = rest.latency;
        returns =
            write_pages-suc (place g zone.zone_id k) n i num_fcg zone ssd ssd₁ stime now m lat
              (At-place g zone k w.at) run
            ∙ ap
                (λ (s : SsdParams).
                  write_pages n (i + 1) num_fcg (zns_advance_write_pointer num_fcg zone s) ssd₁
                    stime now (max_lat lat m))
                same
            ∙ rest.returns;
        programs =
            ap (λ (p : Ppa). carry_out (user_write stime) (p ∷ later) i ssd now m)
              (device_page-eq zone.zone_id k (omega arith))
            ∙ carry_out-cons (user_write stime) (place g zone.zone_id k) later i ssd ssd₁ now m lat
                run
            ∙ ap
                (λ p.
                  carry_out (user_write stime) (pages_from p n) (i + 1) ssd₁ now (max_lat lat m))
                (omega (arith, ap (λ j. j * zone_pages g) keeps.0))
            ∙ rest.programs;
        written = subst (λ j. WrittenTo rest.zone' j) (omega arith) rest.written;
        shape = rest.shape;
        params = rest.params;
        same_id = rest.same_id ∙ keeps.0;
        same_start = rest.same_start ∙ keeps.1;
        same_ptr = rest.same_ptr ∙ keeps.2;
      }
