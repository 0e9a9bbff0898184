-- ===== src/Femu/Start.antt =====
-- The device that `femu_init` of src/femu/femu.c builds.
use native.Mathlib.Nat.{mul-div_cancel}
use mathlib.Core.Option.{some-injective}
use lsm_based_on_zns_ssd.Base.{
  subst, replicate, ℕ, zero, suc, ◌+◌, ◌*◌, ◌/◌, ◌<◌, ◌≡◌, refl, sym, ap, ap₂, ◌∙◌, arith, Bool,
  some, length, get_elem?, length-replicate, get_elem?-replicate, [], lt-get_elem?, add64, add64-eq,
  to_u8, to_u32, u64_mod,
}
use lsm_based_on_zns_ssd.Ftl.Types.{Config, SsdParams, NvmeZone}
use lsm_based_on_zns_ssd.Ftl.Params.{ssd_init_params}
use lsm_based_on_zns_ssd.Ftl.Init.{ssd_init, zns_init, zns_init_zone, zns_init_zones, ssd_init_ch}
use lsm_based_on_zns_ssd.Ftl.Geometry.{Geometry, zone_lbas, secsz_pos}
use lsm_based_on_zns_ssd.Ftl.Shape.{HasShape}
use lsm_based_on_zns_ssd.Ftl.Device.{HasPages, IsDevice}
use lsm_based_on_zns_ssd.Ftl.Fresh.{zns_init_zone-WrittenTo}
use lsm_based_on_zns_ssd.Femu.Requests.{femu_init}

module _ (c : Config) (spp : SsdParams) (zone_size num_fcg : ℕ) where
  length-zns_init_zones :
      (k i start : ℕ) → length (zns_init_zones c spp zone_size num_fcg k i start) ≡ k
  unfolding zns_init_zones
  length-zns_init_zones zero i start = refl
  length-zns_init_zones (suc k) i start =
      ap suc (length-zns_init_zones k (i + 1) (add64 start zone_size))

  -- The j-th round of the loop, while the start of a zone does not wrap.
  get_elem?-zns_init_zones :
      (k i j start : ℕ)
      → j < k
      → start + k * zone_size < u64_mod
      → get_elem? (zns_init_zones c spp zone_size num_fcg k i start) j
        ≡ some (zns_init_zone c spp zone_size num_fcg (i + j) (start + j * zone_size))
  unfolding zns_init_zones
  get_elem?-zns_init_zones zero i j start h l = elim h [ ]
  get_elem?-zns_init_zones (suc k) i zero start h l =
      ap₂ (λ a b. some (zns_init_zone c spp zone_size num_fcg a b)) (omega arith) (omega arith)
  get_elem?-zns_init_zones (suc k) i (suc j) start h l =
      let e : add64 start zone_size ≡ start + zone_size = add64-eq start zone_size (grind arith) in
      get_elem?-zns_init_zones k (i + 1) j (add64 start zone_size) (omega arith)
        (rw e (omega arith))
      ∙ ap₂ (λ a b. some (zns_init_zone c spp zone_size num_fcg a b)) (omega arith)
          (rw e (omega arith))

replicate-HasShape :
    (sp : SsdParams)
    → HasShape (record { sp = sp; ch = replicate sp.nchs (ssd_init_ch sp); commands = [] })
unfolding ssd_init_ch
replicate-HasShape sp = record {
  channels = length-replicate sp.nchs (ssd_init_ch sp);
  dies = λ i ch e.
      let inside : i < sp.nchs =
        subst (λ l. i < l) (length-replicate sp.nchs (ssd_init_ch sp))
          (lt-get_elem? (replicate sp.nchs (ssd_init_ch sp)) i ch e) in
      let same : some (ssd_init_ch sp) ≡ some ch =
        sym (get_elem?-replicate sp.nchs i (ssd_init_ch sp) inside) ∙ e in
      subst (λ x. length x.lun ≡ sp.luns_per_ch) (some-injective _ _ same)
        (length-replicate sp.luns_per_ch _);
}

module _ {spp : SsdParams} {num_fcg zone_cap num_zones : ℕ}
    (g : Geometry spp num_fcg zone_cap num_zones) where
  pub zns_init_zone-HasPages :
      (c : Config) (i : ℕ)
      → spp.secsz ≡ c.ssd_secsz
      → i < num_zones
      → HasPages g i (zns_init_zone c spp zone_cap num_fcg i (i * zone_cap)) 0
  unfolding zns_init_zone
  zns_init_zone-HasPages c i same h =
      let e : i * zone_cap ≡ i * zone_lbas g * spp.secsz = rw g.cap (omega arith) in
      let start : i * zone_cap / c.ssd_secsz ≡ i * zone_lbas g =
        rw (← same, e) (mul-div_cancel (i * zone_lbas g) (secsz_pos g)) in
      record {
        written = zns_init_zone-WrittenTo g c i (i * zone_cap) h;
        id = refl;
        start = start;
        ptr = start ∙ omega arith;
      }

  fresh_zones :
      (c : Config) (i : ℕ) (zone : NvmeZone)
      → spp.secsz ≡ c.ssd_secsz
      → get_elem? (zns_init_zones c spp zone_cap num_fcg num_zones 0 0) i ≡ some zone
      → (k : ℕ) × HasPages g i zone k
  fresh_zones c i zone same e =
      let inside : i < num_zones =
        subst (λ l. i < l) (length-zns_init_zones c spp zone_cap num_fcg num_zones 0 0)
          (lt-get_elem? _ i zone e) in
      let here : some (zns_init_zone c spp zone_cap num_fcg i (i * zone_cap)) ≡ some zone =
        ap₂ (λ a b. some (zns_init_zone c spp zone_cap num_fcg a b)) (omega arith) (omega arith)
        ∙ sym (
            get_elem?-zns_init_zones c spp zone_cap num_fcg num_zones 0 i 0 inside
              (omega (arith, g.lba_fits)))
        ∙ e in
      (
        0,
        subst (λ z. HasPages g i z 0) (some-injective _ _ here)
            (zns_init_zone-HasPages c i same inside),
      )

module _ (c : Config) (size : ℕ) (enable_backend enable_latency : Bool)
    (g : Geometry
      (ssd_init_params c size)
      (to_u8 c.num_fcgs)
      c.zone_size
      (to_u32 (size / c.zone_size))) where
  -- For every build and device size whose sizes divide and fit as `Geometry` says, the counts of the device in an
  -- `int` among them, `femu_init` returns a device in order.
  pub femu_init-IsDevice : IsDevice g (femu_init c size enable_backend enable_latency)
  unfolding femu_init ssd_init zns_init ssd_init_params ssd_init_ch
  femu_init-IsDevice =
      let spp = ssd_init_params c size in
      record {
        params = refl;
        groups = refl;
        size = refl;
        count = refl;
        array =
            length-zns_init_zones c spp c.zone_size (to_u8 c.num_fcgs) (to_u32 (size / c.zone_size))
              0 0;
        shape = replicate-HasShape spp;
        zones = λ i zone e. fresh_zones g c i zone refl e;
      }
