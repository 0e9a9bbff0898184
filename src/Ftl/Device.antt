-- ===== src/Ftl/Device.antt =====
-- The invariant of the whole device (`FemuCtrl`), and how a request's logical blocks name a zone
-- and its pages: `zns_zone_idx`, `zns_get_zone_by_lba` and the page counts of src/femu/ftl.c.
use native.Mathlib.Nat.{
  mul-div_cancel, div-lt_iff_lt-mul, div-div-eq-div-mul, mul_comm, div-le_self, mul-le-mul_left,
  mul-le-mul_right,
}
use lsm_based_on_zns_ssd.Base.{
  ℕ, ◌+◌, ◌-◌, ◌*◌, ◌/◌, ◌≤◌, ◌<◌, ◌≡◌, subst, arith, some, length, get_elem?, add64, sub64,
  add64-eq, sub64-eq, to_u32-eq, mul-pos, le-mul_pos, div-of_parts, last_item, u64_mod, lt→ltb,
}
use lsm_based_on_zns_ssd.Ftl.Types.{SsdParams, NvmeZone, NvmeRequest, FemuCtrl}
use lsm_based_on_zns_ssd.Ftl.Commands.{zns_zone_idx, zns_get_zone_by_lba, lpn_count}
use lsm_based_on_zns_ssd.Ftl.Geometry.{
  Geometry, zone_pages, zone_lbas, zone_pages_pos, secs_per_pg_pos, zone_lbas-eq,
}
use lsm_based_on_zns_ssd.Ftl.Shape.{HasShape}
use lsm_based_on_zns_ssd.Ftl.Transfer.{WrittenTo}

module _ {spp : SsdParams} {num_fcg zone_cap num_zones : ℕ}
    (g : Geometry spp num_fcg zone_cap num_zones) where
  open g use {blocks, blocks_pos, u32_fits, lba_fits, secs_fit}

  -- The i-th zone, with its first `k` pages written.
  pub record HasPages (i : ℕ) (zone : NvmeZone) (k : ℕ) : Type 0 where
    pub written : WrittenTo g zone k
    pub id : zone.zone_id ≡ i
    pub start : zone.start_lba ≡ i * zone_lbas g
    pub ptr : zone.write_ptr ≡ i * zone_lbas g + k * spp.secs_per_pg

  pub record IsDevice (n : FemuCtrl) : Type 0 where
    pub params : n.ssd.sp ≡ spp
    pub groups : n.num_fcg ≡ num_fcg
    pub size : n.zone_size ≡ zone_cap
    pub count : n.num_zones ≡ num_zones
    pub array : length n.zone_array ≡ num_zones
    pub shape : HasShape n.ssd
    pub zones :
        (i : ℕ) (zone : NvmeZone)
        → get_elem? n.zone_array i ≡ some zone
        → (k : ℕ) × HasPages i zone k

  -- Every logical block of the device has a number below 2 ^ 64, and a zone below 2 ^ 32.
  pub device_lbas : num_zones * zone_lbas g ≤ spp.tt_secs
  device_lbas = subst (λ l. num_zones * l ≤ spp.tt_secs) (zone_lbas-eq g) secs_fit

  pub device_lbas_64 : num_zones * zone_lbas g < u64_mod
  device_lbas_64 =
      let e : zone_lbas g ≤ zone_cap =
        subst (λ l. l ≤ zone_cap) (zone_lbas-eq g) (div-le_self zone_cap spp.secsz) in
      omega (arith, lba_fits, mul-le-mul_left num_zones e)

  -- A request for the `c` pages of the device from page `p` on.
  pub record AsksFor (p c : ℕ) (req : NvmeRequest) : Type 0 where
    pub some_page : 0 < c
    pub in_range : p + c ≤ num_zones * zone_pages g
    pub slba : req.slba ≡ p * spp.secs_per_pg
    pub nlb : req.nlb ≡ c * spp.secs_per_pg

  -- On a device in order, block `r` of the device's page `q` is in the zone `q / zone_pages`, for every page of
  -- the device and every block of a page.
  pub zns_get_zone_by_lba-eq :
      (n : FemuCtrl) (q r : ℕ)
      → IsDevice n
      → q < num_zones * zone_pages g
      → r < spp.secs_per_pg
      → zns_get_zone_by_lba n (q * spp.secs_per_pg + r) spp ≡ some (q / zone_pages g)
  unfolding zns_get_zone_by_lba zns_zone_idx
  zns_get_zone_by_lba-eq n q r d h l =
      let zone : q / zone_pages g < num_zones = (div-lt_iff_lt-mul (zone_pages_pos g)).1 h in
      rw (
        d.size,
        d.count,
        zone_lbas-eq g,
        mul_comm (zone_pages g) spp.secs_per_pg,
        ← div-div-eq-div-mul (q * spp.secs_per_pg + r) spp.secs_per_pg (zone_pages g),
        div-of_parts q r spp.secs_per_pg l,
        to_u32-eq (q / zone_pages g) (
            omega
              (arith, u32_fits, le-mul_pos num_zones blocks blocks_pos, mul_comm num_zones blocks)),
        lt→ltb (q / zone_pages g) num_zones zone,
      )

  module _ (p c : ℕ) (req : NvmeRequest) (a : AsksFor p c req) where
    -- The request's end, in logical blocks, does not wrap.
    pub request_end : p * spp.secs_per_pg + c * spp.secs_per_pg ≤ num_zones * zone_lbas g
    request_end = omega (arith, mul-le-mul_right spp.secs_per_pg a.in_range)

    pub no_wrap : p * spp.secs_per_pg + c * spp.secs_per_pg < u64_mod
    no_wrap = omega (arith, request_end, device_lbas_64)

    pub last_lba :
        sub64 (add64 req.slba req.nlb) 1 ≡ (p + c - 1) * spp.secs_per_pg + (spp.secs_per_pg - 1)
    last_lba =
        rw
          (
            a.slba,
            a.nlb,
            add64-eq (p * spp.secs_per_pg) (c * spp.secs_per_pg) no_wrap,
            sub64-eq (p * spp.secs_per_pg + c * spp.secs_per_pg) 1
                (omega (arith, mul-pos c spp.secs_per_pg a.some_page (secs_per_pg_pos g))) no_wrap,
          )
          (last_item p c spp.secs_per_pg a.some_page (secs_per_pg_pos g))

    pub first_lpn : req.slba / spp.secs_per_pg ≡ p
    first_lpn = rw a.slba (mul-div_cancel p (secs_per_pg_pos g))

    pub last_lpn : sub64 (add64 req.slba req.nlb) 1 / spp.secs_per_pg ≡ p + c - 1
    last_lpn = rw last_lba (
        div-of_parts (p + c - 1) (spp.secs_per_pg - 1) spp.secs_per_pg
          (omega (arith, secs_per_pg_pos g)))

    pub lpn_count-eq : lpn_count spp req.slba req.nlb ≡ c
    unfolding lpn_count
    lpn_count-eq = rw (last_lpn, first_lpn) (omega (arith, a.some_page))
