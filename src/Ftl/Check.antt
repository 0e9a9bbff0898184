-- ===== src/Ftl/Check.antt =====
-- `zns_check_zone_write` of src/femu/ftl.c on a device that is in order: which messages it prints.
use native.Mathlib.Nat.{le_refl}
use lsm_based_on_zns_ssd.Base.{
  ℕ, ◌+◌, ◌*◌, ◌/◌, ◌≤◌, ◌≡◌, refl, ap, ap₂, le→ltb_false, eq→==, ne→==_false, ltb, not, ◌==◌,
  ltb-mul, ==-mul, row_end-le, ◌∙◌, arith, [], ◌++◌, add64, add64-eq,
}
use lsm_based_on_zns_ssd.Ftl.Types.{SsdParams, NvmeZone, NvmeRequest, FemuCtrl}
use lsm_based_on_zns_ssd.Ftl.Commands.{
  boundary_error, zone_is_full, invalid_write, is_full, message, zns_check_zone_write,
}
use lsm_based_on_zns_ssd.Ftl.Geometry.{
  Geometry, zone_pages, zone_lbas, zone_lbas-eq, secs_per_pg_pos,
}
use lsm_based_on_zns_ssd.Ftl.Transfer.{WrittenTo}
use lsm_based_on_zns_ssd.Ftl.Device.{
  HasPages, IsDevice, AsksFor, device_lbas, device_lbas_64, request_end, no_wrap,
}

module _ {spp : SsdParams} {num_fcg zone_cap num_zones : ℕ}
    (g : Geometry spp num_fcg zone_cap num_zones) where
  full-eq :
      (k : ℕ) (zone : NvmeZone) → WrittenTo g zone k → is_full zone.state ≡ (k == zone_pages g)
  full-eq k zone w = ground (arith, w.state)

  -- The ends of a request and of a zone, as the checks compute them.
  request_end-eq :
      (p c : ℕ) (req : NvmeRequest)
      → AsksFor g p c req
      → add64 req.slba req.nlb ≡ (p + c) * spp.secs_per_pg
  request_end-eq p c req a =
      ap₂ add64 a.slba a.nlb ∙ add64-eq _ _ (no_wrap g p c req a) ∙ omega arith

  zone_end-eq :
      (n : FemuCtrl) (i k : ℕ) (zone : NvmeZone)
      → IsDevice g n
      → HasPages g i zone k
      → add64 zone.start_lba (zone.zone_cap / n.ssd.sp.secsz)
        ≡ (i * zone_pages g + zone_pages g) * spp.secs_per_pg
  zone_end-eq n i k zone d z =
      ap₂ add64 z.start (
        ap₂ (λ (c : ℕ) (p : SsdParams). c / p.secsz) z.written.at.is_zone.same_cap d.params
        ∙ zone_lbas-eq g)
      ∙ add64-eq (i * zone_lbas g) (zone_lbas g) (
          omega (
            arith,
            row_end-le i (zone_lbas g) num_zones (zone_lbas g)
                (omega (arith, z.id, z.written.at.is_zone.known)) (le_refl (zone_lbas g)),
            device_lbas_64 g,
          ))
      ∙ omega arith

  -- On a device in order, on a request for `c > 0` whole pages of the device from page `p` on and the zone `i` with
  -- `k` pages written, the checks report that the request leaves the zone exactly if it ends behind the zone's last
  -- page, that the zone is full exactly if all its pages are written, and an invalid write exactly if `p` is not
  -- the page at the zone's write pointer, in this order, and nothing else.
  pub zns_check_zone_write_lem :
      (n : FemuCtrl) (i k p c : ℕ) (zone : NvmeZone) (req : NvmeRequest)
      → IsDevice g n
      → HasPages g i zone k
      → AsksFor g p c req
      → zns_check_zone_write n zone req.slba req.nlb
        ≡ message (ltb (i * zone_pages g + zone_pages g) (p + c)) boundary_error
          ++ (message (k == zone_pages g) zone_is_full
              ++ message (not (i * zone_pages g + k == p)) invalid_write)
  unfolding zns_check_zone_write
  zns_check_zone_write_lem n i k p c zone req d z a =
      let s = spp.secs_per_pg in
      let secs : n.ssd.sp.tt_secs ≡ spp.tt_secs = ap (λ (p : SsdParams). p.tt_secs) d.params in
      let ptr : zone.write_ptr ≡ (i * zone_pages g + k) * s = z.ptr ∙ omega arith in
      rw
        (
          le→ltb_false n.ssd.sp.tt_secs (add64 req.slba req.nlb) (
              omega
                (arith, request_end-eq p c req a, secs, request_end g p c req a, device_lbas g)),
          request_end-eq p c req a,
          zone_end-eq n i k zone d z,
          ltb-mul (i * zone_pages g + zone_pages g) (p + c) s (secs_per_pg_pos g),
          full-eq k zone z.written,
          ptr,
          a.slba,
          ==-mul (i * zone_pages g + k) p s (secs_per_pg_pos g),
        )
        refl

  -- A request that begins at the zone's write pointer and does not leave the zone passes the checks.
  pub zns_check_zone_write-ok :
      (n : FemuCtrl) (i k c : ℕ) (zone : NvmeZone) (req : NvmeRequest)
      → IsDevice g n
      → HasPages g i zone k
      → AsksFor g (i * zone_pages g + k) c req
      → k + c ≤ zone_pages g
      → zns_check_zone_write n zone req.slba req.nlb ≡ []
  zns_check_zone_write-ok n i k c zone req d z a h =
      let zp = zone_pages g in
      zns_check_zone_write_lem n i k (i * zp + k) c zone req d z a
      ∙ rw
          (
            le→ltb_false (i * zp + zp) (i * zp + k + c) (omega arith),
            ne→==_false k zp (λ e. absurd (omega (arith, e, a.some_page))),
            eq→== (i * zp + k) (i * zp + k) refl,
          )
          refl
