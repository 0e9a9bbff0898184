-- ===== src/Ftl/Read.antt =====
-- `zns_read` of src/femu/ftl.c on a device that is in order.
use native.Mathlib.Nat.{div-lt_iff_lt-mul, lt-div-mul-add}
use lsm_based_on_zns_ssd.Base.{
  ℕ, ◌+◌, ◌-◌, ◌*◌, ◌/◌, ◌%◌, ◌<◌, ◌≡◌, refl, ap, ap₂, ◌∙◌, arith, [], ◌++◌, some, get_elem?, sub64,
  add64, leb, lt→leb_false, false,
}
use lsm_based_on_zns_ssd.Ftl.Types.{Ppa, SsdParams, Ssd, NvmeZone, NvmeRequest, FemuCtrl}
use lsm_based_on_zns_ssd.Ftl.Pointer.{locate_page}
use lsm_based_on_zns_ssd.Ftl.Commands.{zns_get_zone_by_lba, lpn_count, read_pages, zns_read}
use lsm_based_on_zns_ssd.Ftl.Geometry.{
  Geometry, zone_pages, zone_pages_pos, zone_pages-eq, secs_per_pg_pos,
}
use lsm_based_on_zns_ssd.Ftl.Layout.{IsZone, place, locate_page-eq}
use lsm_based_on_zns_ssd.Ftl.Calls.{carry_out, carry_out-commands, sent}
use lsm_based_on_zns_ssd.Ftl.Transfer.{user_read, pages_from, device_page}
use lsm_based_on_zns_ssd.Ftl.Device.{
  IsDevice, AsksFor, zns_get_zone_by_lba-eq, last_lba, first_lpn, last_lpn, lpn_count-eq,
}
use lsm_based_on_zns_ssd.Ftl.ReadStep.{IsZoneArray, zone_at}
use lsm_based_on_zns_ssd.Ftl.ReadLoop.{Reads, read_pages-Reads}

zns_read-steps :
    (n : FemuCtrl) (req : NvmeRequest) (now : ℕ → ℕ) (idx last c k : ℕ) (zone : NvmeZone)
    (ppa : Ppa) (ssd' : Ssd)
    → zns_get_zone_by_lba n req.slba n.ssd.sp ≡ some idx
    → zns_get_zone_by_lba n (sub64 (add64 req.slba req.nlb) 1) n.ssd.sp ≡ some last
    → get_elem? n.zone_array idx ≡ some zone
    → lpn_count n.ssd.sp req.slba req.nlb ≡ c
    → req.slba / n.ssd.sp.secs_per_pg % (n.zone_size / (n.ssd.sp.secs_per_pg * n.ssd.sp.secsz)) ≡ k
    → locate_page n.num_fcg n.ssd.sp zone k ≡ ppa
    → leb n.ssd.sp.tt_pgs (sub64 (add64 req.slba req.nlb) 1 / n.ssd.sp.secs_per_pg) ≡ false
    → read_pages c 0 n.num_fcg n.zone_array idx last ppa n.ssd req.stime now ≡ some ssd'
    → zns_read n req now ≡ some (record n { ssd = ssd' }, 0, [])
unfolding zns_read
zns_read-steps n req now idx last c k zone ppa ssd' i l found count in_zone page fits run =
    rw (i, l, found, count, in_zone, page, run, fits)

module _ {spp : SsdParams} {num_fcg zone_cap num_zones : ℕ}
    (g : Geometry spp num_fcg zone_cap num_zones) where
  IsDevice-IsZoneArray : (n : FemuCtrl) → IsDevice g n → IsZoneArray g n.zone_array
  IsDevice-IsZoneArray n d = record {
    array = d.array;
    each = λ j zone e. let (k, pages) = d.zones j zone e in (pages.written.at.is_zone, pages.id);
  }

  module _ (n : FemuCtrl) (p c : ℕ) (req : NvmeRequest) (d : IsDevice g n)
      (a : AsksFor g p c req) where
    first_zone-eq : zns_get_zone_by_lba n req.slba n.ssd.sp ≡ some (p / zone_pages g)
    first_zone-eq =
        ap₂ (zns_get_zone_by_lba n) (a.slba ∙ omega arith) d.params
        ∙ zns_get_zone_by_lba-eq g n p 0 d (omega (arith, a.in_range, a.some_page))
            (secs_per_pg_pos g)

    last_zone-eq :
        zns_get_zone_by_lba n (sub64 (add64 req.slba req.nlb) 1) n.ssd.sp
        ≡ some ((p + c - 1) / zone_pages g)
    last_zone-eq =
        ap₂ (zns_get_zone_by_lba n) (last_lba g p c req a) d.params
        ∙ zns_get_zone_by_lba-eq g n (p + c - 1) (spp.secs_per_pg - 1) d
            (omega (arith, a.in_range, a.some_page)) (omega (arith, secs_per_pg_pos g))

    in_zone-eq :
        req.slba / n.ssd.sp.secs_per_pg % (n.zone_size / (n.ssd.sp.secs_per_pg * n.ssd.sp.secsz))
        ≡ p % zone_pages g
    in_zone-eq =
        ap₂ (λ (s : SsdParams) (z : ℕ). req.slba / s.secs_per_pg % (z / (s.secs_per_pg * s.secsz)))
          d.params d.size
        ∙ ap₂ (λ (q z : ℕ). q % z) (first_lpn g p c req a) (zone_pages-eq g)

    fits-eq : leb n.ssd.sp.tt_pgs (sub64 (add64 req.slba req.nlb) 1 / n.ssd.sp.secs_per_pg) ≡ false
    fits-eq =
        ap (λ (s : SsdParams). leb s.tt_pgs (sub64 (add64 req.slba req.nlb) 1 / s.secs_per_pg))
          d.params
        ∙ ap (leb spp.tt_pgs) (last_lpn g p c req a)
        ∙ lt→leb_false spp.tt_pgs (p + c - 1) (omega (arith, a.in_range, a.some_page, g.pages_fit))

  page-eq :
      (n : FemuCtrl) (p : ℕ) (zone : NvmeZone)
      → IsDevice g n
      → IsZone g zone
      → zone.zone_id ≡ p / zone_pages g
      → locate_page n.num_fcg n.ssd.sp zone (p % zone_pages g) ≡ device_page g p
  page-eq n p zone d z id =
      ap₂ (λ (f : ℕ) (s : SsdParams). locate_page f s zone (p % zone_pages g)) d.groups d.params
      ∙ locate_page-eq g zone (p % zone_pages g) z
      ∙ ap (λ i. place g i (p % zone_pages g)) id

  -- What a read of `c` pages from page `p` of the device on comes to.
  pub record ReadResult (n : FemuCtrl) (p c : ℕ) (req : NvmeRequest) (now : ℕ → ℕ) : Type 0 where
    pub ssd' : Ssd
    pub latency : ℕ
    pub returns : zns_read n req now ≡ some (record n { ssd = ssd' }, 0, [])
    pub visits :
        carry_out (user_read req.stime) (pages_from g p c) 0 n.ssd now 0 ≡ some (ssd', latency)
    pub commands : ssd'.commands ≡ n.ssd.commands ++ sent (user_read req.stime) (pages_from g p c)
    pub device : IsDevice g (record n { ssd = ssd' })

  -- On a device in order, a read of `c > 0` whole pages from the device's page `p` on, within the device,
  -- returns without a message and a latency of 0, sends the dies a read of each of these pages, in order,
  -- across zones too, and no other command,
  -- changes no field of the controller but `ssd`, and keeps the device in order.
  pub zns_read-ReadResult :
      (n : FemuCtrl) (p c : ℕ) (req : NvmeRequest) (now : ℕ → ℕ)
      → IsDevice g n
      → AsksFor g p c req
      → ReadResult n p c req now
  zns_read-ReadResult n p c req now d a =
      let zp = zone_pages g in
      let top = p + c - 1 in
      let pos = zone_pages_pos g in
      let array = IsDevice-IsZoneArray n d in
      let first_zone : p / zp < num_zones =
        (div-lt_iff_lt-mul pos).1 (omega (arith, a.in_range, a.some_page)) in
      let last_zone : top / zp < num_zones =
        (div-lt_iff_lt-mul pos).1 (omega (arith, a.in_range, a.some_page)) in
      let (zone, found, z, id) = zone_at g n.zone_array (p / zp) array first_zone in
      let r : Reads g n.zone_array p c 0 (p / zp) (top / zp) (device_page g p) n.ssd req.stime now
          0 =
        read_pages-Reads g n.zone_array (top / zp) req.stime now array last_zone c p 0 (p / zp)
          (device_page g p) n.ssd 0 (omega (arith, lt-div-mul-add {a = top} pos, a.some_page))
          (λ _. (refl, refl)) d.shape d.params in
      record {
        ssd' = r.ssd';
        latency = r.latency;
        returns =
            zns_read-steps n req now (p / zp) (top / zp) c (p % zp) zone (device_page g p) r.ssd'
              (first_zone-eq n p c req d a) (last_zone-eq n p c req d a) found
              (ap (λ (s : SsdParams). lpn_count s req.slba req.nlb) d.params
                ∙ lpn_count-eq g p c req a)
              (in_zone-eq n p c req d a) (page-eq n p zone d z id) (fits-eq n p c req d a)
              (ap
                  (λ (f : ℕ).
                    read_pages c 0 f n.zone_array (p / zp) (top / zp) (device_page g p) n.ssd
                      req.stime now)
                  d.groups
                ∙ r.returns);
        visits = r.visits;
        commands =
            carry_out-commands (user_read req.stime) (pages_from g p c) 0 n.ssd r.ssd' now 0
              r.latency r.visits;
        device = record {
          params = r.params;
          groups = d.groups;
          size = d.size;
          count = d.count;
          array = d.array;
          shape = r.shape;
          zones = d.zones;
        };
      }
