-- ===== src/Ftl/Write.antt =====
-- `zns_write` of src/femu/ftl.c on a device that is in order.

use mathlib.Core.Option.{some-injective}
use lsm_based_on_zns_ssd.Ftl.Shape.{HasShape}
use lsm_based_on_zns_ssd.Base.{
  ℕ, ◌+◌, ◌*◌, ◌≤◌, ◌<◌, ◌≡◌, refl, sym, ap, ap₂, div-of_parts, ◌∙◌, arith, List, [], ◌++◌, some,
  length, length-set, get_elem?, get_elem?-set_self, get_elem?-set_ne, lt-get_elem?, set, add64,
  add64-eq, ℕ_discrete,
}
use lsm_based_on_zns_ssd.Ftl.Types.{SsdParams, Ssd, NvmeZone, NvmeRequest, FemuCtrl}
use lsm_based_on_zns_ssd.Ftl.Commands.{
  FtlErr, zns_get_zone_by_lba, zns_check_zone_write, lpn_count, write_pages, zns_write,
}
use lsm_based_on_zns_ssd.Ftl.Geometry.{Geometry, zone_pages, zone_lbas, secs_per_pg_pos}
use lsm_based_on_zns_ssd.Ftl.Check.{zns_check_zone_write-ok}
use lsm_based_on_zns_ssd.Ftl.Calls.{carry_out, carry_out-commands, sent}
use lsm_based_on_zns_ssd.Ftl.Transfer.{WrittenTo, write_pages-Writes, user_write, pages_from}
use lsm_based_on_zns_ssd.Ftl.Device.{
  HasPages, IsDevice, AsksFor, zns_get_zone_by_lba-eq, no_wrap, lpn_count-eq,
}

zns_write-steps :
    (n : FemuCtrl) (req : NvmeRequest) (now : ℕ → ℕ) (i c lat : ℕ) (zone zone' : NvmeZone)
    (ssd' : Ssd)
    → zns_get_zone_by_lba n req.slba n.ssd.sp ≡ some i
    → get_elem? n.zone_array i ≡ some zone
    → lpn_count n.ssd.sp req.slba req.nlb ≡ c
    → write_pages c 0 n.num_fcg
        (record zone { write_ptr = add64 zone.write_ptr req.nlb })
        n.ssd
        req.stime
        now
        0
      ≡ some (zone', ssd', lat)
    → zns_write n req now
      ≡ some (
        record n { zone_array = set n.zone_array i zone'; ssd = ssd' },
        lat,
        zns_check_zone_write n zone req.slba req.nlb,
      )
unfolding zns_write
zns_write-steps n req now i c lat zone zone' ssd' idx found count run = rw (idx, found, count, run)

module _ {spp : SsdParams} {num_fcg zone_cap num_zones : ℕ}
    (g : Geometry spp num_fcg zone_cap num_zones) where
  -- Replacing one zone by a zone that is in order keeps the device in order.
  pub set_zone-IsDevice :
      (n : FemuCtrl) (ssd : Ssd) (i k : ℕ) (zone zone' : NvmeZone)
      → IsDevice g n
      → HasShape ssd
      → ssd.sp ≡ spp
      → get_elem? n.zone_array i ≡ some zone
      → HasPages g i zone' k
      → IsDevice g (record n { zone_array = set n.zone_array i zone'; ssd = ssd })
  set_zone-IsDevice n ssd i k zone zone' d shape same found pages = record {
    params = same;
    groups = d.groups;
    size = d.size;
    count = d.count;
    array = length-set n.zone_array i zone' ∙ d.array;
    shape = shape;
    zones = λ j other e. elim (ℕ_discrete i j) [
      | yes p ↦
          let now : some other ≡ some zone' =
            sym e
            ∙ rw (← p) (
                get_elem?-set_self n.zone_array i zone' (lt-get_elem? n.zone_array i zone found)) in
          (k, rw (some-injective other zone' now, ← p) pages)
      | no p ↦ d.zones j other (sym (get_elem?-set_ne n.zone_array i j zone' p) ∙ e)
    ];
  }

  with_ptr :
      (zone : NvmeZone) (k x : ℕ)
      → WrittenTo g zone k
      → WrittenTo g (record zone { write_ptr = x }) k
  with_ptr zone k x w = record {
    at = record {
      is_zone = record {
        known = w.at.is_zone.known;
        same_cap = w.at.is_zone.same_cap;
        group = w.at.is_zone.group;
        die = w.at.is_zone.die;
        plane = w.at.is_zone.plane;
      };
      channel = w.at.channel;
      block = w.at.block;
      page = w.at.page;
    };
    inside = w.inside;
    state = w.state;
  }

  -- The zone of the request's first block.
  zone_of_request :
      (n : FemuCtrl) (i k c : ℕ) (req : NvmeRequest)
      → IsDevice g n
      → AsksFor g (i * zone_pages g + k) c req
      → k + c ≤ zone_pages g
      → zns_get_zone_by_lba n req.slba spp ≡ some i
  zone_of_request n i k c req d a h =
      ap (λ l. zns_get_zone_by_lba n l spp) (a.slba ∙ omega arith)
      ∙ zns_get_zone_by_lba-eq g n (i * zone_pages g + k) 0 d
          (omega (arith, a.in_range, a.some_page)) (secs_per_pg_pos g)
      ∙ ap some (div-of_parts i k (zone_pages g) (omega (arith, a.some_page)))

  -- What a write of `c` pages comes to, on the zone `i` with `k` pages written.
  pub record WriteResult (n : FemuCtrl) (i k c : ℕ) (req : NvmeRequest) (now : ℕ → ℕ) : Type 0 where
    pub n' : FemuCtrl
    pub zone' : NvmeZone
    pub latency : ℕ
    pub returns : zns_write n req now ≡ some (n', latency, [])
    pub programs :
        carry_out (user_write req.stime) (pages_from g (i * zone_pages g + k) c) 0 n.ssd now 0
        ≡ some (n'.ssd, latency)
    pub commands :
        n'.ssd.commands
        ≡ n.ssd.commands ++ sent (user_write req.stime) (pages_from g (i * zone_pages g + k) c)
    pub device : IsDevice g n'
    pub here : get_elem? n'.zone_array i ≡ some zone'
    pub pages : HasPages g i zone' (k + c)
    pub zones : n'.zone_array ≡ set n.zone_array i zone'

  -- On a device in order, a write of `c > 0` whole pages at the write pointer of zone `i`, where `k` pages are
  -- written and the `c` fit, returns without a message, sends the dies a program of each of the
  -- next `c` pages of the zone, in order, and no other command, moves the write pointer by `c` pages, leaves the other zones alone and keeps the device in order.
  pub zns_write-WriteResult :
      (n : FemuCtrl) (i k c : ℕ) (zone : NvmeZone) (req : NvmeRequest) (now : ℕ → ℕ)
      → IsDevice g n
      → get_elem? n.zone_array i ≡ some zone
      → HasPages g i zone k
      → AsksFor g (i * zone_pages g + k) c req
      → k + c ≤ zone_pages g
      → WriteResult n i k c req now
  unfolding zns_write
  zns_write-WriteResult n i k c zone req now d found z a h =
      let lt : i < length n.zone_array = lt-get_elem? n.zone_array i zone found in
      let ready = record zone { write_ptr = add64 zone.write_ptr req.nlb } in
      let w =
        write_pages-Writes g ready k c 0 n.ssd req.stime now 0 (with_ptr zone k _ z.written) h
          d.shape d.params in
      let pages : HasPages g i w.zone' (k + c) = record {
        written = w.written;
        id = w.same_id ∙ z.id;
        start = w.same_start ∙ z.start;
        ptr =
            w.same_ptr
            ∙ ap₂ add64 z.ptr a.nlb
            ∙ add64-eq (i * zone_lbas g + k * spp.secs_per_pg) (c * spp.secs_per_pg)
                (omega (arith, no_wrap g (i * zone_pages g + k) c req a))
            ∙ omega arith;
      } in
      let programs : carry_out (user_write req.stime) (pages_from g (i * zone_pages g + k) c) 0
            n.ssd now 0
          ≡ some (w.ssd', w.latency) =
        ap
          (λ j.
            carry_out (user_write req.stime) (pages_from g (j * zone_pages g + k) c) 0 n.ssd now 0)
          (sym z.id)
        ∙ w.programs in
      let done = set_zone-IsDevice n w.ssd' i (k + c) zone w.zone' d w.shape w.params found pages in
      record {
        n' = record n { zone_array = set n.zone_array i w.zone'; ssd = w.ssd' };
        zone' = w.zone';
        latency = w.latency;
        returns =
            zns_write-steps n req now i c w.latency zone w.zone' w.ssd'
              (ap (zns_get_zone_by_lba n req.slba) d.params ∙ zone_of_request n i k c req d a h)
              found
              (ap (λ (s : SsdParams). lpn_count s req.slba req.nlb) d.params
                ∙ lpn_count-eq g (i * zone_pages g + k) c req a)
              (ap (λ (f : ℕ). write_pages c 0 f ready n.ssd req.stime now 0) d.groups ∙ w.returns)
            ∙ ap
                (λ (e : List FtlErr). some (
                  record n { zone_array = set n.zone_array i w.zone'; ssd = w.ssd' },
                  w.latency,
                  e,
                ))
                (zns_check_zone_write-ok g n i k c zone req d z a h);
        programs = programs;
        commands =
            carry_out-commands (user_write req.stime) (pages_from g (i * zone_pages g + k) c) 0
              n.ssd w.ssd' now 0 w.latency programs;
        device = done;
        here = get_elem?-set_self n.zone_array i w.zone' lt;
        pages = pages;
        zones = refl;
      }
