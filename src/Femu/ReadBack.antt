-- ===== src/Femu/ReadBack.antt =====
-- `femu_write` followed by `femu_read` (src/femu/femu.c): a request is read back from the pages it was written to.
use lsm_based_on_zns_ssd.Base.{
  ℕ, ◌+◌, ◌*◌, ◌≤◌, ◌<◌, ◌≡◌, ◌∙◌, ap, false, [], ◌++◌, some, get_elem?,
}
use lsm_based_on_zns_ssd.Ftl.Types.{SsdParams, NvmeZone, FemuCtrl}
use lsm_based_on_zns_ssd.Ftl.Geometry.{Geometry, zone_pages}
use lsm_based_on_zns_ssd.Ftl.Calls.{sent}
use lsm_based_on_zns_ssd.Ftl.Transfer.{user_write, user_read, pages_from}
use lsm_based_on_zns_ssd.Ftl.Device.{HasPages, IsDevice}
use lsm_based_on_zns_ssd.Femu.Requests.{femu_write, femu_read}
use lsm_based_on_zns_ssd.Femu.Bytes.{page_bytes, femu_write-Stored, femu_read-Loaded}

module _ {spp : SsdParams} {num_fcg zone_cap num_zones : ℕ}
    (g : Geometry spp num_fcg zone_cap num_zones) where
  -- A write that begins at page `p` and a later read of the same bytes.
  pub record ReadsBack (n : FemuCtrl) (p c start later : ℕ) (now now' poll : ℕ → ℕ) (fuel : ℕ)
      : Type 0 where
    pub n₁ : FemuCtrl
    pub n₂ : FemuCtrl
    pub writes :
        femu_write n (c * page_bytes g) (p * page_bytes g) false start now poll fuel
        ≡ some (n₁, [], 0)
    pub reads :
        femu_read n₁ (c * page_bytes g) (p * page_bytes g) false later now' poll fuel
        ≡ some (n₂, [], 0)
    pub commands :
        n₂.ssd.commands
        ≡ (n.ssd.commands ++ sent (user_write start) (pages_from g p c))
          ++ sent (user_read later) (pages_from g p c)
    pub zones : n₂.zone_array ≡ n₁.zone_array
    pub device : IsDevice g n₂

  -- On a device in order, a write of `c > 0` pages, given in bytes, that begins at the write pointer of zone `i` and
  -- fits the zone, and then a read of the same bytes, where neither waits, both return without a message; together
  -- they send the dies a program of each page and then a read of each of the same pages, in the same order, and no
  -- other command. The read changes no zone, and the device is in order.
  pub femu_write-femu_read :
      (n : FemuCtrl) (i k c start later : ℕ) (zone : NvmeZone) (now now' poll : ℕ → ℕ) (fuel : ℕ)
      → IsDevice g n
      → get_elem? n.zone_array i ≡ some zone
      → HasPages g i zone k
      → 0 < c
      → i * zone_pages g + k + c ≤ num_zones * zone_pages g
      → k + c ≤ zone_pages g
      → ReadsBack n (i * zone_pages g + k) c start later now now' poll fuel
  femu_write-femu_read n i k c start later zone now now' poll fuel d found z some_page in_range h =
      let p = i * zone_pages g + k in
      let w = femu_write-Stored g n i k c start zone now poll fuel d found z some_page in_range h in
      let r = femu_read-Loaded g w.n' p c later now' poll fuel w.device some_page in_range in
      record {
        n₁ = w.n';
        n₂ = r.n';
        writes = w.returns;
        reads = r.returns;
        commands =
            r.commands ∙ ap (λ cs. cs ++ sent (user_read later) (pages_from g p c)) w.commands;
        zones = r.zones;
        device = r.device;
      }
