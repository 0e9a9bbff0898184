-- ===== src/Ftl/Reset.antt =====
-- `zns_reset` of src/femu/ftl.c on a device that is in order.
use native.Mathlib.Nat.{mod-lt, mul-mod_right, zero-mod, zero-div}
use lsm_based_on_zns_ssd.Base.{
  ℕ, ◌+◌, ◌-◌, ◌*◌, ◌/◌, ◌%◌, ◌≤◌, ◌<◌, ◌≡◌, refl, sym, ap, ap₂, subst, subst₂, row_end-le', ◌∙◌,
  arith, true, false, Option, List, ◌++◌, some, get_elem?, set, get_elem?-set_self, lt-get_elem?,
  u32_mod,
}
use lsm_based_on_zns_ssd.Ftl.Types.{Ppa, SsdParams, Ssd, NvmeZone, NvmeRequest, FemuCtrl}
use lsm_based_on_zns_ssd.Ftl.Pointer.{block_bytes, end_of, zns_reset_wpp}
use lsm_based_on_zns_ssd.Ftl.Commands.{is_full, zns_get_zone_by_lba, erase_channels, zns_reset}
use lsm_based_on_zns_ssd.Ftl.Geometry.{Geometry, zone_pages, chips-eq, end_of-eq}
use lsm_based_on_zns_ssd.Ftl.Layout.{base_block, place, channel_at, block_at}
use lsm_based_on_zns_ssd.Ftl.Shape.{HasShape, OnDevice}
use lsm_based_on_zns_ssd.Ftl.Transfer.{WrittenTo, place-OnDevice}
use lsm_based_on_zns_ssd.Ftl.Device.{HasPages, IsDevice, zns_get_zone_by_lba-eq}
use lsm_based_on_zns_ssd.Ftl.Write.{set_zone-IsDevice}
use lsm_based_on_zns_ssd.Ftl.Calls.{sent, gc_erase, erase_run, erase_run-commands}
use lsm_based_on_zns_ssd.Ftl.Erase.{Erases, channels_from}
use lsm_based_on_zns_ssd.Ftl.EraseZone.{erase_channels-Erases}
use lsm_based_on_zns_ssd.Ftl.Fresh.{zns_reset_wpp-WrittenTo}

-- The zone that a reset leaves, and the channels that it erases.
abbrev reset_zone : FemuCtrl → NvmeZone → NvmeZone
reset_zone n zone =
    zns_reset_wpp (record zone { write_ptr = zone.start_lba }) n.ssd.sp n.num_fcg
      (block_bytes n.ssd.sp)

abbrev erase_zone : SsdParams → ℕ → NvmeZone → NvmeZone → Ssd → (ℕ → ℕ) → Option (Ssd × ℕ)
erase_zone spp num_fcg zone zone' ssd now =
    erase_channels (spp.nchs / num_fcg * (zone'.wpp.fcg_id + 1) - zone'.wpp.ch) 0 zone'.wpp.ch
      zone'.wpp.lun zone'.wpp.blk (end_of num_fcg spp zone (block_bytes spp)) ssd now

zns_reset-full :
    (n : FemuCtrl) (req : NvmeRequest) (now : ℕ → ℕ) (i c : ℕ) (zone : NvmeZone) (ssd' : Ssd)
    → zns_get_zone_by_lba n req.slba n.ssd.sp ≡ some i
    → get_elem? n.zone_array i ≡ some zone
    → is_full zone.state ≡ true
    → erase_zone n.ssd.sp n.num_fcg zone (reset_zone n zone) n.ssd now ≡ some (ssd', c)
    → zns_reset n req now
      ≡ some (record n { zone_array = set n.zone_array i (reset_zone n zone); ssd = ssd' })
unfolding zns_reset
zns_reset-full n req now i c zone ssd' idx found full run = rw (idx, found, full, run)

zns_reset-not_full :
    (n : FemuCtrl) (req : NvmeRequest) (now : ℕ → ℕ) (i : ℕ) (zone : NvmeZone)
    → zns_get_zone_by_lba n req.slba n.ssd.sp ≡ some i
    → get_elem? n.zone_array i ≡ some zone
    → is_full zone.state ≡ false
    → zns_reset n req now ≡ some n
unfolding zns_reset
zns_reset-not_full n req now i zone idx found empty = rw (idx, found, empty)

reset_keeps :
    (zone : NvmeZone) (spp : SsdParams) (num_fcg b : ℕ)
    → let zone' = zns_reset_wpp zone spp num_fcg b in
      (zone'.zone_id ≡ zone.zone_id)
      × (zone'.start_lba ≡ zone.start_lba)
      × (zone'.write_ptr ≡ zone.write_ptr)
unfolding zns_reset_wpp
reset_keeps zone spp num_fcg b = (refl, refl, refl)

module _ {spp : SsdParams} {num_fcg zone_cap num_zones : ℕ}
    (g : Geometry spp num_fcg zone_cap num_zones) where
  open g use {chips, blocks, slots, blocks_pos}

  -- The blocks of the zone `i`: channel after channel, the same rows on each.
  abbrev pub zone_blocks : ℕ → List Ppa
  zone_blocks i =
      channels_from chips (i % num_fcg * chips) (i / (slots * num_fcg)) (base_block g i) blocks

  -- A request to reset the zone `i`: any of its logical blocks names it.
  pub record ResetsZone (i : ℕ) (req : NvmeRequest) : Type 0 where
    pub page : ℕ
    pub rest : ℕ
    pub slba : req.slba ≡ page * spp.secs_per_pg + rest
    pub in_page : rest < spp.secs_per_pg
    pub in_range : page < num_zones * zone_pages g
    pub zone : page / zone_pages g ≡ i

  pub record ResetResult (n : FemuCtrl) (i : ℕ) (req : NvmeRequest) (now : ℕ → ℕ) : Type 0 where
    pub n' : FemuCtrl
    pub zone' : NvmeZone
    pub returns : zns_reset n req now ≡ some n'
    pub erases : erase_run (zone_blocks i) 0 n.ssd now ≡ some n'.ssd
    pub commands : n'.ssd.commands ≡ n.ssd.commands ++ sent gc_erase (zone_blocks i)
    pub device : IsDevice g n'
    pub here : get_elem? n'.zone_array i ≡ some zone'
    pub pages : HasPages g i zone' 0
    pub zones : n'.zone_array ≡ set n.zone_array i zone'

  zone_of_reset :
      (n : FemuCtrl) (i : ℕ) (req : NvmeRequest)
      → IsDevice g n
      → ResetsZone i req
      → zns_get_zone_by_lba n req.slba n.ssd.sp ≡ some i
  zone_of_reset n i req d r =
      ap₂ (zns_get_zone_by_lba n) r.slba d.params
      ∙ zns_get_zone_by_lba-eq g n r.page r.rest d r.in_range r.in_page
      ∙ ap some r.zone

  -- On a device in order, a reset request that names a zone with fewer pages written than it has changes
  -- nothing.
  pub zns_reset-open :
      (n : FemuCtrl) (i k : ℕ) (zone : NvmeZone) (req : NvmeRequest) (now : ℕ → ℕ)
      → IsDevice g n
      → get_elem? n.zone_array i ≡ some zone
      → HasPages g i zone k
      → k < zone_pages g
      → ResetsZone i req
      → zns_reset n req now ≡ some n
  zns_reset-open n i k zone req now d found z h r =
      zns_reset-not_full n req now i zone (zone_of_reset n i req d r) found
        (ground (arith, z.written.state))

  zone_run :
      (zone zone' : NvmeZone) (i : ℕ) (ssd : Ssd) (now : ℕ → ℕ)
      → zone.zone_cap ≡ zone_cap
      → WrittenTo g zone' 0
      → zone'.zone_id ≡ i
      → HasShape ssd
      → ssd.sp ≡ spp
      → Erases (erase_zone spp num_fcg zone zone' ssd now) (zone_blocks i) 0 ssd now
  zone_run zone zone' i ssd now cap w id shape same =
      subst (λ l. Erases l (zone_blocks i) 0 ssd now)
        (sym (rw (end_of-eq g zone cap, ch, lun, blk, group, chips-eq g, count)))
        (erase_channels-Erases (i / (slots * num_fcg)) (base_block g i) blocks now blocks_pos row
          fits chips (i % num_fcg * chips) 0 ssd shape
          (omega (arith, ap (λ (s : SsdParams). s.nchs) same, g.channels, last_channel)) on.die)
    where
      known : i < num_zones
      known = omega (arith, w.at.is_zone.known)

      group : zone'.wpp.fcg_id ≡ i % num_fcg
      group = w.at.is_zone.group ∙ ap (λ j. j % num_fcg) id

      lun : zone'.wpp.lun ≡ i / (slots * num_fcg)
      lun = w.at.is_zone.die ∙ ap (λ j. j / (slots * num_fcg)) id

      ch : zone'.wpp.ch ≡ i % num_fcg * chips
      ch = w.at.channel ∙ ap (λ j. channel_at g j 0) id ∙ rw (zero-mod chips) (omega arith)

      blk : zone'.wpp.blk ≡ base_block g i
      blk =
          w.at.block
          ∙ ap (λ j. block_at g j 0) id
          ∙ rw (zero-div chips, zero-mod blocks) (omega arith)

      count : chips * (i % num_fcg + 1) - i % num_fcg * chips ≡ chips
      count = omega arith

      last_channel : i % num_fcg * chips + chips ≤ chips * num_fcg
      last_channel = row_end-le' (i % num_fcg) num_fcg chips (mod-lt i g.groups_pos)

      row : base_block g i % blocks ≡ 0
      row = mul-mod_right blocks (i / num_fcg % slots)

      fits : base_block g i + blocks < u32_mod
      fits = omega (
        arith,
        g.small_die,
        g.die,
        row_end-le' (i / num_fcg % slots) slots blocks (mod-lt (i / num_fcg) g.slots_pos),
      )

      on : OnDevice ssd (place g i 0)
      on = place-OnDevice g ssd i 0 same known

  -- On a device in order, a reset request that names a full zone `i` sends the dies an erase of every block of the
  -- zone, once each, in order, and no other command, leaves the zone with no page written and the write pointer at its start, leaves the other zones
  -- alone and keeps the device in order.
  pub zns_reset-ResetResult :
      (n : FemuCtrl) (i : ℕ) (zone : NvmeZone) (req : NvmeRequest) (now : ℕ → ℕ)
      → IsDevice g n
      → get_elem? n.zone_array i ≡ some zone
      → HasPages g i zone (zone_pages g)
      → ResetsZone i req
      → ResetResult n i req now
  zns_reset-ResetResult n i zone req now d found z r =
      let fresh = record zone { write_ptr = zone.start_lba } in
      let keeps = reset_keeps fresh n.ssd.sp n.num_fcg (block_bytes n.ssd.sp) in
      let written : WrittenTo g (reset_zone n zone) 0 =
        subst₂ (λ (s : SsdParams) (f : ℕ). WrittenTo g (zns_reset_wpp fresh s f (block_bytes s)) 0)
          (sym d.params) (sym d.groups)
          (zns_reset_wpp-WrittenTo g fresh z.written.at.is_zone.known
            z.written.at.is_zone.same_cap) in
      let pages : HasPages g i (reset_zone n zone) 0 = record {
        written = written;
        id = keeps.0 ∙ z.id;
        start = keeps.1 ∙ z.start;
        ptr = keeps.2 ∙ z.start ∙ omega arith;
      } in
      let e : Erases (erase_zone n.ssd.sp n.num_fcg zone (reset_zone n zone) n.ssd now)
          (zone_blocks i) 0 n.ssd now =
        subst₂
          (λ (s : SsdParams) (f : ℕ).
            Erases (erase_zone s f zone (reset_zone n zone) n.ssd now) (zone_blocks i) 0 n.ssd now)
          (sym d.params) (sym d.groups)
          (zone_run zone (reset_zone n zone) i n.ssd now z.written.at.is_zone.same_cap written
            (keeps.0 ∙ z.id) d.shape d.params) in
      record {
        n' = record n { zone_array = set n.zone_array i (reset_zone n zone); ssd = e.ssd' };
        zone' = reset_zone n zone;
        returns =
            zns_reset-full n req now i _ zone e.ssd' (zone_of_reset n i req d r) found
              (ground (arith, z.written.state)) e.returns;
        erases = e.erases;
        commands =
            erase_run-commands (zone_blocks i) 0 n.ssd e.ssd' now
              (ap (λ (s : SsdParams). s.enable_gc_delay) d.params ∙ g.erases_wait) e.erases;
        device =
            set_zone-IsDevice g n e.ssd' i 0 zone (reset_zone n zone) d e.shape
              (e.params ∙ d.params) found pages;
        here =
            get_elem?-set_self n.zone_array i (reset_zone n zone)
              (lt-get_elem? n.zone_array i zone found);
        pages = pages;
        zones = refl;
      }
