-- ===== src/Ftl/Shape.antt =====
-- The sizes of the arrays of the device, under `get_lun` and `ssd_advance_status` of src/femu/ftl.c.
use mathlib.Core.Option.{some-injective}
use lsm_based_on_zns_ssd.Base.{
  ℕ, zero, suc, ◌≤◌, ◌+◌, ◌-◌, ◌<◌, ◌≡◌, refl, inl, inr, sym, ◌∙◌, arith, some, length, get_elem?,
  set, length-set, get_elem?-lt, lt-get_elem?, get_elem?-set_self, get_elem?-set_ne, Option-cases,
  ℕ_discrete, if◌then◌else◌, ltb, ◌==◌, add64, sub64, u64_mod,
}
use lsm_based_on_zns_ssd.Ftl.Types.{Ppa, NandLun, SsdChannel, NandCmd, Ssd, SsdParams, nand_erase}
use lsm_based_on_zns_ssd.Ftl.Timing.{
  get_ch, get_lun, put_lun, command_cost, nand_start, record_call, ssd_advance_status,
}

pub record HasShape (ssd : Ssd) : Type 0 where
  pub channels : length ssd.ch ≡ ssd.sp.nchs
  pub dies :
      (c : ℕ) (ch : SsdChannel) → get_elem? ssd.ch c ≡ some ch → length ch.lun ≡ ssd.sp.luns_per_ch

-- The page lies on a die of the device.
pub record OnDevice (ssd : Ssd) (ppa : Ppa) : Type 0 where
  pub channel : ppa.ch < ssd.sp.nchs
  pub die : ppa.lun < ssd.sp.luns_per_ch

die_times :
    (avail arrived cost : ℕ)
    → avail + cost < u64_mod
    → arrived + cost < u64_mod
    → let next = add64 (if ltb avail arrived then arrived else avail) cost in
      (next ≡ arrived + sub64 next arrived) × (sub64 next arrived ≡ (avail - arrived) + cost)
unfolding add64 sub64
die_times avail arrived cost h k = (ground arith, ground arith)

-- The flash's time for a read (0), a write (1) and an erase (2).
abbrev pub nand_latency : SsdParams → ℕ → ℕ
nand_latency spp zero = spp.pg_rd_lat
nand_latency spp (suc zero) = spp.pg_wr_lat
nand_latency spp (suc (suc k)) = spp.blk_er_lat

command_cost-known :
    (spp : SsdParams) (type cmd stime : ℕ)
    → cmd ≤ nand_erase
    → command_cost spp (record { type = type; cmd = cmd; stime = stime })
      ≡ some (nand_latency spp cmd)
unfolding command_cost
command_cost-known spp type zero stime h = refl
command_cost-known spp type (suc zero) stime h = ground arith
command_cost-known spp type (suc (suc zero)) stime h = refl
command_cost-known spp type (suc (suc (suc k))) stime h = absurd (omega arith)

-- When a command reaches the die, the die after it, and how long it took.
abbrev pub arrival : NandCmd → ℕ → ℕ
arrival cmd now = if cmd.stime == 0 then now else cmd.stime

abbrev pub after : NandLun → NandCmd → ℕ → ℕ → NandLun
after lun cmd now cost = record lun {
  next_lun_avail_time = add64 (nand_start lun (arrival cmd now)) cost;
}

abbrev pub latency : NandLun → NandCmd → ℕ → ℕ → ℕ
latency lun cmd now cost = sub64 (add64 (nand_start lun (arrival cmd now)) cost) (arrival cmd now)

abbrev pub with_lun : Ssd → Ppa → SsdChannel → NandLun → Ssd
with_lun ssd ppa ch lun = record ssd {
  ch = set ssd.ch ppa.ch (record ch { lun = set ch.lun ppa.lun lun });
}

module _ (ssd : Ssd) (ppa : Ppa) (shape : HasShape ssd) (on : OnDevice ssd ppa) where
  get_ch-total : (ch : SsdChannel) × (get_elem? ssd.ch ppa.ch ≡ some ch)
  get_ch-total = get_elem?-lt ssd.ch ppa.ch (omega (arith, shape.channels, on.channel))

  -- A die that is found, and the channel that holds it.
  pub get_lun-total :
      (lun : NandLun) × (ch : SsdChannel) × (get_elem? ssd.ch ppa.ch ≡ some ch)
      × (get_elem? ch.lun ppa.lun ≡ some lun)
      × (get_lun ssd ppa ≡ some lun)
  unfolding get_lun get_ch
  get_lun-total =
      let (ch, found) = get_ch-total in
      let (lun, here) =
        get_elem?-lt ch.lun ppa.lun (omega (arith, shape.dies ppa.ch ch found, on.die)) in
      (lun, ch, found, here, rw found here)

  with_lun-HasShape :
      (lun : NandLun) (ch : SsdChannel)
      → get_elem? ssd.ch ppa.ch ≡ some ch
      → HasShape (with_lun ssd ppa ch lun)
  with_lun-HasShape lun ch found = record {
    channels = length-set ssd.ch ppa.ch _ ∙ shape.channels;
    dies = λ c d e. elim (ℕ_discrete ppa.ch c) [
      | yes p ↦
          let same : some d ≡ some (record ch { lun = set ch.lun ppa.lun lun }) =
            sym e
            ∙ rw (← p) (get_elem?-set_self ssd.ch ppa.ch _ (lt-get_elem? ssd.ch ppa.ch ch found)) in
          rw (some-injective d _ same) (length-set ch.lun ppa.lun lun ∙ shape.dies ppa.ch ch found)
      | no p ↦ shape.dies c d (sym (get_elem?-set_ne ssd.ch ppa.ch c _ p) ∙ e)
    ];
  }

  pub put_lun-total :
      (lun : NandLun)
      → (ssd' : Ssd) × (put_lun ssd ppa lun ≡ some ssd')
        × HasShape ssd'
        × (ssd'.sp ≡ ssd.sp)
        × (get_lun ssd' ppa ≡ some lun)
  unfolding put_lun get_lun get_ch
  put_lun-total lun =
      let (old, ch, found, here, _) = get_lun-total in
      (
        with_lun ssd ppa ch lun,
        rw found,
        with_lun-HasShape lun ch found,
        refl,
        rw
            (get_elem?-set_self ssd.ch ppa.ch (record ch { lun = set ch.lun ppa.lun lun })
              (lt-get_elem? ssd.ch ppa.ch ch found))
            (get_elem?-set_self ch.lun ppa.lun lun (lt-get_elem? ch.lun ppa.lun old here)),
      )

  -- The device with a call recorded has the same shape, and the page is on it.
  abbrev called_shape : (cmd : NandCmd) → HasShape (record_call ssd cmd ppa)
  called_shape cmd = record { channels = shape.channels; dies = shape.dies }

  abbrev called_on : (cmd : NandCmd) → OnDevice (record_call ssd cmd ppa) ppa
  called_on cmd = record { channel = on.channel; die = on.die }

module _ (ssd : Ssd) (ppa : Ppa) (shape : HasShape ssd) (on : OnDevice ssd ppa) where
  -- Any command to a page of the device is carried out, and keeps the device's shape.
  pub ssd_advance_status-total :
      (cmd : NandCmd) (now : ℕ)
      → (ssd' : Ssd) × (lat : ℕ) × (ssd_advance_status ssd ppa cmd now ≡ some (ssd', lat))
        × HasShape ssd'
        × (ssd'.sp ≡ ssd.sp)
  unfolding ssd_advance_status
  ssd_advance_status-total cmd now =
      let (lun, _, _, _, found) = get_lun-total ssd ppa shape on in
      elim (Option-cases (command_cost ssd.sp cmd)) [
        | inl e ↦
            (record_call ssd cmd ppa, 0, rw (found, e), called_shape ssd ppa shape on cmd, refl)
        | inr (cost, e) ↦
            let (ssd', stored, shape', same, _) =
              put_lun-total (record_call ssd cmd ppa) ppa (called_shape ssd ppa shape on cmd)
                (called_on ssd ppa shape on cmd) (after lun cmd now cost) in
            (ssd', latency lun cmd now cost, rw (found, e, stored), shape', same)
      ]

  -- On a die of the device, a read, a write or an erase waits until the die is free and then takes the flash's
  -- time for it: its latency is the wait plus this time, and the die is busy until the command arrived plus that
  -- latency, provided that neither time wraps. A request's time of 0 stands for the clock.
  pub ssd_advance_status_lem :
      (cmd : NandCmd) (now : ℕ) {lun : NandLun}
      → get_lun ssd ppa ≡ some lun
      → cmd.cmd ≤ nand_erase
      → lun.next_lun_avail_time + nand_latency ssd.sp cmd.cmd < u64_mod
      → arrival cmd now + nand_latency ssd.sp cmd.cmd < u64_mod
      → (ssd' : Ssd) × (lat : ℕ) × (lun' : NandLun) × (ssd_advance_status ssd ppa cmd now
          ≡ some (ssd', lat))
        × (get_lun ssd' ppa ≡ some lun')
        × (lun'.next_lun_avail_time ≡ arrival cmd now + lat)
        × (lat ≡ (lun.next_lun_avail_time - arrival cmd now) + nand_latency ssd.sp cmd.cmd)
  unfolding ssd_advance_status nand_start
  ssd_advance_status_lem cmd now {lun} found known fits fits' =
      let cost = nand_latency ssd.sp cmd.cmd in
      let (ssd', stored, _, _, got) =
        put_lun-total (record_call ssd cmd ppa) ppa (called_shape ssd ppa shape on cmd)
          (called_on ssd ppa shape on cmd) (after lun cmd now cost) in
      let times = die_times lun.next_lun_avail_time (arrival cmd now) cost fits fits' in
      (
        ssd',
        latency lun cmd now cost,
        after lun cmd now cost,
        rw (found, command_cost-known ssd.sp cmd.type cmd.cmd cmd.stime known, stored),
        got,
        times.0,
        times.1,
      )
