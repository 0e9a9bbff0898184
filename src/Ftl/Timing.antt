-- ===== src/Ftl/Timing.antt =====
-- `get_ch`, `get_lun`, `get_pl`, `get_blk` and `ssd_advance_status` of src/femu/ftl.c: how long
-- a die is busy. Each call of `ssd_advance_status` is recorded. An index outside an array is `none`. The clock's reading is an argument.
use lsm_based_on_zns_ssd.Base.{
  ℕ, if◌then◌else◌, ltb, ◌==◌, Option, some, none, ◌>>=◌, get_elem?, set, add64, sub64, [], ◌∷◌,
  ◌++◌,
}
use lsm_based_on_zns_ssd.Ftl.Types.{
  Ppa, NandBlock, NandPlane, NandLun, SsdChannel, SsdParams, NandCmd, Ssd, nand_read, nand_write,
  nand_erase, user_io,
}

unfoldable pub get_ch : Ssd → Ppa → Option SsdChannel
get_ch ssd ppa = get_elem? ssd.ch ppa.ch

unfoldable pub get_lun : Ssd → Ppa → Option NandLun
unfolding get_ch
get_lun ssd ppa = do ch ← get_ch ssd ppa; get_elem? ch.lun ppa.lun

unfoldable pub get_pl : Ssd → Ppa → Option NandPlane
unfolding get_lun
get_pl ssd ppa = do lun ← get_lun ssd ppa; get_elem? lun.pl ppa.pl

unfoldable pub get_blk : Ssd → Ppa → Option NandBlock
unfolding get_pl
get_blk ssd ppa = do pl ← get_pl ssd ppa; get_elem? pl.blk ppa.blk

-- A write through the pointer that `get_lun` returned.
unfoldable pub put_lun : Ssd → Ppa → NandLun → Option Ssd
unfolding get_ch
put_lun ssd ppa lun = do
  ch ← get_ch ssd ppa
  some (record ssd { ch = set ssd.ch ppa.ch (record ch { lun = set ch.lun ppa.lun lun }) })

-- The latency of a command, or `none` for a command that the switch does not know.
unfoldable pub command_cost : SsdParams → NandCmd → Option ℕ
command_cost spp ncmd =
    if ncmd.cmd == nand_read
    then some spp.pg_rd_lat
    else if ncmd.cmd == nand_write
    then (if ncmd.type == user_io then some spp.pg_wr_lat else some spp.pg_wr_lat)
    else if ncmd.cmd == nand_erase
    then some spp.blk_er_lat
    else none

-- When the die starts on a command that arrives at `cmd_stime`.
unfoldable pub nand_start : NandLun → ℕ → ℕ
nand_start lun cmd_stime =
    if ltb lun.next_lun_avail_time cmd_stime then cmd_stime else lun.next_lun_avail_time

-- The call is recorded.
abbrev pub record_call : Ssd → NandCmd → Ppa → Ssd
record_call ssd ncmd ppa = record ssd { commands = ssd.commands ++ ((ncmd, ppa) ∷ []) }

unfoldable pub ssd_advance_status : Ssd → Ppa → NandCmd → ℕ → Option (Ssd × ℕ)
unfolding get_lun put_lun command_cost nand_start
ssd_advance_status ssd ppa ncmd now = do
  lun ← get_lun ssd ppa
  let called = record_call ssd ncmd ppa
  let cmd_stime = if ncmd.stime == 0 then now else ncmd.stime
  elim (command_cost ssd.sp ncmd) [
    | none ↦ some (called, 0)
    | some cost ↦ do
      let avail = add64 (nand_start lun cmd_stime) cost
      ssd' ← put_lun called ppa (record lun { next_lun_avail_time = avail })
      some (ssd', sub64 avail cmd_stime)
  ]
