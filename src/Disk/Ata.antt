-- ===== src/Disk/Ata.antt =====
-- src/kernel/disk/ata.c and ata.h: the ATA disk in PIO mode.
-- What the driver does to the ports is a list of events, in order. The status bytes that it polls
-- are a stream, `status k` the k-th byte read from port 0x1f7; `none` is a wait that outlasts the
-- fuel. The wait for the interrupt ends by `ata_irq`, which is run there.
pub mod Wait
pub mod Lba
mod Examples
use strange_os.Prelude.{
  ℕ, zero, suc, ◌+◌, ◌-◌, ◌*◌, ◌/◌, ◌%◌, ◌^◌, Bool, true, false, not, ◌&&◌, Option, none, some,
  List, [], ◌∷◌, ◌++◌, bit_and, bit_or, ltb, ◌==◌, if◌then◌else◌,
}
use strange_os.Prelude.Int.{ℤ, pos, minus_one}

-- `outb`, `outsl` and `insl`; the latter two with the buffer and a count of double words.
pub data Event : Type 0 where
  out : ℕ → ℕ → Event
  outs : ℕ → ℕ → ℕ → Event
  ins : ℕ → ℕ → ℕ → Event

-- `portbout` takes a u8.
abbrev pub portbout : ℕ → ℕ → Event
portbout port d = out port (d % 256)

-- `ATA_CMD_READ`, `ATA_CMD_WRITE`, `ATA_CMD_RDMUL`, `ATA_CMD_WRMUL`
abbrev pub cmd_read : ℕ
cmd_read = 0x20

abbrev pub cmd_write : ℕ
cmd_write = 0x30

abbrev pub cmd_rdmul : ℕ
cmd_rdmul = 0xc4

abbrev pub cmd_wrmul : ℕ
cmd_wrmul = 0xc5

-- The static variables.
pub record Ata : Type 0 where
  pub hd1 : ℕ
  pub hd0 : ℕ
  pub hdn : ℕ
  pub irq_called : Bool
  pub ns : ℕ
  pub nn : ℕ
  pub nh : ℕ
  pub nc : ℕ
  pub nbuf : ℕ
  pub ncmd : ℕ
  pub md : ℕ

-- `r & (ATA_BSY|ATA_DRDY) != ATA_DRDY` as C reads it: `!=` binds tighter than `&`, and 0xc0 is
-- not 0x40, so that the mask is 1.
abbrev pub keeps_waiting : ℕ → Bool
keeps_waiting r = not (bit_and r 1 == 0)

-- The result, and the number of status bytes read so far.
unfoldable pub ata_wait : ℕ → (ℕ → ℕ) → ℕ → Bool → Option (ℤ × ℕ)
ata_wait zero status k chk_err = none
ata_wait (suc fuel) status k chk_err =
    let r = status k in
    let rest = ata_wait fuel status (k + 1) chk_err in
    if keeps_waiting r
    then rest
    else (if chk_err && not (bit_and r 0x21 == 0)
        then some (minus_one, k + 1)
        else some (pos 0, k + 1))

-- `ata_err`: the alternate status and the error register are arguments.
pub ata_err : ℕ → ℕ → ℕ
ata_err status error = if not (bit_and status 0x01 == 0) then error else 0

-- The loop that looks for disk 1, with the rounds left.
unfoldable pub find_disk1 : ℕ → (ℕ → ℕ) → ℕ → ℕ × ℕ
find_disk1 zero status k = (0, k)
find_disk1 (suc rounds) status k =
    let rest = find_disk1 rounds status (k + 1) in if not (status k == 0) then (1, k + 1) else rest

-- `ata_init`. The messages that it prints are left out.
unfoldable pub ata_init : ℕ → (ℕ → ℕ) → Ata → Option (Ata × List Event)
unfolding ata_wait find_disk1
ata_init fuel status a =
    let hd0' = if not (status 0 == 0xff) then 1 else 0 in
    elim (ata_wait fuel status 1 false) [
      | none ↦ none
      | some (_, k) ↦ some (
        record a { hd0 = hd0'; hd1 = (find_disk1 1000 status k).0 },
        portbout 0x1f6 (bit_or 0xe0 (1 * 2 ^ 4)) ∷ portbout 0x1f6 (bit_or 0xe0 (0 * 2 ^ 4)) ∷ [],
      )
    ]

-- The handler of the disk's interrupt.
pub ata_irq : Ata → Ata × List Event
ata_irq a = (
  record a { irq_called = true },
  if a.ncmd == cmd_read then ins 0x1f0 a.nbuf (128 * a.nn) ∷ [] else [],
)

-- The wait of a read: the interrupt comes, and the flag is cleared. Where the interrupt of a write has
-- left the flag set, there is no wait, and the interrupt of the read comes later.
abbrev pub await_irq : Ata → Ata × List Event
await_irq a = (record a { irq_called = false }, if a.irq_called then [] else (ata_irq a).1)

-- `ata_start_lba`, after its `ata_wait(0)`. The sector count is a u8.
pub ata_start_lba : Ata → ℕ → ℕ → ℕ → ℕ → Ata × List Event
unfolding ata_irq
ata_start_lba a cmd s n buf =
    let read_cmd = if n == 1 then cmd_read else cmd_rdmul in
    let write_cmd = if n == 1 then cmd_write else cmd_wrmul in
    let setup : List Event =
      portbout 0x3f6 0
      ∷ portbout 0x1f6 (bit_or (bit_or 0xe0 (a.hdn * 2 ^ 4)) (bit_and (s / 2 ^ 24) 0xf))
      ∷ portbout 0x1f2 n
      ∷ portbout 0x1f3 (bit_and s 0xff)
      ∷ portbout 0x1f4 (bit_and (s / 2 ^ 8) 0xff)
      ∷ portbout 0x1f5 (bit_and (s / 2 ^ 16) 0xff)
      ∷ [] in
    if cmd == cmd_write
    then (a, setup ++ (portbout 0x1f7 write_cmd ∷ outs 0x1f0 buf (128 * n) ∷ []))
    else (if cmd == cmd_read
        then (let (a', es) =
              await_irq (record a { ns = s % 256; nn = n; nbuf = buf; ncmd = cmd; md = 1 }) in
            (a', setup ++ (portbout 0x1f7 read_cmd ∷ es)))
        else (a, setup))

-- `ata_start`, after its `ata_wait(0)`.
pub ata_start : Ata → ℕ → ℕ → ℕ → ℕ → ℕ → ℕ → Ata × List Event
unfolding ata_irq
ata_start a cmd s n h c buf =
    let read_cmd = if n == 1 then cmd_read else cmd_rdmul in
    let write_cmd = if n == 1 then cmd_write else cmd_wrmul in
    let setup : List Event =
      portbout 0x3f6 0
      ∷ portbout 0x1f6 (bit_or (bit_or 0xe0 (a.hdn * 2 ^ 4)) (bit_and h 0x0f))
      ∷ portbout 0x1f2 n
      ∷ portbout 0x1f3 s
      ∷ portbout 0x1f4 (bit_and c 0xff)
      ∷ portbout 0x1f5 (bit_and (c / 2 ^ 8) 0xff)
      ∷ [] in
    if cmd == cmd_write
    then (a, setup ++ (portbout 0x1f7 write_cmd ∷ outs 0x1f0 buf (128 * n) ∷ []))
    else (let (a', es) =
          await_irq (record a { ns = s; nn = n; nh = h; nc = c; nbuf = buf; ncmd = cmd }) in
        (a', setup ++ (portbout 0x1f7 read_cmd ∷ es)))

-- `(hd1 << 1) | hd0`
unfoldable pub ata_get_dev : Ata → ℕ
ata_get_dev a = bit_or (a.hd1 * 2) a.hd0

pub ata_dev : Ata → ℕ → Ata
ata_dev a n = record a { hdn = n }

-- The four wrappers of ata.h, where a sector count `n` is cut to a u8.
pub ata_chs_read : Ata → ℕ → ℕ → ℕ → ℕ → ℕ → Ata × List Event
unfolding ata_start
ata_chs_read a z s n h d = ata_start a cmd_read s n h z d

pub ata_chs_write : Ata → ℕ → ℕ → ℕ → ℕ → ℕ → Ata × List Event
unfolding ata_start
ata_chs_write a z s n h d = ata_start a cmd_write s n h z d

pub ata_lba_read : Ata → ℕ → ℕ → ℕ → Ata × List Event
unfolding ata_start_lba
ata_lba_read a s n b = ata_start_lba a cmd_read s (n % 256) b

pub ata_lba_write : Ata → ℕ → ℕ → ℕ → Ata × List Event
unfolding ata_start_lba
ata_lba_write a s n b = ata_start_lba a cmd_write s (n % 256) b
