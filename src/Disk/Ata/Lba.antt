-- ===== src/Disk/Ata/Lba.antt =====
-- The registers of a request by sector number.
use strange_os.Prelude.{
  ℕ, ◌+◌, ◌*◌, ◌/◌, ◌%◌, ◌^◌, ◌≤◌, ◌<◌, ◌≡◌, refl, false, Option, none, some, List, [], ◌∷◌, arith,
  bit_or, bit_and, ◌==◌, if◌then◌else◌, inl, inr, Bool-cases,
}
use strange_os.Prelude.Bits.{bit_or-low, bit_and-low}
use strange_os.Disk.Ata.{
  Ata, Event, out, outs, ins, cmd_read, cmd_rdmul, cmd_write, cmd_wrmul, ata_irq, ata_lba_read,
  ata_lba_write,
}

-- The last value that the events write to a port.
abbrev pub last_out : ℕ → ℕ → List Event → ℕ
last_out port v [] = v
last_out port v (out p w ∷ es) = last_out port (if p == port then w else v) es
last_out port v (outs p b n ∷ es) = last_out port v es
last_out port v (ins p b n ∷ es) = last_out port v es

-- The sector number that the registers hold, as the disk reads it in LBA mode.
abbrev pub lba_of : List Event → ℕ
lba_of es =
    last_out 0x1f3 0 es
    + 2 ^ 8 * last_out 0x1f4 0 es
    + 2 ^ 16 * last_out 0x1f5 0 es
    + 2 ^ 24 * (last_out 0x1f6 0 es % 16)

drive_byte :
    (hdn top : ℕ)
    → hdn ≤ 1
    → top < 16
    → bit_or (bit_or 0xe0 (hdn * 2 ^ 4)) top ≡ 224 + 16 * hdn + top
drive_byte hdn top h t = elim (Bool-cases (hdn == 0)) [
  | inl e ↦ ground (arith, bit_or-low 4 14 top)
  | inr e ↦ ground (arith, bit_or-low 4 15 top)
]

-- A read or a write of fewer than 256 sectors from a sector below 2^28, on drive 0 or 1, sets the
-- registers of the disk to that sector, drive and count, and sends the command that fits the
-- count.
pub ata_lba_registers :
    (a : Ata) (s n buf : ℕ)
    → a.hdn ≤ 1
    → s < 2 ^ 28
    → n < 256
    → let reading = (ata_lba_read a s n buf).1 in
      let writing = (ata_lba_write a s n buf).1 in
      (lba_of reading ≡ s)
      × (lba_of writing ≡ s)
      × (last_out 0x1f6 0 reading / 16 ≡ 14 + a.hdn)
      × (last_out 0x1f6 0 writing / 16 ≡ 14 + a.hdn)
      × (last_out 0x1f2 0 reading ≡ n)
      × (last_out 0x1f2 0 writing ≡ n)
      × (last_out 0x1f7 0 reading ≡ (if n == 1 then cmd_read else cmd_rdmul))
      × (last_out 0x1f7 0 writing ≡ (if n == 1 then cmd_write else cmd_wrmul))
unfolding ata_lba_read ata_lba_write
ata_lba_registers a s n buf hd hs hn =
    let low = bit_and-low 8 s in
    let mid = bit_and-low 8 (s / 2 ^ 8) in
    let high = bit_and-low 8 (s / 2 ^ 16) in
    let nibble : bit_and (s / 2 ^ 24) 0xf ≡ s / 2 ^ 24 =
      omega (arith, bit_and-low 4 (s / 2 ^ 24)) in
    let drive = drive_byte a.hdn (bit_and (s / 2 ^ 24) 0xf) hd (omega arith) in
    let number : bit_and s 0xff % 256
          + 256 * (bit_and (s / 2 ^ 8) 0xff % 256)
          + 2 ^ 16 * (bit_and (s / 2 ^ 16) 0xff % 256)
          + 2 ^ 24 * (bit_or (bit_or 0xe0 (a.hdn * 2 ^ 4)) (bit_and (s / 2 ^ 24) 0xf) % 256 % 16)
        ≡ s =
      omega arith in
    let selected : bit_or (bit_or 0xe0 (a.hdn * 2 ^ 4)) (bit_and (s / 2 ^ 24) 0xf) % 256 / 16
        ≡ 14 + a.hdn =
      omega arith in
    elim (Bool-cases a.irq_called) [
      | inl e ↦
          rw e (
            number,
            number,
            selected,
            selected,
            omega arith,
            omega arith,
            ground arith,
            ground arith,
          )
      | inr e ↦
          rw e (
            number,
            number,
            selected,
            selected,
            omega arith,
            omega arith,
            ground arith,
            ground arith,
          )
    ]

abbrev pub last_event : List Event → Option Event
last_event [] = none
last_event (e ∷ []) = some e
last_event (e ∷ f ∷ es) = last_event (f ∷ es)

-- Writes in a row: sector, count and buffer of each.
pub write_all : Ata → List (ℕ × ℕ × ℕ) → Ata
write_all a [] = a
write_all a ((s, n, buf) ∷ ws) = write_all (ata_lba_write a s n buf).0 ws

write_all_keeps : (a : Ata) (ws : List (ℕ × ℕ × ℕ)) → write_all a ws ≡ a
unfolding write_all ata_lba_write
write_all_keeps a [] = refl
write_all_keeps a ((s, n, buf) ∷ ws) = write_all_keeps a ws

-- With no interrupt left over, a read takes its interrupt for the end of the read and clears the flag that it waits for. After
-- it, whatever writes follow, the handler takes the interrupt of a write for the end of that read
-- too, and reads as many double words into the old buffer again.
pub write_irq-reads :
    (a : Ata) (s n old : ℕ) (ws : List (ℕ × ℕ × ℕ))
    → a.irq_called ≡ false
    → let (after_read, events) = ata_lba_read a s n old in
      (last_event events ≡ some (ins 0x1f0 old (128 * (n % 256))))
      × (after_read.irq_called ≡ false)
      × ((ata_irq (write_all after_read ws)).1 ≡ ins 0x1f0 old (128 * (n % 256)) ∷ [])
unfolding ata_lba_read ata_irq
write_irq-reads a s n old ws none_left =
    (rw none_left refl, refl, rw (write_all_keeps (ata_lba_read a s n old).0 ws) refl)
