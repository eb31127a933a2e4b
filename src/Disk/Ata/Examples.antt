-- ===== src/Disk/Ata/Examples.antt =====
-- Requests to the disk, and the theorems about them at concrete sectors.
use strange_os.Prelude.{
  ℕ, zero, suc, ◌+◌, ◌%◌, ◌<◌, ltb, if◌then◌else◌, ◌/◌, ◌≡◌, refl, false, some, [], ◌∷◌, arith,
}
use strange_os.Prelude.Int.{pos}
use strange_os.Disk.Ata.{
  Ata, ata_wait, ata_chs_read, ata_lba_read, ata_lba_write, out, ins, cmd_read, cmd_write,
}
use strange_os.Disk.Ata.Wait.{ata_wait_first_even}
use strange_os.Disk.Ata.Lba.{last_out, lba_of, ata_lba_registers}

abbrev ata : Ata
ata = record {
  hd1 = 0;
  hd0 = 1;
  hdn = 0;
  irq_called = false;
  ns = 0;
  nn = 0;
  nh = 0;
  nc = 0;
  nbuf = 0;
  ncmd = 0;
  md = 0;
}

chs_read_runs :
    (ata_chs_read ata 0 1 2 0 4096).1
    ≡ out 0x3f6 0
      ∷ out 0x1f6 0xe0
      ∷ out 0x1f2 2
      ∷ out 0x1f3 1
      ∷ out 0x1f4 0
      ∷ out 0x1f5 0
      ∷ out 0x1f7 0xc4
      ∷ ins 0x1f0 4096 256
      ∷ []
unfolding ata_chs_read
chs_read_runs = refl

-- The first status byte is busy (0x80) with the error bit clear.
busy : ata_wait 5 (λ _. 0x80) 0 false ≡ some (pos 0, 1)
unfolding ata_wait
busy = refl

ata_lba_registers_example :
    let reading = (ata_lba_read ata 0x1234567 1 4096).1 in
    let writing = (ata_lba_write ata 0x1234567 1 4096).1 in
    (lba_of reading ≡ 0x1234567)
    × (lba_of writing ≡ 0x1234567)
    × (last_out 0x1f6 0 reading / 16 ≡ 14)
    × (last_out 0x1f6 0 writing / 16 ≡ 14)
    × (last_out 0x1f2 0 reading ≡ 1)
    × (last_out 0x1f2 0 writing ≡ 1)
    × (last_out 0x1f7 0 reading ≡ cmd_read)
    × (last_out 0x1f7 0 writing ≡ cmd_write)
ata_lba_registers_example =
    ata_lba_registers ata 0x1234567 1 4096 (omega arith) (omega arith) (omega arith)

-- Two status bytes with the error bit, and one without.
abbrev two_errors : ℕ → ℕ
two_errors k = if ltb k 2 then 0x41 else 0x40

errors_first : (i : ℕ) → i < 2 → two_errors (0 + i) % 2 ≡ 1
errors_first zero lt = refl
errors_first (suc zero) lt = refl
errors_first (suc (suc i)) lt = absurd (omega arith)

ata_wait_first_even_example : ata_wait 3 two_errors 0 false ≡ some (pos 0, 3)
ata_wait_first_even_example = ata_wait_first_even two_errors 2 0 3 (omega arith) errors_first refl
