-- ===== src/Dev.antt =====
-- src/kernel/dev.c and dev.h: device numbers, the search for the root partition, and reads and
-- writes by device.
pub mod Root
mod Examples
use strange_os.Prelude.{
  ℕ, zero, suc, ◌+◌, ◌-◌, ◌*◌, ◌^◌, Bool, true, false, not, ◌&&◌, ◌||◌, Option, none, some, List,
  [], ◌∷◌, bit_and, ltb, ◌==◌, if◌then◌else◌,
}
use strange_os.Disk.Mbr.{PartEntry, type_linux, is_fat, word16, mbr_get_part_entry_buf}
use strange_os.Disk.Ata.{Ata, Event, ata_dev, ata_lba_read, ata_lba_write, ata_get_dev}

-- `E_NODEV` of panic.h
abbrev pub e_nodev : ℕ
e_nodev = 5

-- A kernel panic halts the machine: `panicked` carries its code.
pub data Outcome {ℓ} (A : Type ℓ) : Type ℓ where
  done : A → Outcome A
  panicked : ℕ → Outcome A

-- `struct dev_part`; `p`, which dev_init_root leaves unset, is an option.
pub record DevPart : Type 0 where
  pub dev : ℕ
  pub p : Option ℕ
  pub pe : PartEntry

-- `(p_type == MBR_TYPE_LINUX || MBR_TYPE_IS_FAT(p_type)) && attrs & MBR_BOOTABLE`
unfoldable pub is_root : PartEntry → Bool
is_root pe = (pe.p_type == type_linux || is_fat pe.p_type) && not (bit_and pe.attrs (2 ^ 7) == 0)

-- The loop over the entries `i`, with the rounds left.
unfoldable pub find_root : ℕ → List ℕ → ℕ → Option PartEntry
find_root zero buf i = none
find_root (suc rounds) buf i =
    let rest = find_root rounds buf (i + 1) in
    if is_root (mbr_get_part_entry_buf buf i) then some (mbr_get_part_entry_buf buf i) else rest

unfoldable pub signed_boot : List ℕ → Bool
signed_boot buf = not (not (word16 buf 510 == 0xaa55) && not (word16 buf 510 == 0x55aa))

-- What dev_init_root returns after its loop, or its last panic.
unfoldable pub outcome_of : ℕ → Option PartEntry → Outcome DevPart
outcome_of dev none = panicked e_nodev
outcome_of dev (some pe) = done (record { dev = dev; p = none; pe = pe })

-- `ata` is what ata_get_dev returns, `boot d` the first sector of device `d`.
unfoldable pub dev_init_root : ℕ → (ℕ → List ℕ) → Outcome DevPart
unfolding outcome_of
dev_init_root ata boot =
    if ata == 0
    then panicked e_nodev
    else (let dev = if not (bit_and ata 0x1 == 0) then 0 else 1 in
        if not (signed_boot (boot dev))
        then panicked e_nodev
        else outcome_of dev (find_root 4 (boot dev) 1))

-- The devices are numbered: 0 and 1 are the ATA disks.
pub dev_read_lba : Ata → ℕ → ℕ → ℕ → ℕ → Outcome (Ata × List Event)
dev_read_lba a dev lba n buf =
    if dev == 0 || dev == 1 then done (ata_lba_read (ata_dev a dev) lba n buf) else panicked e_nodev

pub dev_write_lba : Ata → ℕ → ℕ → ℕ → ℕ → Outcome (Ata × List Event)
dev_write_lba a dev lba n buf =
    if dev == 0 || dev == 1
    then done (ata_lba_write (ata_dev a dev) lba n buf)
    else panicked e_nodev
