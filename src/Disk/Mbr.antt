-- ===== src/Disk/Mbr.antt =====
-- src/kernel/disk/mbr.c and mbr.h: the partition table in a boot sector, and the two conversions
-- between a sector's number and its cylinder, head and sector.
pub mod Table
pub mod Chs
mod Examples
use strange_os.Prelude.{
  ℕ, ◌+◌, ◌-◌, ◌*◌, ◌/◌, ◌%◌, ◌^◌, Bool, true, false, ◌||◌, List, [], ◌∷◌, bit_or, ◌==◌,
  if◌then◌else◌, get_or,
}

-- `MBR_TYPE_LINUX`, and `MBR_TYPE_IS_FAT`, `MBR_TYPE_IS_FAT16`, `MBR_TYPE_IS_FAT32`.
abbrev pub type_linux : ℕ
type_linux = 0x83

abbrev pub is_fat16 : ℕ → Bool
is_fat16 t = t == 0x04 || t == 0x06 || t == 0x0e

abbrev pub is_fat32 : ℕ → Bool
is_fat32 t = t == 0x0b || t == 0x0c

abbrev pub is_fat : ℕ → Bool
is_fat t = t == 0x04 || t == 0x06 || t == 0x0e || t == 0x0b || t == 0x0c

-- `struct mbr_part_entry`; the two addresses in CHS form are three bytes each.
pub record PartEntry : Type 0 where
  pub attrs : ℕ
  pub chs_addr : ℕ × ℕ × ℕ
  pub p_type : ℕ
  pub chs_ls_addr : ℕ × ℕ × ℕ
  pub lba_addr : ℕ
  pub nsects : ℕ

abbrev pub byte : List ℕ → ℕ → ℕ
byte buf i = get_or buf i 0

-- `*(u32 *)&buf[i]` and `*(u16 *)&buf[i]`, little-endian.
abbrev pub word32 : List ℕ → ℕ → ℕ
word32 buf i =
    byte buf i + 2 ^ 8 * byte buf (i + 1) + 2 ^ 16 * byte buf (i + 2) + 2 ^ 24 * byte buf (i + 3)

abbrev pub word16 : List ℕ → ℕ → ℕ
word16 buf i = byte buf i + 2 ^ 8 * byte buf (i + 1)

-- The entry whose 16 bytes begin at `ptl`.
entry_at : List ℕ → ℕ → PartEntry
entry_at buf ptl = record {
  attrs = byte buf ptl;
  chs_addr = (byte buf (ptl + 1), byte buf (ptl + 2), byte buf (ptl + 3));
  p_type = byte buf (ptl + 4);
  chs_ls_addr = (byte buf (ptl + 5), byte buf (ptl + 6), byte buf (ptl + 7));
  lba_addr = word32 buf (ptl + 8);
  nsects = word32 buf (ptl + 12);
}

-- The source numbers the entries from 1. The memcpy there fills the struct byte for byte.
unfoldable pub mbr_get_part_entry_buf : List ℕ → ℕ → PartEntry
unfolding entry_at
mbr_get_part_entry_buf buf n = entry_at buf (0x1be + (n - 1) * 0x10)

-- `mbr_loaded` and `mbr_buf`.
pub record MbrCache : Type 0 where
  pub loaded : Bool
  pub buf : List ℕ

-- `boot_sector` is what `ata_chs_read` puts into the buffer.
unfoldable pub mbr_get_part_entry : List ℕ → MbrCache → ℕ → PartEntry × MbrCache
unfolding entry_at
mbr_get_part_entry boot_sector c n =
    let buf' = if c.loaded then c.buf else boot_sector in
    (entry_at buf' (0x1be + (n - 1) * 0x10), record { loaded = true; buf = buf' })

-- `l2chs`: `c` is a u16, `h` and `s` are u8, and the result is cut to 32 bits.
pub l2chs : ℕ → ℕ
l2chs l =
    let c = l / (63 * 16) % 2 ^ 16 in
    let h = l % 16 in let s = l % 63 in bit_or (bit_or (c * 2 ^ 16) h * 2 ^ 8 % 2 ^ 32) s

pub chs2l : ℕ → ℕ → ℕ → ℕ
chs2l c h s = (c * 16 + h) * 63 + s
