-- ===== src/Fat/Mount.antt =====
-- fat_check_sig: the search for FAT partitions, and the layout of a volume from its boot record
-- (fat.h: struct fat_vbr, fat16_vbr and fat32_vbr).
pub mod Layout
mod Examples
use strange_os.Prelude.{
  ℕ, zero, suc, ◌+◌, ◌-◌, ◌*◌, ◌/◌, ◌%◌, ◌^◌, Bool, true, false, Option, none, some, List, [], ◌∷◌,
  bit_or, ltb, ◌==◌, if◌then◌else◌,
}
use strange_os.Disk.Mbr.{
  PartEntry, byte, word16, word32, is_fat, is_fat16, is_fat32, mbr_get_part_entry_buf,
}
use strange_os.Vfs.{Vfs, FsNode, put_node, fs_alloc, fs_dir}
use strange_os.Fat.{Bytes, Sector, Volume, disk_byte}
use strange_os.Fat.Dir.{bytes_from, read_dir32}

-- `struct fat_vbr`, and of the extension for FAT32 the fields that the code reads; the fields `oem`,
-- `jmp`, and those of the drive are not read.
pub record Vbr : Type 0 where
  pub bps : ℕ
  pub spc : ℕ
  pub rbs : ℕ
  pub nfat : ℕ
  pub nrtent : ℕ
  pub spf : ℕ
  pub spf32 : ℕ
  pub rc : ℕ
  pub fss : ℕ

-- The boot record in the bytes of its sector.
abbrev pub vbr_of : List ℕ → Vbr
vbr_of buf = record {
  bps = word16 buf 11;
  spc = byte buf 13;
  rbs = word16 buf 14;
  nfat = byte buf 16;
  nrtent = word16 buf 17;
  spf = word16 buf 22;
  spf32 = word32 buf 36;
  rc = word32 buf 44;
  fss = word16 buf 48;
}

abbrev pub sector_bytes : Sector → List ℕ
sector_bytes s = bytes_from 512 (disk_byte s) 0

-- `fat_info.fsz`
abbrev pub entry_size : ℕ → ℕ
entry_size t = if is_fat16 t then 16 else (if is_fat32 t then 32 else 12)

-- `fat_info` from the type of a partition, its address and its boot record: what the volume is then,
-- with the cache as it was.
pub set_layout : ℕ → ℕ → Vbr → Volume → Volume
set_layout fsz addr b f =
    let spf = if ltb fsz 32 then b.spf else b.spf32 in
    record f {
      addr = addr;
      stf = b.rbs;
      spf = spf;
      spc = b.spc;
      nfat = b.nfat;
      stc =
          if ltb fsz 32
          then (b.rbs + b.nfat * spf + b.nrtent * 32 / 512) % 2 ^ 32
          else (b.rbs + b.nfat * spf) % 2 ^ 32;
    }

-- `fatfs`, `fat_info.fsz`, the nodes and the volume.
pub record MountState : Type 0 where
  pub fatfs : ℕ
  pub fsz : ℕ
  pub vfs : Vfs
  pub volume : Volume

-- The node of the root directory below `fs_root`, if there is none yet; `fat` is the number of
-- `fat_fs_info`.
pub mount_root : ℕ → ℕ → ℕ → ℕ → ℕ → Vbr → Bytes → MountState → Option MountState
mount_root rounds root fat dev i b old s = elim (s.vfs.nodes root).ptr [
  | some _ ↦ some s
  | none ↦
      (let (n, w) = fs_alloc none s.vfs in
        let x = put_node w n (record (w.nodes n) {
          flags = fs_dir;
          inode = b.rc;
          dev = dev;
          part = i;
          fs = some fat;
        }) in
        let y = put_node x root (record (x.nodes root) { ptr = some n }) in
        if ltb s.fsz 32
        then some (record s { vfs = y })
        else (elim (read_dir32 rounds n b.rc old y s.volume) [
          | none ↦ none
          | some r ↦ some (record s { vfs = r.0; volume = r.1 })
        ]))
]

-- The body of the loop, for partition `i`; `boot` is the boot sector.
unfoldable pub check_part : ℕ → ℕ → ℕ → ℕ → List ℕ → ℕ → Bytes → MountState → Option MountState
unfolding set_layout mount_root
check_part rounds root fat dev boot i old s =
    let pe = mbr_get_part_entry_buf boot i in
    let b = vbr_of (sector_bytes (s.volume.disk pe.lba_addr)) in
    let fsz = entry_size pe.p_type in
    if is_fat pe.p_type
    then (mount_root rounds root fat dev i b old (record s {
      fatfs = bit_or s.fatfs (2 ^ (i - 1));
      fsz = fsz;
      volume = set_layout fsz pe.lba_addr b s.volume;
    }))
    else some s

abbrev pub then_part : Option MountState → (MountState → Option MountState) → Option MountState
then_part none next = none
then_part (some s) next = next s

-- `fat_check_sig`: its result is `fatfs`.
unfoldable pub fat_check_sig : ℕ → ℕ → ℕ → ℕ → Bytes → MountState → Option MountState
unfolding check_part
fat_check_sig rounds root fat dev old s =
    let boot = sector_bytes (s.volume.disk 0) in
    let part : ℕ → MountState → Option MountState =
      λ i t. check_part rounds root fat dev boot i old t in
    then_part (then_part (then_part (part 1 (record s { fatfs = 0 })) (part 2)) (part 3)) (part 4)
