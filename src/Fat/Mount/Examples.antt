-- ===== src/Fat/Mount/Examples.antt =====
-- A small disk whose first partition has FAT32.
use strange_os.Prelude.{
  ℕ, zero, suc, ◌+◌, ◌*◌, ◌≤◌, ◌<◌, ◌≡◌, refl, false, true, arith, ◌==◌, if◌then◌else◌,
}
use strange_os.Disk.Mbr.{PartEntry, is_fat, is_fat32, mbr_get_part_entry_buf}
use strange_os.Vfs.{empty_node}
use strange_os.Fat.{Sector, end_mark}
use strange_os.Fat.File.{cluster_at}
use strange_os.Fat.Dir.Chain.{IsChain}
use strange_os.Fat.Mount.{MountState, sector_bytes, set_layout, fat_check_sig}
use strange_os.Fat.Mount.Layout.{
  IsVolume, IsOnly, Mounts, mounted, record_of, volume_of, fat_check_sig_lem,
}

-- Type 0x0c at byte 450, and the sector 1 at byte 454.
abbrev boot_sector : Sector
boot_sector w = if w == 112 then 0x0c_0000 else (if w == 113 then 0x1_0000 else 0)

-- One sector in a cluster, two reserved sectors, one table of one sector, root directory in cluster 2.
abbrev boot_record : Sector
boot_record w =
    if w == 3
    then 0x0002_0100
    else (if w == 4 then 1 else (if w == 9 then 1 else (if w == 11 then 2 else 0)))

abbrev state : MountState
state = record {
  fatfs = 0;
  fsz = 0;
  vfs = record { nodes = λ _. empty_node; next = 1 };
  volume = record {
    addr = 0;
    stf = 0;
    stc = 0;
    spf = 0;
    spc = 0;
    nfat = 0;
    cbufs = 0;
    cbufn = false;
    cbuf = λ _. 0;
    disk = λ a.
        if a == 0
        then boot_sector
        else (if a == 1 then boot_record else (if a == 3 then (λ w. 0x0fff_ffff) else (λ w. 0)));
  };
}

IsOnly-first : IsOnly (sector_bytes boot_sector) 1
unfolding mbr_get_part_entry_buf
IsOnly-first = (omega arith, omega arith, others)
  where
    others :
        (j : ℕ)
        → 1 ≤ j
        → j ≤ 4
        → is_fat (mbr_get_part_entry_buf (sector_bytes boot_sector) j).p_type ≡ (j == 1)
    others zero lo hi = absurd (omega arith)
    others (suc zero) lo hi = refl
    others (suc (suc zero)) lo hi = refl
    others (suc (suc (suc zero))) lo hi = refl
    others (suc (suc (suc (suc zero)))) lo hi = refl
    others (suc (suc (suc (suc (suc j))))) lo hi = absurd (omega arith)

abbrev entry : PartEntry
entry = mbr_get_part_entry_buf (sector_bytes boot_sector) 1

fat32 : is_fat32 entry.p_type ≡ true
unfolding mbr_get_part_entry_buf
fat32 = refl

is_volume : IsVolume entry.lba_addr (record_of entry state.volume)
unfolding mbr_get_part_entry_buf
is_volume = record { some_sectors = omega arith; some_table = omega arith; fits = omega arith }

chain : IsChain (volume_of entry state.volume) (record_of entry state.volume).rc 1
unfolding cluster_at set_layout mbr_get_part_entry_buf
chain = record { some_sectors = omega arith; goes_on = on; stops = omega arith }
  where
    on :
        (n : ℕ)
        → n < 1
        → cluster_at (volume_of entry state.volume) (record_of entry state.volume).rc n < end_mark
    on zero lt = omega arith
    on (suc n) lt = absurd (omega arith)

room : 1 * (16 * (volume_of entry state.volume).spc) + 1 ≤ 17
unfolding set_layout mbr_get_part_entry_buf
room = omega arith

fat_check_sig_lem_example :
    Mounts 1
      (mounted 0 2 1 1 1 entry state.vfs state.volume)
      (volume_of entry state.volume)
      (fat_check_sig 17 0 2 1 (λ _. 0) state)
fat_check_sig_lem_example =
    fat_check_sig_lem 17 0 2 1 1 1 (λ _. 0) state IsOnly-first fat32 (is_volume, chain, room)
      (omega arith) refl refl
