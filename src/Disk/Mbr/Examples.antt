-- ===== src/Disk/Mbr/Examples.antt =====
-- A boot sector with one partition, and the theorems about tables and addresses at it.
use strange_os.Prelude.{ℕ, ◌≡◌, refl, true, List, [], ◌∷◌, ◌++◌, arith, replicate}
use strange_os.Disk.Mbr.{PartEntry, mbr_get_part_entry_buf, mbr_get_part_entry, l2chs}
use strange_os.Disk.Mbr.Table.{encode_all, part_entry-encode}
use strange_os.Disk.Mbr.Chs.{head_of}

abbrev part : PartEntry
part = record {
  attrs = 0x80;
  chs_addr = (1, 2, 3);
  p_type = 0x0c;
  chs_ls_addr = (4, 5, 6);
  lba_addr = 2048;
  nsects = 100_000;
}

abbrev boot : List ℕ
boot = replicate 0x1be 0x90

abbrev table : List ℕ
table = boot ++ encode_all (part ∷ []) []

part_entry-encode_example :
    (mbr_get_part_entry_buf table 1 ≡ part)
    × ((mbr_get_part_entry table (record { loaded = true; buf = table }) 1).0 ≡ part)
part_entry-encode_example =
    part_entry-encode boot (part ∷ []) [] 0 part (record { loaded = true; buf = table }) refl refl
      (omega arith) refl

-- Sector 100 is on track 1; l2chs says head 4.
head_of_100 : head_of (l2chs 100) ≡ 4
unfolding l2chs
head_of_100 = refl
