-- ===== src/Dev/Examples.antt =====
-- A disk whose second partition is the root, and the theorem about the search at it.
use strange_os.Prelude.{ℕ, ◌≡◌, refl, none, List, [], ◌∷◌, ◌++◌, replicate}
use strange_os.Disk.Mbr.{PartEntry, mbr_get_part_entry_buf}
use strange_os.Disk.Mbr.Table.{encode_all}
use strange_os.Disk.Ata.{Ata}
use strange_os.Dev.{
  dev_init_root, dev_read_lba, dev_write_lba, done, panicked, is_root, find_root, signed_boot,
}
use strange_os.Dev.Root.{RootOutcome, dev_init_root_lem}

abbrev plain : PartEntry
plain = record {
  attrs = 0;
  chs_addr = (0, 0, 0);
  p_type = 0x83;
  chs_ls_addr = (0, 0, 0);
  lba_addr = 63;
  nsects = 1000;
}

abbrev root : PartEntry
root = record plain { attrs = 0x80; p_type = 0x0c; lba_addr = 2048 }

abbrev boot : List ℕ
boot = replicate 0x1be 0 ++ encode_all (plain ∷ root ∷ plain ∷ plain ∷ []) (0x55 ∷ 0xaa ∷ [])

finds_second : dev_init_root 1 (λ _. boot) ≡ done (record { dev = 0; p = none; pe = root })
unfolding dev_init_root find_root is_root mbr_get_part_entry_buf signed_boot
finds_second = refl

dev_init_root_lem_example : RootOutcome 1 (λ _. boot) (dev_init_root 1 (λ _. boot))
dev_init_root_lem_example = dev_init_root_lem 1 (λ _. boot)

no_such_device :
    (a : Ata) → (dev_read_lba a 12 0 1 0 ≡ panicked 5) × (dev_write_lba a 2 0 1 0 ≡ panicked 5)
unfolding dev_read_lba dev_write_lba
no_such_device a = (refl, refl)
