-- ===== src/Fat/Examples.antt =====
-- Two small volumes, and the theorems about tables and files at them.
use strange_os.Prelude.{
  ℕ, zero, suc, ◌+◌, ◌*◌, ◌≡◌, ◌≢◌, ◌<◌, refl, false, some, arith, ltb, ◌==◌, if◌then◌else◌, inl,
}
use strange_os.Fat.{
  Volume, Sector, find_unused_cluster, fat_read, fat_open, mode_r, end_mark, cluster_size,
}
use strange_os.Fat.Table.{entry}
use strange_os.Fat.Unused.{find_unused_cluster_lem}
use strange_os.Fat.File.{cluster_at, Reads, fat_read_lem, fat_open-StandsAt}

-- A file in the clusters 2 and 3. The table is in sector 32 and again in sector 35.
abbrev table : Sector
table w = if w == 2 then 3 else (if ltb w 4 then 0x0fff_ffff else 0)

abbrev pub volume : Volume
volume = record {
  addr = 0;
  stf = 32;
  stc = 38;
  spf = 3;
  spc = 1;
  nfat = 2;
  cbufs = 0;
  cbufn = false;
  cbuf = λ _. 0;
  disk = λ a w. if a == 32 then table w else (if a == 35 then table w else a * 1000 + w);
}

-- A volume whose first sector of the table is full.
abbrev full : Volume
full = record volume { disk = λ a w. if a == 32 then 1 else (if a == 34 then 7 else 0) }

full_used : (p : ℕ) → p < 128 → entry full p ≢ 0
full_used p lt = ground arith

-- Entry 128 is free, and the search gives 256, which is in use.
find_unused_cluster_lem_example : (find_unused_cluster full).0 ≡ some 256
find_unused_cluster_lem_example =
    find_unused_cluster_lem 128 full (inl refl) (omega arith) refl full_used (omega arith)
      (omega arith)

not_free : entry full 256 ≡ 7
not_free = refl

file_long : (n : ℕ) → n * cluster_size volume < 600 → cluster_at volume 2 n < end_mark
unfolding cluster_at
file_long zero h = omega arith
file_long (suc zero) h = omega arith
file_long (suc (suc n)) h = absurd (omega arith)

-- 100 bytes from the start of a file of 600 bytes.
fat_read_lem_example :
    Reads volume 2 0 600 100 (fat_read mode_r 0 600 100 (fat_open mode_r 2 (λ _. 0) volume) volume)
fat_read_lem_example =
    fat_read_lem 100 0 600 2 (fat_open mode_r 2 (λ _. 0) volume) volume (omega arith) file_long
      (inl refl) (fat_open-StandsAt 2 (λ _. 0) volume)
