-- ===== src/Fat/Dir/Examples.antt =====
-- A directory of two clusters, and a new entry.
use strange_os.Prelude.{
  ◌≡◌, Bool, true, false, Option, none, some, List, ◌==◌, if◌then◌else◌, ℕ, zero, suc, ◌<◌, refl,
  inl, arith, [], ◌∷◌,
}
use strange_os.Vfs.Dir.{AreLinked, AreTexts, IsFirst, fs_finddir_lem}
use strange_os.Fat.{read_cluster, read_fat_ent32, read_cbuf, cache}
use strange_os.Fat.Dir.{fat_filldir, read_dir_loop, complete}
use strange_os.Fat.Dir.Links.{fat_callbacks, fat_callbacks-KeepLinks}
use strange_os.Vfs.{
  Callbacks, Dirent, fill_once, filldir_at, fs_alloc, follow, fs_finddir, found, find_dirent, Vfs,
  empty_node, fs_dir,
}
use strange_os.Fat.{end_mark}
use strange_os.Fat.Examples.{volume}
use strange_os.Fat.File.{cluster_at}
use strange_os.Fat.Dir.{dir_step, entry_bytes, set_first, read_dir32}
use strange_os.Fat.Dir.Add.{put_entries}
use strange_os.Fat.Dir.Chain.{IsChain, Lists, each_cluster, start, read_dir32_lem}
use strange_os.Fat.Dir.Entry.{IsNewFile, put_entries_lem}

abbrev vfs : Vfs
vfs = record { nodes = λ _. empty_node; next = 7 }

chain : IsChain volume 2 2
unfolding cluster_at
chain = record { some_sectors = omega arith; goes_on = on; stops = omega arith }
  where
    on : (n : ℕ) → n < 2 → cluster_at volume 2 n < end_mark
    on zero lt = omega arith
    on (suc zero) lt = omega arith
    on (suc (suc n)) lt = absurd (omega arith)

read_dir32_lem_example :
    Lists volume
      (set_first 0 (each_cluster volume 0 2 2 0 (start vfs)))
      (read_dir32 33 0 2 (λ _. 0) vfs volume)
read_dir32_lem_example =
    read_dir32_lem 33 0 2 2 (λ _. 0) vfs volume chain (omega arith) (inl refl) (omega arith)

-- A directory `a.b` in cluster 5, whose entry is at offset 64 of cluster 2.
put_entries_lem_example : IsNewFile 2 96 fs_dir 5 (b'a' ∷ b'.' ∷ b'b' ∷ []) (start vfs) (
    dir_step 0 2 96 (entry_bytes (put_entries 64 (b'a' ∷ b'.' ∷ b'b' ∷ []) fs_dir 5 (λ _. 0)) 96) (
      dir_step 0 2 64
        (entry_bytes (put_entries 64 (b'a' ∷ b'.' ∷ b'b' ∷ []) fs_dir 5 (λ _. 0)) 64)
        (start vfs)))
put_entries_lem_example =
    put_entries_lem 0 2 64 fs_dir 5 (b'a' ∷ b'.' ∷ b'b' ∷ []) (λ _. 0) (start vfs)
      (
        (λ e. absurd (omega arith)),
        ((λ e. absurd (omega arith)), ((λ e. absurd (omega arith)), tt)),
      )
      (omega arith)

-- Node 1 is the directory in cluster 2, which is not read yet.
abbrev tree : Vfs
tree = record {
  nodes = λ x.
      if x == 1 then record empty_node { mask = fs_dir; fs = some 0; inode = 2 } else empty_node;
  next = 2;
}

abbrev ops : Callbacks
ops = fat_callbacks 0 33 (λ _. 0) volume

tree-AreLinked : AreLinked tree
tree-AreLinked x y lt e = absurd (no_link (x == 1) e)
  where
    none_some : none ≡ some y → ⊥
    none_some e = cc

    no_link :
        (b : Bool)
        → (if b
            then record empty_node { mask = fs_dir; fs = some 0; inode = 2 }
            else empty_node).ptr
          ≡ some y
        → ⊥
    no_link true e = none_some e
    no_link false e = none_some e

texts : AreTexts ((fill_once ops 1 tree).nodes 1).first
unfolding fill_once filldir_at fat_filldir read_dir32 read_dir_loop dir_step complete fs_alloc
    read_cluster read_fat_ent32 read_cbuf cache
texts = tt

fs_finddir_lem_example :
    ((d : Option Dirent) × IsFirst
        ((fs_finddir ops 5 1 (b'a' ∷ []) tree).1.nodes 1).first
        (b'a' ∷ [])
        d
      × ((fs_finddir ops 5 1 (b'a' ∷ []) tree).0 ≡ found d))
    × ((s' : List ℕ)
        → fs_finddir ops 5 1 s' (fs_finddir ops 5 1 (b'a' ∷ []) tree).1 ≡ (
          found (find_dirent ((fs_finddir ops 5 1 (b'a' ∷ []) tree).1.nodes 1).first s'),
          (fs_finddir ops 5 1 (b'a' ∷ []) tree).1,
        ))
unfolding follow
fs_finddir_lem_example =
    fs_finddir_lem ops 5 1 1 (b'a' ∷ []) tree (fat_callbacks-KeepLinks 0 33 (λ _. 0) volume 1 tree)
      tree-AreLinked (omega arith) refl refl texts ((λ e. absurd (omega arith)), tt)
