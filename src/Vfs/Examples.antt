-- ===== src/Vfs/Examples.antt =====
-- A small tree: `boot/strange` below a mount point.
use strange_os.Prelude.{
  ℕ, ◌≡◌, refl, true, not, ◌&&◌, none, some, List, [], ◌∷◌, arith, ◌==◌, if◌then◌else◌, length,
  get_elem?,
}
use strange_os.Vfs.{
  Vfs, FsNode, Dirent, Callbacks, node_at, empty_node, follow, fill_once, fs_finddir_path,
  fs_readdir, fs_dir, fs_file_type,
}
use strange_os.Vfs.Path.{IsName, path_text, walk, fs_finddir_path_lem}
use strange_os.Vfs.Dir.{fs_readdir_lem}

abbrev boot : List ℕ
boot = b'b' ∷ b'o' ∷ b'o' ∷ b't' ∷ []

abbrev kernel : List ℕ
kernel = b'k' ∷ []

abbrev entry_of : List ℕ → ℕ → Dirent
entry_of name n = record { name = name; inode = n; node = some n }

abbrev dir : List Dirent → FsNode
dir ds = record empty_node { mask = fs_dir; impl = true; first = ds }

abbrev tree : Vfs
tree = record {
  nodes = λ n.
      if n == 0
      then (record empty_node { ptr = some 1 })
      else (if n == 1
          then dir (entry_of boot 2 ∷ [])
          else (if n == 2
              then dir (entry_of kernel 3 ∷ [])
              else (record empty_node { mask = fs_file_type })));
  next = 4;
}

-- No file system fills a directory here.
abbrev ops : Callbacks
ops = record { fd = λ _. none; cr = λ _. none }

boot-IsName : IsName boot
boot-IsName = record {
  text = (
    (λ e. absurd (omega arith)),
    ((λ e. absurd (omega arith)), ((λ e. absurd (omega arith)), ((λ e. absurd (omega arith)), tt))),
  );
  no_slash = refl;
  some_byte = omega arith;
  fits = omega arith;
}

kernel-IsName : IsName kernel
kernel-IsName = record {
  text = ((λ e. absurd (omega arith)), tt);
  no_slash = refl;
  some_byte = omega arith;
  fits = omega arith;
}

fs_finddir_path_lem_example :
    fs_finddir_path ops 5 0 (path_text ((0, boot) ∷ (2, kernel) ∷ [])) tree
    ≡ walk ops 5 ((0, boot) ∷ (2, kernel) ∷ []) (node_at 0) tree
fs_finddir_path_lem_example =
    fs_finddir_path_lem ops 5 0 (0, boot) ((2, kernel) ∷ []) tree boot-IsName
      (omega arith, kernel-IsName, tt)

fs_readdir_lem_example : (fs_readdir ops 5 0 1 tree).0 ≡ (
    if (length ((fill_once ops 1 tree).nodes 1).first == 0) && not (1 == 0)
    then none
    else some (get_elem? ((fill_once ops 1 tree).nodes 1).first 1))
unfolding follow
fs_readdir_lem_example = fs_readdir_lem ops 5 0 1 1 tree refl refl
