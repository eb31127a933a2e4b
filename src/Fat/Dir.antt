-- ===== src/Fat/Dir.antt =====
-- Directories of a FAT32 volume: _read_dir32, fat_filldir, _add_dirent and fat_create.
-- An entry is the list of its 32 bytes. A file's name is the bytes before its terminator.
pub mod Links
pub mod Chain
pub mod Add
pub mod Entry
mod Examples
use strange_os.Prelude.{
  ℕ, zero, suc, ◌+◌, ◌-◌, ◌*◌, ◌/◌, ◌%◌, ◌^◌, Bool, true, false, not, ◌&&◌, Option, none, some,
  List, [], ◌∷◌, ◌++◌, bit_and, ltb, leb, ◌==◌, if◌then◌else◌, get_or, take, drop,
}
use strange_os.Disk.Mbr.{byte, word16, word32}
use strange_os.Str.{up_to_end}
use strange_os.Vfs.{Vfs, FsNode, Dirent, put_node, fs_alloc, fs_dir, fs_file_type}
use strange_os.Fat.{
  Bytes, Volume, cluster_size, end_mark, read_fat_ent32, write_fat_ent32, find_unused_cluster,
  read_cluster, write_cluster,
}

-- `FAT_DIRENT_DIRECTORY` and `FAT_DIRENT_LFN`
abbrev pub dirent_directory : ℕ
dirent_directory = 0x10

abbrev pub dirent_lfn : ℕ
dirent_lfn = 0x0f

-- The `n` bytes of a buffer from `i` on.
abbrev pub bytes_from : ℕ → Bytes → ℕ → List ℕ
bytes_from zero buf i = []
bytes_from (suc n) buf i = buf i ∷ bytes_from n buf (i + 1)

abbrev pub entry_bytes : Bytes → ℕ → List ℕ
entry_bytes buf i = bytes_from 32 buf i

-- The characters of a `struct fat32_dirent_long`: 5 from `fn1`, 6 from `fn2`, 2 from `fn3`.
abbrev pub long_name : List ℕ → List ℕ
long_name e =
    byte e 1
    ∷ byte e 3
    ∷ byte e 5
    ∷ byte e 7
    ∷ byte e 9
    ∷ byte e 14
    ∷ byte e 16
    ∷ byte e 18
    ∷ byte e 20
    ∷ byte e 22
    ∷ byte e 24
    ∷ byte e 28
    ∷ byte e 30
    ∷ []

-- The dirents so far, the last one first (`fdent`), `fld`, and the nodes.
pub record DirState : Type 0 where
  pub dirents : List Dirent
  pub follows : Bool
  pub vfs : Vfs

-- A long entry begins a dirent.
abbrev pub long_step : List ℕ → DirState → DirState
long_step e s = record s {
  dirents = record { name = up_to_end (long_name e); inode = 0; node = none } ∷ s.dirents;
  follows = true;
}

-- The node of the dirent `d` that the entry `e` describes, at offset `i` of cluster `cl`.
abbrev pub entry_node : ℕ → ℕ → List ℕ → Dirent → FsNode → FsNode
entry_node cl i e d n = record n {
  mask = if bit_and (byte e 11) dirent_directory == 0 then fs_file_type else fs_dir;
  inode = word16 e 20 * 2 ^ 16 + word16 e 26;
  len = word32 e 28;
  impl2 = (cl, i);
  name = d.name;
}

-- A normal entry behind a long one completes its dirent.
pub complete : ℕ → ℕ → ℕ → List ℕ → DirState → DirState
complete node cl i e s = elim s.dirents [
  | [] ↦ s
  | d ∷ ds ↦
      (let (ch, w) = fs_alloc (some node) s.vfs in
        record {
          dirents = record d { inode = word16 e 20 * 2 ^ 16 + word16 e 26; node = some ch } ∷ ds;
          follows = false;
          vfs = put_node w ch (entry_node cl i e d (w.nodes ch));
        })
]

-- What the loop does with the entry `e`, at offset `i` of cluster `cl`.
pub dir_step : ℕ → ℕ → ℕ → List ℕ → DirState → DirState
unfolding complete
dir_step node cl i e s =
    if byte e 11 == dirent_lfn
    then long_step e s
    else if s.follows
    then complete node cl i e s
    else s

-- The loop of _read_dir32, with the rounds left; `none` is more of them.
pub read_dir_loop : ℕ → ℕ → ℕ → ℕ → Bytes → DirState → Volume → Option (DirState × Volume)
unfolding dir_step
read_dir_loop zero node i cl buf s f = if ltb cl end_mark then none else some (s, f)
read_dir_loop (suc rounds) node i cl buf s f = elim (ltb cl end_mark) [
  | false ↦ some (s, f)
  | true ↦ elim (leb (cluster_size f) i) [
    | false ↦ read_dir_loop rounds node (i + 32) cl buf (dir_step node cl i (entry_bytes buf i) s) f
    | true ↦
        (let (next, g) = read_fat_ent32 cl f in
          let buf' = read_cluster next g buf in
          elim (leb end_mark next) [
            | true ↦ some (s, g)
            | false ↦
                read_dir_loop rounds node 32 next buf' (dir_step node next 0 (entry_bytes buf' 0) s)
                  g
          ])
  ]
]

abbrev pub rev_onto : List Dirent → List Dirent → List Dirent
rev_onto [] ds = ds
rev_onto (e ∷ es) ds = rev_onto es (e ∷ ds)

-- `node->first` once the loop is done: it is set with the first dirent.
abbrev pub set_first : ℕ → DirState → Vfs
set_first node s = elim s.dirents [
  | [] ↦ s.vfs
  | d ∷ ds ↦ put_node s.vfs node (record (s.vfs.nodes node) { first = rev_onto (d ∷ ds) [] })
]

-- `_read_dir32`, with what lies in the new buffer.
pub read_dir32 : ℕ → ℕ → ℕ → Bytes → Vfs → Volume → Option (Vfs × Volume)
unfolding read_dir_loop
read_dir32 rounds node cl old v f =
    elim (read_dir_loop rounds node 0 cl (read_cluster cl f old)
      (record { dirents = []; follows = false; vfs = v }) f) [
        | none ↦ none
        | some r ↦ some (set_first node r.0, r.1)
      ]

-- `fat_filldir`; `fsz` is the size of the table's entries.
pub fat_filldir : ℕ → ℕ → ℕ → Bytes → Vfs → Volume → Option (Vfs × Volume)
unfolding read_dir32
fat_filldir fsz rounds node old v f = elim (v.nodes node).first [
  | _ ∷ _ ↦ some (v, f)
  | [] ↦ if fsz == 32 then read_dir32 rounds node (v.nodes node).inode old v f else some (v, f)
]
