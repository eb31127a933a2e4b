-- ===== src/Vfs.antt =====
-- src/kernel/fs/fs.c: the tree of nodes of the virtual file system, and the walk along a path.
-- Nodes are numbered, and new ones are fresh numbers: memory for them is not short. The entries of
-- a directory are a list in place of `first` and `next`, and `fs` is the number of a `struct
-- fs_info`, whose `fd` and `cr` are arguments. A name is the bytes before its terminator.
pub mod Dir
pub mod Path
mod Examples
use strange_os.Prelude.{
  ℕ, zero, suc, ◌+◌, ◌-◌, Bool, true, false, not, ◌&&◌, Option, none, some, List, [], ◌∷◌, ◌++◌,
  bit_and, leb, ◌==◌, if◌then◌else◌, take, drop, length,
}
use strange_os.Str.{kstreq, strlen, strchr, Search, at, null, fault}

-- `struct dirent`
pub record Dirent : Type 0 where
  pub name : List ℕ
  pub inode : ℕ
  pub node : Option ℕ

-- `struct fs_node`
pub record FsNode : Type 0 where
  pub name : List ℕ
  pub mask : ℕ
  pub flags : ℕ
  pub uid : ℕ
  pub gid : ℕ
  pub inode : ℕ
  pub len : ℕ
  pub impl : Bool
  pub dev : ℕ
  pub part : ℕ
  pub fs : Option ℕ
  pub ptr : Option ℕ
  pub first : List Dirent
  pub parent : Option ℕ
  pub impl2 : ℕ × ℕ

-- The nodes, and the number of the next one.
pub record Vfs : Type 0 where
  pub nodes : ℕ → FsNode
  pub next : ℕ

-- The callbacks `fd` and `cr` of a `struct fs_info`, NULL as `none`; `cr` takes the new node of the
-- dirent that it fills.
pub record Callbacks : Type 0 where
  pub fd : ℕ → Option (ℕ → Vfs → Vfs)
  pub cr : ℕ → Option (ℕ → List ℕ → ℕ → ℕ → Vfs → Vfs)

abbrev pub put_node : Vfs → ℕ → FsNode → Vfs
put_node v n node = record v { nodes = λ x. if x == n then node else v.nodes x }

abbrev pub empty_node : FsNode
empty_node = record {
  name = [];
  mask = 0;
  flags = 0;
  uid = 0;
  gid = 0;
  inode = 0;
  len = 0;
  impl = false;
  dev = 0;
  part = 0;
  fs = none;
  ptr = none;
  first = [];
  parent = none;
  impl2 = (0, 0);
}

-- The new node below `p`.
abbrev pub child_of : Option ℕ → Vfs → FsNode
child_of none v = empty_node
child_of (some p) v = record empty_node {
  dev = (v.nodes p).dev;
  part = (v.nodes p).part;
  fs = (v.nodes p).fs;
  parent = some p;
}

-- `fs_alloc`
unfoldable pub fs_alloc : Option ℕ → Vfs → ℕ × Vfs
fs_alloc p v = (v.next, record (put_node v v.next (child_of p v)) { next = v.next + 1 })

-- `FS_FILE`, `FS_DIR` and `FS_MNTP`
abbrev pub fs_file_type : ℕ
fs_file_type = 0x01

abbrev pub fs_dir : ℕ
fs_dir = 0x02

abbrev pub fs_mntp : ℕ
fs_mntp = 0x08

-- `fs_init`: the number of `fs_root`.
unfoldable pub fs_init : Vfs → ℕ × Vfs
unfolding fs_alloc
fs_init v =
    let (root, w) = fs_alloc none v in
    (
      root,
      put_node w root (record (w.nodes root) { name = b'/' ∷ []; flags = fs_mntp; mask = 755 }),
    )

-- `while (n->ptr != NULL) n = n->ptr`, with the rounds left; `none` is more of them.
unfoldable pub follow : ℕ → Vfs → ℕ → Option ℕ
follow zero v n = elim (v.nodes n).ptr [ none ↦ some n | some _ ↦ none ]
follow (suc rounds) v n = elim (v.nodes n).ptr [ none ↦ some n | some m ↦ follow rounds v m ]

-- What a lookup gives: a node, NULL, or a fault (a walk without end, or a read or a write out of
-- bounds).
pub data Found : Type 0 where
  node_at : ℕ → Found
  no_node : Found
  walk_fault : Found

-- `n->mask & FS_TYPE != FS_DIR` as C reads it: `FS_TYPE != FS_DIR` is 1.
abbrev pub is_no_dir : ℕ → Bool
is_no_dir mask = not (bit_and mask 1 == 0)

-- `kstreq(dent->name, s)`; `s` is the bytes before its terminator.
pub name_is : List ℕ → List ℕ → Bool
name_is name s = elim (kstreq (name ++ (0 ∷ [])) (s ++ (0 ∷ []))) [ none ↦ false | some b ↦ b ]

-- The loop over the dirents of fs_finddir.
unfoldable pub find_dirent : List Dirent → List ℕ → Option Dirent
unfolding name_is
find_dirent [] s = none
find_dirent (d ∷ ds) s = let rest = find_dirent ds s in if name_is d.name s then some d else rest

abbrev pub found : Option Dirent → Found
found none = no_node
found (some d) = elim d.node [ none ↦ no_node | some n ↦ node_at n ]

-- The loop of fs_readdir, from the dirent `d` on: NULL is `some none`, and a read through NULL,
-- in an empty directory, is `none`.
pub readdir_loop : ℕ → List Dirent → Option (Option Dirent)
readdir_loop zero [] = some none
readdir_loop zero (d ∷ ds) = some (some d)
readdir_loop (suc i) [] = none
readdir_loop (suc i) (d ∷ []) = some none
readdir_loop (suc i) (d ∷ e ∷ ds) = readdir_loop i (e ∷ ds)

-- `while (p[0] == '/') p++`
abbrev pub skip_slashes : List ℕ → List ℕ
skip_slashes [] = []
skip_slashes (c ∷ p) = if c == b'/' then skip_slashes p else c ∷ p

-- The name at the front of a path and the rest from its slash on, NULL as `none`. The name goes
-- to `_rand_buf`, which has 128 bytes with the terminator; `none` is a fault.
unfoldable pub isolate : List ℕ → Option (List ℕ × Option (List ℕ))
isolate p = elim (strchr p b'/') [
  | fault ↦ none
  | at k ↦ if leb 128 k then none else some (take k p, some (drop k p))
  | null ↦ elim (strlen p) [
    | none ↦ none
    | some l ↦ if leb 128 l then none else some (take l p, none)
  ]
]

module _ (ops : Callbacks) where
  -- What fs_filldir does to the node that it comes to.
  unfoldable pub filldir_at : ℕ → Vfs → Vfs
  filldir_at n v =
      let w : Vfs = elim (v.nodes n).fs [
        | none ↦ v
        | some i ↦ elim (ops.fd i) [ none ↦ v | some fd ↦ fd n v ]
      ] in
      put_node w n (record (w.nodes n) { impl = true })

  -- `if (!n->first && !n->impl) fs_filldir(n)`, of a node with no `ptr`.
  unfoldable pub fill_once : ℕ → Vfs → Vfs
  unfolding filldir_at
  fill_once n v = elim (v.nodes n).first [
    | [] ↦ if (v.nodes n).impl then v else filldir_at n v
    | _ ∷ _ ↦ v
  ]

  -- fs_finddir in the node that it comes to.
  unfoldable pub finddir_at : ℕ → List ℕ → Vfs → Found × Vfs
  unfolding fill_once find_dirent
  finddir_at n s v =
      if is_no_dir (v.nodes n).mask
      then (no_node, v)
      else (found (find_dirent ((fill_once n v).nodes n).first s), fill_once n v)

module _ (ops : Callbacks) (links : ℕ) where
  -- `fs_filldir`
  pub fs_filldir : ℕ → Vfs → Option Vfs
  unfolding filldir_at
  fs_filldir n v = elim (follow links v n) [ none ↦ none | some m ↦ some (filldir_at ops m v) ]

  -- `fs_create`: the dirent that it fills, which it gives to nobody, and the nodes.
  pub fs_create : ℕ → List ℕ → ℕ → Vfs → Option (Dirent × Vfs)
  unfolding fs_alloc
  fs_create n fn tp v = elim (follow links v n) [
    | none ↦ none
    | some m ↦
        (let (ch, w) = fs_alloc (some m) v in
          let x : Vfs = elim (w.nodes m).fs [
            | none ↦ w
            | some i ↦ elim (ops.cr i) [ none ↦ w | some cr ↦ cr m fn tp ch w ]
          ] in
          some (
            record { name = fn; inode = (x.nodes ch).inode; node = some ch },
            put_node x ch (record (x.nodes ch) { name = fn; mask = tp }),
          ))
  ]

  -- `fs_finddir`
  unfoldable pub fs_finddir : ℕ → List ℕ → Vfs → Found × Vfs
  unfolding finddir_at
  fs_finddir n s v = elim (follow links v n) [
    | none ↦ (walk_fault, v)
    | some m ↦ finddir_at ops m s v
  ]

  -- `fs_readdir`
  pub fs_readdir : ℕ → ℕ → Vfs → Option (Option Dirent) × Vfs
  unfolding fill_once readdir_loop
  fs_readdir n i v = elim (follow links v n) [
    | none ↦ (none, v)
    | some m ↦
        if is_no_dir (v.nodes m).mask
        then (some none, v)
        else (readdir_loop i ((fill_once ops m v).nodes m).first, fill_once ops m v)
  ]

  -- The loop of fs_finddir_path over `p` and `np`, with the rounds left.
  unfoldable pub path_loop : ℕ → Option (List ℕ) → Found → Vfs → Found × Vfs
  unfolding fs_finddir isolate
  path_loop rounds none np v = (np, v)
  path_loop rounds (some p) no_node v = (no_node, v)
  path_loop rounds (some p) walk_fault v = (walk_fault, v)
  path_loop zero (some p) (node_at n) v = (walk_fault, v)
  path_loop (suc rounds) (some p) (node_at n) v = elim (isolate (skip_slashes p)) [
    | none ↦ (walk_fault, v)
    | some r ↦ path_loop rounds r.1 (fs_finddir n r.0 v).0 (fs_finddir n r.0 v).1
  ]

  -- `fs_finddir_path`, of a path with its terminator.
  unfoldable pub fs_finddir_path : ℕ → List ℕ → Vfs → Found × Vfs
  unfolding path_loop follow
  fs_finddir_path n [] v = (walk_fault, v)
  fs_finddir_path n (c ∷ s) v =
      if c == 0
      then (elim (follow links v n) [ none ↦ walk_fault | some m ↦ node_at m ], v)
      else path_loop (length (c ∷ s)) (some (c ∷ s)) (node_at n) v
