-- ===== src/File.antt =====
-- src/kernel/fileio.c, and the part of src/kernel/fs/fs.c that opens, reads, writes and closes a
-- file: the table of descriptors.
-- `S` is the state of the file systems with the memory that they read into. Nodes are numbered, and
-- a walk along a path (fs_finddir_path) is an argument of kopen.
pub mod Descriptors
pub mod Streams
pub mod Results
pub mod Reads
mod Examples
use strange_os.Prelude.{
  ℕ, zero, suc, ◌+◌, ◌-◌, ◌%◌, ◌^◌, Bool, true, false, not, ◌&&◌, ◌||◌, Option, none, some, List,
  [], ◌∷◌, bit_and, bit_or, ltb, leb, ◌==◌, if◌then◌else◌,
}
use strange_os.Prelude.Int.{ℤ, pos, negsuc, minus_one, to_int}

-- `struct fs_file`: the node, the mode, the index and the file system's own data.
pub record FsFile : Type 0 where
  pub n : ℕ
  pub m : ℕ
  pub idx : ℕ
  pub d : ℕ

-- The operations of `struct fs_info` on an open file, NULL as `none`: those of read and write take
-- the count and the address of the buffer. The callback of open sets `d`.
pub record FsInfo (S : Type 0) : Type 0 where
  pub r : Option (FsFile → ℕ → ℕ → S → ℕ × S)
  pub w : Option (FsFile → ℕ → ℕ → S → ℕ × S)
  pub o : Option (FsFile → S → ℕ × S)
  pub c : Option (FsFile → S → S)

-- The fields of `struct fs_node` that are used here.
pub record Node (S : Type 0) : Type 0 where
  pub mask : ℕ
  pub fs : Option (FsInfo S)

-- `MAX_NUM_FDS`, and `fds` by index.
abbrev pub max_num_fds : ℕ
max_num_fds = 32

abbrev pub Fds : Type 0
Fds = ℕ → Option FsFile

abbrev pub put_fd : Fds → ℕ → Option FsFile → Fds
put_fd t fd f x = if x == fd then f else t x

-- `n->mask & FS_TYPE != FS_DIR` as C reads it: `FS_TYPE != FS_DIR` is 1.
abbrev pub calls_back : ℕ → Bool
calls_back mask = not (bit_and mask 1 == 0)

-- The loop over the mode string.
unfoldable pub parse_mode : List ℕ → ℕ → Option ℕ
parse_mode [] md = some md
parse_mode (c ∷ m) md =
    if c == b'r'
    then parse_mode m (bit_or md 0x01)
    else (if c == b'w' then parse_mode m (bit_or md 0x02) else none)

-- The loop that looks for a free descriptor from `i` on, with the rounds left.
unfoldable pub free_fd : ℕ → ℕ → Fds → Option ℕ
free_fd zero i t = none
free_fd (suc rounds) i t = elim (t i) [ none ↦ some i | some f ↦ free_fd rounds (i + 1) t ]

-- A descriptor that is in use: `fd < 0 || fd >= MAX_NUM_FDS || !fds[fd]` fails.
pub file_of : ℤ → Fds → Option FsFile
file_of (negsuc k) t = none
file_of (pos fd) t = if leb max_num_fds fd then none else t fd

pub kgetnode : ℤ → Fds → Option ℕ
unfolding file_of
kgetnode fd t = elim (file_of fd t) [ none ↦ none | some f ↦ some f.n ]

abbrev pub index_of : ℤ → ℕ
index_of (pos fd) = fd
index_of (negsuc k) = 0

module _ {S : Type 0} where
  abbrev pub with_ops : {A : Type 0} → Option (FsInfo S) → (FsInfo S → Option A) → Option A
  with_ops none get = none
  with_ops (some i) get = get i

  -- fs_read and fs_write, through the callback that `get` takes: the count, the new file and state.
  pub transfer :
      (FsInfo S → Option (FsFile → ℕ → ℕ → S → ℕ × S))
      → Node S
      → FsFile
      → ℕ
      → ℕ
      → S
      → ℕ × FsFile × S
  transfer get node f c buf s = elim (with_ops node.fs get) [
    | none ↦ (0, f, s)
    | some op ↦ (let (r, s') = op f c buf s in (r, record f { idx = (f.idx + r) % 2 ^ 32 }, s'))
  ]

  pub fs_read : Node S → FsFile → ℕ → ℕ → S → ℕ × FsFile × S
  unfolding transfer
  fs_read node f c buf s = transfer (λ i. i.r) node f c buf s

  pub fs_write : Node S → FsFile → ℕ → ℕ → S → ℕ × FsFile × S
  unfolding transfer
  fs_write node f c buf s = transfer (λ i. i.w) node f c buf s

  -- The callback of fs_open, if there is one.
  unfoldable pub open_with : Option (FsFile → S → ℕ × S) → FsFile → S → FsFile × S
  open_with none f s = (f, s)
  open_with (some o) f s = let (d, s') = o f s in (record f { d = d }, s')

  unfoldable pub fs_open : Node S → ℕ → ℕ → S → FsFile × S
  unfolding open_with
  fs_open node n m s =
      open_with (if calls_back node.mask then with_ops node.fs (λ i. i.o) else none)
        (record { n = n; m = m; idx = 0; d = 0 }) s

  pub fs_close : Node S → FsFile → S → S
  fs_close node f s = elim (if calls_back node.mask then with_ops node.fs (λ i. i.c) else none) [
    | none ↦ s
    | some c ↦ c f s
  ]

  -- The last steps of kopen: the descriptor is found, and the file is opened.
  unfoldable pub open_at : Option ℕ → ℕ → ℕ → (ℕ → Node S) → Fds → S → ℤ × Fds × S
  unfolding fs_open
  open_at none n md nodes t s = (minus_one, t, s)
  open_at (some fd) n md nodes t s =
      let (f, s') = fs_open (nodes n) n md s in (pos fd, put_fd t fd (some f), s')

  unfoldable pub open_node : Option ℕ → Option ℕ → (ℕ → Node S) → Fds → S → ℤ × Fds × S
  unfolding open_at
  open_node none md nodes t s = (minus_one, t, s)
  open_node (some n) none nodes t s = (minus_one, t, s)
  open_node (some n) (some md) nodes t s = open_at (free_fd max_num_fds 0 t) n md nodes t s

  -- `kopen(p, m)`. The walk may fill directories, and so gives a new state.
  unfoldable pub kopen :
      (List ℕ → S → Option ℕ × S) → List ℕ → List ℕ → (ℕ → Node S) → Fds → S → ℤ × Fds × S
  unfolding open_node
  kopen find [] m nodes t s = (minus_one, t, s)
  kopen find (c ∷ p) m nodes t s =
      if c == b'/'
      then (let (n, s') = find p s in open_node n (parse_mode m 0) nodes t s')
      else (minus_one, t, s)

  -- What kread and kwrite do with a descriptor that is in use or not.
  pub transfer_fd :
      (Node S → FsFile → ℕ → ℕ → S → ℕ × FsFile × S)
      → Option FsFile
      → ℕ
      → ℕ
      → ℕ
      → (ℕ → Node S)
      → Fds
      → S
      → ℤ × Fds × S
  transfer_fd op none fd c buf nodes t s = (minus_one, t, s)
  transfer_fd op (some f) fd c buf nodes t s =
      let (r, f', s') = op (nodes f.n) f c buf s in (to_int r, put_fd t fd (some f'), s')

  pub kread : ℤ → ℕ → ℕ → (ℕ → Node S) → Fds → S → ℤ × Fds × S
  unfolding transfer_fd fs_read
  kread fd buf c nodes t s = transfer_fd fs_read (file_of fd t) (index_of fd) c buf nodes t s

  pub kwrite : ℤ → ℕ → ℕ → (ℕ → Node S) → Fds → S → ℤ × Fds × S
  unfolding transfer_fd fs_write
  kwrite fd buf c nodes t s = transfer_fd fs_write (file_of fd t) (index_of fd) c buf nodes t s

  -- The standard streams, below 3, stay open.
  pub close_fd : Option FsFile → ℕ → (ℕ → Node S) → Fds → S → Fds × S
  close_fd none fd nodes t s = (t, s)
  close_fd (some f) fd nodes t s =
      if ltb fd 3 then (t, s) else (put_fd t fd none, fs_close (nodes f.n) f s)

  pub kclose : ℤ → (ℕ → Node S) → Fds → S → Fds × S
  unfolding close_fd
  kclose fd nodes t s = close_fd (file_of fd t) (index_of fd) nodes t s
