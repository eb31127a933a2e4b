-- ===== src/Fat/Dir/Add.antt =====
-- A new entry in a directory: _add_dirent and fat_create.
-- What the code gets from _find_unused_cluster when no entry is free is undefined: `none`. So is a
-- search for a place that takes more than the rounds given.
use strange_os.Prelude.{
  ℕ, zero, suc, ◌+◌, ◌-◌, ◌/◌, ◌%◌, ◌^◌, Bool, true, false, ◌&&◌, Option, none, some, List, [], ◌∷◌,
  ◌++◌, ltb, leb, ◌==◌, if◌then◌else◌, get_or, take, drop,
}
use strange_os.Vfs.{Vfs, put_node, fs_dir}
use strange_os.Fat.{
  Bytes, Volume, cluster_size, end_mark, read_fat_ent32, write_fat_ent32, find_unused_cluster,
  read_cluster, write_cluster,
}
use strange_os.Fat.Dir.{dirent_directory, dirent_lfn}

-- The place that the search of _add_dirent comes to: `i`, `cl`, `pcl` and `buf`.
pub record Slot : Type 0 where
  pub i : ℕ
  pub cl : ℕ
  pub pcl : ℕ
  pub buf : Bytes

-- `(i + 64) <= clsz && dent->fn[0] == 0 && (dent + 1)->fn[0] == 0`
abbrev pub is_free : ℕ → Bytes → ℕ → Bool
is_free size buf i = leb (i + 64) size && buf i == 0 && buf (i + 32) == 0

-- The search, with the rounds left.
pub find_slot : ℕ → ℕ → ℕ → ℕ → Bytes → Volume → Option (Slot × Volume)
find_slot zero i cl pcl buf f =
    if ltb cl end_mark then none else some (record { i = i; cl = cl; pcl = pcl; buf = buf }, f)
find_slot (suc rounds) i cl pcl buf f = elim (ltb cl end_mark) [
  | false ↦ some (record { i = i; cl = cl; pcl = pcl; buf = buf }, f)
  | true ↦ elim (leb (cluster_size f) i) [
    | false ↦ elim (is_free (cluster_size f) buf i) [
      | true ↦ some (record { i = i; cl = cl; pcl = pcl; buf = buf }, f)
      | false ↦ find_slot rounds (i + 32) cl pcl buf f
    ]
    | true ↦
        (let (next, g) = read_fat_ent32 cl f in
          let buf' = read_cluster next g buf in
          elim (leb end_mark next) [
            | true ↦ some (record { i = 0; cl = next; pcl = cl; buf = buf }, g)
            | false ↦ elim (is_free (cluster_size g) buf' 0) [
              | true ↦ some (record { i = 0; cl = next; pcl = cl; buf = buf' }, g)
              | false ↦ find_slot rounds 32 next cl buf' g
            ]
          ])
  ]
]

-- A new cluster of the directory, if the search has come to the end of its chain.
pub extend_dir : Slot → Volume → Option (Slot × Volume)
extend_dir s f =
    if leb end_mark s.cl
    then (elim (find_unused_cluster f).0 [
      | none ↦ none
      | some ncl ↦ some (
        record s { cl = ncl; buf = λ k. if ltb k (cluster_size f) then 0 else s.buf k },
        write_fat_ent32 ncl end_mark (write_fat_ent32 s.pcl ncl (find_unused_cluster f).1),
      )
    ])
    else some (s, f)

-- Bytes of `s` up to the end or to byte `n`, the rest blank.
abbrev pub padded : ℕ → List ℕ → List ℕ
padded zero s = []
padded (suc n) [] = b' ' ∷ padded n []
padded (suc n) (c ∷ s) = c ∷ padded n s

-- The part of a name before its first dot, and the part behind it, if there is a dot.
abbrev pub base_name : List ℕ → List ℕ
base_name [] = []
base_name (c ∷ fn) = if c == b'.' then [] else c ∷ base_name fn

abbrev pub extension : List ℕ → Option (List ℕ)
extension [] = none
extension (c ∷ fn) = if c == b'.' then some fn else extension fn

-- The bytes of `dent->fn`; with no dot in the name the last three keep what they are.
abbrev pub short_name : List ℕ → List ℕ → List ℕ
short_name fn old =
    padded 8 (base_name fn) ++ elim (extension fn) [ none ↦ old | some ext ↦ padded 3 ext ]

-- `ntmp` from the characters on that are left of the twelve: the terminator and the padding behind
-- them.
abbrev pub padding : ℕ → List ℕ
padding zero = []
padding (suc n) = 0xff ∷ 0xff ∷ padding n

abbrev pub ntmp : ℕ → List ℕ → List ℕ
ntmp zero fn = 0 ∷ 0 ∷ []
ntmp (suc n) [] = 0 ∷ 0 ∷ padding (suc n)
ntmp (suc n) (c ∷ fn) = c ∷ 0 ∷ ntmp n fn

-- The bytes of `*ldent`.
abbrev pub long_entry : List ℕ → List ℕ
long_entry fn =
    0x41
    ∷ (take 10 (ntmp 12 fn)
        ++ ((dirent_lfn ∷ 0 ∷ 0 ∷ [])
            ++ (take 12 (drop 10 (ntmp 12 fn)) ++ ((0 ∷ 0 ∷ []) ++ drop 22 (ntmp 12 fn)))))

-- The bytes of `*dent` behind the name, for the first cluster `fcl`.
abbrev pub attributes : ℕ → ℕ → List ℕ
attributes tp fcl =
    (if tp == fs_dir then dirent_directory else 0)
    ∷ 0
    ∷ 0
    ∷ 0
    ∷ 0
    ∷ 0
    ∷ 0
    ∷ 0
    ∷ 0
    ∷ fcl / 2 ^ 16 % 256
    ∷ fcl / 2 ^ 24 % 256
    ∷ 0
    ∷ 0
    ∷ 0
    ∷ 0
    ∷ fcl % 256
    ∷ fcl / 2 ^ 8 % 256
    ∷ 10
    ∷ 0
    ∷ 0
    ∷ 0
    ∷ []

-- The bytes of `*dent`; `old` is what was in the last three bytes of the name.
abbrev pub short_entry : List ℕ → ℕ → ℕ → List ℕ → List ℕ
short_entry fn tp fcl old = short_name fn old ++ attributes tp fcl

abbrev pub put_list : ℕ → List ℕ → Bytes → Bytes
put_list at s b k = if leb at k && ltb k (at + 32) then get_or s (k - at) 0 else b k

-- Both entries in the buffer, the long one at `i`.
abbrev pub put_entries : ℕ → List ℕ → ℕ → ℕ → Bytes → Bytes
put_entries i fn tp fcl b =
    put_list (i + 32) (short_entry fn tp fcl (b (i + 40) ∷ b (i + 41) ∷ b (i + 42) ∷ []))
      (put_list i (long_entry fn) b)

-- What _add_dirent has done: the cluster and the offset that it writes to the node, the first
-- cluster of the new file, and the volume.
pub record Added : Type 0 where
  pub cl : ℕ
  pub i : ℕ
  pub fcl : ℕ
  pub volume : Volume

-- The part behind the search: the first cluster of the file is taken, the entries are written, and
-- the cluster is cleared.
pub write_dirent : List ℕ → ℕ → Slot → Volume → Option Added
write_dirent fn tp s f = elim (find_unused_cluster f).0 [
  | none ↦ none
  | some fcl ↦
      (let g = write_fat_ent32 fcl end_mark (find_unused_cluster f).1 in
        let buf = put_entries s.i fn tp fcl s.buf in
        let h = write_cluster s.cl buf g in
        some (record {
          cl = s.cl;
          i = s.i;
          fcl = fcl;
          volume = write_cluster fcl (λ k. if ltb k (cluster_size h) then 0 else buf k) h;
        }))
]

-- `_add_dirent`, in the directory that begins at `first`.
pub add_dirent : ℕ → ℕ → List ℕ → ℕ → Bytes → Volume → Option Added
unfolding find_slot extend_dir write_dirent
add_dirent rounds first fn tp old f =
    elim (find_slot rounds 0 first first (read_cluster first f old) f) [
      | none ↦ none
      | some r ↦ elim (extend_dir r.0 r.1) [ none ↦ none | some e ↦ write_dirent fn tp e.0 e.1 ]
    ]

-- `fat_create`: `ch` is the node of the new dirent.
pub fat_create : ℕ → ℕ → List ℕ → ℕ → ℕ → Bytes → Vfs → Volume → Option (Vfs × Volume)
unfolding add_dirent
fat_create rounds node fn tp ch old v f =
    elim (add_dirent rounds (v.nodes node).inode fn tp old f) [
      | none ↦ none
      | some a ↦
          some
            (put_node v ch (record (v.nodes ch) { impl2 = (a.cl, a.i); inode = a.fcl }), a.volume)
    ]
