-- ===== src/Fat/Dir/Links.antt =====
-- fat_filldir leaves the links and the masks of the nodes that there are.
use strange_os.Prelude.{
  ℕ, zero, suc, ◌+◌, ◌≤◌, ◌≡◌, refl, ap, ◌∙◌, inl, inr, true, false, Bool, Bool-cases, Option, none,
  some, List, [], ◌∷◌, arith, ◌==◌, if◌then◌else◌, ltb, leb,
}
use mathlib.Core.Path.{subst}
use strange_os.Vfs.{Vfs, FsNode, Dirent, Callbacks, put_node, fs_alloc}
use strange_os.Vfs.Dir.{SameLinks, KeepLinks}
use strange_os.Fat.{Bytes, Volume, end_mark, read_fat_ent32, read_cluster, cluster_size}
use strange_os.Fat.Dir.{
  DirState, dir_step, long_step, complete, entry_bytes, read_dir_loop, set_first, rev_onto,
  read_dir32, fat_filldir, dirent_lfn, byte,
}

-- More nodes, and the same links and masks of those that there were.
abbrev pub Grows : Vfs → Vfs → Type 0
Grows v w = (v.next ≤ w.next) × SameLinks v w

Grows-refl : (v : Vfs) → Grows v v
Grows-refl v = (omega arith, λ x lt. (refl, refl))

Grows-trans : (u v w : Vfs) → Grows u v → Grows v w → Grows u w
Grows-trans u v w (le, same) (le', same') = (
  omega arith,
  λ x lt. let (a, b) = same x lt in let (a', b') = same' x (omega arith) in (a' ∙ a, b' ∙ b),
)

-- A write to a new node, or to one that keeps its link and its mask.
put_node-Grows :
    (v : Vfs) (n : ℕ) (to : FsNode)
    → to.ptr ≡ (v.nodes n).ptr
    → to.mask ≡ (v.nodes n).mask
    → Grows v (put_node v n to)
put_node-Grows v n to same same' = (
  omega arith,
  λ x lt. elim (Bool-cases (x == n)) [
    | inl e ↦ let at : x ≡ n = ground arith in rw (e, at) (same, same')
    | inr e ↦ rw e (refl, refl)
  ],
)

new_node-Grows :
    (v : Vfs) (p : Option ℕ) (to : FsNode) → Grows v (put_node (fs_alloc p v).1 v.next to)
unfolding fs_alloc
new_node-Grows v p to =
    (omega arith, λ x lt. let other : (x == v.next) ≡ false = ground arith in rw other (refl, refl))

complete-Grows :
    (node cl i : ℕ) (e : List ℕ) (s : DirState) → Grows s.vfs (complete node cl i e s).vfs
unfolding complete fs_alloc
complete-Grows node cl i e s = by_dirents s.dirents s.follows s.vfs
  where
    by_dirents :
        (ds : List Dirent) (b : Bool) (v : Vfs)
        → Grows v (complete node cl i e (record { dirents = ds; follows = b; vfs = v })).vfs
    by_dirents [] b v = Grows-refl v
    by_dirents (d ∷ ds) b v = new_node-Grows v (some node) _

either-Grows :
    (v : Vfs) (b : Bool) (s t : DirState)
    → Grows v s.vfs
    → Grows v t.vfs
    → Grows v (if b then s else t).vfs
either-Grows v true s t hs ht = hs
either-Grows v false s t hs ht = ht

dir_step-Grows :
    (node cl i : ℕ) (e : List ℕ) (s : DirState) → Grows s.vfs (dir_step node cl i e s).vfs
unfolding dir_step
dir_step-Grows node cl i e s =
    either-Grows s.vfs (byte e 11 == dirent_lfn) (long_step e s) _ (Grows-refl s.vfs) (
      either-Grows s.vfs s.follows (complete node cl i e s) s (complete-Grows node cl i e s)
        (Grows-refl s.vfs))

-- Where the loop ends, the nodes have grown.
abbrev GrowsTo : Vfs → Option (DirState × Volume) → Type 0
GrowsTo v none = Unit {0}
GrowsTo v (some r) = Grows v r.0.vfs

GrowsTo-after : (u v : Vfs) (o : Option (DirState × Volume)) → Grows u v → GrowsTo v o → GrowsTo u o
GrowsTo-after u v none h h' = tt
GrowsTo-after u v (some r) h h' = Grows-trans u v r.0.vfs h h'

loop-Grows :
    (rounds node i cl : ℕ) (buf : Bytes) (s : DirState) (f : Volume)
    → GrowsTo s.vfs (read_dir_loop rounds node i cl buf s f)
unfolding read_dir_loop
loop-Grows zero node i cl buf s f = elim (Bool-cases (ltb cl end_mark)) [
  | inl on ↦ rw (read_dir_loop, on) tt
  | inr stop ↦ rw (read_dir_loop, stop) (Grows-refl s.vfs)
]
loop-Grows (suc rounds) node i cl buf s f = elim (Bool-cases (ltb cl end_mark)) [
  | inr stop ↦ rw (read_dir_loop, stop) (Grows-refl s.vfs)
  | inl on ↦ elim (Bool-cases (leb (cluster_size f) i)) [
    | inr inside ↦
        let t : DirState = dir_step node cl i (entry_bytes buf i) s in
        rw (read_dir_loop, on, inside)
          (GrowsTo-after s.vfs t.vfs (read_dir_loop rounds node (i + 32) cl buf t f)
            (dir_step-Grows node cl i (entry_bytes buf i) s)
            (loop-Grows rounds node (i + 32) cl buf t f))
    | inl over ↦
        let next : ℕ = (read_fat_ent32 cl f).0 in
        let g : Volume = (read_fat_ent32 cl f).1 in
        let buf' : Bytes = read_cluster next g buf in
        let t : DirState = dir_step node next 0 (entry_bytes buf' 0) s in
        elim (Bool-cases (leb end_mark next)) [
          | inl ends ↦ rw (read_dir_loop, on, over, ends) (Grows-refl s.vfs)
          | inr more ↦
              rw (read_dir_loop, on, over, more)
                (GrowsTo-after s.vfs t.vfs (read_dir_loop rounds node 32 next buf' t g)
                  (dir_step-Grows node next 0 (entry_bytes buf' 0) s)
                  (loop-Grows rounds node 32 next buf' t g))
        ]
  ]
]

set_first-Grows : (v : Vfs) (node : ℕ) (s : DirState) → Grows v s.vfs → Grows v (set_first node s)
set_first-Grows v node s h = by_dirents s.dirents
  where
    by_dirents : (ds : List Dirent) → Grows v (set_first node (record s { dirents = ds }))
    by_dirents [] = h
    by_dirents (d ∷ ds) =
        let to : FsNode = record (s.vfs.nodes node) { first = rev_onto (d ∷ ds) [] } in
        Grows-trans v s.vfs (put_node s.vfs node to) h (put_node-Grows s.vfs node to refl refl)

-- The nodes once fat_filldir is done, on a volume with FAT32; where it runs out of rounds, as they
-- were.
abbrev pub filled : ℕ → Bytes → Volume → ℕ → Vfs → Vfs
filled rounds old f node v = elim (fat_filldir 32 rounds node old v f) [ none ↦ v | some r ↦ r.0 ]

-- The callbacks with fat_filldir for the file system number `fat`.
abbrev pub fat_callbacks : ℕ → ℕ → Bytes → Volume → Callbacks
fat_callbacks fat rounds old f = record {
  fd = λ i. if i == fat then some (filled rounds old f) else none;
  cr = λ _. none;
}

read-Grows :
    (o : Option (DirState × Volume)) (node : ℕ) (v : Vfs)
    → GrowsTo v o
    → Grows v
        (elim (elim o as (λ _. Option (Vfs × Volume)) [
          | none ↦ none
          | some r ↦ some (set_first node r.0, r.1)
        ])
          as (λ _. Vfs) [ none ↦ v | some r ↦ r.0 ])
read-Grows none node v h = Grows-refl v
read-Grows (some r) node v h = set_first-Grows v node r.0 h

filled-Grows :
    (rounds : ℕ) (old : Bytes) (f : Volume) (node : ℕ) (v : Vfs)
    → Grows v (filled rounds old f node v)
unfolding fat_filldir read_dir32
filled-Grows rounds old f node v = by_first (v.nodes node).first refl
  where
    by_first : (ds : List Dirent) → (v.nodes node).first ≡ ds → Grows v (filled rounds old f node v)
    by_first (d ∷ ds) e = rw (filled, fat_filldir, e) (Grows-refl v)
    by_first [] e =
        rw (filled, fat_filldir, e)
          (read-Grows
            (read_dir_loop rounds node 0 (v.nodes node).inode
              (read_cluster (v.nodes node).inode f old)
              (record { dirents = []; follows = false; vfs = v }) f)
            node v
            (loop-Grows rounds node 0 (v.nodes node).inode (read_cluster (v.nodes node).inode f old)
              (record { dirents = []; follows = false; vfs = v }) f))

picked-SameLinks :
    (g fd : ℕ → Vfs → Vfs) (m : ℕ) (v : Vfs) (b : Bool)
    → SameLinks v (g m v)
    → (if b then some g else none) ≡ some fd
    → SameLinks v (fd m v)
picked-SameLinks g fd m v true same e =
    subst (λ h. SameLinks v (h m v))
      (ap (λ (o : Option (ℕ → Vfs → Vfs)). elim o [ none ↦ g | some h ↦ h ]) e) same
picked-SameLinks g fd m v false same e = absurd (none_some e)
  where
    none_some : {A : Type 0} {a : A} → none ≡ some a → ⊥
    none_some e = cc

-- What a lookup asks of the callbacks that fill a directory holds of fat_filldir.
pub fat_callbacks-KeepLinks :
    (fat rounds : ℕ) (old : Bytes) (f : Volume) (m : ℕ) (v : Vfs)
    → KeepLinks (fat_callbacks fat rounds old f) m v
fat_callbacks-KeepLinks fat rounds old f m v i fd e =
    picked-SameLinks (filled rounds old f) fd m v (i == fat) (filled-Grows rounds old f m v).1 e
