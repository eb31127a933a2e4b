-- ===== src/Fat/File.antt =====
-- Reading a file through its chain of clusters, as fat_open and fat_read do.
use strange_os.Prelude.{
  ℕ, zero, suc, ◌+◌, ◌-◌, ◌*◌, ◌/◌, ◌%◌, ◌≤◌, ◌<◌, ◌≡◌, refl, sym, ap, ◌∙◌, true, false, List, [],
  ◌∷◌, arith, min, length, leb, Bool-cases, inl, inr,
}
use strange_os.Fat.{
  Bytes, Volume, FileInfo, cluster_size, cluster_lba, disk_byte, end_mark, read_fat_ent32,
  read_cluster, read_loop, fat_read, fat_open, mode_r,
}
use strange_os.Fat.Table.{IsCoherent, SameVolume, entry, sector_same, read_fat_ent32_lem}

-- Byte `k` of a cluster on the disk, and cluster number `n` of the file that begins at `first`.
abbrev pub cluster_byte : Volume → ℕ → ℕ → ℕ
cluster_byte v cn k = disk_byte (v.disk (cluster_lba v cn + k / 512)) (k % 512)

unfoldable pub cluster_at : Volume → ℕ → ℕ → ℕ
cluster_at v first zero = first
cluster_at v first (suc n) = entry v (cluster_at v first n)

-- Byte `k` of the file is `b`.
pub record IsByte (v : Volume) (first k b : ℕ) : Type 0 where
  pub number : ℕ
  pub offset : ℕ
  pub place : number * cluster_size v + offset ≡ k
  pub inside : offset < cluster_size v
  pub byte : b ≡ cluster_byte v (cluster_at v first number) offset

-- The bytes from `k` on begin with these.
abbrev pub AreBytes : Volume → ℕ → ℕ → List ℕ → Type 0
AreBytes v first k [] = Unit {0}
AreBytes v first k (b ∷ bs) = IsByte v first k b × AreBytes v first (k + 1) bs

-- The file info of an open file that stands at byte `k`.
pub record StandsAt (v : Volume) (first k : ℕ) (inf : FileInfo) : Type 0 where
  pub number : ℕ
  pub cluster : inf.cl ≡ cluster_at v first number
  pub place : number * cluster_size v + inf.idx ≡ k
  pub inside : inf.idx ≤ cluster_size v
  pub loaded : (j : ℕ) → j < cluster_size v → inf.buf j ≡ cluster_byte v inf.cl j

-- What a read of `c` bytes from byte `k` of a file of `len` bytes gives.
pub record Reads (v : Volume) (first k len c : ℕ) (out : List ℕ × FileInfo × Volume) : Type 0 where
  pub count : length out.0 ≡ min c (len - k)
  pub bytes : AreBytes v first k out.0
  pub stands : StandsAt v first (k + length out.0) out.1
  pub same : SameVolume v out.2
  pub coherent : IsCoherent out.2

pub SameVolume-trans : (v f g : Volume) → SameVolume v f → SameVolume f g → SameVolume v g
SameVolume-trans v f g h k =
    (k.0 ∙ h.0, k.1 ∙ h.1, k.2 ∙ h.2, k.3 ∙ h.3, k.4 ∙ h.4, k.5 ∙ h.5, k.6 ∙ h.6)

pub read_cluster_lem :
    (cn j : ℕ) (v g : Volume) (buf : Bytes)
    → SameVolume v g
    → j < cluster_size v
    → read_cluster cn g buf j ≡ cluster_byte v cn j
unfolding read_cluster
read_cluster_lem cn j v g buf h lt = rw (h.0, h.2, h.4, h.6) (ground arith)

step_end :
    (r t pos len : ℕ) (inf : FileInfo) (f : Volume)
    → leb len (pos + t) ≡ true
    → read_loop (suc r) t pos len inf f ≡ ([], inf, f)
unfolding read_loop
step_end r t pos len inf f e = rw e refl

-- The next byte lies in the cluster that is loaded.
step_byte :
    (r t pos len : ℕ) (inf : FileInfo) (f : Volume)
    → leb len (pos + t) ≡ false
    → leb (cluster_size f) inf.idx ≡ false
    → read_loop (suc r) t pos len inf f ≡ (
        let rest = read_loop r (t + 1) pos len (record inf { idx = inf.idx + 1 }) f in
        (inf.buf inf.idx ∷ rest.0, rest.1, rest.2))
unfolding read_loop
step_byte r t pos len inf f e e' = rw (read_loop, e, e') refl

-- The file info once the next cluster is loaded and a byte of it is taken.
abbrev next_info : FileInfo → Volume → FileInfo
next_info inf f =
    let (cl, g) = read_fat_ent32 inf.cl f in
    record { cl = cl; idx = 1; buf = read_cluster cl g inf.buf }

step_next :
    (r t pos len : ℕ) (inf : FileInfo) (f : Volume)
    → leb len (pos + t) ≡ false
    → leb (cluster_size f) inf.idx ≡ true
    → leb end_mark (read_fat_ent32 inf.cl f).0 ≡ false
    → read_loop (suc r) t pos len inf f ≡ (
        let rest = read_loop r (t + 1) pos len (next_info inf f) (read_fat_ent32 inf.cl f).1 in
        ((next_info inf f).buf 0 ∷ rest.0, rest.1, rest.2))
unfolding read_loop read_cluster
step_next r t pos len inf f e e' e'' = rw (read_loop, e, e', e'') refl

Reads-nothing :
    (v : Volume) (first k len c : ℕ) (inf : FileInfo) (f : Volume)
    → StandsAt v first k inf
    → SameVolume v f
    → IsCoherent f
    → min c (len - k) ≡ 0
    → Reads v first k len c ([], inf, f)
Reads-nothing v first k len c inf f h same coherent e = record {
  count = sym e;
  bytes = tt;
  stands = (let e : k + 0 ≡ k = omega arith in rw e h);
  same = same;
  coherent = coherent;
}

Reads-more :
    (v : Volume) (first k len r b : ℕ) (rest : List ℕ × FileInfo × Volume)
    → IsByte v first k b
    → k < len
    → Reads v first (k + 1) len r rest
    → Reads v first k len (suc r) (b ∷ rest.0, rest.1, rest.2)
Reads-more v first k len r b rest here lt h = record {
  count = omega (arith, h.count);
  bytes = (here, h.bytes);
  stands = (let e : k + suc (length rest.0) ≡ k + 1 + length rest.0 = omega arith in rw e h.stands);
  same = h.same;
  coherent = h.coherent;
}

pub mul_suc : (a b : ℕ) → suc a * b ≡ a * b + b
mul_suc a b = grind arith

stands_after :
    (v : Volume) (first k : ℕ) (inf : FileInfo)
    → StandsAt v first k inf
    → inf.idx < cluster_size v
    → StandsAt v first (k + 1) (record inf { idx = inf.idx + 1 })
stands_after v first k inf h lt = record {
  number = h.number;
  cluster = h.cluster;
  place = omega (arith, h.place);
  inside = omega arith;
  loaded = h.loaded;
}

IsByte-here :
    (v : Volume) (first k : ℕ) (inf : FileInfo)
    → StandsAt v first k inf
    → inf.idx < cluster_size v
    → IsByte v first k (inf.buf inf.idx)
IsByte-here v first k inf h lt = record {
  number = h.number;
  offset = inf.idx;
  place = h.place;
  inside = lt;
  byte = h.loaded inf.idx lt ∙ ap (λ c. cluster_byte v c inf.idx) h.cluster;
}

-- At the end of a cluster the next one is loaded: the file stands at its first byte.
stands_next :
    (v : Volume) (first k : ℕ) (inf : FileInfo) (f : Volume)
    → IsCoherent f
    → SameVolume v f
    → StandsAt v first k inf
    → inf.idx ≡ cluster_size v
    → StandsAt v first k (record (next_info inf f) { idx = 0 })
unfolding cluster_at
stands_next v first k inf f coherent same h full =
    let (value, keeps, coherent') = read_fat_ent32_lem inf.cl f coherent in
    record {
      number = suc h.number;
      cluster =
          value
          ∙ (λ t. sector_same v f (inf.cl / 128) same t (inf.cl % 128))
          ∙ ap (entry v) h.cluster;
      place = omega (arith, mul_suc h.number (cluster_size v), h.place);
      inside = omega arith;
      loaded = λ j lt.
          read_cluster_lem (read_fat_ent32 inf.cl f).0 j v (read_fat_ent32 inf.cl f).1 inf.buf
            (SameVolume-trans v f (read_fat_ent32 inf.cl f).1 same keeps) lt;
    }

-- The chain of a file of `len` bytes does not end before its last byte.
abbrev pub IsLong : Volume → ℕ → ℕ → Type 0
IsLong v first len = (n : ℕ) → n * cluster_size v < len → cluster_at v first n < end_mark

read_loop_lem :
    (c t pos len first k : ℕ) (v : Volume) (inf : FileInfo) (f : Volume)
    → k ≡ pos + t
    → 0 < v.spc
    → IsLong v first len
    → SameVolume v f
    → IsCoherent f
    → StandsAt v first k inf
    → Reads v first k len c (read_loop c t pos len inf f)
unfolding read_loop
read_loop_lem zero t pos len first k v inf f e spc long same coherent h =
    Reads-nothing v first k len zero inf f h same coherent (omega arith)
read_loop_lem (suc c) t pos len first k v inf f e spc long same coherent h =
    elim (Bool-cases (leb len (pos + t))) [
      | inl done ↦
          rw (step_end c t pos len inf f done)
            (Reads-nothing v first k len (suc c) inf f h same coherent (ground arith))
      | inr more ↦ elim (Bool-cases (leb (cluster_size f) inf.idx)) [
        | inl full ↦
            let (value, keeps, coherent') = read_fat_ent32_lem inf.cl f coherent in
            let g : Volume = (read_fat_ent32 inf.cl f).1 in
            let at_end : inf.idx ≡ cluster_size v = ground arith in
            let below : k < len = ground arith in
            let start : FileInfo = record (next_info inf f) { idx = 0 } in
            let new = stands_next v first k inf f coherent same h at_end in
            let in_chain = long new.number (omega (arith, new.place)) in
            let goes_on : leb end_mark (read_fat_ent32 inf.cl f).0 ≡ false =
              ground (arith, in_chain, new.cluster) in
            rw (step_next c t pos len inf f more full goes_on) (
              Reads-more v first k len c (start.buf 0)
                (read_loop c (t + 1) pos len (next_info inf f) g)
                (IsByte-here v first k start new (omega arith)) below
                (read_loop_lem c (t + 1) pos len first (k + 1) v (next_info inf f) g (omega arith)
                  spc long (SameVolume-trans v f g same keeps) coherent'
                  (stands_after v first k start new (omega arith))))
        | inr inside ↦
            let lt : inf.idx < cluster_size v = ground arith in
            rw (step_byte c t pos len inf f more inside) (
              Reads-more v first k len c (inf.buf inf.idx)
                (read_loop c (t + 1) pos len (record inf { idx = inf.idx + 1 }) f)
                (IsByte-here v first k inf h lt) (ground arith)
                (read_loop_lem c (t + 1) pos len first (k + 1) v (record inf { idx = inf.idx + 1 })
                  f (omega arith) spc long same coherent (stands_after v first k inf h lt)))
      ]
    ]

-- A file that is opened for reading stands at its first byte.
pub fat_open-StandsAt :
    (inode : ℕ) (old : Bytes) (v : Volume) → StandsAt v inode 0 (fat_open mode_r inode old v)
unfolding fat_open cluster_at
fat_open-StandsAt inode old v = record {
  number = 0;
  cluster = refl;
  place = omega arith;
  inside = omega arith;
  loaded = λ j lt. read_cluster_lem inode j v v old (refl, refl, refl, refl, refl, refl, refl) lt;
}

-- A read of c bytes of a file that is open for reading and stands at byte k gives the bytes of the
-- file from there on, c of them or as many as are left, if clusters have at least one sector and
-- the chain does not end before the last byte, whatever is in a coherent cache; the file then
-- stands behind them, and nothing on the volume has changed.
pub fat_read_lem :
    (c k len first : ℕ) (inf : FileInfo) (v : Volume)
    → 0 < v.spc
    → IsLong v first len
    → IsCoherent v
    → StandsAt v first k inf
    → Reads v first k len c (fat_read mode_r k len c inf v)
unfolding fat_read
fat_read_lem c k len first inf v spc long coherent h =
    read_loop_lem c 0 k len first k v inf v (omega arith) spc long
      (refl, refl, refl, refl, refl, refl, refl) coherent h
