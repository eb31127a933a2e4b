-- ===== src/Fat/Dir/Chain.antt =====
-- The loop of _read_dir32 along a chain of clusters.
use strange_os.Prelude.{
  ℕ, zero, suc, ◌+◌, ◌-◌, ◌*◌, ◌/◌, ◌%◌, ◌≤◌, ◌<◌, ◌≡◌, refl, sym, ap, ◌∙◌, true, false, Option,
  some, [], arith, ltb, leb,
}
use strange_os.Prelude.Loops.{for_loop}
use strange_os.Fat.{Bytes, Volume, cluster_size, end_mark, read_fat_ent32, read_cluster}
use strange_os.Fat.Table.{IsCoherent, SameVolume, sector_same, read_fat_ent32_lem}
use strange_os.Fat.File.{cluster_byte, cluster_at, SameVolume-trans, read_cluster_lem, mul_suc}
use strange_os.Fat.Dir.{
  DirState, bytes_from, entry_bytes, dir_step, read_dir_loop, read_dir32, set_first,
}
use strange_os.Vfs.{Vfs}

-- The entries of a cluster, one after the other.
abbrev pub each_entry : Volume → ℕ → ℕ → ℕ → ℕ → DirState → DirState
each_entry v node c rounds first s =
    for_loop rounds first
      (λ j s'. dir_step node c (32 * j) (entry_bytes (cluster_byte v c) (32 * j)) s') s

-- The entries of `m` clusters of the chain from cluster `n` on.
abbrev pub each_cluster : Volume → ℕ → ℕ → ℕ → ℕ → DirState → DirState
each_cluster v node first m n s =
    for_loop m n (λ n' s'. each_entry v node (cluster_at v first n') (16 * v.spc) 0 s') s

-- A chain of `count` clusters.
pub record IsChain (v : Volume) (first count : ℕ) : Type 0 where
  pub some_sectors : 0 < v.spc
  pub goes_on : (n : ℕ) → n < count → cluster_at v first n < end_mark
  pub stops : end_mark ≤ cluster_at v first count

-- The loop is done with the state `s`, and nothing but the cache has changed.
pub record EndsWith (v : Volume) (s : DirState) (to : Option (DirState × Volume)) : Type 0 where
  pub volume : Volume
  pub is : to ≡ some (s, volume)
  pub same : SameVolume v volume
  pub coherent : IsCoherent volume

bytes_from-same :
    (n i : ℕ) (b c : Bytes)
    → ((k : ℕ) → i ≤ k → k < i + n → b k ≡ c k)
    → bytes_from n b i ≡ bytes_from n c i
bytes_from-same zero i b c h = refl
bytes_from-same (suc n) i b c h =
    let rest = bytes_from-same n (i + 1) b c (λ k lo hi. h k (omega arith) (omega arith)) in
    rw (h i (omega arith) (omega arith), rest) refl

step_over :
    (r node i cl : ℕ) (buf : Bytes) (s : DirState) (f : Volume)
    → ltb cl end_mark ≡ true
    → leb (cluster_size f) i ≡ false
    → read_dir_loop (suc r) node i cl buf s f
      ≡ read_dir_loop r node (i + 32) cl buf (dir_step node cl i (entry_bytes buf i) s) f
unfolding read_dir_loop
step_over r node i cl buf s f e e' = rw (read_dir_loop, e, e') refl

step_end :
    (r node i cl : ℕ) (buf : Bytes) (s : DirState) (f : Volume)
    → ltb cl end_mark ≡ true
    → leb (cluster_size f) i ≡ true
    → leb end_mark (read_fat_ent32 cl f).0 ≡ true
    → read_dir_loop (suc r) node i cl buf s f ≡ some (s, (read_fat_ent32 cl f).1)
unfolding read_dir_loop
step_end r node i cl buf s f e e' e'' = rw (read_dir_loop, e, e', e'') refl

step_next :
    (r node i cl : ℕ) (buf : Bytes) (s : DirState) (f : Volume)
    → ltb cl end_mark ≡ true
    → leb (cluster_size f) i ≡ true
    → leb end_mark (read_fat_ent32 cl f).0 ≡ false
    → read_dir_loop (suc r) node i cl buf s f ≡ (
        let (next, g) = read_fat_ent32 cl f in
        let buf' = read_cluster next g buf in
        read_dir_loop r node 32 next buf' (dir_step node next 0 (entry_bytes buf' 0) s) g)
unfolding read_dir_loop
step_next r node i cl buf s f e e' e'' = rw (read_dir_loop, e, e', e'') refl

-- The buffer holds the cluster `c`.
abbrev pub IsLoaded : Volume → ℕ → Bytes → Type 0
IsLoaded v c buf = (k : ℕ) → k < cluster_size v → buf k ≡ cluster_byte v c k

entry_loaded :
    (v : Volume) (c i : ℕ) (buf : Bytes)
    → IsLoaded v c buf
    → i + 32 ≤ cluster_size v
    → entry_bytes buf i ≡ entry_bytes (cluster_byte v c) i
entry_loaded v c i buf loaded inside =
    bytes_from-same 32 i buf (cluster_byte v c) (λ k lo hi. loaded k (omega arith))

size_same : (v f : Volume) → SameVolume v f → cluster_size f ≡ cluster_size v
size_same v f same = ap (λ s. s * 512) same.4

-- The next cluster of the chain, in the table.
next_lem :
    (v : Volume) (first n : ℕ) (f : Volume)
    → SameVolume v f
    → IsCoherent f
    → (read_fat_ent32 (cluster_at v first n) f).0 ≡ cluster_at v first (suc n)
unfolding cluster_at
next_lem v first n f same coherent =
    (read_fat_ent32_lem (cluster_at v first n) f coherent).0
    ∙ ap (λ t. t (cluster_at v first n % 128)) (sector_same v f (cluster_at v first n / 128) same)

EndsWith-rw :
    (v : Volume) (s s' : DirState) (to to' : Option (DirState × Volume))
    → s ≡ s'
    → to ≡ to'
    → EndsWith v s to
    → EndsWith v s' to'
EndsWith-rw v s s' to to' e e' h = record {
  volume = h.volume;
  is = sym e' ∙ h.is ∙ ap (λ x. some (x, h.volume)) e;
  same = h.same;
  coherent = h.coherent;
}

-- The whole of the next cluster, but its first entry, which the step takes at once.
first_entry :
    (v : Volume) (node c : ℕ) (s : DirState)
    → 0 < v.spc
    → each_entry v node c (16 * v.spc) 0 s
      ≡ each_entry v node c
          (16 * v.spc - 1)
          1
          (dir_step node c 0 (entry_bytes (cluster_byte v c) 0) s)
unfolding for_loop
first_entry v node c s pos =
    ap
      (λ q.
        for_loop q 0 (λ j s'. dir_step node c (32 * j) (entry_bytes (cluster_byte v c) (32 * j)) s')
          s)
      {x = 16 * v.spc} {y = suc (16 * v.spc - 1)} (omega arith)

loop_lem :
    (r node first count m n q j : ℕ) (v : Volume) (buf : Bytes) (s : DirState) (f : Volume)
    → IsChain v first count
    → n + 1 + m ≡ count
    → j + q ≡ 16 * v.spc
    → IsLoaded v (cluster_at v first n) buf
    → SameVolume v f
    → IsCoherent f
    → m * (16 * v.spc) + q + 1 ≤ r
    → EndsWith v
        (each_cluster v node first m (n + 1) (each_entry v node (cluster_at v first n) q j s))
        (read_dir_loop r node (32 * j) (cluster_at v first n) buf s f)
unfolding for_loop
loop_lem zero node first count m n q j v buf s f chain place row loaded same coherent enough =
    absurd (omega arith)
loop_lem (suc r) node first count m n (suc q) j v buf s f chain place row loaded same coherent
      enough =
    let c : ℕ = cluster_at v first n in
    let on : ltb c end_mark ≡ true = (let lt = chain.goes_on n (omega arith) in ground arith) in
    let more : leb (cluster_size f) (32 * j) ≡ false = ground (arith, size_same v f same) in
    let here : entry_bytes buf (32 * j) ≡ entry_bytes (cluster_byte v c) (32 * j) =
      entry_loaded v c (32 * j) buf loaded (omega arith) in
    let s' : DirState = dir_step node c (32 * j) (entry_bytes (cluster_byte v c) (32 * j)) s in
    let at : 32 * j + 32 ≡ 32 * (j + 1) = omega arith in
    EndsWith-rw v (each_cluster v node first m (n + 1) (each_entry v node c q (j + 1) s'))
      (each_cluster v node first m (n + 1) (each_entry v node c (suc q) j s))
      (read_dir_loop r node (32 * (j + 1)) c buf s' f)
      (read_dir_loop (suc r) node (32 * j) c buf s f) refl
      (sym (step_over r node (32 * j) c buf s f on more ∙ rw (here, at) refl))
      (loop_lem r node first count m n q (j + 1) v buf s' f chain place (omega arith) loaded same
        coherent (omega arith))
loop_lem (suc r) node first count zero n zero j v buf s f chain place row loaded same coherent
      enough =
    let c : ℕ = cluster_at v first n in
    let on : ltb c end_mark ≡ true = (let lt = chain.goes_on n (omega arith) in ground arith) in
    let full : leb (cluster_size f) (32 * j) ≡ true = ground (arith, size_same v f same) in
    let last : suc n ≡ count = omega arith in
    let next : (read_fat_ent32 c f).0 ≡ cluster_at v first count =
      next_lem v first n f same coherent ∙ ap (cluster_at v first) last in
    let stops : leb end_mark (read_fat_ent32 c f).0 ≡ true =
      (let le = chain.stops in ground arith) in
    let (value, keeps, coherent') = read_fat_ent32_lem c f coherent in
    record {
      volume = (read_fat_ent32 c f).1;
      is = step_end r node (32 * j) c buf s f on full stops;
      same = SameVolume-trans v f (read_fat_ent32 c f).1 same keeps;
      coherent = coherent';
    }
loop_lem (suc r) node first count (suc m) n zero j v buf s f chain place row loaded same coherent
      enough =
    let c : ℕ = cluster_at v first n in
    let c' : ℕ = cluster_at v first (n + 1) in
    let on : ltb c end_mark ≡ true = (let lt = chain.goes_on n (omega arith) in ground arith) in
    let full : leb (cluster_size f) (32 * j) ≡ true = ground (arith, size_same v f same) in
    let up : suc n ≡ n + 1 = omega arith in
    let next : (read_fat_ent32 c f).0 ≡ c' =
      next_lem v first n f same coherent ∙ ap (cluster_at v first) up in
    let goes : leb end_mark (read_fat_ent32 c f).0 ≡ false =
      (let lt = chain.goes_on (n + 1) (omega arith) in ground arith) in
    let (value, keeps, coherent') = read_fat_ent32_lem c f coherent in
    let g : Volume = (read_fat_ent32 c f).1 in
    let same' = SameVolume-trans v f g same keeps in
    let buf' : Bytes = read_cluster c' g buf in
    let loaded' : IsLoaded v c' buf' = λ k lt. read_cluster_lem c' k v g buf same' lt in
    let here : entry_bytes buf' 0 ≡ entry_bytes (cluster_byte v c') 0 =
      entry_loaded v c' 0 buf' loaded' (omega (arith, chain.some_sectors)) in
    let s' : DirState = dir_step node c' 0 (entry_bytes (cluster_byte v c') 0) s in
    EndsWith-rw v
      (each_cluster v node first m (n + 1 + 1) (each_entry v node c' (16 * v.spc - 1) 1 s'))
      (each_cluster v node first (suc m) (n + 1) s) (read_dir_loop r node 32 c' buf' s' g)
      (read_dir_loop (suc r) node (32 * j) c buf s f)
      (ap (each_cluster v node first m (n + 1 + 1))
        (sym (first_entry v node c' s chain.some_sectors)))
      (sym (step_next r node (32 * j) c buf s f on full goes ∙ rw (next, here) refl))
      (loop_lem r node first count m (n + 1) (16 * v.spc - 1) 1 v buf' s' g chain (omega arith)
        (omega (arith, chain.some_sectors)) loaded' same' coherent'
        (omega (arith, mul_suc m (16 * v.spc), chain.some_sectors)))

-- The state in which _read_dir32 begins.
abbrev pub start : Vfs → DirState
start w = record { dirents = []; follows = false; vfs = w }

-- What _read_dir32 gives once its loop ends.
pub record Lists (v : Volume) (w : Vfs) (to : Option (Vfs × Volume)) : Type 0 where
  pub volume : Volume
  pub is : to ≡ some (w, volume)
  pub same : SameVolume v volume

read_dir32-ends :
    (rounds node cl : ℕ) (old : Bytes) (w : Vfs) (s : DirState) (v : Volume)
    → EndsWith v s (read_dir_loop rounds node 0 cl (read_cluster cl v old) (start w) v)
    → Lists v (set_first node s) (read_dir32 rounds node cl old w v)
unfolding read_dir32
read_dir32-ends rounds node cl old w s v h = record {
  volume = h.volume;
  is = rw (read_dir32, h.is) refl;
  same = h.same;
}

-- _read_dir32 takes the entries of all the clusters of a chain in their order, changes nothing on
-- the disk, and ends within one round for each entry and one more; the chain has at least one
-- cluster and an end, clusters have sectors, and the cache is coherent.
pub read_dir32_lem :
    (rounds node first count : ℕ) (old : Bytes) (w : Vfs) (v : Volume)
    → IsChain v first count
    → 0 < count
    → IsCoherent v
    → count * (16 * v.spc) + 1 ≤ rounds
    → Lists v
        (set_first node (each_cluster v node first count 0 (start w)))
        (read_dir32 rounds node first old w v)
unfolding cluster_at for_loop
read_dir32_lem rounds node first zero old w v chain some_cluster coherent enough =
    absurd (omega arith)
read_dir32_lem rounds node first (suc m) old w v chain some_cluster coherent enough =
    read_dir32-ends rounds node first old w (each_cluster v node first (suc m) 0 (start w)) v (
      loop_lem rounds node first (suc m) m 0 (16 * v.spc) 0 v (read_cluster first v old) (start w) v
        chain (omega arith) (omega arith)
        (λ k lt. read_cluster_lem first k v v old (refl, refl, refl, refl, refl, refl, refl) lt)
        (refl, refl, refl, refl, refl, refl, refl) coherent (omega (arith, mul_suc m (16 * v.spc))))
