-- ===== src/Fat/Write.antt =====
-- Writing a file: fat_write and fat_close.
-- What the code gets from _find_unused_cluster when no entry is free is undefined: `none`.
use strange_os.Prelude.{
  ℕ, zero, suc, ◌+◌, ◌-◌, ◌*◌, ◌/◌, ◌%◌, ◌^◌, ◌&&◌, true, false, Option, none, some, List, [], ◌∷◌,
  ltb, leb, ◌==◌, if◌then◌else◌,
}
use strange_os.Fat.{
  Bytes, Volume, FileInfo, cluster_size, end_mark, read_fat_ent32, write_fat_ent32,
  find_unused_cluster, read_cluster, write_cluster, mode_w,
}

abbrev pub put_byte : Bytes → ℕ → ℕ → Bytes
put_byte b i v k = if k == i then v else b k

-- The next cluster of the chain, a new one if the chain ends.
pub grow_chain : ℕ → Volume → Option (ℕ × Volume)
grow_chain cl f =
    let (next, g) = read_fat_ent32 cl f in
    if leb end_mark next
    then (elim (find_unused_cluster g).0 [
      | none ↦ none
      | some new ↦
          some
            (new, write_fat_ent32 new end_mark (write_fat_ent32 cl new (find_unused_cluster g).1))
    ])
    else some (next, g)

-- `if (inf->idx >= clsz) { ... }`
pub make_room : FileInfo → Volume → Option (FileInfo × Volume)
unfolding grow_chain
make_room inf f = elim (leb (cluster_size f) inf.idx) [
  | false ↦ some (inf, f)
  | true ↦ elim (grow_chain inf.cl f) [
    | none ↦ none
    | some r ↦ some (record { cl = r.0; idx = 0; buf = inf.buf }, write_cluster inf.cl inf.buf r.1)
  ]
]

-- `((u8 *)inf->buf)[inf->idx++] = b`
abbrev pub add_byte : ℕ → FileInfo → FileInfo
add_byte b inf = record inf { idx = inf.idx + 1; buf = put_byte inf.buf inf.idx b }

-- The loop of fat_write, over the bytes that are left.
pub write_loop : List ℕ → FileInfo → Volume → Option (FileInfo × Volume)
unfolding make_room
write_loop [] inf f = some (inf, f)
write_loop (b ∷ bytes) inf f = elim (make_room inf f) [
  | none ↦ none
  | some r ↦ write_loop bytes (add_byte b r.0) r.1
]

-- `fat_write`. It returns its outer `t`, which nothing sets: `t` is what lies there.
pub fat_write : ℕ → ℕ → List ℕ → FileInfo → Volume → Option (ℕ × FileInfo × Volume)
unfolding write_loop
fat_write m t bytes inf f =
    if m == mode_w
    then (elim (write_loop bytes inf f) [ none ↦ none | some r ↦ some (t, r.0, r.1) ])
    else some (0, inf, f)

-- The loop that resets the chain, with the rounds left; `none` is more of them.
pub close_chain : ℕ → ℕ → ℕ → Volume → Option Volume
close_chain zero i cl f = if ltb cl end_mark then some f else none
close_chain (suc rounds) i cl f =
    let (next, g) = read_fat_ent32 cl f in
    let rest =
      close_chain rounds (i + 1) next (write_fat_ent32 cl (if i == 0 then end_mark else 0) g) in
    if ltb cl end_mark then some f else rest

-- The offset of `sz` in `struct fat32_dirent`, and the entry at `at` with `sz` set.
abbrev pub sz_offset : ℕ
sz_offset = 28

abbrev pub put_sz : ℕ → ℕ → Bytes → Bytes
put_sz at v b k =
    if leb (at + sz_offset) k && ltb k (at + sz_offset + 4)
    then v / 2 ^ (8 * (k - (at + sz_offset))) % 256
    else b k

-- `n->impl2`, the place of a file's entry in its directory: a cluster and an offset.
pub record Place : Type 0 where
  pub cluster : ℕ
  pub offset : ℕ

-- The length that fat_close writes to a file's entry, with what lies in the new buffer.
pub write_len : Place → ℕ → Bytes → Volume → Volume
write_len p len old f =
    write_cluster p.cluster (put_sz p.offset len (read_cluster p.cluster f old)) f

-- `fat_close` of a file that stands at `pos` and whose length is `len`: its new length, and the
-- volume.
pub fat_close : ℕ → ℕ → ℕ → ℕ → Place → Bytes → FileInfo → Volume → Option (ℕ × Volume)
unfolding close_chain write_len
fat_close m rounds pos len p old inf f =
    if m == mode_w
    then (let g = if ltb 0 inf.idx then write_cluster inf.cl inf.buf f else f in
        elim (close_chain rounds 0 inf.cl g) [
          | none ↦ none
          | some h ↦ some (pos, write_len p pos old h)
        ])
    else some (len, f)
