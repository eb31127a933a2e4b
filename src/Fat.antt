-- ===== src/Fat.antt =====
-- src/kernel/fs/fat.c: the file allocation table of a FAT32 volume and its one-sector cache, and the
-- reading and writing of files through the chains of clusters.
-- The disk is an array of sectors of 128 words; a byte of it is read from its word, and an address
-- of a sector is a u32. The device is the one that `fat_info.dev` names.
pub mod Table
pub mod Unused
pub mod File
pub mod Dir
pub mod Mount
pub mod Write
mod Examples
use strange_os.Prelude.{
  ℕ, zero, suc, ◌+◌, ◌-◌, ◌*◌, ◌/◌, ◌%◌, ◌^◌, Bool, true, false, not, ◌&&◌, ◌||◌, Option, none,
  some, List, [], ◌∷◌, ltb, leb, ◌==◌, if◌then◌else◌,
}
use strange_os.Prelude.Loops.{for_loop}

abbrev pub Sector : Type 0
Sector = ℕ → ℕ

-- An array of bytes.
abbrev pub Bytes : Type 0
Bytes = ℕ → ℕ

-- `fat_info` (and the fields of its vbr that are used), `cbufs`, `cbufn`, `cbuf`, and the disk.
pub record Volume : Type 0 where
  pub addr : ℕ
  pub stf : ℕ
  pub stc : ℕ
  pub spf : ℕ
  pub spc : ℕ
  pub nfat : ℕ
  pub cbufs : ℕ
  pub cbufn : Bool
  pub cbuf : Sector
  pub disk : ℕ → Sector

-- The marks of the end of a chain begin here.
abbrev pub end_mark : ℕ
end_mark = 0x0fff_fff8

abbrev pub put_sector : (ℕ → Sector) → ℕ → Sector → ℕ → Sector
put_sector d a s x = if x == a then s else d x

abbrev pub put_word : Sector → ℕ → ℕ → Sector
put_word s j v x = if x == j then v else s x

-- `fat_info.addr + fat_info.stf + s`
abbrev pub fat_lba : Volume → ℕ → ℕ
fat_lba f s = (f.addr + f.stf + s) % 2 ^ 32

-- `cbufs = s; cbufn = 1; dev_read_lba(..., cbuf)`
pub read_cbuf : ℕ → Volume → Volume
read_cbuf s f = record f { cbufs = s; cbufn = true; cbuf = f.disk (fat_lba f s) }

-- The same, if the sector is not in the cache.
pub cache : ℕ → Volume → Volume
unfolding read_cbuf
cache s f = if not (s == f.cbufs) || not f.cbufn then read_cbuf s f else f

-- `_read_fat_ent32`
pub read_fat_ent32 : ℕ → Volume → ℕ × Volume
read_fat_ent32 cl f = ((cache (cl / 128) f).cbuf (cl % 128), cache (cl / 128) f)

-- The loop over the copies of the table, which writes the cache to each.
pub write_copies : ℕ → Volume → (ℕ → Sector) → (ℕ → Sector)
write_copies s f d =
    for_loop f.nfat 0 (λ i d'. put_sector d' ((f.addr + f.stf + f.spf * i + s) % 2 ^ 32) f.cbuf) d

-- `_write_fat_ent32`
pub write_fat_ent32 : ℕ → ℕ → Volume → Volume
write_fat_ent32 e cl f =
    let g = cache (e / 128) f in
    let h = record g { cbuf = put_word g.cbuf (e % 128) cl } in
    record h { disk = write_copies (e / 128) h h.disk }

-- The inner loop of `_find_unused_cluster`, with the rounds left: the position of the first free
-- entry in the cache.
pub scan : ℕ → ℕ → ℕ → Sector → Option ℕ
scan zero i j buf = none
scan (suc rounds) i j buf =
    let rest = scan rounds i (j + 1) buf in
    let p = (i * 128 + j) % 2 ^ 32 in
    if ltb p 2 then rest else (if buf j == 0 then some p else rest)

-- The outer loop; it runs off the end of the function if nothing is free (`none`).
pub find_loop : ℕ → ℕ → Volume → Option ℕ × Volume
find_loop zero i f = (none, f)
find_loop (suc rounds) i f =
    let rest = find_loop rounds (i + 1) (record f { cbufs = i; cbuf = f.disk (fat_lba f i) }) in
    elim (scan 128 i 0 f.cbuf) [ some p ↦ (some p, f) | none ↦ rest ]

-- `_find_unused_cluster`
pub find_unused_cluster : Volume → Option ℕ × Volume
find_unused_cluster f = find_loop f.spf 0 (cache 0 f)

abbrev pub cluster_size : Volume → ℕ
cluster_size f = f.spc * 512

-- `((cn - 2) * fat_info.vbr->spc) + fat_info.stc + fat_info.addr`
abbrev pub cluster_lba : Volume → ℕ → ℕ
cluster_lba f cn = ((cn + (2 ^ 32 - 2)) * f.spc + f.stc + f.addr) % 2 ^ 32

abbrev pub disk_byte : Sector → ℕ → ℕ
disk_byte s k = s (k / 4) / 2 ^ (8 * (k % 4)) % 256

abbrev pub word_of : Bytes → ℕ → ℕ
word_of b k = b k + 2 ^ 8 * b (k + 1) + 2 ^ 16 * b (k + 2) + 2 ^ 24 * b (k + 3)

-- `_read_cluster`: the buffer after it.
pub read_cluster : ℕ → Volume → Bytes → Bytes
read_cluster cn f buf k =
    if ltb k (cluster_size f)
    then disk_byte (f.disk (cluster_lba f cn + k / 512)) (k % 512)
    else buf k

-- `_write_cluster`
pub write_cluster : ℕ → Bytes → Volume → Volume
write_cluster cn buf f = record f {
  disk = λ a w.
      if leb (cluster_lba f cn) a && ltb a (cluster_lba f cn + f.spc)
      then word_of buf ((a - cluster_lba f cn) * 512 + w * 4)
      else f.disk a w;
}

-- `struct file_info`
pub record FileInfo : Type 0 where
  pub cl : ℕ
  pub idx : ℕ
  pub buf : Bytes

-- The loop of fat_read, with the rounds left, from byte `t` of the buffer: the bytes that are set,
-- the new file info and the new volume. `pos` is `fp->idx`, `len` is `fp->n->len`.
pub read_loop : ℕ → ℕ → ℕ → ℕ → FileInfo → Volume → List ℕ × FileInfo × Volume
read_loop zero t pos len inf f = ([], inf, f)
read_loop (suc rounds) t pos len inf f =
    if leb len (pos + t) then ([], inf, f) else elim (leb (cluster_size f) inf.idx) [
      | false ↦
          (let rest = read_loop rounds (t + 1) pos len (record inf { idx = inf.idx + 1 }) f in
            (inf.buf inf.idx ∷ rest.0, rest.1, rest.2))
      | true ↦
          (let (cl, g) = read_fat_ent32 inf.cl f in
            let buf = read_cluster cl g inf.buf in
            let rest =
              read_loop rounds (t + 1) pos len (record { cl = cl; idx = 1; buf = buf }) g in
            if leb end_mark cl then ([], inf, g) else (buf 0 ∷ rest.0, rest.1, rest.2))
    ]

-- `FS_MODE_R` and `FS_MODE_W`
abbrev pub mode_r : ℕ
mode_r = 0x01

abbrev pub mode_w : ℕ
mode_w = 0x02

-- `fat_read`: the bytes read, whose number it returns.
pub fat_read : ℕ → ℕ → ℕ → ℕ → FileInfo → Volume → List ℕ × FileInfo × Volume
unfolding read_loop
fat_read m pos len c inf f = if m == mode_r then read_loop c 0 pos len inf f else ([], inf, f)

-- `fat_open`, with what lies in the new buffer.
pub fat_open : ℕ → ℕ → Bytes → Volume → FileInfo
fat_open m inode old f = record {
  cl = inode;
  idx = 0;
  buf = if m == mode_r then read_cluster inode f old else old;
}
