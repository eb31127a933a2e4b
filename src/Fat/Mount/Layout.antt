-- ===== src/Fat/Mount/Layout.antt =====
-- What fat_check_sig makes of a disk with one FAT32 partition.
use strange_os.Prelude.{
  ℕ, zero, suc, ◌+◌, ◌-◌, ◌*◌, ◌^◌, ◌≤◌, ◌<◌, ◌≡◌, ◌≢◌, refl, ap, ◌∙◌, true, false, Option, none,
  some, List, arith, bit_or, ltb, ◌==◌, if◌then◌else◌, inl,
}
use strange_os.Prelude.Bits.{bit_or-from_zero}
use strange_os.Disk.Mbr.{PartEntry, is_fat, is_fat32, mbr_get_part_entry_buf}
use strange_os.Vfs.{Vfs, put_node, fs_alloc, fs_dir}
use strange_os.Fat.{Bytes, Volume}
use strange_os.Fat.Table.{SameVolume, IsTable}
use strange_os.Fat.Dir.{set_first, read_dir32}
use strange_os.Fat.Dir.Chain.{IsChain, each_cluster, start, read_dir32_lem}
use strange_os.Fat.Mount.{
  Vbr, vbr_of, sector_bytes, entry_size, set_layout, MountState, mount_root, check_part, then_part,
  fat_check_sig,
}

-- The table lies before the clusters, and both have addresses.
abbrev pub IsLayout : Volume → Type 0
IsLayout v = (0 < v.spc) × IsTable v × (v.addr + v.stf + v.spf * v.nfat ≤ v.stc + v.addr)

-- The addresses of a FAT32 volume do not wrap around.
pub record IsVolume (addr : ℕ) (b : Vbr) : Type 0 where
  pub some_sectors : 0 < b.spc
  pub some_table : 1 ≤ b.nfat
  pub fits : addr + (b.rbs + b.nfat * b.spf32) < 2 ^ 32

times_comm : (a b : ℕ) → a * b ≡ b * a
times_comm a b = grind arith

set_layout-IsLayout :
    (addr : ℕ) (b : Vbr) (f : Volume) → IsVolume addr b → IsLayout (set_layout 32 addr b f)
unfolding set_layout
set_layout-IsLayout addr b f h =
    let size = times_comm b.spf32 b.nfat in
    let room = h.fits in (h.some_sectors, (h.some_table, omega arith), omega arith)

-- The nodes with a root directory, below `root`, that is not read yet.
abbrev pub root_node : ℕ → ℕ → ℕ → ℕ → Vbr → Vfs → Vfs
root_node root fat dev i b v =
    let (n, w) = fs_alloc none v in
    let x =
      put_node w n
        (record (w.nodes n) { flags = fs_dir; inode = b.rc; dev = dev; part = i; fs = some fat }) in
    put_node x root (record (x.nodes root) { ptr = some n })

check_part-skip :
    (rounds root fat dev : ℕ) (boot : List ℕ) (i : ℕ) (old : Bytes) (s : MountState)
    → is_fat (mbr_get_part_entry_buf boot i).p_type ≡ false
    → check_part rounds root fat dev boot i old s ≡ some s
unfolding check_part
check_part-skip rounds root fat dev boot i old s h = rw h refl

mount_root-first :
    (rounds root fat dev i : ℕ) (b : Vbr) (old : Bytes) (s : MountState) (r : Vfs × Volume)
    → (s.vfs.nodes root).ptr ≡ none
    → s.fsz ≡ 32
    → read_dir32 rounds (fs_alloc none s.vfs).0 b.rc old (root_node root fat dev i b s.vfs) s.volume
      ≡ some r
    → mount_root rounds root fat dev i b old s ≡ some (record s { vfs = r.0; volume = r.1 })
unfolding mount_root
mount_root-first rounds root fat dev i b old s r e e' e'' =
    let large : ltb s.fsz 32 ≡ false = ground arith in rw (mount_root, e, large, e'') refl

-- The volume and its root directory, of partition `pe`.
abbrev pub record_of : PartEntry → Volume → Vbr
record_of pe f = vbr_of (sector_bytes (f.disk pe.lba_addr))

check_part-hit :
    (rounds root fat dev : ℕ) (boot : List ℕ) (i : ℕ) (old : Bytes) (s : MountState)
    → is_fat (mbr_get_part_entry_buf boot i).p_type ≡ true
    → entry_size (mbr_get_part_entry_buf boot i).p_type ≡ 32
    → check_part rounds root fat dev boot i old s ≡ (
        let b = vbr_of (sector_bytes (s.volume.disk (mbr_get_part_entry_buf boot i).lba_addr)) in
        mount_root rounds root fat dev i b old (record s {
          fatfs = bit_or s.fatfs (2 ^ (i - 1));
          fsz = 32;
          volume = set_layout 32 (mbr_get_part_entry_buf boot i).lba_addr b s.volume;
        }))
unfolding check_part
check_part-hit rounds root fat dev boot i old s h size =
    let pe : PartEntry = mbr_get_part_entry_buf boot i in
    let b : Vbr = record_of pe s.volume in
    let mount : ℕ → Option MountState = λ z. mount_root rounds root fat dev i b old (record s {
      fatfs = bit_or s.fatfs (2 ^ (i - 1));
      fsz = z;
      volume = set_layout z pe.lba_addr b s.volume;
    }) in
    ap (λ t. if t then mount (entry_size pe.p_type) else some s) h ∙ ap mount size

entry_size-fat32 : (t : ℕ) → is_fat32 t ≡ true → (entry_size t ≡ 32) × (is_fat t ≡ true)
entry_size-fat32 t h = ground arith

-- What fat_check_sig comes to: the bit of partition `i`, the nodes and the volume.
pub record Mounts (i : ℕ) (w : Vfs) (v : Volume) (to : Option MountState) : Type 0 where
  pub state : MountState
  pub is : to ≡ some state
  pub fatfs : state.fatfs ≡ 2 ^ (i - 1)
  pub fsz : state.fsz ≡ 32
  pub vfs : state.vfs ≡ w
  pub same : SameVolume v state.volume
  pub layout : IsLayout state.volume

IsLayout-SameVolume : (v f : Volume) → SameVolume v f → IsLayout v → IsLayout f
IsLayout-SameVolume v f s h = rw (s.0, s.1, s.2, s.3, s.4, s.5) h

abbrev pub volume_of : PartEntry → Volume → Volume
volume_of pe f = set_layout 32 pe.lba_addr (record_of pe f) f

abbrev pub mounted : ℕ → ℕ → ℕ → ℕ → ℕ → PartEntry → Vfs → Volume → Vfs
mounted root fat dev i count pe v f =
    let n = (fs_alloc none v).0 in
    set_first n (
      each_cluster (volume_of pe f) n (record_of pe f).rc count 0
        (start (root_node root fat dev i (record_of pe f) v)))

set_layout-cbufn : (addr : ℕ) (b : Vbr) (f : Volume) → (set_layout 32 addr b f).cbufn ≡ f.cbufn
unfolding set_layout
set_layout-cbufn addr b f = refl

check_part-Mounts :
    (rounds root fat dev : ℕ) (boot : List ℕ) (i count : ℕ) (old : Bytes) (s : MountState)
    → is_fat32 (mbr_get_part_entry_buf boot i).p_type ≡ true
    → IsVolume
        (mbr_get_part_entry_buf boot i).lba_addr
        (record_of (mbr_get_part_entry_buf boot i) s.volume)
    → (s.vfs.nodes root).ptr ≡ none
    → s.fatfs ≡ 0
    → s.volume.cbufn ≡ false
    → IsChain
        (volume_of (mbr_get_part_entry_buf boot i) s.volume)
        (record_of (mbr_get_part_entry_buf boot i) s.volume).rc
        count
    → 0 < count
    → count * (16 * (volume_of (mbr_get_part_entry_buf boot i) s.volume).spc) + 1 ≤ rounds
    → Mounts i
        (mounted root fat dev i count (mbr_get_part_entry_buf boot i) s.vfs s.volume)
        (volume_of (mbr_get_part_entry_buf boot i) s.volume)
        (check_part rounds root fat dev boot i old s)
check_part-Mounts rounds root fat dev boot i count old s type good free zero_bits empty chain pos
      enough =
    let (size, any) = entry_size-fat32 (mbr_get_part_entry_buf boot i).p_type type in
    let b : Vbr = record_of (mbr_get_part_entry_buf boot i) s.volume in
    let v : Volume = volume_of (mbr_get_part_entry_buf boot i) s.volume in
    let s' : MountState = record s { fatfs = bit_or s.fatfs (2 ^ (i - 1)); fsz = 32; volume = v } in
    let r =
      read_dir32_lem rounds (fs_alloc none s.vfs).0 b.rc count old
        (root_node root fat dev i b s.vfs) v chain pos
        (inl (set_layout-cbufn (mbr_get_part_entry_buf boot i).lba_addr b s.volume ∙ empty))
        enough in
    record {
      state = record s' {
        vfs = mounted root fat dev i count (mbr_get_part_entry_buf boot i) s.vfs s.volume;
        volume = r.volume;
      };
      is =
          check_part-hit rounds root fat dev boot i old s any size
          ∙ mount_root-first rounds root fat dev i b old s'
              (
                mounted root fat dev i count (mbr_get_part_entry_buf boot i) s.vfs s.volume,
                r.volume,
              )
              free refl r.is;
      fatfs = rw zero_bits (bit_or-from_zero (2 ^ (i - 1)));
      fsz = refl;
      vfs = refl;
      same = r.same;
      layout =
          IsLayout-SameVolume v r.volume r.same
            (set_layout-IsLayout (mbr_get_part_entry_buf boot i).lba_addr b s.volume good);
    }

Mounts-of :
    (i : ℕ) (w : Vfs) (v : Volume) (to to' : Option MountState)
    → to ≡ to'
    → Mounts i w v to'
    → Mounts i w v to
Mounts-of i w v to to' e h = rw e h

-- Only partition `i` of the table is a FAT partition.
abbrev pub IsOnly : List ℕ → ℕ → Type 0
IsOnly boot i =
    (1 ≤ i)
    × (i ≤ 4)
    × ((j : ℕ) → 1 ≤ j → j ≤ 4 → is_fat (mbr_get_part_entry_buf boot j).p_type ≡ (j == i))

-- The four parts of the loop, one after the other.
abbrev four : (ℕ → MountState → Option MountState) → MountState → Option MountState
four p s = then_part (then_part (then_part (p 1 s) (p 2)) (p 3)) (p 4)

skip_part :
    (p : MountState → Option MountState) (o : Option MountState)
    → ((t : MountState) → p t ≡ some t)
    → then_part o p ≡ o
skip_part p none h = refl
skip_part p (some t) h = h t

-- If all parts but `i` change nothing, the loop is part `i`.
four_only :
    (p : ℕ → MountState → Option MountState) (s : MountState) (i : ℕ)
    → 1 ≤ i
    → i ≤ 4
    → ((j : ℕ) → 1 ≤ j → j ≤ 4 → j ≢ i → (t : MountState) → p j t ≡ some t)
    → four p s ≡ p i s
four_only p s zero lo hi skip = absurd (omega arith)
four_only p s (suc zero) lo hi skip =
    skip_part (p 4) (then_part (then_part (p 1 s) (p 2)) (p 3))
      (other 4 (omega arith) (omega arith))
    ∙ skip_part (p 3) (then_part (p 1 s) (p 2)) (other 3 (omega arith) (omega arith))
    ∙ skip_part (p 2) (p 1 s) (other 2 (omega arith) (omega arith))
  where
    other : (j : ℕ) → 1 < j → j ≤ 4 → (t : MountState) → p j t ≡ some t
    other j lo' hi' = skip j (omega arith) hi' (λ e. absurd (omega arith))
four_only p s (suc (suc zero)) lo hi skip =
    skip_part (p 4) (then_part (then_part (p 1 s) (p 2)) (p 3))
      (skip 4 (omega arith) (omega arith) (λ e. absurd (omega arith)))
    ∙ skip_part (p 3) (then_part (p 1 s) (p 2))
        (skip 3 (omega arith) (omega arith) (λ e. absurd (omega arith)))
    ∙ ap (λ o. then_part o (p 2)) (skip 1 (omega arith) (omega arith) (λ e. absurd (omega arith)) s)
four_only p s (suc (suc (suc zero))) lo hi skip =
    skip_part (p 4) (then_part (then_part (p 1 s) (p 2)) (p 3))
      (skip 4 (omega arith) (omega arith) (λ e. absurd (omega arith)))
    ∙ ap (λ o. then_part (then_part o (p 2)) (p 3))
        (skip 1 (omega arith) (omega arith) (λ e. absurd (omega arith)) s)
    ∙ ap (λ o. then_part o (p 3)) (skip 2 (omega arith) (omega arith) (λ e. absurd (omega arith)) s)
four_only p s (suc (suc (suc (suc zero)))) lo hi skip =
    ap (λ o. then_part (then_part (then_part o (p 2)) (p 3)) (p 4))
      (skip 1 (omega arith) (omega arith) (λ e. absurd (omega arith)) s)
    ∙ ap (λ o. then_part (then_part o (p 3)) (p 4))
        (skip 2 (omega arith) (omega arith) (λ e. absurd (omega arith)) s)
    ∙ ap (λ o. then_part o (p 4)) (skip 3 (omega arith) (omega arith) (λ e. absurd (omega arith)) s)
four_only p s (suc (suc (suc (suc (suc k))))) lo hi skip = absurd (omega arith)

fat_check_sig-four :
    (rounds root fat dev : ℕ) (old : Bytes) (s : MountState)
    → fat_check_sig rounds root fat dev old s
      ≡ four
          (λ i. check_part rounds root fat dev (sector_bytes (s.volume.disk 0)) i old)
          (record s { fatfs = 0 })
unfolding fat_check_sig
fat_check_sig-four rounds root fat dev old s = refl

-- On a disk whose partition i alone is a FAT partition, of type FAT32, fat_check_sig with no root
-- directory and an empty cache sets bit i - 1 only, takes the layout of the volume from its boot
-- record, with the table before the clusters, and hangs a node with the dirents of the root
-- directory below the root; where the addresses of the volume do not wrap around and the chain of
-- the root directory ends.
pub fat_check_sig_lem :
    (rounds root fat dev i count : ℕ) (old : Bytes) (s : MountState)
    → IsOnly (sector_bytes (s.volume.disk 0)) i
    → is_fat32 (mbr_get_part_entry_buf (sector_bytes (s.volume.disk 0)) i).p_type ≡ true
    → (let pe = mbr_get_part_entry_buf (sector_bytes (s.volume.disk 0)) i in
        IsVolume pe.lba_addr (record_of pe s.volume)
        × IsChain (volume_of pe s.volume) (record_of pe s.volume).rc count
        × (count * (16 * (volume_of pe s.volume).spc) + 1 ≤ rounds))
    → 0 < count
    → (s.vfs.nodes root).ptr ≡ none
    → s.volume.cbufn ≡ false
    → (let pe = mbr_get_part_entry_buf (sector_bytes (s.volume.disk 0)) i in
        Mounts i
          (mounted root fat dev i count pe s.vfs s.volume)
          (volume_of pe s.volume)
          (fat_check_sig rounds root fat dev old s))
fat_check_sig_lem rounds root fat dev i count old s (lo, hi, only) type (good, chain, enough) pos
      free empty =
    let boot : List ℕ = sector_bytes (s.volume.disk 0) in
    let pe : PartEntry = mbr_get_part_entry_buf boot i in
    Mounts-of i (mounted root fat dev i count pe s.vfs s.volume) (volume_of pe s.volume)
      (fat_check_sig rounds root fat dev old s)
      (check_part rounds root fat dev boot i old (record s { fatfs = 0 }))
      (fat_check_sig-four rounds root fat dev old s
        ∙ four_only (λ j. check_part rounds root fat dev boot j old) (record s { fatfs = 0 }) i lo
            hi
            (λ j lo' hi' ne t.
              check_part-skip rounds root fat dev boot j old t (only j lo' hi' ∙ ground arith)))
      (check_part-Mounts rounds root fat dev boot i count old (record s { fatfs = 0 }) type good
        free refl empty chain pos enough)
