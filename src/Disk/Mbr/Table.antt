-- ===== src/Disk/Mbr/Table.antt =====
-- Reading a partition table gives back what was written.
use strange_os.Prelude.{
  ℕ, zero, suc, ◌+◌, ◌-◌, ◌*◌, ◌/◌, ◌%◌, ◌^◌, ◌<◌, ◌≡◌, refl, List, [], ◌∷◌, ◌++◌, arith, length,
  get_or, some, get_elem?,
}
use strange_os.Disk.Mbr.{PartEntry, MbrCache, entry_at, mbr_get_part_entry_buf, mbr_get_part_entry}

abbrev pub FitsBytes : ℕ × ℕ × ℕ → Type 0
FitsBytes (x, y, z) = (x < 256) × (y < 256) × (z < 256)

-- The fields fit their bytes.
pub record Fits (e : PartEntry) : Type 0 where
  pub attrs : e.attrs < 256
  pub chs_addr : FitsBytes e.chs_addr
  pub p_type : e.p_type < 256
  pub chs_ls_addr : FitsBytes e.chs_ls_addr
  pub lba_addr : e.lba_addr < 2 ^ 32
  pub nsects : e.nsects < 2 ^ 32

-- The four bytes of a number, low byte first.
abbrev pub bytes32 : ℕ → List ℕ → List ℕ
bytes32 w rest = w % 256 ∷ w / 2 ^ 8 % 256 ∷ w / 2 ^ 16 % 256 ∷ w / 2 ^ 24 % 256 ∷ rest

-- The 16 bytes of an entry.
abbrev pub encode : PartEntry → List ℕ → List ℕ
encode e rest =
    let (a, b, c) = e.chs_addr in
    let (x, y, z) = e.chs_ls_addr in
    e.attrs ∷ a ∷ b ∷ c ∷ e.p_type ∷ x ∷ y ∷ z ∷ bytes32 e.lba_addr (bytes32 e.nsects rest)

abbrev pub encode_all : List PartEntry → List ℕ → List ℕ
encode_all [] rest = rest
encode_all (e ∷ es) rest = encode e (encode_all es rest)

get_or-skip : (pre s : List ℕ) (i d : ℕ) → get_or (pre ++ s) (length pre + i) d ≡ get_or s i d
get_or-skip [] s i d = ground arith
get_or-skip (x ∷ pre) s i d = ground (arith, get_or-skip pre s i d)

entry_at-skip : (pre s : List ℕ) (k : ℕ) → entry_at (pre ++ s) (length pre + k) ≡ entry_at s k
unfolding entry_at
entry_at-skip pre s k = ground (
  arith,
  get_or-skip pre s k 0,
  get_or-skip pre s (k + 1) 0,
  get_or-skip pre s (k + 2) 0,
  get_or-skip pre s (k + 3) 0,
  get_or-skip pre s (k + 4) 0,
  get_or-skip pre s (k + 5) 0,
  get_or-skip pre s (k + 6) 0,
  get_or-skip pre s (k + 7) 0,
  get_or-skip pre s (k + 8) 0,
  get_or-skip pre s (k + 8 + 1) 0,
  get_or-skip pre s (k + 8 + 2) 0,
  get_or-skip pre s (k + 8 + 3) 0,
  get_or-skip pre s (k + 12) 0,
  get_or-skip pre s (k + 12 + 1) 0,
  get_or-skip pre s (k + 12 + 2) 0,
  get_or-skip pre s (k + 12 + 3) 0,
)

entry_at-encode : (e : PartEntry) (rest : List ℕ) → Fits e → entry_at (encode e rest) 0 ≡ e
unfolding entry_at
entry_at-encode e rest f = ground arith

encode-append : (e : PartEntry) (rest : List ℕ) → encode e rest ≡ encode e [] ++ rest
encode-append e rest = refl

entry_at-encode_all :
    (es : List PartEntry) (rest : List ℕ) (i : ℕ) (e : PartEntry)
    → get_elem? es i ≡ some e
    → Fits e
    → entry_at (encode_all es rest) (i * 16) ≡ e
entry_at-encode_all [] rest i e h f = cc
entry_at-encode_all (d ∷ es) rest zero e h f =
    ground (arith, entry_at-encode e (encode_all es rest) f)
entry_at-encode_all (d ∷ es) rest (suc i) e h f = ground (
  arith,
  entry_at-skip (encode d []) (encode_all es rest) (i * 16),
  entry_at-encode_all es rest i e,
)

entry_at-table :
    (boot : List ℕ) (es : List PartEntry) (rest : List ℕ) (i : ℕ) (e : PartEntry)
    → length boot ≡ 0x1be
    → get_elem? es i ≡ some e
    → Fits e
    → entry_at (boot ++ encode_all es rest) (0x1be + (i + 1 - 1) * 0x10) ≡ e
entry_at-table boot es rest i e l h f =
    ground
      (arith, entry_at-skip boot (encode_all es rest) (i * 16), entry_at-encode_all es rest i e h f)

-- An entry whose fields fit its bytes, written at its place in the table behind the 0x1be bytes of
-- the code of a boot sector (entries are numbered from 1), is read back by mbr_get_part_entry_buf,
-- and by mbr_get_part_entry, whether it reads the sector now or has it in its cache.
pub part_entry-encode :
    (boot : List ℕ) (es : List PartEntry) (rest : List ℕ) (i : ℕ) (e : PartEntry) (c : MbrCache)
    → length boot ≡ 0x1be
    → get_elem? es i ≡ some e
    → Fits e
    → c.buf ≡ boot ++ encode_all es rest
    → (mbr_get_part_entry_buf (boot ++ encode_all es rest) (i + 1) ≡ e)
      × ((mbr_get_part_entry (boot ++ encode_all es rest) c (i + 1)).0 ≡ e)
unfolding mbr_get_part_entry_buf mbr_get_part_entry
part_entry-encode boot es rest i e c l h f b =
    (entry_at-table boot es rest i e l h f, ground (arith, entry_at-table boot es rest i e l h f))
