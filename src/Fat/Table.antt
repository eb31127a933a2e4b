-- ===== src/Fat/Table.antt =====
-- The entries of the table: what _read_fat_ent32 reads, and what it does to the cache.
use strange_os.Prelude.{
  ℕ, ◌+◌, ◌*◌, ◌/◌, ◌%◌, ◌^◌, ◌≤◌, ◌≡◌, refl, false, not, ◌||◌, ◌∙◌, ◌⊎◌, arith, ◌==◌, Bool-cases,
  inl, inr,
}
use strange_os.Fat.{Volume, fat_lba, read_cbuf, cache, read_fat_ent32}

-- What the cache holds is the sector of the first copy that it is said to hold.
abbrev pub IsCoherent : Volume → Type 0
IsCoherent f = (f.cbufn ≡ false) ⊎ (f.cbuf ≡ f.disk (fat_lba f f.cbufs))

-- An entry of the table, on the disk.
abbrev pub entry : Volume → ℕ → ℕ
entry f cl = f.disk (fat_lba f (cl / 128)) (cl % 128)

-- A volume, but for its cache.
abbrev pub SameVolume : Volume → Volume → Type 0
SameVolume f g =
    (g.addr ≡ f.addr)
    × (g.stf ≡ f.stf)
    × (g.stc ≡ f.stc)
    × (g.spf ≡ f.spf)
    × (g.spc ≡ f.spc)
    × (g.nfat ≡ f.nfat)
    × (g.disk ≡ f.disk)

-- The sector `s` of the first copy is in the cache.
abbrev pub Holds : ℕ → Volume → Type 0
Holds s f = (f.cbufs ≡ s) × (f.cbuf ≡ f.disk (fat_lba f s))

cached :
    (s : ℕ) (f : Volume) → IsCoherent f → (not (s == f.cbufs) || not f.cbufn) ≡ false → Holds s f
cached s f (inl off) e = absurd (ground arith)
cached s f (inr h) e = let at : f.cbufs ≡ s = ground arith in (at, h ∙ rw at refl)

pub cache_lem : (s : ℕ) (f : Volume) → IsCoherent f → SameVolume f (cache s f) × Holds s (cache s f)
unfolding cache read_cbuf
cache_lem s f h = elim (Bool-cases (not (s == f.cbufs) || not f.cbufn)) [
  | inl e ↦ rw e ((refl, refl, refl, refl, refl, refl, refl), (refl, refl))
  | inr e ↦ rw e ((refl, refl, refl, refl, refl, refl, refl), cached s f h e)
]

-- What is in a sector does not depend on the cache.
pub sector_same :
    (f g : Volume) (s : ℕ) → SameVolume f g → g.disk (fat_lba g s) ≡ f.disk (fat_lba f s)
sector_same f g s h = rw (h.0, h.1, h.6) refl

-- _read_fat_ent32 gives the entry that the disk holds, whatever is in a coherent cache, changes
-- nothing but the cache, and leaves it coherent.
pub read_fat_ent32_lem :
    (cl : ℕ) (f : Volume)
    → IsCoherent f
    → ((read_fat_ent32 cl f).0 ≡ entry f cl)
      × SameVolume f (read_fat_ent32 cl f).1
      × IsCoherent (read_fat_ent32 cl f).1
unfolding read_fat_ent32
read_fat_ent32_lem cl f h =
    let (same, (at, buf)) = cache_lem (cl / 128) f h in
    (
      (λ i. (buf ∙ sector_same f (cache (cl / 128) f) (cl / 128) same) i (cl % 128)),
      same,
      inr (rw at buf),
    )

-- The copies of the table lie on the disk without a wrap-around of their addresses.
abbrev pub IsTable : Volume → Type 0
IsTable f = (1 ≤ f.nfat) × (f.addr + f.stf + f.spf * f.nfat ≤ 2 ^ 32)
