-- ===== src/Vga/Registers.antt =====
-- What vga_init sends to the display's registers.
use strange_os.Prelude.{
  ℕ, zero, suc, ◌+◌, ◌*◌, ◌<◌, ◌≡◌, refl, Bool, true, ◌&&◌, List, [], ◌∷◌, arith, ltb, get_or,
  length,
}
use strange_os.Prelude.Bits.{bit_and-low}
use strange_os.Vga.{Outs, palette_outs}
use strange_os.Vga.Palette.{vga_palette}
use strange_os.Vga.Font.{vga_font}

all_below : ℕ → List ℕ → Bool
all_below n [] = true
all_below n (x ∷ xs) = ltb x n && all_below n xs

all_below_lem : (n : ℕ) (xs : List ℕ) (i : ℕ) → all_below n xs ≡ true → 0 < n → get_or xs i 0 < n
unfolding all_below
all_below_lem n [] i h p = p
all_below_lem n (x ∷ xs) zero h p = ground arith
all_below_lem n (x ∷ xs) (suc i) h p = all_below_lem n xs i (ground arith) p

-- The colours as they stand in the table.
abbrev pub plain_outs : ℕ → ℕ → List ℕ → Outs
plain_outs zero i pal = []
plain_outs (suc k) i pal =
    (0x3c8, i)
    ∷ (0x3c9, get_or pal (i * 3) 0)
    ∷ (0x3c9, get_or pal (i * 3 + 1) 0)
    ∷ (0x3c9, get_or pal (i * 3 + 2) 0)
    ∷ plain_outs k (i + 1) pal

palette_outs_lem :
    (k i : ℕ) (pal : List ℕ) → all_below 64 pal ≡ true → palette_outs k i pal ≡ plain_outs k i pal
unfolding palette_outs
palette_outs_lem zero i pal h = refl
palette_outs_lem (suc k) i pal h = ground (
  arith,
  palette_outs_lem k (i + 1) pal h,
  bit_and-low 6 (get_or pal (i * 3) 0),
  bit_and-low 6 (get_or pal (i * 3 + 1) 0),
  bit_and-low 6 (get_or pal (i * 3 + 2) 0),
  all_below_lem 64 pal (i * 3) h,
  all_below_lem 64 pal (i * 3 + 1) h,
  all_below_lem 64 pal (i * 3 + 2) h,
)

palette_is_six_bit : all_below 64 vga_palette ≡ true
unfolding all_below vga_palette
palette_is_six_bit = refl

-- The colours of the table all fit the six bits that the display takes, so that the mask of
-- vga_init sends every one of them unchanged.
pub palette_outs-plain : (k i : ℕ) → palette_outs k i vga_palette ≡ plain_outs k i vga_palette
palette_outs-plain k i = palette_outs_lem k i vga_palette palette_is_six_bit

-- The tables have a row of eight for each of 256 characters, and a colour of three for each of 256.
table_sizes : (length vga_font ≡ 256 * 8) × (length vga_palette ≡ 256 * 3)
unfolding vga_font vga_palette
table_sizes = (refl, refl)
