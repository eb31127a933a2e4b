-- ===== src/Disk/Mbr/Chs.antt =====
-- The conversions l2chs and chs2l of mbr.h.
use strange_os.Prelude.{ℕ, ◌+◌, ◌*◌, ◌/◌, ◌%◌, ◌^◌, ◌<◌, ◌≡◌, ◌↔◌, arith}
use strange_os.Prelude.Bits.{bit_or-low}
use strange_os.Disk.Mbr.{l2chs, chs2l}

-- The three fields of what l2chs returns.
abbrev pub cylinder : ℕ → ℕ
cylinder w = w / 2 ^ 24

abbrev pub head_of : ℕ → ℕ
head_of w = w / 2 ^ 8 % 2 ^ 8

abbrev pub sector : ℕ → ℕ
sector w = w % 2 ^ 8

l2chs-sum : (l : ℕ) → l < 256 * 1008 → l2chs l ≡ (l / 1008 * 2 ^ 16 + l % 16) * 2 ^ 8 + l % 63
unfolding l2chs
l2chs-sum l h = ground (
  arith,
  bit_or-low 16 (l / 1008 % 2 ^ 16) (l % 16),
  bit_or-low 8 (l / 1008 * 2 ^ 16 + l % 16) (l % 63),
)

-- chs2l undoes the addressing of a disk with 16 heads and 63 sectors to a track: from the fields
-- of sector `l`, computed with the head `l / 63 % 16`, it gives `l`.
pub chs2l_lem : (l : ℕ) → chs2l (l / (63 * 16)) (l / 63 % 16) (l % 63) ≡ l
unfolding chs2l
chs2l_lem l = omega arith

-- For a sector number l below 256 * 1008, chs2l of the fields of l2chs gives l exactly where the
-- head that l2chs computes, l % 16, is the number l / 63 % 16 of the track in its cylinder.
pub chs2l-l2chs :
    (l : ℕ)
    → l < 256 * 1008
    → (chs2l (cylinder (l2chs l)) (head_of (l2chs l)) (sector (l2chs l)) ≡ l)
      ↔ (l % 16 ≡ l / 63 % 16)
unfolding chs2l
chs2l-l2chs l h = (λ e. omega (arith, l2chs-sum l h), λ e. omega (arith, l2chs-sum l h))
