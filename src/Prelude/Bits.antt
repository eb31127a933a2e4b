-- ===== src/Prelude/Bits.antt =====
-- `&` and `|` on numbers that fall apart at a bit: what the masks and flags of the code do.
use Prim.Native.Nat.{
  ℕ, zero, suc, ◌+◌, ◌-◌, ◌*◌, ◌/◌, ◌%◌, ◌^◌, ◌≤◌, ◌<◌, min, max, bit_and, bit_or, digits,
  bit_and-bitwise, bit_or-bitwise,
}
use mathlib.Core.Path.{◌≡◌, refl, ap}
use native.Mathlib.Nat.{pow-suc, one-le-pow}
use native.Mathlib.Omega.{arith}

-- The recursion on digits that the native operations stand for takes any fuel that is enough.
module _ (edge : ℕ → ℕ) (digit : ℕ → ℕ → ℕ) where
  digits_enough :
      (fuel fuel' x y : ℕ)
      → x ≤ fuel
      → x ≤ fuel'
      → digits edge digit fuel x y ≡ digits edge digit fuel' x y
  digits_enough zero zero x y h h' = refl
  digits_enough zero (suc fuel') zero y h h' = refl
  digits_enough zero (suc fuel') (suc x) y h h' = elim h [ ]
  digits_enough (suc fuel) zero zero y h h' = refl
  digits_enough (suc fuel) zero (suc x) y h h' = elim h' [ ]
  digits_enough (suc fuel) (suc fuel') zero y h h' = refl
  digits_enough (suc fuel) (suc fuel') (suc x) y h h' =
      rw (digits_enough fuel fuel' (suc x / 2) (y / 2) (omega arith) (omega arith))

bit_and_digit : (x y : ℕ) → bit_and x y ≡ bit_and (x / 2) (y / 2) * 2 + min (x % 2) (y % 2)
bit_and_digit zero y = simp bit_and-bitwise (omega arith)
bit_and_digit (suc x) y = simp bit_and-bitwise (
    omega (
      arith,
      digits_enough (λ _. 0) min x (suc x / 2) (suc x / 2) (y / 2) (omega arith) (omega arith),
    ))

bit_or_digit : (x y : ℕ) → bit_or x y ≡ bit_or (x / 2) (y / 2) * 2 + max (x % 2) (y % 2)
bit_or_digit zero y = simp bit_or-bitwise (omega arith)
bit_or_digit (suc x) y = simp bit_or-bitwise (
    omega (
      arith,
      digits_enough (λ d. d) max x (suc x / 2) (suc x / 2) (y / 2) (omega arith) (omega arith),
    ))

double_shift : (q k : ℕ) → q * 2 ^ suc k ≡ 2 * (q * 2 ^ k)
double_shift q k = omega (arith, ap (λ (t : ℕ). q * t) (pow-suc 2 k))

-- An operation that works digit by digit works on the parts above and below bit `k` apart.
module _ (op digit : ℕ → ℕ → ℕ)
    (by_digit : (x y : ℕ) → op x y ≡ op (x / 2) (y / 2) * 2 + digit (x % 2) (y % 2))
    (at_zero : op 0 0 ≡ 0) where
  split_at :
      (k q r m s : ℕ)
      → r < 2 ^ k
      → s < 2 ^ k
      → op (q * 2 ^ k + r) (m * 2 ^ k + s) ≡ op q m * 2 ^ k + op r s
  split_at zero q r m s hr hs = ground (arith, at_zero)
  split_at (suc k) q r m s hr hs = ground (
    arith,
    by_digit (q * 2 ^ suc k + r) (m * 2 ^ suc k + s),
    by_digit r s,
    double_shift q k,
    double_shift m k,
    double_shift (op q m) k,
    pow-suc 2 k,
    split_at k q (r / 2) m (s / 2) (omega (arith, pow-suc 2 k)) (omega (arith, pow-suc 2 k)),
  )

bit_and_split :
    (k q r m s : ℕ)
    → r < 2 ^ k
    → s < 2 ^ k
    → bit_and (q * 2 ^ k + r) (m * 2 ^ k + s) ≡ bit_and q m * 2 ^ k + bit_and r s
bit_and_split = split_at bit_and min bit_and_digit refl

bit_or_split :
    (k q r m s : ℕ)
    → r < 2 ^ k
    → s < 2 ^ k
    → bit_or (q * 2 ^ k + r) (m * 2 ^ k + s) ≡ bit_or q m * 2 ^ k + bit_or r s
bit_or_split = split_at bit_or max bit_or_digit refl

zero_below : (fuel x : ℕ) → x ≤ fuel → (bit_and x 0 ≡ 0) × (bit_or x 0 ≡ x) × (bit_or 0 x ≡ x)
zero_below fuel zero h = (refl, refl, refl)
zero_below zero (suc x) h = elim h [ ]
zero_below (suc fuel) (suc x) h = omega (
  arith,
  bit_and_digit (suc x) 0,
  bit_or_digit (suc x) 0,
  bit_or_digit 0 (suc x),
  zero_below fuel (suc x / 2) (omega arith),
)

pub bit_and-zero : (x : ℕ) → bit_and x 0 ≡ 0
bit_and-zero x = (zero_below x x (omega arith)).0

pub bit_or-zero : (x : ℕ) → bit_or x 0 ≡ x
bit_or-zero x = (zero_below x x (omega arith)).1

pub bit_or-from_zero : (x : ℕ) → bit_or 0 x ≡ x
bit_or-from_zero x = (zero_below x x (omega arith)).2

ones_above : (k r : ℕ) → r < 2 ^ k → bit_and r (2 ^ k - 1) ≡ r
ones_above zero r h =
    omega (arith, bit_and-zero r, ap (λ (t : ℕ). bit_and t 0) {x = r} {y = 0} (omega arith))
ones_above (suc k) r h = ground (
  arith,
  bit_and_digit r (2 ^ suc k - 1),
  pow-suc 2 k,
  one-le-pow k 2,
  ones_above k (r / 2) (omega (arith, pow-suc 2 k)),
)

-- A mask of the `k` low bits keeps the remainder.
pub bit_and-low : (k x : ℕ) → bit_and x (2 ^ k - 1) ≡ x % 2 ^ k
bit_and-low k x = ground (
  arith,
  one-le-pow k 2,
  ones_above k (x % 2 ^ k),
  bit_and_split k (x / 2 ^ k) (x % 2 ^ k) 0 (2 ^ k - 1),
  bit_and-zero (x / 2 ^ k),
)

-- A mask of `w` bits above bit `k` clears the `k` low bits.
pub bit_and-high :
    (k w q r : ℕ)
    → q < 2 ^ w
    → r < 2 ^ k
    → bit_and (q * 2 ^ k + r) ((2 ^ w - 1) * 2 ^ k) ≡ q * 2 ^ k
bit_and-high k w q r hq hr =
    ground
      (arith, one-le-pow k 2, bit_and_split k q r (2 ^ w - 1) 0, ones_above w q, bit_and-zero r)

-- Flags below bit `k` join a field above it by addition.
pub bit_or-low : (k q r : ℕ) → r < 2 ^ k → bit_or (q * 2 ^ k) r ≡ q * 2 ^ k + r
bit_or-low k q r h =
    ground (
      arith,
      one-le-pow k 2,
      bit_or_split k q 0 0 r,
      bit_or-zero q,
      (zero_below r r (omega arith)).2,
    )

pub bit_or-low_bits :
    (k q r s : ℕ) → r < 2 ^ k → s < 2 ^ k → bit_or (q * 2 ^ k + r) s ≡ q * 2 ^ k + bit_or r s
bit_or-low_bits k q r s hr hs = ground (arith, bit_or_split k q r 0 s hr hs, bit_or-zero q)

pub bit_and-low_bits :
    (k q r s : ℕ) → r < 2 ^ k → s < 2 ^ k → bit_and (q * 2 ^ k + r) s ≡ bit_and r s
bit_and-low_bits k q r s hr hs = ground (arith, bit_and_split k q r 0 s hr hs, bit_and-zero q)
