-- ===== src/Console/Hex.antt =====
-- The numbers that kprinthex prints.
use strange_os.Prelude.{
  ℕ, ◌+◌, ◌-◌, ◌*◌, ◌/◌, ◌%◌, ◌^◌, ◌<◌, ◌≡◌, refl, true, List, [], ◌∷◌, arith, ltb, ◌==◌, ==_iff,
  if◌then◌else◌, bit_and, get_or, every_below, every_below_lem,
}
use strange_os.Prelude.Bits.{bit_and-low}
use strange_os.Console.{Console, hex_chars, kprint, kprinthex}

-- The value of a digit, and of a text of digits behind the value `acc`.
abbrev pub digit_value : ℕ → ℕ
digit_value c = if ltb c 58 then c - b'0' else c - (b'A' - 10)

abbrev pub read_hex : ℕ → List ℕ → ℕ
read_hex acc [] = acc
read_hex acc (c ∷ s) = read_hex (acc * 16 + digit_value c) s

digit_table : every_below 16 (λ d. digit_value (get_or hex_chars d 0) == d) ≡ true
unfolding every_below
digit_table = refl

digit_lem : (x : ℕ) → digit_value (get_or hex_chars (bit_and x 0xf) 0) ≡ x % 16
digit_lem x =
    let low : bit_and x 0xf ≡ x % 16 = bit_and-low 4 x in
    rw low (
      (==_iff (digit_value (get_or hex_chars (x % 16) 0)) (x % 16)).0 (
        every_below_lem 16 (λ d. digit_value (get_or hex_chars d 0) == d) (x % 16) digit_table
          (omega arith)))

-- The digit with `i` digits behind it.
abbrev pub hex_digit : ℕ → ℕ → ℕ
hex_digit h i = get_or hex_chars (bit_and (h / 2 ^ (i * 4)) 0xf) 0

abbrev pub hex_text : ℕ → List ℕ
hex_text h =
    hex_digit h 7
    ∷ hex_digit h 6
    ∷ hex_digit h 5
    ∷ hex_digit h 4
    ∷ hex_digit h 3
    ∷ hex_digit h 2
    ∷ hex_digit h 1
    ∷ hex_digit h 0
    ∷ []

-- kprinthex prints the eight hexadecimal digits of a u32, and they read as the number.
pub kprinthex_lem :
    (h : ℕ) (c : Console)
    → h < 2 ^ 32
    → (kprinthex h c ≡ kprint (hex_text h) c) × (read_hex 0 (hex_text h) ≡ h)
unfolding kprinthex kprint
kprinthex_lem h c small = (
  refl,
  omega (
    arith,
    digit_lem (h / 2 ^ 28),
    digit_lem (h / 2 ^ 24),
    digit_lem (h / 2 ^ 20),
    digit_lem (h / 2 ^ 16),
    digit_lem (h / 2 ^ 12),
    digit_lem (h / 2 ^ 8),
    digit_lem (h / 2 ^ 4),
    digit_lem (h / 2 ^ 0),
  ),
)
