-- ===== src/Stdlib/Numbers.antt =====
-- The numbers that _print_int and _print_hex print.
use mathlib.Core.List.{append_assoc, append-nil}
use strange_os.Prelude.{
  Bool, ℕ, zero, suc, ◌+◌, ◌-◌, ◌*◌, ◌/◌, ◌%◌, ◌^◌, ◌≤◌, ◌<◌, ◌≡◌, refl, sym, ap, ◌∙◌, true, false,
  Option, some, List, [], ◌∷◌, ◌++◌, arith, length, length-append, ltb, ◌==◌, ==_iff, if◌then◌else◌,
  bit_and, get_or, every_below, every_below_lem, Bool-cases, inl, inr,
}
use strange_os.Prelude.Bits.{bit_and-low}
use strange_os.Prelude.Int.{ℤ, pos, negsuc}
use native.Mathlib.Nat.{pow-suc}
use native.Mathlib.Numerals.{unary_clauses}
use strange_os.Stdlib.{
  write, neg_int, above_zero, digit_loop, print_buf, dec_digit, print_signed, print_int,
  std_hex_digit, hex, print_hex,
}

-- The number that a text of digits stands for, behind the number `acc`.
unfoldable pub read_digits : (ℕ → ℕ) → ℕ → ℕ → List ℕ → ℕ
read_digits value base acc [] = acc
read_digits value base acc (c ∷ s) = read_digits value base (acc * base + value c) s

read_digits-append :
    (value : ℕ → ℕ) (base acc : ℕ) (s t : List ℕ)
    → read_digits value base acc (s ++ t) ≡ read_digits value base (read_digits value base acc s) t
unfolding read_digits
read_digits-append value base acc [] t = refl
read_digits-append value base acc (c ∷ s) t =
    read_digits-append value base (acc * base + value c) s t

-- What a loop of digits leaves on top of `buf`: the digits of `i`, at most `k` of them.
pub record Digits (value : ℕ → ℕ) (base i k : ℕ) (buf : List ℕ) (out : Option (List ℕ))
    : Type 0 where
  pub text : List ℕ
  pub is : out ≡ some (text ++ buf)
  pub reads : read_digits value base 0 text ≡ i
  pub short : length text ≤ k

module _ (digit value : ℕ → ℕ) (base : ℕ) (step : (i : ℕ) → i / base * base + value (digit i) ≡ i)
    (smaller : (i k : ℕ) → i < base ^ suc k → i / base < base ^ k) where
  digit_loop_more :
      (i k : ℕ) (buf : List ℕ) (out : Option (List ℕ))
      → Digits value base (i / base) k (digit i ∷ buf) out
      → Digits value base i (suc k) buf out
  unfolding read_digits
  digit_loop_more i k buf out h = record {
    text = h.text ++ (digit i ∷ []);
    is = h.is ∙ ap some (sym (append_assoc h.text (digit i ∷ []) buf));
    reads =
        read_digits-append value base 0 h.text (digit i ∷ [])
        ∙ ap (λ t. t * base + value (digit i)) h.reads
        ∙ step i;
    short = omega (arith, length-append h.text (digit i ∷ []), h.short);
  }

  digit_loop_done : (i k : ℕ) (buf : List ℕ) → i ≡ 0 → Digits value base i k buf (some buf)
  unfolding read_digits
  digit_loop_done i k buf e = record { text = []; is = refl; reads = sym e; short = omega arith }

  digit_loop_zero : (room : ℕ) (buf : List ℕ) → digit_loop digit base room 0 buf ≡ some buf
  unfolding digit_loop
  digit_loop_zero zero buf = refl
  digit_loop_zero (suc room) buf = refl

  -- The digits of a number below base ^ k take `k` bytes at most.
  digit_loop_lem :
      (room i k : ℕ) (buf : List ℕ)
      → i < base ^ k
      → k ≤ room
      → Digits value base i k buf (digit_loop digit base room i buf)
  unfolding digit_loop
  digit_loop_lem room i zero buf lt le =
      let one : base ^ 0 ≡ 1 = simp unary_clauses refl in
      let e : i ≡ 0 = omega arith in rw (e, digit_loop_zero room buf) (digit_loop_done 0 0 buf refl)
  digit_loop_lem zero i (suc k) buf lt le = absurd (omega arith)
  digit_loop_lem (suc room) i (suc k) buf lt le = elim (Bool-cases (i == 0)) [
    | inl e ↦ rw e (digit_loop_done i (suc k) buf (ground arith))
    | inr e ↦ rw e (
        digit_loop_more i k buf (digit_loop digit base room (i / base) (digit i ∷ buf))
          (digit_loop_lem room (i / base) k (digit i ∷ buf) (smaller i k lt) (omega arith)))
  ]

print_buf_lem : (buf out : List ℕ) → print_buf buf out ≡ out ++ buf
unfolding print_buf
print_buf_lem [] out = sym (append-nil out)
print_buf_lem (c ∷ buf) out = print_buf_lem buf (out ++ (c ∷ [])) ∙ append_assoc out (c ∷ []) buf

abbrev pub dec_value : ℕ → ℕ
dec_value c = c - b'0'

dec_step : (i : ℕ) → i / 10 * 10 + dec_value (dec_digit i) ≡ i
dec_step i = omega arith

dec_smaller : (i k : ℕ) → i < 10 ^ suc k → i / 10 < 10 ^ k
dec_smaller i k h = omega (arith, pow-suc 10 k)

abbrev pub std_hex_value : ℕ → ℕ
std_hex_value c = if ltb c 58 then c - b'0' else c - (b'a' - 10)

hex_table : every_below 16 (λ d. std_hex_value (get_or hex d 0) == d) ≡ true
unfolding every_below
hex_table = refl

hex_step : (i : ℕ) → i / 16 * 16 + std_hex_value (std_hex_digit i) ≡ i
hex_step i =
    let low : bit_and i 0xf ≡ i % 16 = bit_and-low 4 i in
    let value : std_hex_value (get_or hex (i % 16) 0) ≡ i % 16 =
      (==_iff (std_hex_value (get_or hex (i % 16) 0)) (i % 16)).0 (
        every_below_lem 16 (λ d. std_hex_value (get_or hex d 0) == d) (i % 16) hex_table
          (omega arith)) in
    rw low (omega (arith, value))

hex_smaller : (i k : ℕ) → i < 16 ^ suc k → i / 16 < 16 ^ k
hex_smaller i k h = omega (arith, pow-suc 16 k)

-- A number behind `out`: its sign, and at most `k` digits that read as its magnitude.
pub record Prints (value : ℕ → ℕ) (base : ℕ) (sign : List ℕ) (i k : ℕ) (out : List ℕ)
    (to : Option (List ℕ)) : Type 0 where
  pub text : List ℕ
  pub is : to ≡ some (out ++ (sign ++ text))
  pub reads : read_digits value base 0 text ≡ i
  pub short : length text ≤ k

abbrev pub sign_of : ℤ → List ℕ
sign_of (pos n) = []
sign_of (negsuc n) = b'-' ∷ []

abbrev pub magnitude : ℤ → ℕ
magnitude (pos n) = n
magnitude (negsuc n) = n + 1

dec-Digits : (i : ℕ) → i < 2 ^ 31 → Digits dec_value 10 i 10 [] (digit_loop dec_digit 10 32 i [])
dec-Digits i lt =
    digit_loop_lem dec_digit dec_value 10 dec_step dec_smaller 32 i 10 [] (omega arith)
      (omega arith)

signed :
    (sign : Bool) (out text : List ℕ)
    → (if sign then write (b'-' ∷ []) out else out) ++ text
      ≡ out ++ ((if sign then b'-' ∷ [] else []) ++ text)
signed true out text = append_assoc out (b'-' ∷ []) text
signed false out text = refl

print_signed_lem :
    (i : ℤ) (out : List ℕ) (n : ℕ)
    → above_zero i ≡ n
    → n < 2 ^ 31
    → (sign : Bool)
    → Prints dec_value 10 (if sign then b'-' ∷ [] else []) n 10 out (print_signed sign i out)
unfolding print_signed
print_signed_lem i out n e lt sign =
    let h = dec-Digits n lt in
    let done : digit_loop dec_digit 10 32 (above_zero i) [] ≡ some (h.text ++ []) = rw e h.is in
    record {
      text = h.text;
      is =
          rw (print_signed, done, append-nil h.text, print_buf_lem)
            (ap some (signed sign out h.text));
      reads = h.reads;
      short = h.short;
    }

-- _print_int prints the sign of an int and at most ten digits that read as its magnitude, without
-- an overflow of its buffer, for every int but the least.
pub print_int_lem :
    (i : ℤ) (out : List ℕ)
    → magnitude i < 2 ^ 31
    → Prints dec_value 10 (sign_of i) (magnitude i) 10 out (print_int i out)
unfolding print_int read_digits
print_int_lem (pos zero) out lt = record {
  text = b'0' ∷ [];
  is = refl;
  reads = refl;
  short = omega arith;
}
print_int_lem (pos (suc n)) out lt =
    let nz : (suc n % 2 ^ 32 == 0) ≡ false = ground arith in
    rw (print_int, nz) (print_signed_lem (pos (suc n)) out (suc n) refl lt false)
print_int_lem (negsuc n) out lt =
    let nz : (2 ^ 32 - 1 - n % 2 ^ 32 == 0) ≡ false = ground arith in
    let back : above_zero (neg_int (negsuc n)) ≡ n + 1 = ground arith in
    rw (print_int, nz) (print_signed_lem (neg_int (negsuc n)) out (n + 1) back lt true)

-- _print_hex prints at most eight hexadecimal digits that read as its u32, without an overflow of
-- its buffer.
pub print_hex_lem :
    (x : ℕ) (out : List ℕ) → x < 2 ^ 32 → Prints std_hex_value 16 [] x 8 out (print_hex x out)
unfolding print_hex read_digits
print_hex_lem zero out lt = record {
  text = b'0' ∷ [];
  is = refl;
  reads = refl;
  short = omega arith;
}
print_hex_lem (suc x) out lt =
    let h =
      digit_loop_lem std_hex_digit std_hex_value 16 hex_step hex_smaller 32 (suc x) 8 []
        (omega arith) (omega arith) in
    let nz : (suc x == 0) ≡ false = ground arith in
    record {
      text = h.text;
      is = rw (print_hex, nz, h.is, append-nil h.text, print_buf_lem) refl;
      reads = h.reads;
      short = h.short;
    }
