-- ===== src/Stdlib.antt =====
-- stdlib/stdio.c: the formatted output of user programs.
-- What a program writes to a descriptor is the text so far, and `write` puts bytes behind it. A
-- buffer of digits is the list of its bytes, the last one first. The words on the stack behind the
-- format are a function, and the C strings in memory are a function of their address.
pub mod Numbers
pub mod Format
pub mod Calls
mod Examples
use strange_os.Prelude.{
  ℕ, zero, suc, ◌+◌, ◌-◌, ◌/◌, ◌%◌, ◌^◌, Bool, ◌||◌, Option, none, some, List, [], ◌∷◌, ◌++◌, ◌==◌,
  if◌then◌else◌, bit_and, get_or,
}
use strange_os.Prelude.Int.{ℤ, pos, negsuc, is_neg, to_u32, to_int}

-- `write(fd, s, n)`
abbrev pub write : List ℕ → List ℕ → List ℕ
write s out = out ++ s

-- `sizeof(buf)` of the buffers of digits.
abbrev pub buf_size : ℕ
buf_size = 32

-- `while (i > 0) { buf[n++] = digit(i); i /= base; }`, with the room left in `buf`; `none` is an
-- overflow of `buf`.
unfoldable pub digit_loop : (ℕ → ℕ) → ℕ → ℕ → ℕ → List ℕ → Option (List ℕ)
digit_loop digit base zero i buf = if i == 0 then some buf else none
digit_loop digit base (suc room) i buf =
    let rest = digit_loop digit base room (i / base) (digit i ∷ buf) in
    if i == 0 then some buf else rest

-- `while (n) { c = buf[--n]; write(fd, &c, 1); }`
unfoldable pub print_buf : List ℕ → List ℕ → List ℕ
print_buf [] out = out
print_buf (c ∷ buf) out = print_buf buf (write (c ∷ []) out)

-- `-i` of an int, which wraps around.
abbrev pub neg_int : ℤ → ℤ
neg_int i = to_int ((2 ^ 32 - to_u32 i) % 2 ^ 32)

-- What a loop `while (i > 0)` sees of an int.
abbrev pub above_zero : ℤ → ℕ
above_zero (pos n) = n
above_zero (negsuc n) = 0

abbrev pub dec_digit : ℕ → ℕ
dec_digit i = b'0' + i % 10

-- `_print_int` of an int that is not zero, with its sign taken off.
unfoldable pub print_signed : Bool → ℤ → List ℕ → Option (List ℕ)
print_signed sign i out = elim (digit_loop dec_digit 10 buf_size (above_zero i) []) [
  | none ↦ none
  | some buf ↦ some (print_buf buf (if sign then write (b'-' ∷ []) out else out))
]

-- `_print_int`
unfoldable pub print_int : ℤ → List ℕ → Option (List ℕ)
unfolding print_signed
print_int i out =
    if to_u32 i == 0
    then some (write (b'0' ∷ []) out)
    else (print_signed (is_neg i) (if is_neg i then neg_int i else i) out)

-- `hex`
abbrev pub hex : List ℕ
hex =
    b'0' ∷ b'1' ∷ b'2' ∷ b'3' ∷ b'4' ∷ b'5' ∷ b'6' ∷ b'7' ∷ b'8' ∷ b'9' ∷ b'a' ∷ b'b' ∷ b'c' ∷ b'd'
    ∷ b'e' ∷ b'f' ∷ []

abbrev pub std_hex_digit : ℕ → ℕ
std_hex_digit x = get_or hex (bit_and x 0xf) 0

-- `_print_hex`
unfoldable pub print_hex : ℕ → List ℕ → Option (List ℕ)
print_hex x out =
    if x == 0
    then some (write (b'0' ∷ []) out)
    else elim (digit_loop std_hex_digit 16 buf_size x []) [
      | none ↦ none
      | some buf ↦ some (print_buf buf out)
    ]

-- `va_list`: the stack behind the format, and the next word of it.
pub record Args : Type 0 where
  pub stack : ℕ → ℕ
  pub next : ℕ
  pub strings : ℕ → List ℕ

abbrev pub arg : Args → ℕ
arg a = a.stack a.next

abbrev pub shift : Args → Args
shift a = record a { next = a.next + 1 }

-- What a specifier prints, and the arguments that are left.
unfoldable pub convert : ℕ → Args → List ℕ → Option (Args × List ℕ)
unfolding print_int print_hex
convert c a out =
    if (c == b'd') || (c == b'i')
    then (elim (print_int (to_int (arg a)) out) [ none ↦ none | some o ↦ some (shift a, o) ])
    else (if c == b'x'
        then (elim (print_hex (arg a) out) [ none ↦ none | some o ↦ some (shift a, o) ])
        else (if c == b'c'
            then some (shift a, write (arg a % 256 ∷ []) out)
            else (if c == b's'
                then some (shift a, write (a.strings (arg a)) out)
                else some (a, out))))

-- `_std_fdprintf`, over the bytes of memory from `fmt` on; `none` is a read behind them, or an
-- overflow in a conversion.
unfoldable pub std_fdprintf : List ℕ → Args → List ℕ → Option (List ℕ)
unfolding convert
std_fdprintf [] a out = none
std_fdprintf (c ∷ []) a out = if c == 0 then some out else none
std_fdprintf (c ∷ d ∷ fmt) a out =
    if c == 0
    then some out
    else (if c == b'%'
        then (elim (convert d a out) [ none ↦ none | some r ↦ std_fdprintf fmt r.0 r.1 ])
        else std_fdprintf (d ∷ fmt) a (write (c ∷ []) out))
