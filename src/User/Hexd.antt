-- ===== src/User/Hexd.antt =====
-- src/user/hexd.c: the bytes of a file in hexadecimal.
pub mod Rows
pub mod Digit
pub mod Dump
use strange_os.Prelude.{
  ℕ, zero, suc, ◌+◌, ◌/◌, ◌%◌, ◌^◌, true, false, Option, none, some, List, [], ◌∷◌, ◌==◌,
  if◌then◌else◌, length, take, drop, leb,
}
use strange_os.Prelude.Int.{ℤ, pos, negsuc, is_neg}
use strange_os.Stdlib.{print_hex}
use strange_os.User.{Calls, fill_front, is_count, put_text, mode_text}

-- What `%x` prints of a number below 16.
pub digit_text : ℕ → List ℕ
digit_text x = elim (print_hex x []) [ none ↦ [] | some s ↦ s ]

abbrev pub row_size : ℕ
row_size = 8

-- The address behind a row; it is a u16.
abbrev pub next_addr : ℕ → List ℕ → ℕ
next_addr addr row = (addr + length row) % 2 ^ 16

module _ {S : Type 0} (sys : Calls S) where
  -- printf writes a number byte by byte.
  pub put_bytes : List ℕ → S → S
  put_bytes [] st = st
  put_bytes (c ∷ s) st = put_bytes s (put_text sys (c ∷ []) st)

  abbrev pub put_digit : ℕ → S → S
  put_digit x st = put_bytes (digit_text x) st

  -- `_print_byte`
  pub print_byte : ℕ → S → S
  unfolding put_bytes digit_text
  print_byte h st = put_digit (h % 16) (put_digit (h / 16 % 16) st)

  -- `_print_word`
  pub print_word : ℕ → S → S
  unfolding put_bytes digit_text
  print_word h st =
      put_digit (h % 16)
        (put_digit (h / 16 % 16) (put_digit (h / 2 ^ 8 % 16) (put_digit (h / 2 ^ 12 % 16) st)))

  -- The loop over the bytes of a row.
  pub print_row : List ℕ → S → S
  unfolding print_byte
  print_row [] st = st
  print_row (c ∷ row) st = print_row row (put_text sys (b' ' ∷ []) (print_byte c st))

  -- The loop over the bytes that a read gave, with the rounds left: the address and the state.
  pub print_rows : ℕ → ℕ → List ℕ → S → ℕ × S
  unfolding print_word print_row
  print_rows zero addr bytes st = (addr, st)
  print_rows (suc rounds) addr [] st = (addr, st)
  print_rows (suc rounds) addr (c ∷ bytes) st =
      let row = take row_size (c ∷ bytes) in
      print_rows rounds (next_addr addr row) (drop row_size (c ∷ bytes)) (
        put_text sys (b'\n' ∷ [])
          (print_row row (put_text sys (b' ' ∷ b'|' ∷ b' ' ∷ []) (print_word addr st))))

  -- The bytes of the buffer that a read gave; `none` leaves the buffer, of 512 bytes.
  abbrev pub bytes_read : ℤ → List ℕ → Option (List ℕ)
  bytes_read (pos n) buf = if leb n 512 then some (take n buf) else none
  bytes_read (negsuc n) buf = none

  -- The loop of reads, which take 64 rows; `none` is also a read that leaves the buffer.
  pub hexd_loop : ℕ → ℕ → ℤ → List ℕ → S → Option S
  unfolding print_rows
  hexd_loop zero addr fd buf st = none
  hexd_loop (suc rounds) addr fd buf st =
      let (got, st') = sys.read_ fd 512 st in
      let buf' = fill_front got.0 buf in
      elim (bytes_read got.1 buf') [
        | none ↦ none
        | some bytes ↦
            (let r = print_rows 64 addr bytes st' in
              elim (is_count got.1 512) [
                | true ↦ hexd_loop rounds r.0 fd buf' r.1
                | false ↦ some r.1
              ])
      ]

  abbrev pub hexd_closed : ℤ → Option S → Option (ℤ × S)
  hexd_closed fd none = none
  hexd_closed fd (some st) = some (pos 0, sys.close_ fd st)

  -- `main`. The message of a file that does not open is written by printf, byte by byte.
  pub hexd : ℕ → List ℕ → List ℕ → S → Option (ℤ × S)
  unfolding hexd_loop
  hexd rounds argv buf st =
      let (fd, st') = sys.open_ argv mode_text st in
      if is_neg fd
      then some (
        pos 1,
        put_bytes (b'\'' ∷ b'\n' ∷ []) (
            put_text sys argv (
              put_bytes
                (b'c' ∷ b'a' ∷ b'n' ∷ b'\'' ∷ b't' ∷ b' ' ∷ b'o' ∷ b'p' ∷ b'e' ∷ b'n' ∷ b' ' ∷ b'f'
                  ∷ b'i' ∷ b'l' ∷ b'e' ∷ b':' ∷ b' ' ∷ b'\'' ∷ [])
                st')),
      )
      else hexd_closed fd (hexd_loop rounds 0 fd buf st')
