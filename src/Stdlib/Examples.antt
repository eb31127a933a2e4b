-- ===== src/Stdlib/Examples.antt =====
-- Numbers and a format, and the theorems about printing at them.
use strange_os.Prelude.{◌+◌, ◌-◌, ◌^◌, ◌≡◌, refl, some, List, [], ◌∷◌, arith}
use strange_os.Prelude.Int.{negsuc}
use strange_os.Stdlib.{convert, print_signed, digit_loop, print_buf, Args, print_int, std_fdprintf}
use strange_os.Stdlib.Numbers.{Prints, dec_value, print_int_lem}
use strange_os.Stdlib.Format.{Piece, plain, specifier, ArePieces, print_pieces, std_fdprintf_lem}

print_int_lem_example : Prints dec_value 10 (b'-' ∷ []) 305 10 [] (print_int (negsuc 304) [])
print_int_lem_example = print_int_lem (negsuc 304) [] (omega arith)

-- "n=%d!"
abbrev pieces : List Piece
pieces = plain b'n' ∷ plain b'=' ∷ specifier b'd' ∷ plain b'!' ∷ []

abbrev args : Args
args = record { stack = λ i. i + 42; next = 0; strings = λ _. [] }

are_pieces : ArePieces pieces
are_pieces = (
  (λ e. absurd (omega arith)),
  (λ e. absurd (omega arith)),
  (
    (λ e. absurd (omega arith)),
    (λ e. absurd (omega arith)),
    ((λ e. absurd (omega arith)), (λ e. absurd (omega arith)), tt),
  ),
)

std_fdprintf_lem_example :
    std_fdprintf (b'n' ∷ b'=' ∷ b'%' ∷ b'd' ∷ b'!' ∷ 0 ∷ []) args [] ≡ print_pieces pieces args []
std_fdprintf_lem_example = std_fdprintf_lem pieces args [] are_pieces

printed :
    std_fdprintf (b'n' ∷ b'=' ∷ b'%' ∷ b'd' ∷ b'!' ∷ 0 ∷ []) args []
    ≡ some (b'n' ∷ b'=' ∷ b'4' ∷ b'2' ∷ b'!' ∷ [])
unfolding std_fdprintf convert print_int print_signed digit_loop print_buf
printed = refl

-- The least int has no sign to take off: only the `-` is printed.
least : print_int (negsuc (2 ^ 31 - 1)) [] ≡ some (b'-' ∷ [])
unfolding print_int print_signed digit_loop print_buf
least = refl
