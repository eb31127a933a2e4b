-- ===== src/Stdlib/Format.antt =====
-- Formats, as the pieces that _std_fdprintf reads in them.
use strange_os.Prelude.{
  ℕ, ◌≡◌, ◌≢◌, refl, ◌∙◌, false, Option, none, some, List, [], ◌∷◌, arith, ◌==◌, Option-cases, inl,
  inr,
}
use strange_os.Stdlib.{write, Args, convert, std_fdprintf}

-- A piece of a format: a byte that stands for itself, or a specifier.
pub data Piece : Type 0 where
  plain : ℕ → Piece
  specifier : ℕ → Piece

-- The format that the pieces make up.
abbrev pub format_of : List Piece → List ℕ
format_of [] = 0 ∷ []
format_of (plain c ∷ ps) = c ∷ format_of ps
format_of (specifier d ∷ ps) = b'%' ∷ d ∷ format_of ps

-- A plain byte is neither the terminator nor the `%`.
abbrev pub ArePieces : List Piece → Type 0
ArePieces [] = Unit {0}
ArePieces (plain c ∷ ps) = (c ≢ 0) × (c ≢ b'%') × ArePieces ps
ArePieces (specifier d ∷ ps) = ArePieces ps

-- What the pieces print, one after the other.
pub print_pieces : List Piece → Args → List ℕ → Option (List ℕ)
print_pieces [] a out = some out
print_pieces (plain c ∷ ps) a out = print_pieces ps a (write (c ∷ []) out)
print_pieces (specifier d ∷ ps) a out = elim (convert d a out) [
  | none ↦ none
  | some r ↦ print_pieces ps r.0 r.1
]

plain_step :
    (c : ℕ) (s : List ℕ) (a : Args) (out : List ℕ)
    → c ≢ 0
    → c ≢ b'%'
    → std_fdprintf (c ∷ s) a out ≡ std_fdprintf s a (write (c ∷ []) out)
unfolding std_fdprintf
plain_step c [] a out nz np = let e : (c == 0) ≡ false = ground arith in rw e refl
plain_step c (d ∷ s) a out nz np =
    let e : (c == 0) ≡ false = ground arith in
    let e' : (c == b'%') ≡ false = ground arith in rw (e, e') refl

-- _std_fdprintf prints the pieces of its format from left to right, and stops at its terminator.
pub std_fdprintf_lem :
    (ps : List Piece) (a : Args) (out : List ℕ)
    → ArePieces ps
    → std_fdprintf (format_of ps) a out ≡ print_pieces ps a out
unfolding std_fdprintf print_pieces
std_fdprintf_lem [] a out h = refl
std_fdprintf_lem (plain c ∷ ps) a out h =
    plain_step c (format_of ps) a out h.0 h.1 ∙ std_fdprintf_lem ps a (write (c ∷ []) out) h.2
std_fdprintf_lem (specifier d ∷ ps) a out h = elim (Option-cases (convert d a out)) [
  | inl e ↦ rw (print_pieces, std_fdprintf, e) refl
  | inr (r, e) ↦ rw (print_pieces, std_fdprintf, e) (std_fdprintf_lem ps r.0 r.1 h)
]
