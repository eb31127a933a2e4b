-- ===== src/User/Hexd/Rows.antt =====
-- The dump of a file in rows of eight bytes, and its parts.
use mathlib.Core.List.{append_assoc}
use strange_os.Prelude.{
  ℕ, zero, suc, ◌+◌, ◌*◌, ◌/◌, ◌%◌, ◌^◌, ◌≤◌, ◌≡◌, refl, sym, ap, ◌∙◌, true, List, [], ◌∷◌, ◌++◌,
  arith, length, take, drop, length-drop, leb,
}
use strange_os.Stdlib.{std_hex_digit}
use strange_os.User.Hexd.{row_size, next_addr}

abbrev pub byte_text : ℕ → List ℕ
byte_text h = std_hex_digit (h / 16 % 16) ∷ std_hex_digit (h % 16) ∷ []

abbrev pub word_text : ℕ → List ℕ
word_text h =
    std_hex_digit (h / 2 ^ 12 % 16)
    ∷ std_hex_digit (h / 2 ^ 8 % 16)
    ∷ std_hex_digit (h / 16 % 16)
    ∷ std_hex_digit (h % 16)
    ∷ []

unfoldable pub bytes_text : List ℕ → List ℕ
bytes_text [] = []
bytes_text (c ∷ row) = byte_text c ++ (b' ' ∷ bytes_text row)

-- A row: its address and its bytes.
abbrev pub row_text : ℕ → List ℕ → List ℕ
row_text addr row =
    word_text addr ++ ((b' ' ∷ b'|' ∷ b' ' ∷ []) ++ (bytes_text row ++ (b'\n' ∷ [])))

-- At most n rows.
unfoldable pub dump : ℕ → ℕ → List ℕ → List ℕ
dump zero addr s = []
dump (suc n) addr [] = []
dump (suc n) addr (c ∷ s) =
    row_text addr (take row_size (c ∷ s))
    ++ dump n (next_addr addr (take row_size (c ∷ s))) (drop row_size (c ∷ s))

-- The address behind them.
unfoldable pub after : ℕ → ℕ → List ℕ → ℕ
after zero addr s = addr
after (suc n) addr [] = addr
after (suc n) addr (c ∷ s) =
    after n (next_addr addr (take row_size (c ∷ s))) (drop row_size (c ∷ s))

pub dump-nil : (n addr : ℕ) → dump n addr [] ≡ []
unfolding dump
dump-nil zero addr = refl
dump-nil (suc n) addr = refl

suc_add : (m n : ℕ) → suc m + n ≡ suc (m + n)
suc_add m n = omega arith

take-nil : (n : ℕ) → take {A = ℕ} n [] ≡ []
take-nil zero = refl
take-nil (suc n) = refl

drop-nil : (n : ℕ) → drop {A = ℕ} n [] ≡ []
drop-nil zero = refl
drop-nil (suc n) = refl

take-take_add : (m n : ℕ) (s : List ℕ) → take m (take (m + n) s) ≡ take m s
take-take_add zero n s = refl
take-take_add (suc m) n [] = rw (suc_add m n) refl
take-take_add (suc m) n (c ∷ s) = rw (suc_add m n) (ap (λ t. c ∷ t) (take-take_add m n s))

drop-take_add : (m n : ℕ) (s : List ℕ) → drop m (take (m + n) s) ≡ take n (drop m s)
drop-take_add zero n s = ap (λ k. take k s) (omega arith)
drop-take_add (suc m) n [] = rw (suc_add m n, take-nil n) refl
drop-take_add (suc m) n (c ∷ s) = rw (suc_add m n) (drop-take_add m n s)

pub drop-drop_add : (m n : ℕ) (s : List ℕ) → drop n (drop m s) ≡ drop (m + n) s
drop-drop_add zero n s = ap (λ k. drop k s) (omega arith)
drop-drop_add (suc m) n [] = rw (suc_add m n) (drop-nil n)
drop-drop_add (suc m) n (c ∷ s) = rw (suc_add m n) (drop-drop_add m n s)

-- The first n rows of a text that has them, and the others.
pub dump-add :
    (n m addr : ℕ) (s : List ℕ)
    → row_size * n ≤ length s
    → dump (n + m) addr s
      ≡ dump n addr (take (row_size * n) s)
        ++ dump m (after n addr (take (row_size * n) s)) (drop (row_size * n) s)
unfolding dump after
dump-add zero m addr s h = ap (λ k. dump k addr s) (omega arith)
dump-add (suc n) m addr [] h = absurd (omega arith)
dump-add (suc n) m addr (c ∷ s) h =
    let row : List ℕ = c ∷ take 7 s in
    let left : List ℕ = drop 7 s in
    let size : 8 * suc n ≡ suc (7 + 8 * n) = omega arith in
    let tail = dump-add n m (next_addr addr row) left (omega (arith, length-drop 7 s)) in
    let first : take 7 (take (7 + 8 * n) s) ≡ take 7 s = take-take_add 7 (8 * n) s in
    let next : drop 7 (take (7 + 8 * n) s) ≡ take (8 * n) left = drop-take_add 7 (8 * n) s in
    let last : drop (8 * n) left ≡ drop (7 + 8 * n) s = drop-drop_add 7 (8 * n) s in
    rw (suc_add n m, size, first, next, sym last, tail)
      (sym (
        append_assoc (row_text addr row) (dump n (next_addr addr row) (take (8 * n) left))
          (dump m (after n (next_addr addr row) (take (8 * n) left)) (drop (8 * n) left))))

-- More rounds than rows print nothing more.
pub dump-more :
    (n m addr : ℕ) (s : List ℕ) → length s ≤ row_size * n → dump (n + m) addr s ≡ dump n addr s
unfolding dump
dump-more n m addr [] h = dump-nil (n + m) addr ∙ sym (dump-nil n addr)
dump-more zero m addr (c ∷ s) h = absurd (omega arith)
dump-more (suc n) m addr (c ∷ s) h =
    let row : List ℕ = take 8 (c ∷ s) in
    rw (suc_add n m) (
      ap (λ t. row_text addr row ++ t)
        (dump-more n m (next_addr addr row) (drop 8 (c ∷ s))
          (omega (arith, length-drop 8 (c ∷ s)))))

pub leb-true : (a b : ℕ) → a ≤ b → leb a b ≡ true
leb-true a b h = ground arith
