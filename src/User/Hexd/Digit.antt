-- ===== src/User/Hexd/Digit.antt =====
-- The digit that `%x` prints of a number below 16.
use strange_os.Prelude.{ℕ, zero, suc, ◌/◌, ◌<◌, ◌≡◌, refl, false, some, [], ◌∷◌, arith, ◌==◌}
use strange_os.Stdlib.{digit_loop, print_buf, print_hex, std_hex_digit}
use strange_os.User.Hexd.{digit_text}

one_digit :
    (room x : ℕ)
    → (x == 0) ≡ false
    → x / 16 ≡ 0
    → digit_loop std_hex_digit 16 (suc room) x [] ≡ some (std_hex_digit x ∷ [])
unfolding digit_loop
one_digit zero x nz last = rw (nz, last) refl
one_digit (suc room) x nz last = rw (nz, last) refl

pub digit_text_lem : (x : ℕ) → x < 16 → digit_text x ≡ std_hex_digit x ∷ []
unfolding digit_text print_hex print_buf
digit_text_lem zero lt = refl
digit_text_lem (suc x) lt =
    let nz : (suc x == 0) ≡ false = ground arith in
    rw (digit_text, nz, one_digit 31 (suc x) nz (omega arith)) refl
