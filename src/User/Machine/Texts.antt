-- ===== src/User/Machine/Texts.antt =====
-- Bytes in the memory.
use strange_os.Prelude.{
  ℕ, zero, suc, ◌+◌, ◌-◌, ◌≤◌, ◌<◌, ◌≡◌, refl, sym, ap, ◌∙◌, true, List, [], ◌∷◌, arith, ltb, leb,
  get_or, length, take, drop,
}
use strange_os.File.Streams.{bytes_at, put_at}

take-drop_step :
    (n k : ℕ) (s : List ℕ)
    → k < length s
    → take (suc n) (drop k s) ≡ get_or s k 0 ∷ take n (drop (k + 1) s)
take-drop_step n k [] lt = absurd (omega arith)
take-drop_step n zero (c ∷ s) lt = refl
take-drop_step n (suc k) (c ∷ s) lt =
    let next : suc k + 1 ≡ suc (k + 1) = omega arith in rw next (take-drop_step n k s (omega arith))

put_at_in :
    (at k : ℕ) (s : List ℕ) (mem : ℕ → ℕ) → k < length s → put_at at s mem (at + k) ≡ get_or s k 0
unfolding put_at
put_at_in at k s mem lt =
    let low : leb at (at + k) ≡ true = ground arith in
    let off : at + k - at ≡ k = omega arith in
    let inside : ltb k (length s) ≡ true = ground arith in rw (low, off, inside) refl

bytes_at-put_at_from :
    (n at k : ℕ) (s : List ℕ) (mem : ℕ → ℕ)
    → k + n ≤ length s
    → bytes_at n (at + k) (put_at at s mem) ≡ take n (drop k s)
bytes_at-put_at_from zero at k s mem le = refl
bytes_at-put_at_from (suc n) at k s mem le =
    let next : at + k + 1 ≡ at + (k + 1) = omega arith in
    rw
      (
        put_at_in at k s mem (omega arith),
        next,
        bytes_at-put_at_from n at (k + 1) s mem (omega arith),
      )
      (sym (take-drop_step n k s (omega arith)))

pub bytes_at-put_at :
    (n at : ℕ) (s : List ℕ) (mem : ℕ → ℕ)
    → n ≤ length s
    → bytes_at n at (put_at at s mem) ≡ take n s
bytes_at-put_at n at s mem le =
    ap (λ a. bytes_at n a (put_at at s mem)) (omega arith)
    ∙ bytes_at-put_at_from n at 0 s mem (omega arith)

pub drop-length-take : (n : ℕ) (s : List ℕ) → drop (length (take n s)) s ≡ drop n s
drop-length-take zero s = refl
drop-length-take (suc n) [] = refl
drop-length-take (suc n) (c ∷ s) = drop-length-take n s
