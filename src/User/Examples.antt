-- ===== src/User/Examples.antt =====
-- A small system, and the user programs on it.
use strange_os.Prelude.{
  ℕ, ◌≡◌, List, [], ◌∷◌, ◌++◌, arith, length, take, drop, get_elem?, if◌then◌else◌, replicate,
}
use strange_os.Prelude.Int.{ℤ, pos, negsuc}
use strange_os.Str.Compare.{same_text}
use strange_os.User.{Calls, goes_on, leaves, exit_text, run_line}
use strange_os.User.Shell.{after_exec, run_line_lem}

-- What is left of the file, and what is printed.
record Small : Type 0 where
  file : List ℕ
  printed : List ℕ

abbrev names : List (List ℕ)
names = (b'a' ∷ []) ∷ (b'b' ∷ b'c' ∷ []) ∷ []

abbrev write_small : List ℕ → ℤ → Small → Small
write_small buf (pos n) st = record st { printed = st.printed ++ take n buf }
write_small buf (negsuc n) st = st

abbrev sys : Calls Small
sys = record {
  open_ = λ p m st. (pos 3, st);
  read_ = λ fd n st.
      ((take n st.file, pos (length (take n st.file))), record st { file = drop n st.file });
  write_ = λ fd buf n st. write_small buf n st;
  close_ = λ fd st. st;
  exec_ = λ p a st. (pos 0, st);
  readdir_ = λ fd i st. (get_elem? names i, st);
}

abbrev start : Small
start = record { file = replicate 600 7; printed = b'$' ∷ [] }

-- "ls /"
run_line_lem_example :
    (run_line sys (b'l' ∷ b's' ∷ b' ' ∷ b'/' ∷ 0 ∷ 9 ∷ []) start ≡ (
      if same_text (b'l' ∷ b's' ∷ []) exit_text
      then leaves start
      else after_exec sys (b'l' ∷ b's' ∷ []) (b'/' ∷ []) start))
    × (run_line sys (b'l' ∷ b's' ∷ 0 ∷ 9 ∷ []) start ≡ (
        if same_text (b'l' ∷ b's' ∷ []) exit_text
        then leaves start
        else after_exec sys (b'l' ∷ b's' ∷ []) [] start))
    × (run_line sys (0 ∷ 9 ∷ []) start ≡ goes_on start)
run_line_lem_example =
    run_line_lem sys b'l' (b's' ∷ []) (b'/' ∷ []) (9 ∷ []) start
      (
        (λ e. absurd (omega arith)),
        (λ e. absurd (omega arith)),
        ((λ e. absurd (omega arith)), (λ e. absurd (omega arith)), tt),
      )
      ((λ e. absurd (omega arith)), tt) (omega arith)
