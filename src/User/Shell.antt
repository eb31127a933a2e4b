-- ===== src/User/Shell.antt =====
-- The lines that the shell runs.
use strange_os.Prelude.{
  ◌<◌, length, leb, ℕ, ◌≡◌, ◌≢◌, refl, ap, ◌∙◌, true, false, not, ◌&&◌, some, List, [], ◌∷◌, ◌++◌,
  arith, ◌==◌, if◌then◌else◌, inl, inr, ◌⊎◌,
}
use strange_os.Prelude.Int.{is_neg}
use strange_os.Str.{streq, up_to_end}
use strange_os.Str.Copy.{IsText}
use strange_os.Str.Compare.{same_text, streq_lem}
use strange_os.User.{
  cmd_room, Calls, Round, goes_on, leaves, split_line, argv_of, path_of, exit_text, is_exit,
  complain, run_line,
}

-- A command: bytes that are neither a terminator nor a blank, at least one.
abbrev pub IsWord : List ℕ → Type 0
IsWord [] = Unit {0}
IsWord (c ∷ s) = (c ≢ 0) × (c ≢ b' ') × IsWord s

IsWord-IsText : (s : List ℕ) → IsWord s → IsText s
IsWord-IsText [] h = tt
IsWord-IsText (c ∷ s) h = (h.0, IsWord-IsText s h.2)

-- A byte that ends a command.
abbrev IsEnd : ℕ → Type 0
IsEnd c = (c ≡ 0) ⊎ (c ≡ b' ')

split_line_lem :
    (cmd rest : List ℕ) (c : ℕ)
    → IsWord cmd
    → IsEnd c
    → split_line (cmd ++ (c ∷ rest)) ≡ (cmd, c ∷ rest)
unfolding split_line
split_line_lem [] rest c word (inl e) = rw e refl
split_line_lem [] rest c word (inr e) = rw e refl
split_line_lem (d ∷ cmd) rest c word end =
    let more : (not (d == 0) && not (d == b' ')) ≡ true =
      (let nz = word.0 in let nb = word.1 in ground arith) in
    rw (more, split_line_lem cmd rest c word.2 end) refl

up_to_end_lem : (s rest : List ℕ) → IsText s → up_to_end (s ++ (0 ∷ rest)) ≡ s
up_to_end_lem [] rest h = refl
up_to_end_lem (c ∷ s) rest h =
    let more : (c == 0) ≡ false = (let nz = h.0 in ground arith) in
    rw (more, up_to_end_lem s rest h.1) refl

exit-IsText : IsText exit_text
exit-IsText = (
  (λ e. absurd (omega arith)),
  ((λ e. absurd (omega arith)), ((λ e. absurd (omega arith)), ((λ e. absurd (omega arith)), tt))),
)

is_exit_lem : (cmd : List ℕ) → IsText cmd → is_exit cmd ≡ same_text cmd exit_text
unfolding is_exit
is_exit_lem cmd h =
    let e : streq (cmd ++ (0 ∷ [])) (exit_text ++ (0 ∷ [])) ≡ some (same_text cmd exit_text) =
      streq_lem cmd exit_text [] [] h exit-IsText in
    rw (is_exit, e) refl

module _ {S : Type 0} (sys : Calls S) where
  -- What the shell does once exec has returned.
  abbrev pub after_exec : List ℕ → List ℕ → S → Round S
  after_exec cmd argv st =
      let (res, st') = sys.exec_ (path_of cmd) argv st in
      goes_on (if is_neg res then complain sys cmd st' else st')

  run_split :
      (d : ℕ) (cmd rest : List ℕ) (c : ℕ) (st : S)
      → IsWord (d ∷ cmd)
      → IsEnd c
      → length (d ∷ cmd) < cmd_room
      → run_line sys ((d ∷ cmd) ++ (c ∷ rest)) st ≡ (
          if same_text (d ∷ cmd) exit_text
          then leaves st
          else after_exec (d ∷ cmd) (argv_of (c ∷ rest)) st)
  unfolding run_line
  run_split d cmd rest c st word end fits =
      let more : (d == 0) ≡ false = (let nz = word.0 in ground arith) in
      let split : split_line (d ∷ (cmd ++ (c ∷ rest))) ≡ (d ∷ cmd, c ∷ rest) =
        split_line_lem (d ∷ cmd) rest c word end in
      let exits = is_exit_lem (d ∷ cmd) (IsWord-IsText (d ∷ cmd) word) in
      let room : leb cmd_room (length (d ∷ cmd)) ≡ false = ground arith in
      rw (more, split, room, exits) refl

  -- A line of a command of fewer than 123 bytes, alone or with arguments behind one blank: the
  -- shell leaves if the command is exit, and else hands the path of the command and the arguments,
  -- up to the end of the line, to exec, and complains if that fails. A line with no command is
  -- passed over.
  pub run_line_lem :
      (d : ℕ) (cmd args junk : List ℕ) (st : S)
      → IsWord (d ∷ cmd)
      → IsText args
      → length (d ∷ cmd) < cmd_room
      → (run_line sys ((d ∷ cmd) ++ (b' ' ∷ (args ++ (0 ∷ junk)))) st
          ≡ (if same_text (d ∷ cmd) exit_text then leaves st else after_exec (d ∷ cmd) args st))
        × (run_line sys ((d ∷ cmd) ++ (0 ∷ junk)) st
            ≡ (if same_text (d ∷ cmd) exit_text then leaves st else after_exec (d ∷ cmd) [] st))
        × (run_line sys (0 ∷ junk) st ≡ goes_on st)
  unfolding run_line
  run_line_lem d cmd args junk st word text fits = (
    run_split d cmd (args ++ (0 ∷ junk)) b' ' st word (inr refl) fits
        ∙ ap (λ a. if same_text (d ∷ cmd) exit_text then leaves st else after_exec (d ∷ cmd) a st)
            (up_to_end_lem args junk text),
    run_split d cmd junk 0 st word (inl refl) fits,
    refl,
  )
