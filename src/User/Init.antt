-- ===== src/User/Init.antt =====
-- src/user/init.c: the program that runs the shell again and again.
use Prim.Native.String.{String}
use Prim.Native.Char.{code}
use strange_os.Prelude.{
  ℕ, zero, suc, ◌<◌, ◌≡◌, refl, true, false, Option, none, some, List, [], ◌∷◌, arith,
  if◌then◌else◌,
}
use strange_os.Prelude.Int.{pos, is_neg}
use strange_os.Str.{up_to_end}
use strange_os.User.{Calls, fill_front, is_count, put_text, mode_text}

abbrev pub codes : String → List ℕ
codes String.[] = []
codes (String.◌∷◌ c s) = code c ∷ codes s

-- `argv`
abbrev pub init_args : List ℕ
init_args = codes "arguments"

-- `SHELL_BUFSZ`
abbrev pub shell_bufsz : ℕ
shell_bufsz = 32

module _ {S : Type 0} (sys : Calls S) where
  -- The loop that executes the shell, with the rounds left: the state in which it then stays.
  pub init_loop : ℕ → List ℕ → S → Option S
  init_loop zero shell st = none
  init_loop (suc rounds) shell st =
      let (res, st') = sys.exec_ shell init_args st in
      elim (is_count res 0) [
        | true ↦ init_loop rounds shell st'
        | false ↦ some (put_text sys (codes "failed to execute shell\n") st')
      ]

  -- `main`, which ends in a loop that does nothing. A name of 32 bytes or more has no terminator in
  -- its buffer; what is behind the buffer is not modelled.
  pub init : ℕ → List ℕ → S → Option S
  unfolding init_loop
  init rounds buf st =
      let (fd, st₁) = sys.open_ (codes "/etc/init") mode_text st in
      if is_neg fd
      then some (put_text sys (codes "failed to open '/etc/init'\n") st₁)
      else (let (got, st₂) = sys.read_ fd shell_bufsz st₁ in
          let shell = fill_front got.0 buf in
          let st₃ = sys.write_ (pos 1) shell got.1 (sys.close_ fd st₂) in
          init_loop rounds (up_to_end shell) (put_text sys (codes "\n") st₃))

  -- The state once the shell has run n times.
  ran : ℕ → List ℕ → S → S
  ran zero shell st = st
  ran (suc n) shell st = ran n shell (sys.exec_ shell init_args st).1

  -- init runs the shell until it does not return 0, and then says so.
  init_loop_lem :
      (n : ℕ) (shell : List ℕ) (st : S)
      → ((i : ℕ) → i < n → (sys.exec_ shell init_args (ran i shell st)).0 ≡ pos 0)
      → is_count (sys.exec_ shell init_args (ran n shell st)).0 0 ≡ false
      → init_loop (suc n) shell st
        ≡ some (
            put_text sys
              (codes "failed to execute shell\n")
              (sys.exec_ shell init_args (ran n shell st)).1)
  unfolding init_loop ran
  init_loop_lem zero shell st runs ends = rw (init_loop, ends) refl
  init_loop_lem (suc n) shell st runs ends =
      let now : is_count (sys.exec_ shell init_args st).0 0 ≡ true =
        rw (runs 0 (omega arith)) refl in
      let rest =
        init_loop_lem n shell (sys.exec_ shell init_args st).1 (λ i lt. runs (suc i) (omega arith))
          ends in
      rw (init_loop, now) rest
