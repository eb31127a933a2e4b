-- ===== src/User.antt =====
-- The user programs: src/user/sh.c, cat.c, ls.c and echo.c (hexd.c and init.c are in User.Hexd and
-- User.Init), over the calls of the library (src/stdlib/starch.c).
-- The calls are a record of operations on the state `S` of the system. A text is the bytes before its
-- terminator; a buffer is the list of all its bytes. Loops take the rounds left, and `none` is more
-- of them.
pub mod Cat
pub mod Shell
pub mod Hexd
pub mod Init
pub mod Machine
mod Examples
use strange_os.Prelude.{
  ℕ, zero, suc, ◌+◌, ◌-◌, Bool, true, false, not, ◌&&◌, Option, none, some, List, [], ◌∷◌, ◌++◌,
  ◌==◌, if◌then◌else◌, length, take, drop, set, leb,
}
use strange_os.Prelude.Int.{ℤ, pos, negsuc, is_neg}
use strange_os.Str.{streq, up_to_end}

-- `open`, `read`, `write`, `close`, `exec` and `readdir`. A read gives the bytes that it puts into the
-- front of the buffer, and the count that it returns; a write takes the buffer and the count.
pub record Calls (S : Type 0) : Type 0 where
  pub open_ : List ℕ → List ℕ → S → ℤ × S
  pub read_ : ℤ → ℕ → S → (List ℕ × ℤ) × S
  pub write_ : ℤ → List ℕ → ℤ → S → S
  pub close_ : ℤ → S → S
  pub exec_ : List ℕ → List ℕ → S → ℤ × S
  pub readdir_ : ℤ → ℕ → S → Option (List ℕ) × S

-- `"r"`
abbrev pub mode_text : List ℕ
mode_text = b'r' ∷ []

-- What is in a buffer once the bytes are put into its front.
abbrev pub fill_front : List ℕ → List ℕ → List ℕ
fill_front bytes buf = bytes ++ drop (length bytes) buf

abbrev pub is_count : ℤ → ℕ → Bool
is_count (pos k) n = k == n
is_count (negsuc k) n = false

-- The terminator that the shell sets. An index from the length of the buffer on, which the code
-- writes to as well, and a negative one leave the buffer as it is.
abbrev pub set_end : List ℕ → ℤ → List ℕ
set_end buf (pos n) = set buf n 0
set_end buf (negsuc n) = buf

module _ {S : Type 0} (sys : Calls S) where
  -- `write(fd, s, strlen(s))`
  abbrev pub put_text : List ℕ → S → S
  put_text s st = sys.write_ (pos 1) s (pos (length s)) st

  -- `BUFSZ` of cat, and its loop: a full read is followed by another one.
  pub cat_loop : ℕ → ℤ → List ℕ → S → Option S
  cat_loop zero fd buf st = none
  cat_loop (suc rounds) fd buf st =
      let (got, st') = sys.read_ fd 512 st in
      let buf' = fill_front got.0 buf in
      let st'' = sys.write_ (pos 1) buf' got.1 st' in
      elim (is_count got.1 512) [ true ↦ cat_loop rounds fd buf' st'' | false ↦ some st'' ]

  abbrev pub closed : ℤ → ℤ → Option S → Option (ℤ × S)
  closed code fd none = none
  closed code fd (some st) = some (code, sys.close_ fd st)

  -- `main` of cat.c: what it returns.
  pub cat : ℕ → List ℕ → List ℕ → S → Option (ℤ × S)
  unfolding cat_loop
  cat rounds argv buf st =
      let (fd, st') = sys.open_ argv mode_text st in
      if is_neg fd
      then some (
        pos 1,
        put_text
            (b'n' ∷ b'o' ∷ b' ' ∷ b's' ∷ b'u' ∷ b'c' ∷ b'h' ∷ b' ' ∷ b'f' ∷ b'i' ∷ b'l' ∷ b'e'
              ∷ b'\n' ∷ [])
            st',
      )
      else closed (pos 0) fd (cat_loop rounds fd buf st')

  -- The loop of ls, over the entries from `idx` on.
  pub ls_loop : ℕ → ℤ → ℕ → S → Option S
  ls_loop zero fd idx st = none
  ls_loop (suc rounds) fd idx st =
      let (name, st') = sys.readdir_ fd idx st in
      elim name [
        | none ↦ some st'
        | some s ↦ ls_loop rounds fd (idx + 1) (put_text (b'\n' ∷ []) (put_text s st'))
      ]

  -- `main` of ls.c
  pub ls : ℕ → List ℕ → S → Option (ℤ × S)
  unfolding ls_loop
  ls rounds argv st =
      let (fd, st') = sys.open_ argv mode_text st in
      if is_neg fd
      then some (
        pos 0,
        put_text
            (b'n' ∷ b'o' ∷ b' ' ∷ b's' ∷ b'u' ∷ b'c' ∷ b'h' ∷ b' ' ∷ b'd' ∷ b'i' ∷ b'r' ∷ b'e'
              ∷ b'c' ∷ b't' ∷ b'o' ∷ b'r' ∷ b'y' ∷ b'\n' ∷ [])
            st',
      )
      else closed (pos 0) fd (ls_loop rounds fd 0 st')

  -- `main` of echo.c
  pub echo : List ℕ → S → ℤ × S
  echo argv st = (pos 0, put_text (b'\n' ∷ []) (put_text argv st))

-- The loop of the shell that takes the command off the front of the buffer: the command and what is
-- behind it, from the blank or the terminator on.
pub split_line : List ℕ → List ℕ × List ℕ
split_line [] = ([], [])
split_line (c ∷ buf) =
    let rest = split_line buf in
    if not (c == 0) && not (c == b' ') then (c ∷ rest.0, rest.1) else ([], c ∷ buf)

-- `buf[i] == ' '? &buf[i+1]: ""`
abbrev pub argv_of : List ℕ → List ℕ
argv_of [] = []
argv_of (c ∷ rest) = if c == b' ' then up_to_end rest else []

-- `(cmd[0] == '/')? cmd: cmdbuf`, where `cmdbuf` is "/bin/" and the command.
abbrev pub path_of : List ℕ → List ℕ
path_of [] = b'/' ∷ b'b' ∷ b'i' ∷ b'n' ∷ b'/' ∷ []
path_of (c ∷ cmd) = if c == b'/' then c ∷ cmd else b'/' ∷ b'b' ∷ b'i' ∷ b'n' ∷ b'/' ∷ c ∷ cmd

abbrev pub exit_text : List ℕ
exit_text = b'e' ∷ b'x' ∷ b'i' ∷ b't' ∷ []

-- `streq(cmd, "exit")`
pub is_exit : List ℕ → Bool
is_exit cmd = elim (streq (cmd ++ (0 ∷ [])) (exit_text ++ (0 ∷ []))) [ none ↦ false | some b ↦ b ]

-- The bytes of `cmdbuf` behind "/bin/": a command and its terminator.
abbrev pub cmd_room : ℕ
cmd_room = 123

-- What a round of the shell comes to; `overflows` is a write behind `cmdbuf`.
pub data Round (S : Type 0) : Type 0 where
  goes_on : S → Round S
  leaves : S → Round S
  overflows : Round S

module _ {S : Type 0} (sys : Calls S) where
  -- The message for a command that exec does not run.
  pub complain : List ℕ → S → S
  complain cmd st =
      put_text sys
        (b'c' ∷ b'o' ∷ b'm' ∷ b'm' ∷ b'a' ∷ b'n' ∷ b'd' ∷ b' ' ∷ b'n' ∷ b'o' ∷ b't' ∷ b' ' ∷ b'f'
          ∷ b'o' ∷ b'u' ∷ b'n' ∷ b'd' ∷ b'\n' ∷ [])
        (put_text sys (b':' ∷ b' ' ∷ [])
          (put_text sys cmd (put_text sys (b's' ∷ b'h' ∷ b':' ∷ b' ' ∷ []) st)))

  -- What the shell does with the line in its buffer.
  pub run_line : List ℕ → S → Round S
  run_line [] st = goes_on st
  run_line (c ∷ buf) st =
      if c == 0
      then goes_on st
      else (let (cmd, rest) = split_line (c ∷ buf) in
          if leb cmd_room (length cmd)
          then overflows
          else (if is_exit cmd
              then leaves st
              else (let (res, st') = sys.exec_ (path_of cmd) (argv_of rest) st in
                  goes_on (if is_neg res then complain cmd st' else st'))))

  -- One round of the loop of sh.c: the buffer after it.
  pub sh_round : List ℕ → S → Round S × List ℕ
  unfolding run_line
  sh_round buf st =
      let (got, st') = sys.read_ (pos 0) 128 (put_text sys (b'$' ∷ b' ' ∷ []) st) in
      let buf' = set_end (fill_front got.0 buf) got.1 in (run_line buf' st', buf')

  -- `main` of sh.c, with the rounds left; `none` is also a write behind `cmdbuf`.
  pub sh : ℕ → List ℕ → S → Option (ℤ × S)
  unfolding sh_round
  sh zero buf st = none
  sh (suc rounds) buf st = elim (sh_round buf st).0 [
    | leaves st' ↦ some (pos 0, st')
    | overflows ↦ none
    | goes_on st' ↦ sh rounds (sh_round buf st).1 st'
  ]
