-- ===== src/User/Cat.antt =====
-- What cat and ls print, over calls that read a file and write to the standard output.
use mathlib.Core.List.{append_assoc, append-nil}
use strange_os.Prelude.{
  ℕ, zero, suc, ◌+◌, ◌*◌, ◌≤◌, ◌<◌, ◌≡◌, refl, sym, ap, ◌∙◌, true, false, none, some, List, [], ◌∷◌,
  ◌++◌, arith, ◌==◌, ==_iff, length, take, drop, take-append-drop, length-take, length-drop,
  get_elem?, length-append, Bool-cases, inl, inr,
}
use mathlib.Core.Path.{subst}
use strange_os.Prelude.Int.{ℤ, pos, is_neg}
use strange_os.Str.Copy.{take-append_self}
use strange_os.User.{Calls, fill_front, is_count, put_text, cat_loop, cat, ls_loop, ls, mode_text}

-- Calls with an open file behind `fd`, in the states of `Ok`: a read takes from what is left of the file
-- (`rest`), and a write to the standard output adds to what is there (`out`).
pub record IsSystem {S V : Type 0} (sys : Calls S) (fd : ℤ) (Ok : S → Type 0) (rest : S → List ℕ)
    (out : S → V) (add : V → List ℕ → V) : Type 0 where
  pub add_nil : (v : V) → add v [] ≡ v
  pub add_append : (v : V) (s t : List ℕ) → add (add v s) t ≡ add v (s ++ t)
  pub read :
      (st : S)
      → Ok st
      → (sys.read_ fd 512 st).0 ≡ (take 512 (rest st), pos (length (take 512 (rest st))))
  pub read_ok : (st : S) → Ok st → Ok (sys.read_ fd 512 st).1
  pub read_rest : (st : S) → Ok st → rest (sys.read_ fd 512 st).1 ≡ drop 512 (rest st)
  pub read_out : (st : S) → Ok st → out (sys.read_ fd 512 st).1 ≡ out st
  pub write_ok :
      (buf : List ℕ) (n : ℕ) (st : S)
      → Ok st
      → n ≤ length buf
      → n ≤ 512
      → Ok (sys.write_ (pos 1) buf (pos n) st)
  pub write_rest :
      (buf : List ℕ) (n : ℕ) (st : S)
      → Ok st
      → n ≤ length buf
      → n ≤ 512
      → rest (sys.write_ (pos 1) buf (pos n) st) ≡ rest st
  pub write_out :
      (buf : List ℕ) (n : ℕ) (st : S)
      → Ok st
      → n ≤ length buf
      → n ≤ 512
      → out (sys.write_ (pos 1) buf (pos n) st) ≡ add (out st) (take n buf)

pub take_all : (n : ℕ) (s : List ℕ) → length s ≤ n → take n s ≡ s
take_all zero [] h = refl
take_all zero (c ∷ s) h = absurd (omega arith)
take_all (suc n) [] h = refl
take_all (suc n) (c ∷ s) h = ap (λ t. c ∷ t) (take_all n s (omega arith))

pub shorter : (s : List ℕ) → (length (take 512 s) == 512) ≡ false → length s ≤ 512
shorter s e = let size = length-take 512 s in ground arith

module _ {S V : Type 0} (sys : Calls S) (fd : ℤ) (Ok : S → Type 0) (rest : S → List ℕ) (out : S → V)
    (add : V → List ℕ → V) (laws : IsSystem sys fd Ok rest out add) where
  -- What a read gives.
  abbrev got : S → List ℕ
  got st = take 512 (rest st)

  got_size : (st : S) → length (got st) ≤ 512
  got_size st = omega (arith, length-take 512 (rest st))

  -- The state once a part of the file is read and written.
  abbrev copied : List ℕ → S → S
  copied buf st =
      sys.write_ (pos 1) (fill_front (sys.read_ fd 512 st).0.0 buf) (sys.read_ fd 512 st).0.1
        (sys.read_ fd 512 st).1

  copied_is :
      (buf : List ℕ) (st : S)
      → Ok st
      → copied buf st
        ≡ sys.write_
            (pos 1)
            (fill_front (got st) buf)
            (pos (length (got st)))
            (sys.read_ fd 512 st).1
  copied_is buf st ok =
      ap (λ r. sys.write_ (pos 1) (fill_front r.0 buf) r.1 (sys.read_ fd 512 st).1)
        (laws.read st ok)

  in_buffer : (buf : List ℕ) (st : S) → length (got st) ≤ length (fill_front (got st) buf)
  in_buffer buf st = omega (arith, length-append (got st) (drop (length (got st)) buf))

  copied_ok : (buf : List ℕ) (st : S) → Ok st → Ok (copied buf st)
  copied_ok buf st ok = subst Ok (sym (copied_is buf st ok)) (
      laws.write_ok (fill_front (got st) buf) (length (got st)) (sys.read_ fd 512 st).1
        (laws.read_ok st ok) (in_buffer buf st) (got_size st))

  copied_rest : (buf : List ℕ) (st : S) → Ok st → rest (copied buf st) ≡ drop 512 (rest st)
  copied_rest buf st ok =
      ap rest (copied_is buf st ok)
      ∙ laws.write_rest (fill_front (got st) buf) (length (got st)) (sys.read_ fd 512 st).1
          (laws.read_ok st ok) (in_buffer buf st) (got_size st)
      ∙ laws.read_rest st ok

  copied_out : (buf : List ℕ) (st : S) → Ok st → out (copied buf st) ≡ add (out st) (got st)
  copied_out buf st ok =
      ap out (copied_is buf st ok)
      ∙ laws.write_out (fill_front (got st) buf) (length (got st)) (sys.read_ fd 512 st).1
          (laws.read_ok st ok) (in_buffer buf st) (got_size st)
      ∙ ap (λ v. add v (take (length (got st)) (fill_front (got st) buf))) (laws.read_out st ok)
      ∙ ap (add (out st)) (take-append_self (got st) (drop (length (got st)) buf))

  cat_loop-more :
      (rounds : ℕ) (buf : List ℕ) (st : S)
      → is_count (sys.read_ fd 512 st).0.1 512 ≡ true
      → cat_loop sys (suc rounds) fd buf st
        ≡ cat_loop sys rounds fd (fill_front (sys.read_ fd 512 st).0.0 buf) (copied buf st)
  unfolding cat_loop
  cat_loop-more rounds buf st e = rw (cat_loop, e) refl

  cat_loop-last :
      (rounds : ℕ) (buf : List ℕ) (st : S)
      → is_count (sys.read_ fd 512 st).0.1 512 ≡ false
      → cat_loop sys (suc rounds) fd buf st ≡ some (copied buf st)
  unfolding cat_loop
  cat_loop-last rounds buf st e = rw (cat_loop, e) refl

  -- The whole of the file is behind what was written before.
  pub cat_loop_lem :
      (rounds : ℕ) (buf : List ℕ) (st : S)
      → Ok st
      → length (rest st) < 512 * rounds
      → (st' : S) × (cat_loop sys rounds fd buf st ≡ some st')
        × Ok st'
        × (out st' ≡ add (out st) (rest st))
  cat_loop_lem zero buf st ok lt = absurd (omega arith)
  cat_loop_lem (suc rounds) buf st ok lt =
      let count : is_count (sys.read_ fd 512 st).0.1 512 ≡ (length (got st) == 512) =
        ap (λ r. is_count r.1 512) (laws.read st ok) in
      elim (Bool-cases (length (got st) == 512)) [
        | inl full ↦
            let whole : length (got st) ≡ 512 = (==_iff (length (got st)) 512).0 full in
            let left : length (rest (copied buf st)) < 512 * rounds = omega (
              arith,
              ap length (copied_rest buf st ok),
              length-drop 512 (rest st),
              length-take 512 (rest st),
            ) in
            let (st', is, ok', says) =
              cat_loop_lem rounds (fill_front (sys.read_ fd 512 st).0.0 buf) (copied buf st)
                (copied_ok buf st ok) left in
            (
              st',
              cat_loop-more rounds buf st (count ∙ full) ∙ is,
              ok',
              says
                  ∙ ap (λ v. add v (rest (copied buf st))) (copied_out buf st ok)
                  ∙ ap (add (add (out st) (got st))) (copied_rest buf st ok)
                  ∙ laws.add_append (out st) (got st) (drop 512 (rest st))
                  ∙ ap (add (out st)) (take-append-drop 512 (rest st)),
            )
        | inr part ↦
            let short : length (rest st) ≤ 512 = shorter (rest st) part in
            (
              copied buf st,
              cat_loop-last rounds buf st (count ∙ part),
              copied_ok buf st ok,
              copied_out buf st ok ∙ ap (add (out st)) (take_all 512 (rest st) short),
            )
      ]

  -- Over calls whose reads of the open file take from what is left of it and whose writes to the
  -- standard output add to what is there, as those of a program on the kernel do, cat of a file
  -- that opens ends within one round for every 512 bytes and one more: it adds the whole of the
  -- file to the output, closes it and returns 0.
  pub cat_lem :
      (rounds : ℕ) (argv buf : List ℕ) (st st₁ : S)
      → is_neg fd ≡ false
      → sys.open_ argv mode_text st ≡ (fd, st₁)
      → Ok st₁
      → length (rest st₁) < 512 * rounds
      → (st' : S) × (cat sys rounds argv buf st ≡ some (pos 0, sys.close_ fd st'))
        × Ok st'
        × (out st' ≡ add (out st₁) (rest st₁))
  unfolding cat
  cat_lem rounds argv buf st st₁ nonneg opens ok lt =
      let (st', is, ok', says) = cat_loop_lem rounds buf st₁ ok lt in
      (st', rw (cat, opens, nonneg, is) refl, ok', says)

-- A write of a text to the standard output puts it behind what is there.
pub record IsOutput {S : Type 0} (sys : Calls S) (out : S → List ℕ) : Type 0 where
  pub write_out :
      (buf : List ℕ) (n : ℕ) (st : S)
      → out (sys.write_ (pos 1) buf (pos n) st) ≡ out st ++ take n buf

-- The names, each on a line of its own.
unfoldable pub lines : List (List ℕ) → List ℕ
lines [] = []
lines (s ∷ names) = s ++ ((b'\n' ∷ []) ++ lines names)

-- A directory with these names behind the descriptor: reading it leaves what is printed.
pub record IsListing {S : Type 0} (sys : Calls S) (out : S → List ℕ) (fd : ℤ)
    (names : List (List ℕ)) : Type 0 where
  pub name : (i : ℕ) (st : S) → (sys.readdir_ fd i st).0 ≡ get_elem? names i
  pub keeps : (i : ℕ) (st : S) → out (sys.readdir_ fd i st).1 ≡ out st

module _ {S : Type 0} (sys : Calls S) (out : S → List ℕ) (laws : IsOutput sys out) where
  take_whole : (s : List ℕ) → take (length s) s ≡ s
  take_whole s = ap (take (length s)) (sym (append-nil s)) ∙ take-append_self s []

  put_text_out : (s : List ℕ) (st : S) → out (put_text sys s st) ≡ out st ++ s
  put_text_out s st = laws.write_out s (length s) st ∙ ap (λ t. out st ++ t) (take_whole s)

  -- One name on a line of its own.
  abbrev put_line : List ℕ → S → S
  put_line s st = put_text sys (b'\n' ∷ []) (put_text sys s st)

  put_line_out : (s : List ℕ) (st : S) → out (put_line s st) ≡ out st ++ (s ++ (b'\n' ∷ []))
  put_line_out s st =
      put_text_out (b'\n' ∷ []) (put_text sys s st)
      ∙ ap (λ t. t ++ (b'\n' ∷ [])) (put_text_out s st)
      ∙ append_assoc (out st) s (b'\n' ∷ [])

  ls_loop-name :
      (rounds i : ℕ) (fd : ℤ) (st : S) (s : List ℕ)
      → (sys.readdir_ fd i st).0 ≡ some s
      → ls_loop sys (suc rounds) fd i st
        ≡ ls_loop sys rounds fd (i + 1) (put_line s (sys.readdir_ fd i st).1)
  unfolding ls_loop
  ls_loop-name rounds i fd st s e = rw (ls_loop, e) refl

  ls_loop-end :
      (rounds i : ℕ) (fd : ℤ) (st : S)
      → (sys.readdir_ fd i st).0 ≡ none
      → ls_loop sys (suc rounds) fd i st ≡ some (sys.readdir_ fd i st).1
  unfolding ls_loop
  ls_loop-end rounds i fd st e = rw (ls_loop, e) refl

  -- From name `i` on, which are those of `more`.
  ls_loop_lem :
      (rounds i : ℕ) (fd : ℤ) (names more : List (List ℕ)) (st : S)
      → IsListing sys out fd names
      → ((j : ℕ) → get_elem? names (i + j) ≡ get_elem? more j)
      → length more < rounds
      → (st' : S) × (ls_loop sys rounds fd i st ≡ some st') × (out st' ≡ out st ++ lines more)
  unfolding lines
  ls_loop_lem zero i fd names more st h at lt = absurd (omega arith)
  ls_loop_lem (suc rounds) i fd names [] st h at lt = (
    (sys.readdir_ fd i st).1,
    ls_loop-end rounds i fd st (h.name i st ∙ ap (get_elem? names) (omega arith) ∙ at 0),
    h.keeps i st ∙ sym (append-nil (out st)),
  )
  ls_loop_lem (suc rounds) i fd names (s ∷ more) st h at lt =
      let st₁ : S = (sys.readdir_ fd i st).1 in
      let (st', is, says) =
        ls_loop_lem rounds (i + 1) fd names more (put_line s st₁) h
          (λ j. ap (get_elem? names) (omega arith) ∙ at (suc j)) (omega arith) in
      (
        st',
        ls_loop-name rounds i fd st s (h.name i st ∙ ap (get_elem? names) (omega arith) ∙ at 0)
            ∙ is,
        says
            ∙ ap (λ t. t ++ lines more) (put_line_out s st₁)
            ∙ append_assoc (out st₁) (s ++ (b'\n' ∷ [])) (lines more)
            ∙ ap (λ t. out st₁ ++ t) (append_assoc s (b'\n' ∷ []) (lines more))
            ∙ ap (λ t. t ++ (s ++ ((b'\n' ∷ []) ++ lines more))) (h.keeps i st),
      )

  -- ls of a directory that opens prints its names in their order, each on a line, closes it and
  -- returns 0, within one round for every name and one more.
  pub ls_lem :
      (rounds fd : ℕ) (argv : List ℕ) (names : List (List ℕ)) (st st₁ : S)
      → sys.open_ argv mode_text st ≡ (pos fd, st₁)
      → IsListing sys out (pos fd) names
      → length names < rounds
      → (st' : S) × (ls sys rounds argv st ≡ some (pos 0, sys.close_ (pos fd) st'))
        × (out st' ≡ out st₁ ++ lines names)
  unfolding ls
  ls_lem rounds fd argv names st st₁ opens listing lt =
      let (st', is, says) =
        ls_loop_lem rounds 0 (pos fd) names names st₁ listing
          (λ j. ap (get_elem? names) (omega arith)) lt in
      (st', rw (ls, opens, is) refl, says)
