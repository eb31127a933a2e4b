-- ===== src/User/Hexd/Dump.antt =====
-- What hexd prints, in blocks of 512 bytes, is the dump of the whole file.
use strange_os.Prelude.{
  ℕ, zero, suc, ◌+◌, ◌*◌, ◌/◌, ◌%◌, ◌^◌, ◌≤◌, ◌<◌, ◌≡◌, refl, sym, ap, ◌∙◌, true, false, some, List,
  [], ◌∷◌, ◌++◌, arith, ◌==◌, ==_iff, length, take, drop, length-take, length-drop, Bool-cases, inl,
  inr, leb,
}
use strange_os.Prelude.Int.{ℤ, pos, is_neg}
use strange_os.Str.Copy.{take-append_self}
use strange_os.User.{Calls, fill_front, is_count, put_text, mode_text}
use mathlib.Core.Path.{subst}
use strange_os.Stdlib.{std_hex_digit}
use strange_os.User.Hexd.Digit.{digit_text_lem}
use strange_os.User.Cat.{IsSystem, shorter, take_all}
use strange_os.User.Hexd.{
  digit_text, next_addr, put_bytes, print_byte, print_word, print_row, print_rows, bytes_read,
  hexd_loop, hexd,
}
use strange_os.User.Hexd.Rows.{
  byte_text, word_text, bytes_text, row_text, dump, after, dump-add, dump-more, leb-true,
}

module _ {S V : Type 0} (sys : Calls S) (fd : ℤ) (Ok : S → Type 0) (rest : S → List ℕ) (out : S → V)
    (add : V → List ℕ → V) (laws : IsSystem sys fd Ok rest out add) where
  -- What a step does: it prints a text, and leaves the file.
  abbrev Prints : (S → S) → List ℕ → Type 0
  Prints f s =
      (st : S) → Ok st → Ok (f st) × (rest (f st) ≡ rest st) × (out (f st) ≡ add (out st) s)

  nothing-Prints : Prints (λ st. st) []
  nothing-Prints st ok = (ok, refl, sym (laws.add_nil (out st)))

  then-Prints :
      (f g : S → S) (s t : List ℕ) → Prints f s → Prints g t → Prints (λ st. g (f st)) (s ++ t)
  then-Prints f g s t hf hg st ok =
      let (ok₁, kept, says) = hf st ok in
      let (ok₂, kept', says') = hg (f st) ok₁ in
      (ok₂, kept' ∙ kept, says' ∙ ap (λ v. add v t) says ∙ laws.add_append (out st) s t)

  put_text-Prints : (s : List ℕ) → length s ≤ 512 → Prints (put_text sys s) s
  put_text-Prints s short st ok = (
    laws.write_ok s (length s) st ok (omega arith) short,
    laws.write_rest s (length s) st ok (omega arith) short,
    laws.write_out s (length s) st ok (omega arith) short
        ∙ ap (add (out st)) (take_all (length s) s (omega arith)),
  )

  put_bytes-Prints : (s : List ℕ) → Prints (put_bytes sys s) s
  unfolding put_bytes
  put_bytes-Prints [] = nothing-Prints
  put_bytes-Prints (c ∷ s) =
      then-Prints (put_text sys (c ∷ [])) (put_bytes sys s) (c ∷ []) s
        (put_text-Prints (c ∷ []) (omega arith)) (put_bytes-Prints s)

  put_digit-Prints : (x : ℕ) → x < 16 → Prints (put_bytes sys (digit_text x)) (std_hex_digit x ∷ [])
  put_digit-Prints x lt =
      subst (λ s. Prints (put_bytes sys s) (std_hex_digit x ∷ [])) (sym (digit_text_lem x lt))
        (put_bytes-Prints (std_hex_digit x ∷ []))

  print_byte-Prints : (h : ℕ) → Prints (print_byte sys h) (byte_text h)
  unfolding print_byte
  print_byte-Prints h =
      then-Prints (put_bytes sys (digit_text (h / 16 % 16))) (put_bytes sys (digit_text (h % 16)))
        (std_hex_digit (h / 16 % 16) ∷ []) (std_hex_digit (h % 16) ∷ [])
        (put_digit-Prints (h / 16 % 16) (omega arith)) (put_digit-Prints (h % 16) (omega arith))

  print_word-Prints : (h : ℕ) → Prints (print_word sys h) (word_text h)
  unfolding print_word print_byte
  print_word-Prints h =
      let digit : ℕ → S → S = λ x. put_bytes sys (digit_text x) in
      let high =
        then-Prints (digit (h / 2 ^ 12 % 16)) (digit (h / 2 ^ 8 % 16))
          (std_hex_digit (h / 2 ^ 12 % 16) ∷ []) (std_hex_digit (h / 2 ^ 8 % 16) ∷ [])
          (put_digit-Prints (h / 2 ^ 12 % 16) (omega arith))
          (put_digit-Prints (h / 2 ^ 8 % 16) (omega arith)) in
      then-Prints (λ st. digit (h / 2 ^ 8 % 16) (digit (h / 2 ^ 12 % 16) st))
        (λ st. print_byte sys h st)
        (std_hex_digit (h / 2 ^ 12 % 16) ∷ std_hex_digit (h / 2 ^ 8 % 16) ∷ []) (byte_text h) high
        (print_byte-Prints h)

  print_row-Prints : (row : List ℕ) → Prints (print_row sys row) (bytes_text row)
  unfolding print_row bytes_text
  print_row-Prints [] = nothing-Prints
  print_row-Prints (c ∷ row) =
      then-Prints (print_byte sys c) (λ st. print_row sys row (put_text sys (b' ' ∷ []) st))
        (byte_text c) (b' ' ∷ bytes_text row) (print_byte-Prints c)
        (then-Prints (put_text sys (b' ' ∷ [])) (print_row sys row) (b' ' ∷ []) (bytes_text row)
          (put_text-Prints (b' ' ∷ []) (omega arith)) (print_row-Prints row))

  -- A row.
  abbrev one_row : ℕ → List ℕ → S → S
  one_row addr row st =
      put_text sys (b'\n' ∷ [])
        (print_row sys row (put_text sys (b' ' ∷ b'|' ∷ b' ' ∷ []) (print_word sys addr st)))

  one_row-Prints : (addr : ℕ) (row : List ℕ) → Prints (one_row addr row) (row_text addr row)
  one_row-Prints addr row =
      let bar : List ℕ = b' ' ∷ b'|' ∷ b' ' ∷ [] in
      let ends =
        then-Prints (print_row sys row) (put_text sys (b'\n' ∷ [])) (bytes_text row) (b'\n' ∷ [])
          (print_row-Prints row) (put_text-Prints (b'\n' ∷ []) (omega arith)) in
      then-Prints (print_word sys addr)
        (λ st. put_text sys (b'\n' ∷ []) (print_row sys row (put_text sys bar st))) (word_text addr)
        _ (print_word-Prints addr)
        (then-Prints (put_text sys bar) (λ st. put_text sys (b'\n' ∷ []) (print_row sys row st)) bar
          _ (put_text-Prints bar (omega arith)) ends)

  print_rows_lem :
      (n addr : ℕ) (s : List ℕ) (st : S)
      → Ok st
      → ((print_rows sys n addr s st).0 ≡ after n addr s)
        × Ok (print_rows sys n addr s st).1
        × (rest (print_rows sys n addr s st).1 ≡ rest st)
        × (out (print_rows sys n addr s st).1 ≡ add (out st) (dump n addr s))
  unfolding print_rows after dump
  print_rows_lem zero addr s st ok = (refl, ok, refl, sym (laws.add_nil (out st)))
  print_rows_lem (suc n) addr [] st ok = (refl, ok, refl, sym (laws.add_nil (out st)))
  print_rows_lem (suc n) addr (c ∷ s) st ok =
      let row : List ℕ = c ∷ take 7 s in
      let (ok₁, kept, says) = one_row-Prints addr row st ok in
      let (at, ok₂, kept', says') =
        print_rows_lem n (next_addr addr row) (drop 7 s) (one_row addr row st) ok₁ in
      (
        at,
        ok₂,
        kept' ∙ kept,
        says'
            ∙ ap (λ v. add v (dump n (next_addr addr row) (drop 7 s))) says
            ∙ laws.add_append (out st) (row_text addr row) (dump n (next_addr addr row) (drop 7 s)),
      )

  -- The bytes of a read.
  abbrev got : S → List ℕ
  got st = take 512 (rest st)

  bytes_read_lem :
      (buf : List ℕ) (st : S)
      → Ok st
      → bytes_read sys (sys.read_ fd 512 st).0.1 (fill_front (sys.read_ fd 512 st).0.0 buf)
        ≡ some (got st)
  bytes_read_lem buf st ok =
      let fits : leb (length (got st)) 512 ≡ true =
        leb-true (length (got st)) 512 (omega (arith, length-take 512 (rest st))) in
      ap (λ r. bytes_read sys r.1 (fill_front r.0 buf)) (laws.read st ok)
      ∙ rw fits (ap some (take-append_self (got st) (drop (length (got st)) buf)))

  abbrev rows_of : ℕ → S → ℕ × S
  rows_of addr st = print_rows sys 64 addr (got st) (sys.read_ fd 512 st).1

  hexd_loop-more :
      (rounds addr : ℕ) (buf : List ℕ) (st : S)
      → Ok st
      → is_count (sys.read_ fd 512 st).0.1 512 ≡ true
      → hexd_loop sys (suc rounds) addr fd buf st
        ≡ hexd_loop sys rounds
            (rows_of addr st).0
            fd
            (fill_front (sys.read_ fd 512 st).0.0 buf)
            (rows_of addr st).1
  unfolding hexd_loop
  hexd_loop-more rounds addr buf st ok e = rw (hexd_loop, bytes_read_lem buf st ok, e) refl

  hexd_loop-last :
      (rounds addr : ℕ) (buf : List ℕ) (st : S)
      → Ok st
      → is_count (sys.read_ fd 512 st).0.1 512 ≡ false
      → hexd_loop sys (suc rounds) addr fd buf st ≡ some (rows_of addr st).1
  unfolding hexd_loop
  hexd_loop-last rounds addr buf st ok e = rw (hexd_loop, bytes_read_lem buf st ok, e) refl

  pub hexd_loop_lem :
      (rounds addr : ℕ) (buf : List ℕ) (st : S)
      → Ok st
      → length (rest st) < 512 * rounds
      → (st' : S) × (hexd_loop sys rounds addr fd buf st ≡ some st')
        × Ok st'
        × (out st' ≡ add (out st) (dump (64 * rounds) addr (rest st)))
  hexd_loop_lem zero addr buf st ok lt = absurd (omega arith)
  hexd_loop_lem (suc rounds) addr buf st ok lt =
      let count : is_count (sys.read_ fd 512 st).0.1 512 ≡ (length (got st) == 512) =
        ap (λ r. is_count r.1 512) (laws.read st ok) in
      let (at, ok₁, kept, says) =
        print_rows_lem 64 addr (got st) (sys.read_ fd 512 st).1 (laws.read_ok st ok) in
      let size : 64 * suc rounds ≡ 64 + 64 * rounds = omega arith in
      let left : rest (rows_of addr st).1 ≡ drop 512 (rest st) = kept ∙ laws.read_rest st ok in
      let said : out (rows_of addr st).1 ≡ add (out st) (dump 64 addr (got st)) =
        says ∙ ap (λ v. add v (dump 64 addr (got st))) (laws.read_out st ok) in
      elim (Bool-cases (length (got st) == 512)) [
        | inl full ↦
            let whole : length (got st) ≡ 512 = (==_iff (length (got st)) 512).0 full in
            let more : length (rest (rows_of addr st).1) < 512 * rounds =
              omega (arith, ap length left, length-drop 512 (rest st), length-take 512 (rest st)) in
            let (st', is, ok₂, says') =
              hexd_loop_lem rounds (rows_of addr st).0 (fill_front (sys.read_ fd 512 st).0.0 buf)
                (rows_of addr st).1 ok₁ more in
            let parts =
              dump-add 64 (64 * rounds) addr (rest st) (omega (arith, length-take 512 (rest st))) in
            (
              st',
              hexd_loop-more rounds addr buf st ok (count ∙ full) ∙ is,
              ok₂,
              says'
                  ∙ ap
                      (λ v.
                        add v (dump (64 * rounds) (rows_of addr st).0 (rest (rows_of addr st).1)))
                      said
                  ∙ laws.add_append (out st) (dump 64 addr (got st)) _
                  ∙ rw (at, left, size) (ap (add (out st)) (sym parts)),
            )
        | inr part ↦
            let short : length (rest st) ≤ 512 = shorter (rest st) part in
            (
              (rows_of addr st).1,
              hexd_loop-last rounds addr buf st ok (count ∙ part),
              ok₁,
              said
                  ∙ rw (take_all 512 (rest st) short, size)
                      (ap (add (out st)) (sym (dump-more 64 (64 * rounds) addr (rest st) short))),
            )
      ]

  -- Over calls whose reads of the open file take from what is left of it and whose writes to the
  -- standard output add to what is there, as those of a program on the kernel do, hexd of a file
  -- that opens and has fewer than 512 bytes for every round prints, over its reads of 512 bytes,
  -- the rows that the dump of the whole file has: each is the address, of 16 bits, in four
  -- hexadecimal digits, and up to eight bytes in two. It then closes the file and returns 0.
  pub hexd_lem :
      (rounds : ℕ) (argv buf : List ℕ) (st st₁ : S)
      → is_neg fd ≡ false
      → sys.open_ argv mode_text st ≡ (fd, st₁)
      → Ok st₁
      → length (rest st₁) < 512 * rounds
      → (st' : S) × (hexd sys rounds argv buf st ≡ some (pos 0, sys.close_ fd st'))
        × Ok st'
        × (out st' ≡ add (out st₁) (dump (64 * rounds) 0 (rest st₁)))
  unfolding hexd
  hexd_lem rounds argv buf st st₁ nonneg opens ok lt =
      let (st', is, ok', says) = hexd_loop_lem rounds 0 buf st₁ ok lt in
      (st', rw (hexd, opens, nonneg, is) refl, ok', says)
