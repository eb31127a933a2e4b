-- ===== src/Loader/Abin.antt =====
-- What abin_load_file accepts, and what it puts where.
use strange_os.Prelude.{
  ℕ, ◌+◌, ◌≤◌, ◌≡◌, refl, ap, sym, ◌∙◌, true, false, not, ◌&&◌, none, some, arith, ltb, ◌==◌,
  if◌then◌else◌, Bool-cases, inl, inr,
}
use strange_os.Prelude.Int.{ℤ, pos, minus_one, is_neg}
use strange_os.Loader.{
  Bytes, word, base, bad_signature, abin_header, abin_entry, abin_size, abin_load_file,
}

entry_lem : (ent : ℕ) → abin_entry ent ≡ (if ltb ent base then base + ent else ent)
unfolding abin_entry
entry_lem ent = ground arith

signature_lem :
    (len : ℕ) (file junk : Bytes)
    → 9 ≤ len
    → not (bad_signature (abin_header len file junk))
      ≡ ((file 5 == 0) && ((file 6 == b'A') && (file 7 == b'B')))
signature_lem len file junk h = ground arith

entry_word :
    (len : ℕ) (file junk : Bytes) → 9 ≤ len → word (abin_header len file junk) 1 ≡ word file 1
entry_word len file junk h = ground arith

memory_lem :
    (len : ℕ) (file junk mem : Bytes) (x : ℕ)
    → 9 ≤ len
    → (if ltb x abin_size
        then abin_header len file junk x
        else (if ltb x len then file x else mem x))
      ≡ (if ltb x len then file x else mem x)
memory_lem len file junk mem x h = ground arith

-- abin_load_file of a file of at least 9 bytes loads it exactly if it opens and has the signature:
-- the memory then begins with the file and is otherwise as it was, and the entry point is that of
-- the header, moved into the memory if it lies below it; if not, the result is -1, and neither
-- memory nor entry point is set.
pub abin_load_file_lem :
    (opened : ℤ) (len : ℕ) (file junk mem : Bytes) (x : ℕ)
    → 9 ≤ len
    → let (result, loaded, entry) = abin_load_file opened len file junk mem in
      let ok = not (is_neg opened) && ((file 5 == 0) && ((file 6 == b'A') && (file 7 == b'B'))) in
      (result ≡ (if ok then pos 0 else minus_one))
      × (loaded x ≡ (if ok && ltb x len then file x else mem x))
      × (entry ≡ (
          if ok
          then some (if ltb (word file 1) base then base + word file 1 else word file 1)
          else none))
unfolding abin_load_file
abin_load_file_lem opened len file junk mem x h =
    let signed = signature_lem len file junk h in
    let entry = entry_lem (word (abin_header len file junk) 1) in
    let at = entry_word len file junk h in
    elim (Bool-cases (is_neg opened)) [
      | inl e ↦ rw e (refl, refl, refl)
      | inr e ↦ elim (Bool-cases (bad_signature (abin_header len file junk))) [
        | inl bad ↦
            let no : ((file 5 == 0) && ((file 6 == b'A') && (file 7 == b'B'))) ≡ false =
              sym signed ∙ ap not bad in
            rw (e, bad, no) (refl, refl, refl)
        | inr good ↦
            let yes_ : ((file 5 == 0) && ((file 6 == b'A') && (file 7 == b'B'))) ≡ true =
              sym signed ∙ ap not good in
            rw (e, good, yes_)
              (refl, memory_lem len file junk mem x h, ap some (entry ∙ rw at refl))
      ]
    ]
