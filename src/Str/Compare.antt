-- ===== src/Str/Compare.antt =====
-- What strcmp, kstreq, streq and strchr tell of two texts.
use strange_os.Prelude.{
  ℕ, ◌+◌, ◌<◌, ◌≡◌, ◌≢◌, ◌↔◌, refl, sym, ap, ◌∙◌, Bool, true, false, ◌&&◌, ◌||◌, some, List, [],
  ◌∷◌, ◌++◌, arith, ◌==◌, length, get_or, Bool-cases, inl, inr,
}
use mathlib.Core.Path.{subst}
use strange_os.Prelude.Int.{pos}
use strange_os.Str.{strcmp, strcmp_end, kstreq, kstreq_loop, streq, strchr, strchr_loop, at, null}
use strange_os.Str.Copy.{IsText, c_string, strlen_lem, append_snoc, length-snoc}

-- Whether two texts agree as far as the shorter one goes.
abbrev pub prefix_of_other : List ℕ → List ℕ → Bool
prefix_of_other [] t = true
prefix_of_other (c ∷ s) [] = true
prefix_of_other (c ∷ s) (d ∷ t) = (c == d) && prefix_of_other s t

abbrev pub same_text : List ℕ → List ℕ → Bool
same_text [] [] = true
same_text [] (d ∷ t) = false
same_text (c ∷ s) [] = false
same_text (c ∷ s) (d ∷ t) = (c == d) && same_text s t

abbrev pub AllBytes : List ℕ → Type 0
AllBytes [] = Unit {0}
AllBytes (c ∷ s) = (c < 256) × AllBytes s

-- strcmp of two texts of bytes answers 0 exactly when one is a prefix of the other, so not only
-- for equal texts.
pub strcmp-zero :
    (s t r r' : List ℕ)
    → IsText s
    → IsText t
    → AllBytes s
    → AllBytes t
    → (strcmp (c_string s r) (c_string t r') ≡ some (pos 0)) ↔ (prefix_of_other s t ≡ true)
unfolding strcmp strcmp_end
strcmp-zero [] [] r r' hs ht bs bt = ground arith
strcmp-zero [] (d ∷ t) r r' hs ht bs bt = ground arith
strcmp-zero (c ∷ s) [] r r' hs ht bs bt = ground arith
strcmp-zero (c ∷ s) (d ∷ t) r r' hs ht bs bt = elim (Bool-cases (c == d)) [
  | inl e ↦
      let ih = strcmp-zero s t r r' hs.1 ht.1 bs.1 bt.1 in
      (λ h. ground (arith, ih.0), λ h. ground (arith, ih.1))
  | inr e ↦ (λ h. absurd (ground arith), λ h. absurd (ground arith))
]

same_text-length : (s t : List ℕ) → length s ≢ length t → same_text s t ≡ false
same_text-length [] [] h = absurd (h refl)
same_text-length [] (d ∷ t) h = refl
same_text-length (c ∷ s) [] h = refl
same_text-length (c ∷ s) (d ∷ t) h = ground (arith, same_text-length s t)

get_or-append : (pre s : List ℕ) (x : ℕ) → get_or (pre ++ (x ∷ s)) (length pre) 0 ≡ x
get_or-append [] s x = refl
get_or-append (y ∷ pre) s x = get_or-append pre s x

kstreq_loop_lem :
    (s t r r' pre pre' : List ℕ) (i : ℕ)
    → i ≡ length pre
    → i ≡ length pre'
    → length s ≡ length t
    → kstreq_loop (length s) i (pre ++ c_string s r) (pre' ++ c_string t r') ≡ same_text s t
unfolding kstreq_loop
kstreq_loop_lem [] [] r r' pre pre' i e e' l = refl
kstreq_loop_lem [] (d ∷ t) r r' pre pre' i e e' l = absurd (omega arith)
kstreq_loop_lem (c ∷ s) [] r r' pre pre' i e e' l = absurd (omega arith)
kstreq_loop_lem (c ∷ s) (d ∷ t) r r' pre pre' i e e' l = ground (
  arith,
  get_or-append pre (c_string s r) c,
  get_or-append pre' (c_string t r') d,
  append_snoc pre (c_string s r) c,
  append_snoc pre' (c_string t r') d,
  length-snoc pre c,
  length-snoc pre' d,
  kstreq_loop_lem s t r r' (pre ++ (c ∷ [])) (pre' ++ (d ∷ [])) (i + 1),
)

-- kstreq decides whether two texts are equal.
pub kstreq_lem :
    (s t r r' : List ℕ)
    → IsText s
    → IsText t
    → kstreq (c_string s r) (c_string t r') ≡ some (same_text s t)
unfolding kstreq
kstreq_lem s t r r' hs ht = ground (
  arith,
  strlen_lem s r hs,
  strlen_lem t r' ht,
  kstreq_loop_lem s t r r' [] [] 0,
  same_text-length s t,
)

-- So does the shell's own comparison.
pub streq_lem :
    (s t r r' : List ℕ)
    → IsText s
    → IsText t
    → streq (c_string s r) (c_string t r') ≡ some (same_text s t)
unfolding streq
streq_lem [] [] r r' hs ht = refl
streq_lem [] (d ∷ t) r r' hs ht = ground arith
streq_lem (c ∷ s) [] r r' hs ht = ground arith
streq_lem (c ∷ s) (d ∷ t) r r' hs ht = ground (arith, streq_lem s t r r' hs.1 ht.1)

-- `same_text` is the equation of lists.
pub same_text-eq : (s t : List ℕ) → (same_text s t ≡ true) ↔ (s ≡ t)
same_text-eq s t = (sound s t, λ e. subst (λ u. same_text s u ≡ true) e (self s))
  where
    sound : (s t : List ℕ) → same_text s t ≡ true → s ≡ t
    sound [] [] h = refl
    sound [] (d ∷ t) h = cc
    sound (c ∷ s) [] h = cc
    sound (c ∷ s) (d ∷ t) h = ground (arith, sound s t)

    self : (s : List ℕ) → same_text s s ≡ true
    self [] = refl
    self (c ∷ s) = ground (arith, self s)

-- kstreq says yes exactly to equal texts, and the shell's streq answers as kstreq does.
pub kstreq_iff :
    (s t r r' : List ℕ)
    → IsText s
    → IsText t
    → ((kstreq (c_string s r) (c_string t r') ≡ some true) ↔ (s ≡ t))
      × (streq (c_string s r) (c_string t r') ≡ kstreq (c_string s r) (c_string t r'))
kstreq_iff s t r r' hs ht =
    let same : kstreq (c_string s r) (c_string t r') ≡ some (same_text s t) =
      kstreq_lem s t r r' hs ht in
    (
      (λ h. (same_text-eq s t).0 (ground arith), λ e. same ∙ ap some ((same_text-eq s t).1 e)),
      streq_lem s t r r' hs ht ∙ sym same,
    )

abbrev pub contains : List ℕ → ℕ → Bool
contains [] c = false
contains (d ∷ s) c = (d == c) || contains s c

strchr_loop_found :
    (p q : List ℕ) (c i : ℕ)
    → IsText p
    → c ≢ 0
    → contains p c ≡ false
    → strchr_loop (p ++ (c ∷ q)) c i ≡ at (i + length p)
unfolding strchr_loop
strchr_loop_found [] q c i h ne out = ground arith
strchr_loop_found (d ∷ p) q c i h ne out = ground (arith, strchr_loop_found p q c (i + 1) h.1)

strchr_loop-null :
    (s r : List ℕ) (c i : ℕ)
    → IsText s
    → contains s c ≡ false
    → strchr_loop (c_string s r) c i ≡ null
unfolding strchr_loop
strchr_loop-null [] r c i h out = ground arith
strchr_loop-null (d ∷ s) r c i h out = ground (arith, strchr_loop-null s r c (i + 1) h.1)

-- strchr points at the first `c` of a text, and is NULL if the text has none.
pub strchr_lem :
    (p q s r : List ℕ) (c : ℕ)
    → IsText p
    → IsText s
    → c ≢ 0
    → contains p c ≡ false
    → contains s c ≡ false
    → (strchr (p ++ (c ∷ q)) c ≡ at (length p)) × (strchr (c_string s r) c ≡ null)
unfolding strchr
strchr_lem p q s r c hp hs ne op os =
    (strchr_loop_found p q c 0 hp ne op ∙ ap at (omega arith), strchr_loop-null s r c 0 hs os)
