-- ===== src/Str/Copy.antt =====
-- What memcpy, memset and strcpy of string.c write.
use strange_os.Prelude.{
  ℕ, zero, suc, ◌+◌, ◌≤◌, ◌<◌, ◌≡◌, ◌≢◌, refl, ap, some, List, [], ◌∷◌, ◌++◌, arith, length,
  get_elem?, set, take, drop, replicate, length-append,
}
use strange_os.Str.{
  strlen, strlen_loop, memcpy, memcpy_loop, memset, memset_loop, strcpy, store_end,
}

-- No byte is the terminator.
abbrev pub IsText : List ℕ → Type 0
IsText [] = Unit {0}
IsText (c ∷ s) = (c ≢ 0) × IsText s

-- The object that holds a text: the text, its terminator, and whatever lies behind.
abbrev pub c_string : List ℕ → List ℕ → List ℕ
c_string s rest = s ++ (0 ∷ rest)

strlen_loop_lem :
    (s rest : List ℕ) (n : ℕ) → IsText s → strlen_loop (c_string s rest) n ≡ some (n + length s)
unfolding strlen_loop
strlen_loop_lem [] rest n h = ground arith
strlen_loop_lem (c ∷ s) rest n h = ground (arith, strlen_loop_lem s rest (n + 1) h.1)

pub strlen_lem : (s rest : List ℕ) → IsText s → strlen (c_string s rest) ≡ some (length s)
unfolding strlen
strlen_lem s rest h = ground (arith, strlen_loop_lem s rest 0 h)

-- Loops that write a list from the front, at an offset: `pre` is written already.
get_elem?-append : (pre s : List ℕ) (x : ℕ) → get_elem? (pre ++ (x ∷ s)) (length pre) ≡ some x
get_elem?-append [] s x = refl
get_elem?-append (y ∷ pre) s x = get_elem?-append pre s x

set-append : (pre s : List ℕ) (x v : ℕ) → set (pre ++ (x ∷ s)) (length pre) v ≡ pre ++ (v ∷ s)
set-append [] s x v = refl
set-append (y ∷ pre) s x v = ap (λ l. y ∷ l) (set-append pre s x v)

pub append_snoc : (pre s : List ℕ) (x : ℕ) → (pre ++ (x ∷ [])) ++ s ≡ pre ++ (x ∷ s)
append_snoc [] s x = refl
append_snoc (y ∷ pre) s x = ap (λ l. y ∷ l) (append_snoc pre s x)

pub length-snoc : (pre : List ℕ) (x : ℕ) → length (pre ++ (x ∷ [])) ≡ length pre + 1
length-snoc pre x = length-append pre (x ∷ [])

memset_loop_lem :
    (pre old : List ℕ) (k i c : ℕ)
    → i ≡ length pre
    → k ≤ length old
    → memset_loop k i (pre ++ old) c ≡ some (pre ++ (replicate k c ++ drop k old))
unfolding memset_loop
memset_loop_lem pre old zero i c e h = refl
memset_loop_lem pre [] (suc k) i c e h = elim h [ ]
memset_loop_lem pre (x ∷ old) (suc k) i c e h = ground (
  arith,
  get_elem?-append pre old x,
  set-append pre old x c,
  append_snoc pre old c,
  append_snoc pre (replicate k c ++ drop k old) c,
  length-snoc pre c,
  memset_loop_lem (pre ++ (c ∷ [])) old k (i + 1) c,
)

-- memset writes its byte to the first `n` places and leaves the others.
pub memset_lem :
    (m : List ℕ) (c n : ℕ) → n ≤ length m → memset m c n ≡ some (replicate n c ++ drop n m)
unfolding memset
memset_lem m c n h = memset_loop_lem [] m n 0 c refl h

memcpy_loop_lem :
    (pre old done src : List ℕ) (k i : ℕ)
    → i ≡ length pre
    → i ≡ length done
    → k ≤ length old
    → k ≤ length src
    → memcpy_loop k i (pre ++ old) (done ++ src) ≡ some (pre ++ (take k src ++ drop k old))
unfolding memcpy_loop
memcpy_loop_lem pre old done src zero i e e' h h' = refl
memcpy_loop_lem pre [] done src (suc k) i e e' h h' = elim h [ ]
memcpy_loop_lem pre (x ∷ old) done [] (suc k) i e e' h h' = elim h' [ ]
memcpy_loop_lem pre (x ∷ old) done (y ∷ src) (suc k) i e e' h h' = ground (
  arith,
  get_elem?-append pre old x,
  get_elem?-append done src y,
  set-append pre old x y,
  append_snoc pre old y,
  append_snoc done src y,
  append_snoc pre (take k src ++ drop k old) y,
  length-snoc pre y,
  length-snoc done y,
  memcpy_loop_lem (pre ++ (y ∷ [])) old (done ++ (y ∷ [])) src k (i + 1),
)

-- memcpy copies the first `n` bytes and leaves the others.
pub memcpy_lem :
    (b a : List ℕ) (n : ℕ)
    → n ≤ length b
    → n ≤ length a
    → memcpy b a n ≡ some (take n a ++ drop n b)
unfolding memcpy
memcpy_lem b a n h h' = memcpy_loop_lem [] b [] a n 0 refl refl h h'

pub take-append_self : (s t : List ℕ) → take (length s) (s ++ t) ≡ s
take-append_self [] t = refl
take-append_self (c ∷ s) t = ap (λ l. c ∷ l) (take-append_self s t)

pub length-le-append : (s t : List ℕ) → length s ≤ length (s ++ t)
length-le-append s t = omega (arith, length-append s t)

drop-cons : (n : ℕ) (d : List ℕ) → n < length d → (x : ℕ) × (drop n d ≡ x ∷ drop (n + 1) d)
drop-cons n [] h = elim h [ ]
drop-cons zero (x ∷ d) h = (x, ground arith)
drop-cons (suc n) (x ∷ d) h = let (y, e) = drop-cons n d (omega arith) in (y, ground arith)

-- strcpy of a text into an array with room for it and its terminator leaves there the text, its
-- terminator, and behind it what was there.
pub strcpy_lem :
    (dst s rest : List ℕ)
    → IsText s
    → length s < length dst
    → strcpy dst (c_string s rest) ≡ some (c_string s (drop (length s + 1) dst))
unfolding strcpy store_end
strcpy_lem dst s rest t h =
    let (x, e) = drop-cons (length s) dst h in
    ground (
      arith,
      strlen_lem s rest t,
      memcpy_lem dst (c_string s rest) (length s),
      length-le-append s (0 ∷ rest),
      take-append_self s (0 ∷ rest),
      get_elem?-append s (drop (length s + 1) dst) x,
      set-append s (drop (length s + 1) dst) x 0,
    )
