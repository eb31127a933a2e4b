-- ===== src/Heap/Find.antt =====
-- first_fit of heap.c: first fit, and why it always finds a block.
use strange_os.Prelude.{
  ℕ, zero, suc, ◌<◌, ◌≡◌, refl, true, false, ◌⊎◌, inl, inr, List, [], ◌∷◌, arith, Bool-cases,
  length,
}
use strange_os.Heap.{Mem, block}
use strange_os.Heap.Wide.{is_fit, first_fit}
use strange_os.Heap.Layout.{Chain, has}

-- No block from `a` on, up to `b`, is is_fit.
abbrev pub NoneBefore : Mem → ℕ → ℕ → List ℕ → ℕ → Type 0
NoneBefore m sz a [] b = Unit {0}
NoneBefore m sz a (c ∷ xs) b = (b ≡ a) ⊎ ((is_fit (m a) sz ≡ false) × NoneBefore m sz c xs b)

pub record FirstFit (m : Mem) (fuel sz a : ℕ) (xs : List ℕ) : Type 0 where
  pub at : ℕ
  pub found : first_fit fuel m a sz ≡ block at
  pub in_chain : has at (a ∷ xs) ≡ true
  pub fits : is_fit (m at) sz ≡ true
  pub first : NoneBefore m sz a xs at

pub first_fit_lem :
    (m : Mem) (fuel sz prev a : ℕ) (xs : List ℕ)
    → Chain m prev a xs
    → length xs < fuel
    → FirstFit m fuel sz a xs
unfolding first_fit
first_fit_lem m zero sz prev a xs h f = absurd (omega arith)
first_fit_lem m (suc fuel) sz prev a [] h f = record {
  at = a;
  found = ground arith;
  in_chain = ground arith;
  fits = ground arith;
  first = tt;
}
first_fit_lem m (suc fuel) sz prev a (c ∷ xs) h f = elim (Bool-cases (is_fit (m a) sz)) [
  | inl e ↦ record {
    at = a;
    found = ground arith;
    in_chain = ground arith;
    fits = e;
    first = inl refl;
  }
  | inr e ↦
      let r : FirstFit m fuel sz c xs = first_fit_lem m fuel sz a c xs h.4 (omega arith) in
      record {
        at = r.at;
        found = ground (arith, r.found);
        in_chain = ground (arith, r.in_chain);
        fits = r.fits;
        first = inr (e, r.first);
      }
]
