-- ===== src/Heap/Free.antt =====
-- kfree of heap.c, the reuse of what it frees, and the heaps that calls can reach.
use strange_os.Prelude.{
  ℕ, zero, suc, ◌+◌, ◌≤◌, ◌<◌, ◌≡◌, ◌≢◌, true, false, inl, inr, List, [], ◌∷◌, arith, ◌==◌,
  if◌then◌else◌, Bool-cases, length,
}
use strange_os.Heap.{Mem, null, head, hdr_size, kfree, block}
use strange_os.Heap.Wide.{is_fit, carve, first_fit}
use strange_os.Heap.Layout.{Chain, IsHeap, has, Chain-frame, Chain-le}
use strange_os.Heap.Find.{FirstFit, NoneBefore, first_fit_lem}

pub kfree-Chain :
    (m : Mem) (prev a b : ℕ) (xs : List ℕ)
    → Chain m prev a xs
    → has b (a ∷ xs) ≡ true
    → Chain (kfree m (b + hdr_size)) prev a xs
unfolding kfree
kfree-Chain m prev a b [] h e = ground arith
kfree-Chain m prev a b (c ∷ xs) h e = elim (Bool-cases (b == a)) [
  | inl is ↦ (
    h.0,
    ground arith,
    ground arith,
    ground arith,
    Chain-frame m (kfree m (b + hdr_size)) a c xs (λ d le. ground arith) h.4,
  )
  | inr other ↦
      (h.0, ground arith, ground arith, ground arith, kfree-Chain m a c b xs h.4 (ground arith))
]

-- Freeing a block of the heap marks it free, changes no other header, and leaves a heap of the same
-- blocks.
pub kfree_lem :
    (m : Mem) (xs : List ℕ) (b c : ℕ)
    → IsHeap m xs
    → has b (head ∷ xs) ≡ true
    → IsHeap (kfree m (b + hdr_size)) xs
      × (kfree m (b + hdr_size) c ≡ (if c == b then record (m b) { av = 1 } else m c))
unfolding kfree
kfree_lem m xs b c h e = (kfree-Chain m null head b xs h e, ground arith)

-- A first fit lies at or below every is_fit block.
first-le :
    (m : Mem) (sz prev a at b : ℕ) (xs : List ℕ)
    → Chain m prev a xs
    → NoneBefore m sz a xs at
    → has at (a ∷ xs) ≡ true
    → has b (a ∷ xs) ≡ true
    → is_fit (m b) sz ≡ true
    → at ≤ b
first-le m sz prev a at b [] h none_before hat hb u = ground arith
first-le m sz prev a at b (c ∷ xs) h (inl here) hat hb u =
    ground (arith, Chain-le m prev a b (c ∷ xs))
first-le m sz prev a at b (c ∷ xs) h (inr (taken, later)) hat hb u =
    let elsewhere : (b == a) ≡ false = ground arith in
    elim (Bool-cases (at == a)) [
      | inl here ↦ ground (arith, Chain-le m prev a b (c ∷ xs))
      | inr there ↦ first-le m sz a c at b xs h.4 later (ground arith) (ground arith) u
    ]

-- Once a block of a well-formed heap with at least sz bytes is freed, first_fit, with more fuel
-- than blocks behind the head, serves the next request for sz bytes from a block of the heap that
-- lies at or below it, so that the heap does not grow.
pub kfree-reuse :
    (m : Mem) (xs : List ℕ) (b fuel sz : ℕ)
    → IsHeap m xs
    → has b (head ∷ xs) ≡ true
    → sz ≤ (m b).sz
    → length xs < fuel
    → (at : ℕ) × (first_fit fuel (kfree m (b + hdr_size)) head sz ≡ block at)
      × (has at (head ∷ xs) ≡ true)
      × (at ≤ b)
kfree-reuse m xs b fuel sz h e fits f =
    let free : IsHeap (kfree m (b + hdr_size)) xs = kfree-Chain m null head b xs h e in
    let r : FirstFit (kfree m (b + hdr_size)) fuel sz head xs =
      first_fit_lem (kfree m (b + hdr_size)) fuel sz null head xs free f in
    let at_b : is_fit (kfree m (b + hdr_size) b) sz ≡ true =
      ground (arith, (kfree_lem m xs b b h e).1) in
    (
      r.at,
      r.found,
      r.in_chain,
      first-le (kfree m (b + hdr_size)) sz null head r.at b xs free r.first r.in_chain e at_b,
    )

-- An inner block that served a smaller request and is freed keeps the smaller size and its
-- successor: it can serve that request again, but not one for the size that it had before, though
-- the bytes up to its successor are unused.
pub kfree-forgets_size :
    (m : Mem) (b sz : ℕ)
    → (m b).n ≢ null
    → sz < (m b).sz
    → ((kfree (carve m b sz) (b + hdr_size) b).n ≡ (m b).n)
      × (is_fit (kfree (carve m b sz) (b + hdr_size) b) sz ≡ true)
      × (is_fit (kfree (carve m b sz) (b + hdr_size) b) (m b).sz ≡ false)
unfolding kfree carve
kfree-forgets_size m b sz inner less = (ground arith, ground arith, ground arith)

pub has-next :
    (m : Mem) (prev a b : ℕ) (xs : List ℕ)
    → Chain m prev a xs
    → has b (a ∷ xs) ≡ true
    → (m b).n ≢ null
    → has (m b).n (a ∷ xs) ≡ true
has-next m prev a b [] h e ne = ground arith
has-next m prev a b (c ∷ xs) h e ne = elim (Bool-cases (b == a)) [
  | inl is ↦ ground arith
  | inr other ↦ ground (arith, has-next m a c b xs h.4 (ground arith) ne)
]

-- Whatever the fuel, a block that the search returns is one of the chain, and is_fit.
pub first_fit_sound :
    (m : Mem) (fuel sz prev a at : ℕ) (xs : List ℕ)
    → Chain m prev a xs
    → first_fit fuel m a sz ≡ block at
    → (has at (a ∷ xs) ≡ true) × (is_fit (m at) sz ≡ true)
unfolding first_fit
first_fit_sound m zero sz prev a at xs h e = cc
first_fit_sound m (suc fuel) sz prev a at [] h e = ground arith
first_fit_sound m (suc fuel) sz prev a at (c ∷ xs) h e =
    ground (arith, first_fit_sound m fuel sz a c at xs h.4)
