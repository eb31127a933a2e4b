-- ===== src/Heap/Alloc.antt =====
-- allocate of heap.c: the chain after an allocation, and what an allocation returns and spares.
use strange_os.Prelude.{
  ℕ, ◌+◌, ◌≤◌, ◌<◌, ◌≡◌, ◌≢◌, true, false, inl, inr, List, [], ◌∷◌, ◌++◌, arith, ◌==◌,
  if◌then◌else◌, Bool-cases,
}
use mathlib.Core.Path.{subst}
use strange_os.Heap.{Hdr, Mem, null, hdr_size}
use strange_os.Heap.Wide.{is_fit, carve}
use strange_os.Heap.Layout.{Chain, has, Chain-frame, Chain-ne_null, Chain-apart}

-- The chain after block `b` is taken: the last block gets a new last one behind it.
abbrev pub after : Mem → ℕ → ℕ → List ℕ → List ℕ
after m b sz xs = if (m b).n == null then xs ++ ((b + hdr_size + sz) ∷ []) else xs

-- Only the taken block and the new last block are written.
pub carve-other : (m : Mem) (b sz c : ℕ) → c ≢ b → c ≢ b + hdr_size + sz → carve m b sz c ≡ m c
unfolding carve
carve-other m b sz c h h' = ground arith

pub carve-below : (m : Mem) (b sz c : ℕ) → c < b → carve m b sz c ≡ m c
carve-below m b sz c h = carve-other m b sz c (omega arith) (omega arith)

pub carve_self : (m : Mem) (b sz : ℕ) → ((carve m b sz b).sz ≡ sz) × ((carve m b sz b).av ≡ 0)
unfolding carve
carve_self m b sz = (ground arith, ground arith)

take_last-Chain :
    (m : Mem) (prev a sz : ℕ) → Chain m prev a [] → Chain (carve m a sz) prev a (after m a sz [])
unfolding carve
take_last-Chain m prev a sz h =
    let last : ((m a).n == null) ≡ true = ground arith in rw last (ground arith)

take_inner-Chain :
    (m : Mem) (prev a sz c : ℕ) (xs : List ℕ)
    → Chain m prev a (c ∷ xs)
    → is_fit (m a) sz ≡ true
    → Chain (carve m a sz) prev a (c ∷ xs)
unfolding carve
take_inner-Chain m prev a sz c xs h u =
    let ne : c ≢ null = Chain-ne_null m a c xs h.4 in
    (
      h.0,
      ground arith,
      ground arith,
      ground arith,
      Chain-frame m (carve m a sz) a c xs (λ d le. ground arith) h.4,
    )

pub after-cons : (m : Mem) (b sz c : ℕ) (xs : List ℕ) → after m b sz (c ∷ xs) ≡ c ∷ after m b sz xs
after-cons m b sz c xs = ground arith

pub carve-Chain :
    (m : Mem) (prev a b sz : ℕ) (xs : List ℕ)
    → Chain m prev a xs
    → has b (a ∷ xs) ≡ true
    → is_fit (m b) sz ≡ true
    → Chain (carve m b sz) prev a (after m b sz xs)
carve-Chain m prev a b sz [] h e u =
    let eq : a ≡ b = ground arith in
    subst (λ x. Chain (carve m x sz) prev a (after m x sz [])) eq (take_last-Chain m prev a sz h)
carve-Chain m prev a b sz (c ∷ xs) h e u = elim (Bool-cases (b == a)) [
  | inl is ↦
      let eq : a ≡ b = ground arith in
      let ne : c ≢ null = Chain-ne_null m a c xs h.4 in
      let more : ((m b).n == null) ≡ false = ground arith in
      rw more (
        subst (λ x. Chain (carve m x sz) prev a (c ∷ xs)) eq
          (take_inner-Chain m prev a sz c xs h (rw eq u)))
  | inr ne ↦
      let later : a + hdr_size + (m a).sz ≤ b = Chain-apart m prev a b (c ∷ xs) h (ground arith) in
      let same : carve m b sz a ≡ m a = carve-below m b sz a (omega arith) in
      rw after-cons (
        h.0,
        ground arith,
        ground arith,
        ground arith,
        carve-Chain m a c b sz xs h.4 (ground arith) u,
      )
]

pub is_fit-free : (h : Hdr) (sz : ℕ) → is_fit h sz ≡ true → h.av ≢ 0
is_fit-free h sz u = ground arith

pub has-after :
    (m : Mem) (b sz c : ℕ) (xs : List ℕ) → has c xs ≡ true → has c (after m b sz xs) ≡ true
has-after m b sz c [] h = cc
has-after m b sz c (d ∷ xs) h = ground (arith, has-after m b sz c xs, after-cons m b sz d xs)

-- The block with no successor lies highest.
le_last :
    (m : Mem) (prev a b c : ℕ) (xs : List ℕ)
    → Chain m prev a xs
    → has b (a ∷ xs) ≡ true
    → has c (a ∷ xs) ≡ true
    → (m b).n ≡ null
    → c ≤ b
le_last m prev a b c [] h hb hc last = ground arith
le_last m prev a b c (d ∷ xs) h hb hc last =
    ground
      (arith, Chain-ne_null m a d xs h.4, Chain-apart m prev a b (d ∷ xs), le_last m a d b c xs)

carve-inner : (m : Mem) (b sz c : ℕ) → ((m b).n == null) ≡ false → c ≢ b → carve m b sz c ≡ m c
unfolding carve
carve-inner m b sz c inner h = ground arith

pub carve-spares :
    (m : Mem) (prev a b sz : ℕ) (xs : List ℕ)
    → Chain m prev a xs
    → has b (a ∷ xs) ≡ true
    → (c : ℕ) → has c (a ∷ xs) ≡ true
    → c ≢ b
    → carve m b sz c ≡ m c
carve-spares m prev a b sz xs h hb c hc ne = elim (Bool-cases ((m b).n == null)) [
  | inl last ↦
      let le : c ≤ b = le_last m prev a b c xs h hb hc (ground arith) in
      carve-other m b sz c ne (omega arith)
  | inr inner ↦ carve-inner m b sz c inner ne
]
