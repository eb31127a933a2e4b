-- ===== src/Heap/Layout.antt =====
-- The chain of headers that heap.c keeps: what holds of it, and that its blocks lie apart.
use strange_os.Prelude.{
  ℕ, ◌+◌, ◌≤◌, ◌≡◌, ◌≢◌, ◌⊎◌, inl, inr, Bool, true, false, ◌||◌, List, [], ◌∷◌, arith, ◌==◌,
  Bool-cases,
}
use strange_os.Heap.{Mem, null, head, hdr_size, heap_init}

-- From the header at `a`, whose predecessor is at `prev`, the `n` pointers lead through the
-- addresses of the list. Each block ends before the next one starts; the last is free.
abbrev pub Chain : Mem → ℕ → ℕ → List ℕ → Type 0
Chain m prev a [] = (a ≢ null) × ((m a).p ≡ prev) × ((m a).n ≡ null) × ((m a).av ≡ 1)
Chain m prev a (c ∷ xs) =
    (a ≢ null) × ((m a).p ≡ prev) × ((m a).n ≡ c) × (a + hdr_size + (m a).sz ≤ c) × Chain m a c xs

abbrev pub IsHeap : Mem → List ℕ → Type 0
IsHeap m xs = Chain m null head xs

abbrev pub has : ℕ → List ℕ → Bool
has b [] = false
has b (c ∷ xs) = (b == c) || has b xs

pub Chain-frame :
    (m m' : Mem) (prev a : ℕ) (xs : List ℕ)
    → ((c : ℕ) → a ≤ c → m' c ≡ m c)
    → Chain m prev a xs
    → Chain m' prev a xs
Chain-frame m m' prev a [] same h = ground (arith, same a)
Chain-frame m m' prev a (c ∷ xs) same h = (
  h.0,
  ground (arith, same a),
  ground (arith, same a),
  ground (arith, same a),
  Chain-frame m m' a c xs (λ d le. same d (omega arith)) h.4,
)

pub Chain-ne_null : (m : Mem) (prev a : ℕ) (xs : List ℕ) → Chain m prev a xs → a ≢ null
Chain-ne_null m prev a [] h = h.0
Chain-ne_null m prev a (c ∷ xs) h = h.0

-- Every block of a chain lies at or above its start.
pub Chain-le :
    (m : Mem) (prev a b : ℕ) (xs : List ℕ) → Chain m prev a xs → has b (a ∷ xs) ≡ true → a ≤ b
Chain-le m prev a b [] h e = ground arith
Chain-le m prev a b (c ∷ xs) h e = ground (arith, Chain-le m a c b xs)

pub heap_init-IsHeap : (m : Mem) → IsHeap (heap_init m) ((head + hdr_size) ∷ [])
unfolding heap_init
heap_init-IsHeap m = ground arith

-- A block ends before any later one starts.
pub Chain-apart :
    (m : Mem) (prev a b : ℕ) (xs : List ℕ)
    → Chain m prev a xs
    → has b xs ≡ true
    → a + hdr_size + (m a).sz ≤ b
Chain-apart m prev a b [] h e = cc
Chain-apart m prev a b (c ∷ xs) h e = omega (arith, Chain-le m a c b xs h.4 e)

-- Two different blocks of a heap, header and bytes, do not overlap.
pub blocks_apart :
    (m : Mem) (prev a : ℕ) (xs : List ℕ) (b c : ℕ)
    → Chain m prev a xs
    → has b (a ∷ xs) ≡ true
    → has c (a ∷ xs) ≡ true
    → b ≢ c
    → (b + hdr_size + (m b).sz ≤ c) ⊎ (c + hdr_size + (m c).sz ≤ b)
blocks_apart m prev a [] b c h hb hc ne = ground arith
blocks_apart m prev a (d ∷ xs) b c h hb hc ne = elim (Bool-cases (b == a)) [
  | inl e ↦ inl (ground (arith, Chain-apart m prev a c (d ∷ xs)))
  | inr e ↦ elim (Bool-cases (c == a)) [
    | inl e' ↦ inr (ground (arith, Chain-apart m prev a b (d ∷ xs)))
    | inr e' ↦ blocks_apart m a d xs b c h.4 (ground arith) (ground arith) ne
  ]
]
