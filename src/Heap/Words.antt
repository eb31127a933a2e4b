-- ===== src/Heap/Words.antt =====
-- Where the sizes are not negative and the blocks end below 2 ^ 32, the calls of heap.c are those of the
-- allocator without bounds.
use strange_os.Prelude.{
  ℕ, zero, suc, ◌+◌, ◌%◌, ◌^◌, ◌<◌, ◌≡◌, refl, true, inl, inr, List, [], ◌∷◌, arith, leb, ◌==◌,
  Bool-cases,
}
use strange_os.Heap.{
  Hdr, Mem, null, head, hdr_size, size_ge, usable, heap_find, take_block, block_end,
}
use strange_os.Heap.Wide.{is_fit, first_fit, carve}
use strange_os.Heap.Layout.{Chain, IsHeap}
use strange_os.Heap.Alloc.{after, after-cons}

-- The sizes of the blocks are not negative as an int.
abbrev pub AreSmall : Mem → List ℕ → Type 0
AreSmall m [] = Unit {0}
AreSmall m (a ∷ xs) = ((m a).sz < 2 ^ 31) × AreSmall m xs

-- A well-formed heap.
abbrev pub IsWordHeap : Mem → List ℕ → Type 0
IsWordHeap m xs = IsHeap m xs × AreSmall m (head ∷ xs)

leb-add : (a b k : ℕ) → leb (b + k) (a + k) ≡ leb b a
leb-add a b k = ground arith

size_ge-leb : (a b : ℕ) → a < 2 ^ 31 → b < 2 ^ 31 → size_ge a b ≡ leb b a
unfolding size_ge
size_ge-leb a b ha hb =
    let ea : (a + 2 ^ 31) % 2 ^ 32 ≡ a + 2 ^ 31 = omega arith in
    let eb : (b + 2 ^ 31) % 2 ^ 32 ≡ b + 2 ^ 31 = omega arith in rw (ea, eb) (leb-add a b (2 ^ 31))

usable-is_fit : (h : Hdr) (sz : ℕ) → h.sz < 2 ^ 31 → sz < 2 ^ 31 → usable h sz ≡ is_fit h sz
unfolding usable
usable-is_fit h sz small lt = rw (size_ge-leb h.sz sz small lt) refl

find_null : (fuel : ℕ) (m : Mem) (sz : ℕ) → heap_find fuel m null sz ≡ first_fit fuel m null sz
unfolding heap_find first_fit
find_null zero m sz = refl
find_null (suc fuel) m sz = refl

pub heap_find-first_fit :
    (fuel : ℕ) (m : Mem) (prev a sz : ℕ) (xs : List ℕ)
    → Chain m prev a xs
    → AreSmall m (a ∷ xs)
    → sz < 2 ^ 31
    → heap_find fuel m a sz ≡ first_fit fuel m a sz
unfolding heap_find first_fit
heap_find-first_fit zero m prev a sz xs h small lt = refl
heap_find-first_fit (suc fuel) m prev a sz [] h small lt =
    rw (usable-is_fit (m a) sz small.0 lt, h.2, find_null fuel m sz) refl
heap_find-first_fit (suc fuel) m prev a sz (c ∷ xs) h small lt =
    rw (usable-is_fit (m a) sz small.0 lt, h.2, heap_find-first_fit fuel m a c sz xs h.4 small.1 lt)
      refl

pub take_block-carve :
    (m : Mem) (b sz : ℕ) → b + hdr_size + sz < 2 ^ 32 → take_block m b sz ≡ carve m b sz
unfolding take_block carve
take_block-carve m b sz lt =
    let ends : block_end b sz ≡ b + hdr_size + sz = omega arith in rw ends refl

carve_size : (m : Mem) (b sz c : ℕ) → (m c).sz < 2 ^ 31 → sz < 2 ^ 31 → (carve m b sz c).sz < 2 ^ 31
unfolding carve
carve_size m b sz c small lt = ground arith

carve_end :
    (m : Mem) (b sz : ℕ) → ((m b).n == null) ≡ true → (carve m b sz (b + hdr_size + sz)).sz < 2 ^ 31
unfolding carve
carve_end m b sz last = ground arith

carve-AreSmall :
    (m : Mem) (b sz : ℕ) (ys : List ℕ)
    → AreSmall m ys
    → sz < 2 ^ 31
    → AreSmall (carve m b sz) (after m b sz ys)
carve-AreSmall m b sz [] small lt = elim (Bool-cases ((m b).n == null)) [
  | inl last ↦ rw last (carve_end m b sz last, tt)
  | inr inner ↦ rw inner tt
]
carve-AreSmall m b sz (c ∷ ys) small lt =
    rw (after-cons m b sz c ys)
      (carve_size m b sz c small.0 lt, carve-AreSmall m b sz ys small.1 lt)

pub carve-IsSmall :
    (m : Mem) (b sz : ℕ) (xs : List ℕ)
    → AreSmall m (head ∷ xs)
    → sz < 2 ^ 31
    → AreSmall (carve m b sz) (head ∷ after m b sz xs)
carve-IsSmall m b sz xs small lt =
    (carve_size m b sz head small.0 lt, carve-AreSmall m b sz xs small.1 lt)
