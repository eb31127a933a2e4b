-- ===== src/Heap/Calls.antt =====
-- The calls of heap.c: what an allocation does, and the heaps that calls can reach.
use strange_os.Prelude.{
  ℕ, ◌+◌, ◌%◌, ◌^◌, ◌≤◌, ◌<◌, ◌≡◌, ◌≢◌, refl, sym, ◌∙◌, true, ◌⊎◌, inl, inr, some, List, [], ◌∷◌,
  arith, ◌==◌, Bool-cases, length,
}
use mathlib.Core.Path.{subst}
use strange_os.Heap.{
  Mem, null, head, hdr_size, take_block, kmalloc, kfree, heap_init, heap_find, block, not_found,
  out_of_fuel, Found,
}
use strange_os.Heap.Wide.{carve}
use strange_os.Heap.Layout.{Chain, IsHeap, has, blocks_apart, heap_init-IsHeap}
use strange_os.Heap.Find.{FirstFit, first_fit_lem}
use strange_os.Heap.Alloc.{after, carve-Chain, carve_self, carve-spares, has-after, is_fit-free}
use strange_os.Heap.Free.{kfree-Chain, has-next, first_fit_sound}
use strange_os.Heap.Words.{
  AreSmall, IsWordHeap, heap_find-first_fit, take_block-carve, carve-IsSmall,
}

-- A block with a header behind it ends in the memory, wherever in the heap it starts.
abbrev pub HasRoom : List ℕ → ℕ → Type 0
HasRoom xs sz = (b : ℕ) → has b (head ∷ xs) ≡ true → b + hdr_size + sz + hdr_size ≤ 2 ^ 32

-- What an allocation of `sz` bytes does to a heap.
pub record Allocated (m : Mem) (xs : List ℕ) (fuel sz : ℕ) : Type 0 where
  pub at : ℕ
  pub mem : Mem
  pub chain : List ℕ
  pub returns : kmalloc fuel m sz ≡ some (at + hdr_size, mem)
  pub is_heap : IsWordHeap mem chain
  pub was_block : has at (head ∷ xs) ≡ true
  pub is_block : has at (head ∷ chain) ≡ true
  pub was_free : (m at).av ≢ 0
  pub now_used : (mem at).av ≡ 0
  pub size : (mem at).sz ≡ sz
  pub spares : (c : ℕ) → has c (head ∷ xs) ≡ true → c ≢ at → mem c ≡ m c
  pub keeps : (c : ℕ) → has c (head ∷ xs) ≡ true → has c (head ∷ chain) ≡ true

-- kmalloc of sz < 2 ^ 31 bytes on a well-formed heap whose sizes are below 2 ^ 31, with more fuel
-- than blocks behind the head, and where the bytes with a header behind them end below 2 ^ 32
-- behind every block, returns a block of the heap that was free and is now used, for exactly the
-- bytes asked for; every other block is as it was, and the heap stays well formed, with such
-- sizes.
pub kmalloc_lem :
    (m : Mem) (xs : List ℕ) (fuel sz : ℕ)
    → IsWordHeap m xs
    → length xs < fuel
    → sz < 2 ^ 31
    → HasRoom xs sz
    → Allocated m xs fuel sz
unfolding kmalloc
kmalloc_lem m xs fuel sz (h, small) f lt room =
    let r : FirstFit m fuel sz head xs = first_fit_lem m fuel sz null head xs h f in
    let fits = room r.at r.in_chain in
    let found : heap_find fuel m head sz ≡ block r.at =
      heap_find-first_fit fuel m null head sz xs h small lt ∙ r.found in
    let taken : take_block m r.at sz ≡ carve m r.at sz = take_block-carve m r.at sz (omega arith) in
    let pointer : (r.at + hdr_size) % 2 ^ 32 ≡ r.at + hdr_size = omega arith in
    record {
      at = r.at;
      mem = carve m r.at sz;
      chain = after m r.at sz xs;
      returns = rw (kmalloc, found, taken, pointer) refl;
      is_heap = (
        carve-Chain m null head r.at sz xs h r.in_chain r.fits,
        carve-IsSmall m r.at sz xs small lt,
      );
      was_block = r.in_chain;
      is_block = ground (arith, r.in_chain, has-after m r.at sz r.at xs);
      was_free = is_fit-free (m r.at) sz r.fits;
      now_used = (carve_self m r.at sz).1;
      size = (carve_self m r.at sz).0;
      spares = carve-spares m null head r.at sz xs h r.in_chain;
      keeps = λ c hc. ground (arith, has-after m r.at sz c xs);
    }

-- The blocks that the pointers lead to.
pub data InHeap (m : Mem) : ℕ → Type 0 where
  first : InHeap m head
  next : {a : ℕ} → InHeap m a → (m a).n ≢ null → InHeap m (m a).n

-- What a caller can do: allocate a number of bytes that is not negative and for which the memory has
-- room behind every block, or free a block of the heap.
pub data Step (m : Mem) : Mem → Type 0 where
  alloc :
      (fuel sz p : ℕ) {m' : Mem}
      → sz < 2 ^ 31
      → ((b : ℕ) → InHeap m b → b + hdr_size + sz + hdr_size ≤ 2 ^ 32)
      → kmalloc fuel m sz ≡ some (p, m')
      → Step m m'
  free : {b : ℕ} → InHeap m b → Step m (kfree m (b + hdr_size))

pub data Reach (m : Mem) : Mem → Type 0 where
  start : Reach m (heap_init m)
  then_step : {k k' : Mem} → Reach m k → Step k k' → Reach m k'

pub InHeap-has :
    {m : Mem} (xs : List ℕ) {b : ℕ} → IsHeap m xs → InHeap m b → has b (head ∷ xs) ≡ true
InHeap-has xs h first = ground arith
InHeap-has {m} xs h (next {a} i ne) = has-next m null head a xs h (InHeap-has xs h i) ne

-- The pointers lead to every block of a chain.
has-InHeap :
    (m : Mem) (prev a b : ℕ) (xs : List ℕ)
    → Chain m prev a xs
    → InHeap m a
    → has b (a ∷ xs) ≡ true
    → InHeap m b
has-InHeap m prev a b [] h i e = let is : a ≡ b = ground arith in subst (InHeap m) is i
has-InHeap m prev a b (c ∷ xs) h i e = elim (Bool-cases (b == a)) [
  | inl here ↦ let is : a ≡ b = ground arith in subst (InHeap m) is i
  | inr later ↦
      let ne : (m a).n ≢ null = (let below = h.3 in let to = h.2 in ground arith) in
      has-InHeap m a c b xs h.4 (subst (InHeap m) h.2 (next i ne)) (ground arith)
]

kmalloc-IsWordHeap :
    (m m' : Mem) (xs : List ℕ) (fuel sz p : ℕ)
    → IsWordHeap m xs
    → sz < 2 ^ 31
    → HasRoom xs sz
    → kmalloc fuel m sz ≡ some (p, m')
    → (ys : List ℕ) × IsWordHeap m' ys
unfolding kmalloc
kmalloc-IsWordHeap m m' xs fuel sz p (h, small) lt room e =
    by_result (heap_find fuel m head sz) refl
  where
    by_result : (r : Found) → heap_find fuel m head sz ≡ r → (ys : List ℕ) × IsWordHeap m' ys
    by_result (block b) found =
        let (e₁, u) =
          first_fit_sound m fuel sz null head b xs h
            (sym (heap_find-first_fit fuel m null head sz xs h small lt) ∙ found) in
        let fits = room b e₁ in
        let taken : carve m b sz ≡ m' =
          (let same : take_block m b sz ≡ carve m b sz = take_block-carve m b sz (omega arith) in
            let got : take_block m b sz ≡ m' = ground arith in sym same ∙ got) in
        (
          after m b sz xs,
          subst (λ k. IsWordHeap k (after m b sz xs)) taken
              (carve-Chain m null head b sz xs h e₁ u, carve-IsSmall m b sz xs small lt),
        )
    by_result not_found none_found =
        let same : m ≡ m' = ground arith in (xs, subst (λ k. IsWordHeap k xs) same (h, small))
    by_result out_of_fuel stopped = absurd (ground arith)

kfree-AreSmall : (m : Mem) (p : ℕ) (ys : List ℕ) → AreSmall m ys → AreSmall (kfree m p) ys
unfolding kfree
kfree-AreSmall m p [] small = tt
kfree-AreSmall m p (c ∷ ys) small = (ground arith, kfree-AreSmall m p ys small.1)

heap_init-IsWordHeap : (m : Mem) → IsWordHeap (heap_init m) ((head + hdr_size) ∷ [])
unfolding heap_init
heap_init-IsWordHeap m = (heap_init-IsHeap m, (omega arith, (omega arith, tt)))

-- Every heap that a sequence of calls of kmalloc, each of sz < 2 ^ 31 bytes that end below 2 ^ 32
-- with a header behind them wherever they follow a block, and of calls of kfree on blocks of the
-- heap reaches from heap_init is well formed, with sizes below 2 ^ 31.
pub Reach-IsHeap : {m k : Mem} → Reach m k → (xs : List ℕ) × IsWordHeap k xs
Reach-IsHeap {m} start = ((head + hdr_size) ∷ [], heap_init-IsWordHeap m)
Reach-IsHeap (then_step {k} {k'} r (alloc fuel sz p lt room e)) =
    let (xs, h) = Reach-IsHeap r in
    kmalloc-IsWordHeap k k' xs fuel sz p h lt
      (λ b hb. room b (has-InHeap k null head b xs h.0 first hb)) e
Reach-IsHeap (then_step {k} r (free {b} i)) =
    let (xs, h) = Reach-IsHeap r in
    (
      xs,
      (
        kfree-Chain k null head b xs h.0 (InHeap-has xs h.0 i),
        kfree-AreSmall k (b + hdr_size) (head ∷ xs) h.1,
      ),
    )

-- In every heap that a sequence of calls of kmalloc, each of sz < 2 ^ 31 bytes that end below 2 ^
-- 32 with a header behind them wherever they follow a block, and of calls of kfree on blocks of
-- the heap reaches from heap_init, any two different blocks lie apart: the bytes of the one end
-- before the header of the other.
pub Reach-apart :
    {m k : Mem} (b c : ℕ)
    → Reach m k
    → InHeap k b
    → InHeap k c
    → b ≢ c
    → (b + hdr_size + (k b).sz ≤ c) ⊎ (c + hdr_size + (k c).sz ≤ b)
Reach-apart {k = k} b c r hb hc ne =
    let (xs, h) = Reach-IsHeap r in
    blocks_apart k null head xs b c h.0 (InHeap-has xs h.0 hb) (InHeap-has xs h.0 hc) ne
