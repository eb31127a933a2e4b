-- ===== src/Heap/Examples.antt =====
-- Runs of the heap, and its theorems at concrete heaps.
use strange_os.Prelude.{◌^◌, ℕ, ◌+◌, ◌≤◌, ◌≡◌, ◌≢◌, ◌⊎◌, refl, some, List, [], ◌∷◌, arith}
use strange_os.Heap.{
  Mem, head, hdr_size, heap_init, size_ge, usable, heap_find, take_block, kmalloc, kfree,
}
use strange_os.Heap.Layout.{heap_init-IsHeap}
use strange_os.Heap.Words.{IsWordHeap}
use strange_os.Heap.Calls.{
  InHeap-has, HasRoom, Allocated, kmalloc_lem, InHeap, start, then_step, alloc, free, first,
  Reach-IsHeap, next, Reach-apart,
}

abbrev blank : Mem
blank a = record { sz = 0; av = 0; p = 0; n = 0 }

-- Memory after heap_init and kmalloc(100).
abbrev one : Mem
one = take_block (heap_init blank) (head + 16) 100

one_at : kmalloc 5 (heap_init blank) 100 ≡ some (head + 32, one)
unfolding kmalloc heap_init heap_find take_block usable size_ge
one_at = refl

one-IsWordHeap : IsWordHeap one ((head + 16) ∷ (head + 132) ∷ [])
unfolding take_block heap_init
one-IsWordHeap = (omega arith, (omega arith, (omega arith, (omega arith, tt))))

one-HasRoom : HasRoom ((head + 16) ∷ (head + 132) ∷ []) 40
one-HasRoom b e = ground arith

kmalloc_lem_example : Allocated one ((head + 16) ∷ (head + 132) ∷ []) 5 40
kmalloc_lem_example =
    kmalloc_lem one ((head + 16) ∷ (head + 132) ∷ []) 5 40 one-IsWordHeap (omega arith)
      (omega arith) one-HasRoom

one_size : (one (head + 16)).sz ≡ 100
unfolding take_block heap_init
one_size = refl

one_next : (one (head + 16)).n ≢ 0
unfolding take_block heap_init
one_next = omega arith

init_room : (b : ℕ) → InHeap (heap_init blank) b → b + hdr_size + 100 + hdr_size ≤ 2 ^ 32
init_room b i =
    let e = InHeap-has ((head + hdr_size) ∷ []) (heap_init-IsHeap blank) i in ground arith

Reach-IsHeap_example : (xs : List ℕ) × IsWordHeap (kfree one (head + hdr_size)) xs
Reach-IsHeap_example = Reach-IsHeap (
    then_step (then_step start (alloc 5 100 (head + 32) (omega arith) init_room one_at))
      (free first))

Reach-apart_example :
    (head + 16 + hdr_size + (one (head + 16)).sz ≤ head + 132)
    ⊎ (head + 132 + hdr_size + (one (head + 132)).sz ≤ head + 16)
unfolding take_block heap_init
Reach-apart_example =
    Reach-apart (head + 16) (head + 132)
      (then_step start (alloc 5 100 (head + 32) (omega arith) init_room one_at))
      (next first (omega arith)) (next (next first (omega arith)) (omega arith)) (omega arith)
