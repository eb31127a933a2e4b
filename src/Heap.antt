-- ===== src/Heap.antt =====
-- The kernel heap, src/kernel/heap.c and heap.h: a chain of block headers that lie in the memory
-- itself, each in front of the bytes that it describes.
pub mod Layout
pub mod Wide
pub mod Find
pub mod Alloc
pub mod Free
pub mod Words
pub mod Calls
mod Examples
use strange_os.Prelude.{
  ℕ, zero, suc, ◌+◌, ◌-◌, ◌%◌, ◌^◌, ◌≤◌, ◌<◌, ◌≡◌, Bool, true, false, ◌&&◌, ◌||◌, Option, none,
  some, ltb, leb, ◌==◌, if◌then◌else◌,
}

-- `NULL`
abbrev pub null : ℕ
null = 0

-- `struct heap_block_hdr`. Pointers are addresses.
pub record Hdr : Type 0 where
  pub sz : ℕ
  pub av : ℕ
  pub p : ℕ
  pub n : ℕ

-- The headers that lie in memory, by address.
abbrev pub Mem : Type 0
Mem = ℕ → Hdr

abbrev pub store : Mem → ℕ → Hdr → Mem
store m a h x = if x == a then h else m x

-- `static struct heap_block_hdr *head`
abbrev pub head : ℕ
head = 0x10_0000

-- `sizeof(struct heap_block_hdr)`: `b + 1` in the source is `b + hdr_size` here.
abbrev pub hdr_size : ℕ
hdr_size = 16

pub heap_init : Mem → Mem
heap_init m =
    store (store m head (record { sz = 0; av = 0; p = null; n = head + hdr_size }))
      (head + hdr_size) (record { sz = 0; av = 1; p = head; n = null })

-- `a >= b` of two size_t, which is an int: the numbers are the bit patterns.
pub size_ge : ℕ → ℕ → Bool
size_ge a b = leb ((b + 2 ^ 31) % 2 ^ 32) ((a + 2 ^ 31) % 2 ^ 32)

-- `(p->sz >= sz || p->n == NULL) && p->av`
pub usable : Hdr → ℕ → Bool
unfolding size_ge
usable h sz = (size_ge h.sz sz || h.n == null) && (if h.av == 0 then false else true)

-- What the loop of `heap_find` returns: a block, NULL, or nothing for want of fuel.
pub data Found : Type 0 where
  block : ℕ → Found
  not_found : Found
  out_of_fuel : Found

pub heap_find : ℕ → Mem → ℕ → ℕ → Found
unfolding usable
heap_find zero m b sz = out_of_fuel
heap_find (suc fuel) m b sz =
    let rest = heap_find fuel m (m b).n sz in
    if b == null then not_found else if usable (m b) sz then block b else rest

-- `(void *)(b + 1) + sz`, which wraps around.
abbrev pub block_end : ℕ → ℕ → ℕ
block_end b sz = (b + hdr_size + sz) % 2 ^ 32

-- The writes of `kmalloc` to the block that was found. Headers that overlap in part are not modelled.
pub take_block : Mem → ℕ → ℕ → Mem
take_block m b sz =
    let m₁ = store m b (record (m b) { sz = sz; av = 0 }) in
    if (m b).n == null
    then store (store m₁ b (record { sz = sz; av = 0; p = (m b).p; n = block_end b sz }))
        (block_end b sz) (record { sz = 0; av = 1; p = b; n = null })
    else m₁

-- `kmalloc` of a size, as its bit pattern, returns the data pointer, NULL as `null`. The outer `none`
-- is want of fuel.
pub kmalloc : ℕ → Mem → ℕ → Option (ℕ × Mem)
unfolding heap_find take_block
kmalloc fuel m sz = elim (heap_find fuel m head sz) [
  | block b ↦ some ((b + hdr_size) % 2 ^ 32, take_block m b sz)
  | not_found ↦ some (null, m)
  | out_of_fuel ↦ none
]

pub kfree : Mem → ℕ → Mem
kfree m p = store m (p - hdr_size) (record (m (p - hdr_size)) { av = 1 })
