-- ===== src/Heap/Wide.antt =====
-- The allocator of heap.c in a memory without an end, for sizes without a bound.
use strange_os.Prelude.{
  ℕ, zero, suc, ◌+◌, Bool, true, false, ◌&&◌, ◌||◌, Option, none, some, leb, ◌==◌, if◌then◌else◌,
}
use strange_os.Heap.{Hdr, Mem, store, null, head, hdr_size, Found, block, not_found, out_of_fuel}

-- Whether a block serves a request.
abbrev pub is_fit : Hdr → ℕ → Bool
is_fit h sz = (leb sz h.sz || h.n == null) && (if h.av == 0 then false else true)

unfoldable pub first_fit : ℕ → Mem → ℕ → ℕ → Found
first_fit zero m b sz = out_of_fuel
first_fit (suc fuel) m b sz =
    let rest = first_fit fuel m (m b).n sz in
    if b == null then not_found else if is_fit (m b) sz then block b else rest

-- The block is taken; the last one gets a new last one behind it.
unfoldable pub carve : Mem → ℕ → ℕ → Mem
carve m b sz =
    let m₁ = store m b (record (m b) { sz = sz; av = 0 }) in
    if (m b).n == null
    then store (store m₁ b (record { sz = sz; av = 0; p = (m b).p; n = b + hdr_size + sz }))
        (b + hdr_size + sz) (record { sz = 0; av = 1; p = b; n = null })
    else m₁

-- The data pointer, and the memory.
unfoldable pub allocate : ℕ → Mem → ℕ → Option (ℕ × Mem)
unfolding first_fit carve
allocate fuel m sz = elim (first_fit fuel m head sz) [
  | block b ↦ some (b + hdr_size, carve m b sz)
  | not_found ↦ some (null, m)
  | out_of_fuel ↦ none
]
