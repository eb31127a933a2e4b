-- ===== src/Disk/Ata/Wait.antt =====
-- What ata_wait waits for.
use strange_os.Prelude.{ℕ, zero, suc, ◌+◌, ◌<◌, ◌%◌, ◌≡◌, false, some, arith}
use strange_os.Prelude.Bits.{bit_and-low}
use strange_os.Prelude.Int.{pos}
use strange_os.Disk.Ata.{ata_wait}

-- With fuel for the bytes that it reads, ata_wait(0) returns after the first status byte whose
-- error bit (bit 0) is clear, whether the busy bit is set in it or not; it waits through all that
-- have bit 0 set.
pub ata_wait_first_even :
    (status : ℕ → ℕ) (n k fuel : ℕ)
    → n < fuel
    → ((i : ℕ) → i < n → status (k + i) % 2 ≡ 1)
    → status (k + n) % 2 ≡ 0
    → ata_wait fuel status k false ≡ some (pos 0, k + n + 1)
unfolding ata_wait
ata_wait_first_even status n k zero f odd even = absurd (omega arith)
ata_wait_first_even status zero k (suc fuel) f odd even = ground (arith, bit_and-low 1 (status k))
ata_wait_first_even status (suc n) k (suc fuel) f odd even = ground (
  arith,
  bit_and-low 1 (status k),
  odd 0,
  ata_wait_first_even status n (k + 1) fuel (omega arith) (λ i h. ground (arith, odd (suc i)))
      (ground arith),
)
