-- ===== src/Prelude/Loops.antt =====
-- `for (i = first; i < first + rounds; i++) s = body(i, s)`
use Prim.Native.Nat.{ℕ, zero, suc, ◌+◌}

unfoldable pub for_loop {ℓ} : {S : Type ℓ} → ℕ → ℕ → (ℕ → S → S) → S → S
for_loop zero i body s = s
for_loop (suc rounds) i body s = for_loop rounds (i + 1) body (body i s)
