-- ===== src/Idt/Gates.antt =====
-- The descriptor table that isr_install leaves.
use strange_os.Prelude.{
  ℕ, zero, suc, ◌+◌, ◌-◌, ◌*◌, ◌/◌, ◌^◌, ◌≤◌, ◌<◌, ◌≡◌, refl, ◌⊎◌, inl, inr, Bool, true, arith, ltb,
  leb, ltb→lt, ◌||◌, ◌==◌, if◌then◌else◌, Bool-cases,
}
use strange_os.Prelude.Bits.{bit_and-low}
use strange_os.Idt.{Gate, Idt, Handlers, Stubs, gate_for, set_idt_gate, set_gates, isr_install}

-- The address that the processor puts together from a gate.
abbrev pub offset : Gate → ℕ
offset g = g.low_offset + g.high_offset * 2 ^ 16

pub offset-gate_for :
    (handler : ℕ)
    → handler < 2 ^ 32
    → (offset (gate_for handler) ≡ handler)
      × ((gate_for handler).low_offset < 2 ^ 16)
      × ((gate_for handler).high_offset < 2 ^ 16)
unfolding gate_for
offset-gate_for handler h = omega (arith, bit_and-low 16 handler, bit_and-low 16 (handler / 2 ^ 16))

set_gates_out :
    (k i base : ℕ) (stub : ℕ → ℕ) (t : Idt) (x : ℕ)
    → (x < i + base) ⊎ (i + base + k ≤ x)
    → set_gates k i base stub t x ≡ t x
unfolding set_gates set_idt_gate
set_gates_out zero i base stub t x out = refl
set_gates_out (suc k) i base stub t x out =
    ground (arith, set_gates_out k (i + 1) base stub (set_idt_gate (i + base) (stub i) t) x)

set_gates_in :
    (k i base : ℕ) (stub : ℕ → ℕ) (t : Idt) (n : ℕ)
    → i ≤ n
    → n < i + k
    → set_gates k i base stub t (n + base) ≡ gate_for (stub n)
unfolding set_gates set_idt_gate
set_gates_in zero i base stub t n lo hi = absurd (omega arith)
set_gates_in (suc k) i base stub t n lo hi = elim (Bool-cases (n == i)) [
  | inl e ↦
      ground
        (arith, set_gates_out k (i + 1) base stub (set_idt_gate (i + base) (stub i) t) (n + base))
  | inr e ↦
      set_gates_in k (i + 1) base stub (set_idt_gate (i + base) (stub i) t) n (ground arith)
        (omega arith)
]

-- Where the gate of interrupt `n` leads.
unfoldable pub stub_of : Stubs → ℕ → ℕ
stub_of s n = if n == 0x40 then s.syscall else (if leb n 31 then s.isr n else s.irq (n - 32))

abbrev pub is_installed : ℕ → Bool
is_installed n = ltb n 48 || n == 0x40

-- isr_install points the gates of the 32 exceptions, the 16 interrupt lines and the system call at
-- their stubs, and leaves every other gate.
pub isr_install_gates :
    (s : Stubs) (t : Idt) (h : Handlers) (n : ℕ)
    → (isr_install s t h).0 n ≡ (if is_installed n then gate_for (stub_of s n) else t n)
unfolding isr_install stub_of set_idt_gate
isr_install_gates s t h n =
    let low : Idt = set_gates 32 0 0 s.isr t in
    elim (Bool-cases (ltb n 32)) [
      | inl e ↦ ground (
        arith,
        set_gates_out 16 0 32 s.irq low n (omega (arith, ltb→lt n 32 e)),
        set_gates_in 32 0 0 s.isr t n (omega arith) (omega (arith, ltb→lt n 32 e)),
      )
      | inr e ↦ elim (Bool-cases (ltb n 48)) [
        | inl e' ↦
            ground (arith, set_gates_in 16 0 32 s.irq low (n - 32) (omega arith) (ground arith))
        | inr e' ↦ ground (arith, set_gates_out 16 0 32 s.irq low n, set_gates_out 32 0 0 s.isr t n)
      ]
    ]

-- The gate of every installed interrupt whose stub lies below 4 GB is a present 32-bit interrupt
-- gate of the code segment of the kernel, from which the processor reads the address of the stub.
pub isr_install-offset :
    (s : Stubs) (t : Idt) (h : Handlers) (n : ℕ)
    → is_installed n ≡ true
    → stub_of s n < 2 ^ 32
    → let g = (isr_install s t h).0 n in
      (offset g ≡ stub_of s n) × (g.selector ≡ 8) × (g.flags ≡ 0x8e) × (g.always0 ≡ 0)
isr_install-offset s t h n yes_ small =
    rw (isr_install_gates s t h n, yes_)
      (
        (offset-gate_for (stub_of s n) small).0,
        unfold gate_for in refl,
        unfold gate_for in refl,
        unfold gate_for in refl,
      )
