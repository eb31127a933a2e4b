-- ===== src/Idt.antt =====
-- src/kernel/idt.c and idt.h: the interrupt descriptor table, the handlers, and what is sent to the
-- interrupt controllers. The assembly stubs (idt.asm) are given by their addresses.
pub mod Gates
pub mod Irq
mod Examples
use strange_os.Prelude.{
  ℕ, zero, suc, ◌+◌, ◌-◌, ◌*◌, ◌/◌, ◌%◌, ◌^◌, Bool, true, false, Option, none, some, List, [], ◌∷◌,
  ◌++◌, bit_and, ltb, leb, ◌==◌, if◌then◌else◌,
}

-- `idt_gate`
pub record Gate : Type 0 where
  pub low_offset : ℕ
  pub selector : ℕ
  pub always0 : ℕ
  pub flags : ℕ
  pub high_offset : ℕ

-- `low16` and `high16`
pub low16 : ℕ → ℕ
low16 x = bit_and x 0xffff

pub high16 : ℕ → ℕ
high16 x = bit_and (x / 2 ^ 16) 0xffff

-- `idt`, by index.
abbrev pub Idt : Type 0
Idt = ℕ → Gate

-- The gate that `set_idt_gate` writes.
pub gate_for : ℕ → Gate
unfolding low16 high16
gate_for handler = record {
  low_offset = low16 handler;
  selector = 0x08;
  always0 = 0;
  flags = 0x8e;
  high_offset = high16 handler;
}

pub set_idt_gate : ℕ → ℕ → Idt → Idt
set_idt_gate n handler t x = if x == n then gate_for handler else t x

-- The handlers that the kernel registers.
pub data Isr : Type 0 where
  kbint : Isr
  ksysint : Isr
  ata_irq : Isr
  no_irq : Isr

-- `int_handlers`, NULL as `none`.
abbrev pub Handlers : Type 0
Handlers = ℕ → Option Isr

pub idt_set_handler : ℕ → Isr → Handlers → Handlers
idt_set_handler n h t x = if x == n then some h else t x

-- `idt_load` registers the handlers (and loads the table's address).
pub idt_load : Handlers → Handlers
unfolding idt_set_handler
idt_load t =
    idt_set_handler 47 no_irq
      (idt_set_handler 46 ata_irq (idt_set_handler 0x40 ksysint (idt_set_handler 33 kbint t)))

-- The addresses of isr0 ... isr31, irq0 ... irq15 and irqsyscall.
pub record Stubs : Type 0 where
  pub isr : ℕ → ℕ
  pub irq : ℕ → ℕ
  pub syscall : ℕ

-- A row of calls `set_idt_gate(i + base, stub i)`, with the calls left.
pub set_gates : ℕ → ℕ → ℕ → (ℕ → ℕ) → Idt → Idt
set_gates zero i base stub t = t
set_gates (suc k) i base stub t = set_gates k (i + 1) base stub (set_idt_gate (i + base) (stub i) t)

-- The bytes that reprogram the two controllers: ports 0x20 and 0x21, 0xa0 and 0xa1.
abbrev pub pic_setup : List (ℕ × ℕ)
pic_setup =
    (0x20, 0x11)
    ∷ (0xa0, 0x11)
    ∷ (0x21, 0x20)
    ∷ (0xa1, 0x28)
    ∷ (0x21, 0x04)
    ∷ (0xa1, 0x02)
    ∷ (0x21, 0x01)
    ∷ (0xa1, 0x01)
    ∷ (0x21, 0x00)
    ∷ (0xa1, 0x00)
    ∷ []

-- `isr_install`: the table, the handlers and what goes out to the ports (the waits left out).
pub isr_install : Stubs → Idt → Handlers → Idt × Handlers × List (ℕ × ℕ)
isr_install s t h =
    let t₁ = set_gates 32 0 0 s.isr t in
    let t₂ = set_gates 16 0 32 s.irq t₁ in (set_idt_gate 0x40 s.syscall t₂, idt_load h, pic_setup)

-- What an interrupt makes the processor do.
pub data Action : Type 0 where
  call : Isr → Action
  out : ℕ → ℕ → Action
  panic : ℕ → Action

-- `if (int_handlers[n] != NULL) handler(r);`
abbrev pub run_handler : Option Isr → List Action
run_handler none = []
run_handler (some h) = call h ∷ []

pub irq_handler : Handlers → ℕ → List Action
irq_handler t n =
    run_handler (t n)
    ++ (if ltb n 48 then (out 0x20 0x20 ∷ (if leb 40 n then out 0xa0 0x20 ∷ [] else [])) else [])

pub int_handler : Handlers → ℕ → List Action
int_handler t n = run_handler (t n)

-- `isr_handler`: a page fault panics with `E_PAGEFLT`, any other error with `E_CPUERR`.
pub isr_handler : ℕ → List Action
isr_handler n = if n == 14 then panic 0 ∷ [] else panic 3 ∷ []
