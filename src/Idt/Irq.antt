-- ===== src/Idt/Irq.antt =====
-- What irq_handler and int_handler do for each interrupt.
use strange_os.Prelude.{
  ℕ, suc, ◌≡◌, ◌&&◌, Option, none, some, List, [], ◌∷◌, arith, ltb, leb, ◌==◌, if◌then◌else◌,
}
use strange_os.Idt.{
  Isr, kbint, ksysint, ata_irq, no_irq, Action, call, out, panic, run_handler, irq_handler,
  int_handler, idt_load,
}

-- How often the end of the interrupt is sent to a controller.
abbrev pub ends : ℕ → List Action → ℕ
ends port [] = 0
ends port (out p v ∷ as_) = if p == port && v == 0x20 then suc (ends port as_) else ends port as_
ends port (call h ∷ as_) = ends port as_
ends port (panic e ∷ as_) = ends port as_

-- The handlers that are called before anything is sent.
abbrev pub called_first : List Action → List Isr
called_first (call h ∷ as_) = h ∷ called_first as_
called_first [] = []
called_first (out p v ∷ as_) = []
called_first (panic e ∷ as_) = []

abbrev pub registered : ℕ → Option Isr
registered n =
    if n == 33
    then some kbint
    else (if n == 0x40
        then some ksysint
        else (if n == 46 then some ata_irq else (if n == 47 then some no_irq else none)))

-- After idt_load on an empty table an interrupt runs the one handler registered for it, if any,
-- and then ends the interrupt once at the first controller exactly below 48 and once at the second
-- exactly from 40 to 47; int_handler runs the same handler and sends nothing.
pub irq_handler_lem :
    (n : ℕ)
    → let t = idt_load (λ _. none) in
      (called_first (irq_handler t n) ≡ called_first (run_handler (registered n)))
      × (ends 0x20 (irq_handler t n) ≡ (if ltb n 48 then 1 else 0))
      × (ends 0xa0 (irq_handler t n) ≡ (if leb 40 n && ltb n 48 then 1 else 0))
      × (int_handler t n ≡ run_handler (registered n))
unfolding irq_handler int_handler idt_load
irq_handler_lem n = (ground arith, ground arith, ground arith, ground arith)
