-- ===== src/Idt/Examples.antt =====
-- A table with made-up stubs, and the theorems about gates at it.
use strange_os.Prelude.{arith, ◌+◌, ◌*◌, ◌≡◌, refl, none, [], ◌∷◌}
use strange_os.Idt.Irq.{called_first, ends, irq_handler_lem}
use strange_os.Idt.Gates.{offset, stub_of, isr_install-offset}
use strange_os.Idt.{
  isr_install, int_handler, Idt, Stubs, isr_handler, panic, irq_handler, idt_load, call, out,
  ata_irq,
}

abbrev stubs : Stubs
stubs = record { isr = λ n. 0x10_0000 + 16 * n; irq = λ n. 0x10_1000 + 16 * n; syscall = 0x10_2000 }

abbrev empty : Idt
empty _ = record { low_offset = 0; selector = 0; always0 = 0; flags = 0; high_offset = 0 }

irq_handler_lem_example :
    let t = idt_load (λ _. none) in
    (called_first (irq_handler t 46) ≡ ata_irq ∷ [])
    × (ends 0x20 (irq_handler t 46) ≡ 1)
    × (ends 0xa0 (irq_handler t 46) ≡ 1)
    × (int_handler t 46 ≡ call ata_irq ∷ [])
irq_handler_lem_example = irq_handler_lem 46

disk_interrupt :
    irq_handler (idt_load (λ _. none)) 46 ≡ call ata_irq ∷ out 0x20 0x20 ∷ out 0xa0 0x20 ∷ []
unfolding irq_handler idt_load
disk_interrupt = refl

errors_panic : (isr_handler 14 ≡ panic 0 ∷ []) × (isr_handler 13 ≡ panic 3 ∷ [])
unfolding isr_handler
errors_panic = (refl, refl)

isr_install-offset_example :
    let g = (isr_install stubs empty (λ _. none)).0 33 in
    (offset g ≡ 0x10_1010) × (g.selector ≡ 8) × (g.flags ≡ 0x8e) × (g.always0 ≡ 0)
unfolding stub_of
isr_install-offset_example = isr_install-offset stubs empty (λ _. none) 33 refl (omega arith)
