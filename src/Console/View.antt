-- ===== src/Console/View.antt =====
-- The text of the console, without the display.
use strange_os.Prelude.{
  ℕ, ◌≡◌, refl, sym, ap, ◌∙◌, inl, inr, Bool-cases, List, [], ◌∷◌, ◌++◌, ltb, ◌==◌,
}
use strange_os.Vga.{Vga}
use strange_os.Console.{Console, newline, cells, put, kscroll, kflush, kprintc, kprint}

-- What the console holds, and where it goes on.
abbrev pub View : Type 0
View = (ℕ → ℕ) × ℕ

abbrev pub view : Console → View
view c = (c.textbuf, c.idx)

abbrev dark : Vga
dark = record {
  width = 0;
  height = 0;
  bpp = 0;
  addr = λ _. 0;
  font_color = 0;
  drvidx = 0;
  intern = λ _. 0;
}

abbrev console_of : View → Console
console_of v = record { textbuf = v.0; idx = v.1; vga = dark }

-- What printing makes of it.
pub print : View → List ℕ → View
print v s = view (kprint s (console_of v))

kscroll-view : (c : Console) → view (kscroll c) ≡ view (kscroll (console_of (view c)))
unfolding kscroll
kscroll-view c = elim (Bool-cases (ltb c.idx cells)) [
  | inl low ↦ rw (kscroll, low) refl
  | inr high ↦ rw (kscroll, high) refl
]

put-view : (ch : ℕ) (c : Console) → view (put ch c) ≡ view (put ch (console_of (view c)))
unfolding put
put-view ch c = elim (Bool-cases (ch == newline)) [
  | inl line ↦ rw (put, line) refl
  | inr other ↦ rw (put, other) refl
]

scrolled-view :
    (ch : ℕ) (c : Console)
    → view (kscroll (put ch c)) ≡ view (kscroll (put ch (console_of (view c))))
scrolled-view ch c =
    kscroll-view (put ch c)
    ∙ ap (λ v. view (kscroll (console_of v))) (put-view ch c)
    ∙ sym (kscroll-view (put ch (console_of (view c))))

kprintc-view :
    (ch : ℕ) (c : Console) → view (kprintc ch c) ≡ view (kprintc ch (console_of (view c)))
unfolding kprintc kflush
kprintc-view ch c = elim (Bool-cases (ch == newline)) [
  | inl line ↦ rw (kprintc, line) (scrolled-view ch c)
  | inr other ↦ rw (kprintc, other) (scrolled-view ch c)
]

-- Printing depends on the text alone.
pub kprint-view : (s : List ℕ) (c : Console) → view (kprint s c) ≡ print (view c) s
unfolding kprint print
kprint-view [] c = refl
kprint-view (ch ∷ s) c =
    kprint-view s (kprintc ch c)
    ∙ ap (λ v. view (kprint s (console_of v))) (kprintc-view ch c)
    ∙ sym (kprint-view s (kprintc ch (console_of (view c))))

kprint-append : (s t : List ℕ) (c : Console) → kprint (s ++ t) c ≡ kprint t (kprint s c)
unfolding kprint
kprint-append [] t c = refl
kprint-append (ch ∷ s) t c = kprint-append s t (kprintc ch c)

pub print_nil : (v : View) → print v [] ≡ v
unfolding print kprint
print_nil v = refl

pub print-append : (v : View) (s t : List ℕ) → print (print v s) t ≡ print v (s ++ t)
unfolding print
print-append v s t =
    sym (kprint-view t (kprint s (console_of v))) ∙ ap view (sym (kprint-append s t (console_of v)))

pub kflush-view : (c : Console) → view (kflush c) ≡ view c
unfolding kflush
kflush-view c = refl
