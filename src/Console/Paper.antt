-- ===== src/Console/Paper.antt =====
-- The console shows the end of an endless sheet of paper.
use strange_os.Prelude.{
  ℕ, zero, suc, ◌+◌, ◌*◌, ◌/◌, ◌%◌, ◌≤◌, ◌<◌, ◌≡◌, refl, inl, inr, true, false, ◌&&◌, List, [], ◌∷◌,
  arith, ltb, leb, ltb→lt, ◌==◌, if◌then◌else◌, Bool-cases,
}
use strange_os.Prelude.Loops.{for_loop}
use strange_os.Vga.{Bytes, write}
use strange_os.Console.{
  Console, cols, cells, last_row, newline, kflush, kcls, kscroll, put, kprintc, kprint,
}

pub clear_loop :
    (k i : ℕ) (t : Bytes) (x : ℕ)
    → for_loop k i (λ j u. write u j 0) t x ≡ (if leb i x && ltb x (i + k) then 0 else t x)
unfolding for_loop
clear_loop zero i t x = ground arith
clear_loop (suc k) i t x = ground (arith, clear_loop k (i + 1) (write t i 0) x)

shift_loop :
    (k i : ℕ) (t : Bytes) (x : ℕ)
    → for_loop k i (λ j u. write u j (u (j + cols))) t x
      ≡ (if leb i x && ltb x (i + k) then t (x + cols) else t x)
unfolding for_loop
shift_loop zero i t x = ground arith
shift_loop (suc k) i t x = ground (arith, shift_loop k (i + 1) (write t i (t (i + cols))) x)

-- A sheet of lines of 40 places, written from the top, and the place that is written next.
pub record Paper : Type 0 where
  pub tape : Bytes
  pub place : ℕ

pub print : ℕ → Paper → Paper
print ch p =
    if ch == newline
    then record p { place = (p.place / cols + 1) * cols }
    else record { tape = write p.tape p.place ch; place = p.place + 1 }

pub print_all : List ℕ → Paper → Paper
print_all [] p = p
print_all (ch ∷ s) p = print_all s (print ch p)

-- The console shows the 25 lines of the paper from place `base` on; behind the place that is
-- written next the paper is blank.
pub record Shows (c : Console) (p : Paper) (base : ℕ) : Type 0 where
  pub whole_lines : base % cols ≡ 0
  pub same_place : base + c.idx ≡ p.place
  pub in_range : c.idx < cells
  pub text : (i : ℕ) → i < cells → c.textbuf i ≡ p.tape (base + i)
  pub blank : (j : ℕ) → p.place ≤ j → p.tape j ≡ 0

idx-put : (ch : ℕ) (c : Console) → c.idx < cells → (put ch c).idx ≤ cells
unfolding put
idx-put ch c h = ground arith

text_of_put :
    (ch : ℕ) (c : Console) (p : Paper) (base : ℕ)
    → Shows c p base
    → (base + (put ch c).idx ≡ (print ch p).place)
      × ((i : ℕ) → i < cells → (put ch c).textbuf i ≡ (print ch p).tape (base + i))
      × ((j : ℕ) → (print ch p).place ≤ j → (print ch p).tape j ≡ 0)
unfolding put print
text_of_put ch c p base h = elim (Bool-cases (ch == newline)) [
  | inl e ↦ (ground arith, (λ i hi. ground (arith, h.text i)), (λ j hj. ground (arith, h.blank j)))
  | inr e ↦ (ground arith, (λ i hi. ground (arith, h.text i)), (λ j hj. ground (arith, h.blank j)))
]

scroll_text :
    (c : Console) (x : ℕ)
    → ltb c.idx cells ≡ false
    → (kscroll c).textbuf x
      ≡ (if ltb x last_row then c.textbuf (x + cols) else (if ltb x cells then 0 else c.textbuf x))
unfolding kscroll
scroll_text c x h = ground (
  arith,
  shift_loop last_row 0 c.textbuf x,
  clear_loop cols last_row (for_loop last_row 0 (λ j u. write u j (u (j + cols))) c.textbuf) x,
)

kscroll_still : (c : Console) → ltb c.idx cells ≡ true → kscroll c ≡ c
unfolding kscroll
kscroll_still c h = rw h refl

idx-kscroll : (c : Console) → ltb c.idx cells ≡ false → (kscroll c).idx ≡ last_row
unfolding kscroll
idx-kscroll c h = rw h refl

kflush_keeps : (c : Console) → ((kflush c).idx ≡ c.idx) × ((kflush c).textbuf ≡ c.textbuf)
unfolding kflush
kflush_keeps c = (refl, refl)

kprintc_keeps :
    (ch : ℕ) (c : Console)
    → ((kprintc ch c).idx ≡ (kscroll (put ch c)).idx)
      × ((kprintc ch c).textbuf ≡ (kscroll (put ch c)).textbuf)
unfolding kprintc
kprintc_keeps ch c = elim (Bool-cases (ch == newline)) [
  | inl e ↦ rw e (kflush_keeps (kscroll (put ch c)))
  | inr e ↦ rw e (refl, refl)
]

Shows-of_parts :
    (c c' : Console) (p : Paper) (base : ℕ)
    → c'.idx ≡ c.idx
    → c'.textbuf ≡ c.textbuf
    → Shows c p base
    → Shows c' p base
Shows-of_parts c c' p base e t h = record {
  whole_lines = h.whole_lines;
  same_place = ground arith;
  in_range = ground arith;
  text = λ i hi. ground (arith, h.text i);
  blank = h.blank;
}

scrolled-Shows :
    (ch : ℕ) (c : Console) (p : Paper) (base : ℕ)
    → Shows c p base
    → (base' : ℕ) × Shows (kscroll (put ch c)) (print ch p) base'
scrolled-Shows ch c p base h =
    let (at, text, blank) = text_of_put ch c p base h in
    elim (Bool-cases (ltb (put ch c).idx cells)) [
      | inl e ↦ (
        base,
        rw (kscroll_still (put ch c) e) (record {
          whole_lines = h.whole_lines;
          same_place = at;
          in_range = ltb→lt (put ch c).idx cells e;
          text = text;
          blank = blank;
        }),
      )
      | inr e ↦
          let full : (put ch c).idx ≡ cells = ground (arith, idx-put ch c h.in_range) in
          let top : (kscroll (put ch c)).idx ≡ last_row = idx-kscroll (put ch c) e in
          (
            base + cols,
            record {
              whole_lines = omega (arith, h.whole_lines);
              same_place = omega arith;
              in_range = omega arith;
              text = λ i hi.
                  ground
                    (arith, scroll_text (put ch c) i e, text (i + cols), blank (base + cols + i));
              blank = blank;
            },
          )
    ]

-- Whatever is printed, the console goes on showing the paper, from the same line or from the next.
pub kprintc-Shows :
    (ch : ℕ) (c : Console) (p : Paper) (base : ℕ)
    → Shows c p base
    → (base' : ℕ) × Shows (kprintc ch c) (print ch p) base'
kprintc-Shows ch c p base h =
    let (base', shown) = scrolled-Shows ch c p base h in
    let (e, t) = kprintc_keeps ch c in
    (base', Shows-of_parts (kscroll (put ch c)) (kprintc ch c) (print ch p) base' e t shown)

-- The console shows the end of an endless sheet of lines of 40 places: if it shows a sheet from
-- some line on, then after kprint of a text it shows, from some line on, the sheet on which the
-- text is printed.
pub kprint-Shows :
    (s : List ℕ) (c : Console) (p : Paper) (base : ℕ)
    → Shows c p base
    → (base' : ℕ) × Shows (kprint s c) (print_all s p) base'
unfolding kprint print_all
kprint-Shows [] c p base h = (base, h)
kprint-Shows (ch ∷ s) c p base h =
    let (base', shown) = kprintc-Shows ch c p base h in
    kprint-Shows s (kprintc ch c) (print ch p) base' shown

-- A cleared console shows a blank sheet from its top.
pub kcls-Shows : (c : Console) → Shows (kcls c) (record { tape = λ _. 0; place = 0 }) 0
unfolding kcls kflush
kcls-Shows c = record {
  whole_lines = refl;
  same_place = refl;
  in_range = omega arith;
  text = λ i hi. ground (arith, clear_loop cells 0 c.textbuf i);
  blank = λ j hj. refl;
}
