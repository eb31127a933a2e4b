-- ===== src/Console/Examples.antt =====
-- A small run of the console, and the theorems about printing and typing at it.
use strange_os.Prelude.{
  ℕ, ◌+◌, ◌*◌, ◌≡◌, refl, false, some, [], ◌∷◌, ◌++◌, arith, List, ◌==◌, if◌then◌else◌,
}
use strange_os.Vga.{Vga}
use strange_os.Console.{Console, kflush, kcls, kprint, kprintnl, kgets, kgetsc, kbint, kbctl}
use strange_os.Console.Paper.{Paper, print_all, Shows, kprint-Shows, kcls-Shows}
use strange_os.Console.Keys.{AllPlain, typed, echo, line_text, kgets_lem}
use strange_os.Console.Flush.{cell_ink, under_cursor, kflush_lem}

abbrev screen : Vga
screen = record {
  width = 320;
  height = 200;
  bpp = 256;
  addr = λ _. 1;
  font_color = 7;
  drvidx = 0;
  intern = λ _. 0;
}

abbrev console : Console
console = record { textbuf = λ i. if i == 41 then b'A' else 0; idx = 5; vga = screen }

abbrev sheet : Paper
sheet = record { tape = λ _. 0; place = 0 }

-- "Hi", a line feed and "!".
abbrev greeting : List ℕ
greeting = 72 ∷ 105 ∷ 10 ∷ 33 ∷ []

kprint-Shows_example :
    (base : ℕ) × Shows (kprint greeting (kcls console)) (print_all greeting sheet) base
kprint-Shows_example = kprint-Shows greeting (kcls console) sheet 0 (kcls-Shows console)

-- The keys of "hello" in a buffer of four bytes.
abbrev hello : List ℕ
hello = 35 ∷ 18 ∷ 38 ∷ 38 ∷ 24 ∷ []

plain_hello : AllPlain hello
plain_hello = (
  (omega arith, omega arith, omega arith, omega arith, omega arith),
  (
    (omega arith, omega arith, omega arith, omega arith, omega arith),
    (
      (omega arith, omega arith, omega arith, omega arith, omega arith),
      (
        (omega arith, omega arith, omega arith, omega arith, omega arith),
        ((omega arith, omega arith, omega arith, omega arith, omega arith), tt),
      ),
    ),
  ),
)

kgets_lem_example :
    kgets 4 (hello ++ 28 ∷ 7 ∷ []) (λ _. 9) console
    ≡ some (line_text 4 (typed hello) (λ _. 9), 5, kprintnl (echo (typed hello) console), 7 ∷ [])
kgets_lem_example =
    kgets_lem 4 hello (7 ∷ []) (λ _. 9) console (omega arith) (omega arith) plain_hello

-- A pixel of the A in the second cell of the second line.
kflush_lem_example :
    ((kflush console).vga.intern (11 * 320 + 10)
      ≡ (if under_cursor 5 10 11 then 7 else cell_ink console.textbuf 7 1 10 11))
    × ((kflush console).textbuf ≡ console.textbuf)
    × ((kflush console).idx ≡ 5)
kflush_lem_example = kflush_lem console 10 11 (refl, refl) (omega arith) (omega arith)

-- The text of the buffer: the terminator stands past its end.
past_the_end :
    (line_text 4 (typed hello) (λ _. 9) 2 ≡ b'l')
    × (line_text 4 (typed hello) (λ _. 9) 3 ≡ 9)
    × (line_text 4 (typed hello) (λ _. 9) 5 ≡ 0)
past_the_end = (refl, refl, refl)

delivered :
    kgetsc (kbint 30 (record { recsc = false; cursc = 0 }))
    ≡ some (30, record { recsc = false; cursc = 30 })
unfolding kgetsc kbint
delivered = refl

-- A program waits for a key and gets the first one that is pressed.
key_waits : kbctl 0x10 (158 ∷ 30 ∷ 48 ∷ []) ≡ some (30, 48 ∷ [])
unfolding kbctl
key_waits = refl
