-- ===== src/Console.antt =====
-- src/kernel/kprint.c and kprint.h: the text console and the keyboard.
-- The keys are a list of the scancodes that the keyboard's interrupt delivers, one for each wait of
-- kgetsc; `none` says that the keys ran out while the code waits.
pub mod View
pub mod Flush
pub mod Paper
pub mod Hex
pub mod Keys
mod Examples
use strange_os.Prelude.{
  ℕ, zero, suc, ◌+◌, ◌-◌, ◌*◌, ◌/◌, ◌%◌, ◌^◌, Bool, true, false, not, ◌&&◌, ◌||◌, Option, none,
  some, List, [], ◌∷◌, bit_and, ltb, leb, ◌==◌, if◌then◌else◌, get_or,
}
use strange_os.Prelude.Int.{ℤ, pos, negsuc, add_nat}
use strange_os.Prelude.Loops.{for_loop}
use strange_os.Str.{char_value}
use strange_os.Vga.{Vga, Bytes, write, vga_set_pixel, vga_draw_char_fill, vga_update}

-- `KPRINT_WIDTH`, `KPRINT_HEIGHT`, and the size of `textbuf`.
abbrev pub cols : ℕ
cols = 40

abbrev pub rows : ℕ
rows = 25

abbrev pub cells : ℕ
cells = 1000

-- `textbuf`, `idx`, and the display.
pub record Console : Type 0 where
  pub textbuf : Bytes
  pub idx : ℕ
  pub vga : Vga

-- `scancodes`, with its terminator.
abbrev pub scancodes : List ℕ
scancodes =
    63 ∷ 63 ∷ 49 ∷ 50 ∷ 51 ∷ 52 ∷ 53 ∷ 54 ∷ 55 ∷ 56 ∷ 57 ∷ 48 ∷ 45 ∷ 61 ∷ 63 ∷ 63 ∷ 113 ∷ 119 ∷ 101
    ∷ 114 ∷ 116 ∷ 121 ∷ 117 ∷ 105 ∷ 111 ∷ 112 ∷ 91 ∷ 93 ∷ 10 ∷ 63 ∷ 97 ∷ 115 ∷ 100 ∷ 102 ∷ 103 ∷ 104
    ∷ 106 ∷ 107 ∷ 108 ∷ 59 ∷ 39 ∷ 96 ∷ 63 ∷ 92 ∷ 122 ∷ 120 ∷ 99 ∷ 118 ∷ 98 ∷ 110 ∷ 109 ∷ 44 ∷ 46
    ∷ 47 ∷ 63 ∷ 63 ∷ 63 ∷ 32 ∷ 63 ∷ 63 ∷ 33 ∷ 64 ∷ 35 ∷ 36 ∷ 37 ∷ 94 ∷ 38 ∷ 42 ∷ 40 ∷ 41 ∷ 95 ∷ 43
    ∷ 63 ∷ 63 ∷ 81 ∷ 87 ∷ 69 ∷ 82 ∷ 84 ∷ 89 ∷ 85 ∷ 73 ∷ 79 ∷ 80 ∷ 123 ∷ 125 ∷ 63 ∷ 63 ∷ 65 ∷ 83 ∷ 68
    ∷ 70 ∷ 71 ∷ 72 ∷ 74 ∷ 75 ∷ 76 ∷ 58 ∷ 34 ∷ 126 ∷ 63 ∷ 92 ∷ 90 ∷ 88 ∷ 67 ∷ 86 ∷ 66 ∷ 78 ∷ 77 ∷ 60
    ∷ 62 ∷ 63 ∷ 63 ∷ 63 ∷ 63 ∷ 32 ∷ 0 ∷ []

-- `hex_chars`
abbrev pub hex_chars : List ℕ
hex_chars =
    b'0' ∷ b'1' ∷ b'2' ∷ b'3' ∷ b'4' ∷ b'5' ∷ b'6' ∷ b'7' ∷ b'8' ∷ b'9' ∷ b'A' ∷ b'B' ∷ b'C' ∷ b'D'
    ∷ b'E' ∷ b'F' ∷ []

abbrev pub newline : ℕ
newline = 10

-- `--idx` of a u32 adds this.
abbrev pub u32_max : ℕ
u32_max = 2 ^ 32 - 1

-- One cell of kflush.
pub draw_cell : Bytes → ℕ → Vga → Vga
draw_cell text i v =
    vga_draw_char_fill (pos (i % cols * 8)) (pos (i / cols * 8)) (char_value (text i)) v

pub cursor_line : ℕ → ℕ → ℕ → Vga → Vga
cursor_line cx cy y v =
    for_loop 8 0 (λ x u. vga_set_pixel (pos (cx + x)) (pos (cy + y + 6)) u.font_color u) v

pub draw_cursor : ℕ → Vga → Vga
draw_cursor idx v = for_loop 2 0 (cursor_line (idx % cols * 8) (idx / cols * 8)) v

pub kflush : Console → Console
kflush c = record c {
  vga = vga_update (draw_cursor c.idx (for_loop cells 0 (draw_cell c.textbuf) c.vga));
}

pub kcls : Console → Console
kcls c = kflush (record c { idx = 0; textbuf = for_loop cells 0 (λ i t. write t i 0) c.textbuf })

-- `textbuf == NULL` at first: `allocated` says whether it is, `buf` is what kmalloc returns.
pub ktextinit : Bool → Bytes → Console → Console
unfolding kcls
ktextinit allocated buf c = kcls (if allocated then c else record c { textbuf = buf })

abbrev pub last_row : ℕ
last_row = cols * (rows - 1)

pub kscroll : Console → Console
kscroll c = if ltb c.idx cells then c else record c {
  textbuf =
      for_loop cols last_row (λ i t. write t i 0)
        (for_loop last_row 0 (λ i t. write t i (t (i + cols))) c.textbuf);
  idx = last_row;
}

-- The first statement of kprintc.
pub put : ℕ → Console → Console
put ch c =
    if ch == newline
    then record c { idx = c.idx + (cols - c.idx % cols) }
    else record c { textbuf = write c.textbuf c.idx ch; idx = c.idx + 1 }

pub kprintc : ℕ → Console → Console
kprintc ch c = if ch == newline then kflush (kscroll (put ch c)) else kscroll (put ch c)

-- The string is the text in front of its terminator.
unfoldable pub kprint : List ℕ → Console → Console
unfolding kprintc
kprint [] c = c
kprint (ch ∷ s) c = kprint s (kprintc ch c)

-- The loop of kprinthex, with `i` digits left.
pub kprinthex_loop : ℕ → ℕ → Console → Console
kprinthex_loop zero h c = c
kprinthex_loop (suc i) h c =
    kprinthex_loop i h (kprintc (get_or hex_chars (bit_and (h / 2 ^ (i * 4)) 0xf) 0) c)

pub kprinthex : ℕ → Console → Console
unfolding kprinthex_loop
kprinthex h c = kprinthex_loop 8 h c

pub kprintnl : Console → Console
unfolding kprintc
kprintnl c = kprintc newline c

-- `recsc` and `cursc`: kbint delivers a scancode, kgetsc takes it.
pub record Keyboard : Type 0 where
  pub recsc : Bool
  pub cursc : ℕ

unfoldable pub kbint : ℕ → Keyboard → Keyboard
kbint port k = record { recsc = true; cursc = port }

-- `none` while nothing has been delivered.
unfoldable pub kgetsc : Keyboard → Option (ℕ × Keyboard)
kgetsc k = if k.recsc then some (k.cursc, record k { recsc = false }) else none

-- `kgetc` of a scancode.
pub kgetc : ℕ → ℕ
kgetc sc = if ltb 58 sc then 0 else get_or scancodes sc 0

-- `kbctl`: the first scancode that is no larger than 58, and the keys behind it.
unfoldable pub kbctl : ℕ → List ℕ → Option (ℕ × List ℕ)
kbctl cmd [] = if cmd == 0x10 then none else some (0, [])
kbctl cmd (sc ∷ keys) =
    let rest = kbctl cmd keys in
    if cmd == 0x10 then (if ltb 58 sc then rest else some (sc, keys)) else some (0, sc ∷ keys)

-- The variables of kgets: the caller's buffer, the shift, the characters read, and the console.
pub record Line : Type 0 where
  pub buf : Bytes
  pub sh : Bool
  pub nch : ℕ
  pub con : Console

-- The character of a scancode, with or without shift.
abbrev pub key_char : Bool → ℕ → ℕ
key_char sh sc =
    if ltb sc 58 then (if sh then get_or scancodes (sc + 58) 0 else get_or scancodes sc 0) else 0

-- `sz-1` of a size_t.
pub room : ℕ → ℕ
room sz = let top = (sz + u32_max) % 2 ^ 32 in if ltb top (2 ^ 31) then top else 0

-- One round of the loop of kgets, for the character `ch` of scancode `sc`.
pub kgets_key : ℕ → ℕ → ℕ → Line → Line
kgets_key sz sc ch l =
    let sh' = if sc == 0x2a then true else (if sc == 0xaa then false else l.sh) in
    if sc == 0x0e
    then (if ltb 0 l.nch
        then record l {
          sh = sh';
          nch = l.nch - 1;
          buf = write l.buf (l.nch - 1) 0;
          con = kflush (record (l.con) {
            idx = (l.con.idx + u32_max) % 2 ^ 32;
            textbuf = write l.con.textbuf ((l.con.idx + u32_max) % 2 ^ 32) 0;
          });
        }
        else record l { sh = sh' })
    else (if not (ch == 0) && not (ch == newline) && not (sc == 0x2a) && not (sc == 0xaa)
        then record l {
          sh = sh';
          buf = if ltb l.nch (room sz) then write l.buf l.nch ch else l.buf;
          con = kflush (kprintc ch l.con);
          nch = l.nch + 1;
        }
        else record l { sh = sh' })

pub kgets_loop : ℕ → List ℕ → Line → Option (Line × List ℕ)
kgets_loop sz [] l = none
kgets_loop sz (sc ∷ keys) l =
    let rest = kgets_loop sz keys (kgets_key sz sc (key_char l.sh sc) l) in
    if key_char l.sh sc == newline then some (kgets_key sz sc (key_char l.sh sc) l, keys) else rest

-- `kgets(buf, sz)`: the buffer, the characters read, the console and the keys that are left.
pub kgets : ℕ → List ℕ → Bytes → Console → Option (Bytes × ℕ × Console × List ℕ)
unfolding kgets_loop
kgets sz keys buf c =
    elim (kgets_loop sz keys (record { buf = buf; sh = false; nch = 0; con = c })) [
      | none ↦ none
      | some (l, left) ↦ some (write l.buf l.nch 0, l.nch, kprintnl l.con, left)
    ]
