-- ===== src/Console/Flush.antt =====
-- What kflush leaves on a screen of 320 by 200 pixels.
use strange_os.Prelude.{
  ℕ, zero, suc, ◌+◌, ◌-◌, ◌*◌, ◌/◌, ◌%◌, ◌<◌, ◌≡◌, refl, ◌∙◌, inl, inr, Bool, true, false, ◌&&◌,
  arith, ltb, leb, ltb→lt, ◌==◌, if◌then◌else◌, Bool-cases, get_or,
}
use strange_os.Prelude.Int.{pos}
use strange_os.Prelude.Loops.{for_loop}
use strange_os.Vga.{Vga, Bytes, vga_set_pixel, draw_char, vga_update}
use strange_os.Vga.Font.{vga_font}
use strange_os.Vga.Pixel.{pixel, vga_set_pixel_lem}
use strange_os.Vga.Glyph.{
  inked, SameScreen, SameScreen-trans, draw_char_lem, draw_char-SameScreen,
  vga_draw_char_fill-draw_char, vga_draw_char_fill-negative, vga_set_pixel-SameScreen,
}
use strange_os.Console.{Console, cols, cells, draw_cell, cursor_line, draw_cursor, kflush}

-- The cell of a pixel, and what the cell's character puts there: a char above 127 is negative, and
-- nothing is drawn for it.
abbrev pub cell_of : ℕ → ℕ → ℕ
cell_of a b = b / 8 * cols + a / 8

abbrev pub cell_ink : Bytes → ℕ → ℕ → ℕ → ℕ → ℕ
cell_ink text color old a b =
    let ch = text (cell_of a b) in
    if ltb ch 128 then inked (get_or vga_font (ch * 8 + b % 8) 0) color true (a % 8) old else old

abbrev pub Is320x200 : Vga → Type 0
Is320x200 v = (v.width ≡ 320) × (v.height ≡ 200)

-- The character of a cell, drawn.
draw_cell-low :
    (text : Bytes) (i : ℕ) (v : Vga)
    → ltb (text i) 128 ≡ true
    → draw_cell text i v ≡ draw_char (pos (i % cols * 8)) (pos (i / cols * 8)) (pos (text i)) true v
unfolding draw_cell
draw_cell-low text i v h =
    rw h (vga_draw_char_fill-draw_char (pos (i % cols * 8)) (pos (i / cols * 8)) (pos (text i)) v)

draw_cell-high :
    (text : Bytes) (i : ℕ) (v : Vga) → ltb (text i) 128 ≡ false → draw_cell text i v ≡ v
unfolding draw_cell
draw_cell-high text i v h =
    rw h (vga_draw_char_fill-negative (pos (i % cols * 8)) (pos (i / cols * 8)) (255 - text i) v)

draw_cell_lem :
    (text : Bytes) (i a b : ℕ) (v : Vga)
    → Is320x200 v
    → a < 320
    → b < 200
    → pixel (draw_cell text i v) a b
      ≡ (if i == cell_of a b then cell_ink text v.font_color (pixel v a b) a b else pixel v a b)
draw_cell_lem text i a b v h ha hb = elim (Bool-cases (ltb (text i) 128)) [
  | inl e ↦ rw (draw_cell-low text i v e) (elim (Bool-cases (i == cell_of a b)) [
    | inl here ↦ ground (
      arith,
      draw_char_lem (i % cols * 8) (i / cols * 8) (text i) a b true v (omega arith) (omega arith)
          (omega (arith, ltb→lt (text i) 128 e)),
    )
    | inr apart ↦ ground (
      arith,
      draw_char_lem (i % cols * 8) (i / cols * 8) (text i) a b true v (omega arith) (omega arith)
          (omega (arith, ltb→lt (text i) 128 e)),
    )
  ])
  | inr e ↦ rw (draw_cell-high text i v e) (ground arith)
]

draw_cell-SameScreen : (text : Bytes) (i : ℕ) (v : Vga) → SameScreen v (draw_cell text i v)
draw_cell-SameScreen text i v = elim (Bool-cases (ltb (text i) 128)) [
  | inl e ↦
      rw (draw_cell-low text i v e)
        (draw_char-SameScreen (i % cols * 8) (i / cols * 8) (pos (text i)) true v)
  | inr e ↦ rw (draw_cell-high text i v e) (refl, refl, refl)
]

cells_loop-SameScreen :
    (text : Bytes) (k i : ℕ) (v : Vga) → SameScreen v (for_loop k i (draw_cell text) v)
unfolding for_loop
cells_loop-SameScreen text zero i v = (refl, refl, refl)
cells_loop-SameScreen text (suc k) i v =
    let u : Vga = draw_cell text i v in
    SameScreen-trans v u (for_loop k (i + 1) (draw_cell text) u) (draw_cell-SameScreen text i v)
      (cells_loop-SameScreen text k (i + 1) u)

cells_loop_lem :
    (text : Bytes) (k i a b : ℕ) (v : Vga)
    → Is320x200 v
    → a < 320
    → b < 200
    → pixel (for_loop k i (draw_cell text) v) a b ≡ (
        if leb i (cell_of a b) && ltb (cell_of a b) (i + k)
        then cell_ink text v.font_color (pixel v a b) a b
        else pixel v a b)
unfolding for_loop
cells_loop_lem text zero i a b v h ha hb = ground arith
cells_loop_lem text (suc k) i a b v h ha hb =
    let u : Vga = draw_cell text i v in
    let (w, ht, color) = draw_cell-SameScreen text i v in
    let ih = cells_loop_lem text k (i + 1) a b u (w ∙ h.0, ht ∙ h.1) ha hb in
    let here = draw_cell_lem text i a b v h ha hb in ground arith

line_loop-SameScreen :
    (cx y k x : ℕ) (v : Vga)
    → SameScreen v (for_loop k x (λ x' u. vga_set_pixel (pos (cx + x')) (pos y) u.font_color u) v)
unfolding for_loop
line_loop-SameScreen cx y zero x v = (refl, refl, refl)
line_loop-SameScreen cx y (suc k) x v =
    let dot = λ (x' : ℕ) (u : Vga). vga_set_pixel (pos (cx + x')) (pos y) u.font_color u in
    SameScreen-trans v (dot x v) (for_loop k (x + 1) dot (dot x v))
      (vga_set_pixel-SameScreen (cx + x) y v.font_color v)
      (line_loop-SameScreen cx y k (x + 1) (dot x v))

line_loop_lem :
    (cx y k x a b : ℕ) (v : Vga)
    → a < v.width
    → b < v.height
    → pixel (for_loop k x (λ x' u. vga_set_pixel (pos (cx + x')) (pos y) u.font_color u) v) a b
      ≡ (if b == y && (leb (cx + x) a && ltb a (cx + x + k)) then v.font_color else pixel v a b)
unfolding for_loop
line_loop_lem cx y zero x a b v ha hb = ground arith
line_loop_lem cx y (suc k) x a b v ha hb =
    let u : Vga = vga_set_pixel (pos (cx + x)) (pos y) v.font_color v in
    let (w, ht, color) = vga_set_pixel-SameScreen (cx + x) y v.font_color v in
    let ih = line_loop_lem cx y k (x + 1) a b u (omega arith) (omega arith) in
    let here = vga_set_pixel_lem v (cx + x) y a b v.font_color ha in ground arith

cursor_line-SameScreen : (cx cy y : ℕ) (v : Vga) → SameScreen v (cursor_line cx cy y v)
unfolding cursor_line
cursor_line-SameScreen cx cy y v = line_loop-SameScreen cx (cy + y + 6) 8 0 v

cursor_line_lem :
    (cx cy y a b : ℕ) (v : Vga)
    → a < v.width
    → b < v.height
    → pixel (cursor_line cx cy y v) a b
      ≡ (if b == cy + y + 6 && (leb cx a && ltb a (cx + 8)) then v.font_color else pixel v a b)
unfolding cursor_line
cursor_line_lem cx cy y a b v ha hb = ground (arith, line_loop_lem cx (cy + y + 6) 8 0 a b v ha hb)

-- The two lines of the cursor in its cell.
abbrev pub under_cursor : ℕ → ℕ → ℕ → Bool
under_cursor idx a b = cell_of a b == idx && leb 6 (b % 8)

draw_cursor_lem :
    (idx a b : ℕ) (v : Vga)
    → Is320x200 v
    → a < 320
    → b < 200
    → pixel (draw_cursor idx v) a b ≡ (if under_cursor idx a b then v.font_color else pixel v a b)
unfolding draw_cursor for_loop
draw_cursor_lem idx a b v h ha hb =
    let cx = idx % cols * 8 in
    let cy = idx / cols * 8 in
    let u : Vga = cursor_line cx cy 0 v in
    let (w, ht, color) = cursor_line-SameScreen cx cy 0 v in
    let first = cursor_line_lem cx cy 0 a b v (omega arith) (omega arith) in
    let second = cursor_line_lem cx cy 1 a b u (omega arith) (omega arith) in ground arith

draw_cursor-SameScreen : (idx : ℕ) (v : Vga) → SameScreen v (draw_cursor idx v)
unfolding draw_cursor for_loop
draw_cursor-SameScreen idx v =
    let cx = idx % cols * 8 in
    let cy = idx / cols * 8 in
    let u : Vga = cursor_line cx cy 0 v in
    SameScreen-trans v u (cursor_line cx cy 1 u) (cursor_line-SameScreen cx cy 0 v)
      (cursor_line-SameScreen cx cy 1 u)

-- After kflush on a screen of 320 by 200 pixels each byte of the display shows its pixel of the
-- glyph of the character in its cell, in the font's colour on black (a char above 127 leaves what
-- the frame buffer held), but the last two lines of the cell at idx are drawn over with the font's
-- colour. The text and the index are as they were.
pub kflush_lem :
    (c : Console) (a b : ℕ)
    → Is320x200 c.vga
    → a < 320
    → b < 200
    → ((kflush c).vga.intern (b * 320 + a) ≡ (
        if under_cursor c.idx a b
        then c.vga.font_color
        else cell_ink c.textbuf c.vga.font_color (pixel c.vga a b) a b))
      × ((kflush c).textbuf ≡ c.textbuf)
      × ((kflush c).idx ≡ c.idx)
unfolding kflush vga_update
kflush_lem c a b h ha hb =
    let v : Vga = for_loop cells 0 (draw_cell c.textbuf) c.vga in
    let (w, ht, color) = cells_loop-SameScreen c.textbuf cells 0 c.vga in
    let (w', ht', color') = draw_cursor-SameScreen c.idx v in
    let text = cells_loop_lem c.textbuf cells 0 a b c.vga h ha hb in
    let cursor = draw_cursor_lem c.idx a b v (w ∙ h.0, ht ∙ h.1) ha hb in
    let at : b * 320 + a < 320 * 200 = omega arith in (ground arith, refl, refl)
