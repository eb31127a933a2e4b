-- ===== src/Vga/Glyph.antt =====
-- Characters on the screen.
use strange_os.Prelude.{
  ℕ, zero, suc, ◌+◌, ◌-◌, ◌*◌, ◌^◌, ◌<◌, ◌≡◌, refl, inl, inr, Bool, true, not, ◌&&◌, arith, ltb,
  leb, ◌==◌, if◌then◌else◌, Bool-cases, bit_and, get_or,
}
use strange_os.Prelude.Int.{ℤ, pos, negsuc}
use strange_os.Prelude.Loops.{for_loop}
use strange_os.Vga.{Vga, draw_bit, draw_row, draw_char, vga_draw_char_fill, vga_set_pixel}
use strange_os.Vga.Pixel.{pixel, vga_set_pixel_lem}
use strange_os.Vga.Font.{vga_font}

-- The size and the colour of a screen.
abbrev pub SameScreen : Vga → Vga → Type 0
SameScreen v u = (u.width ≡ v.width) × (u.height ≡ v.height) × (u.font_color ≡ v.font_color)

pub vga_set_pixel-SameScreen :
    (x y c : ℕ) (v : Vga) → SameScreen v (vga_set_pixel (pos x) (pos y) c v)
unfolding vga_set_pixel
vga_set_pixel-SameScreen x y c v = (ground arith, ground arith, ground arith)

draw_bit-SameScreen :
    (px py row y x : ℕ) (f : Bool) (v : Vga) → SameScreen v (draw_bit (pos px) (pos py) row f y x v)
unfolding draw_bit vga_set_pixel
draw_bit-SameScreen px py row y x f v = (ground arith, ground arith, ground arith)

-- What a row of a character leaves in a pixel that held `old`.
abbrev pub inked : ℕ → ℕ → Bool → ℕ → ℕ → ℕ
inked row color f x old = if not (bit_and row (2 ^ x) == 0) then color else (if f then 0 else old)

draw_bit_lem :
    (px py row y x a b : ℕ) (f : Bool) (v : Vga)
    → a < v.width
    → b < v.height
    → pixel (draw_bit (pos px) (pos py) row f y x v) a b ≡ (
        if a == px + x && b == py + y
        then inked row v.font_color f x (pixel v a b)
        else pixel v a b)
unfolding draw_bit
draw_bit_lem px py row y x a b f v ha hb = ground (
  arith,
  vga_set_pixel_lem v (px + x) (py + y) a b v.font_color ha,
  vga_set_pixel_lem v (px + x) (py + y) a b 0 ha,
)

pub SameScreen-trans : (v u t : Vga) → SameScreen v u → SameScreen u t → SameScreen v t
SameScreen-trans v u t h k = (ground arith, ground arith, ground arith)

row_loop-SameScreen :
    (px py row y k x : ℕ) (f : Bool) (v : Vga)
    → SameScreen v (for_loop k x (draw_bit (pos px) (pos py) row f y) v)
unfolding for_loop
row_loop-SameScreen px py row y zero x f v = (refl, refl, refl)
row_loop-SameScreen px py row y (suc k) x f v =
    let u : Vga = draw_bit (pos px) (pos py) row f y x v in
    SameScreen-trans v u (for_loop k (x + 1) (draw_bit (pos px) (pos py) row f y) u)
      (draw_bit-SameScreen px py row y x f v) (row_loop-SameScreen px py row y k (x + 1) f u)

row_loop_lem :
    (px py row y a b k x : ℕ) (f : Bool) (v : Vga)
    → a < v.width
    → b < v.height
    → pixel (for_loop k x (draw_bit (pos px) (pos py) row f y) v) a b ≡ (
        if b == py + y && (leb (px + x) a && ltb a (px + x + k))
        then inked row v.font_color f (a - px) (pixel v a b)
        else pixel v a b)
unfolding for_loop
row_loop_lem px py row y a b zero x f v ha hb = ground arith
row_loop_lem px py row y a b (suc k) x f v ha hb =
    let u : Vga = draw_bit (pos px) (pos py) row f y x v in
    let same : SameScreen v u = draw_bit-SameScreen px py row y x f v in
    let ih = row_loop_lem px py row y a b k (x + 1) f u (omega arith) (omega arith) in
    let here = draw_bit_lem px py row y x a b f v ha hb in
    elim (Bool-cases (a == px + x)) [
      | inl e ↦ let off : a - px ≡ x = ground arith in ground arith
      | inr e ↦ ground arith
    ]

draw_row-SameScreen :
    (px py c y : ℕ) (f : Bool) (v : Vga) → SameScreen v (draw_row (pos px) (pos py) c f y v)
unfolding draw_row
draw_row-SameScreen px py c y f v =
    row_loop-SameScreen px py (get_or vga_font (c * 8 + y) 0) y 8 0 f v

draw_row_lem :
    (px py c y a b : ℕ) (f : Bool) (v : Vga)
    → a < v.width
    → b < v.height
    → pixel (draw_row (pos px) (pos py) c f y v) a b ≡ (
        if b == py + y && (leb px a && ltb a (px + 8))
        then inked (get_or vga_font (c * 8 + y) 0) v.font_color f (a - px) (pixel v a b)
        else pixel v a b)
unfolding draw_row
draw_row_lem px py c y a b f v ha hb =
    ground (arith, row_loop_lem px py (get_or vga_font (c * 8 + y) 0) y a b 8 0 f v ha hb)

rows_loop-SameScreen :
    (px py c k y : ℕ) (f : Bool) (v : Vga)
    → SameScreen v (for_loop k y (draw_row (pos px) (pos py) c f) v)
unfolding for_loop
rows_loop-SameScreen px py c zero y f v = (refl, refl, refl)
rows_loop-SameScreen px py c (suc k) y f v =
    let u : Vga = draw_row (pos px) (pos py) c f y v in
    SameScreen-trans v u (for_loop k (y + 1) (draw_row (pos px) (pos py) c f) u)
      (draw_row-SameScreen px py c y f v) (rows_loop-SameScreen px py c k (y + 1) f u)

rows_loop_lem :
    (px py c a b k y : ℕ) (f : Bool) (v : Vga)
    → a < v.width
    → b < v.height
    → pixel (for_loop k y (draw_row (pos px) (pos py) c f) v) a b ≡ (
        if (leb (py + y) b && ltb b (py + y + k)) && (leb px a && ltb a (px + 8))
        then inked (get_or vga_font (c * 8 + (b - py)) 0) v.font_color f (a - px) (pixel v a b)
        else pixel v a b)
unfolding for_loop
rows_loop_lem px py c a b zero y f v ha hb = ground arith
rows_loop_lem px py c a b (suc k) y f v ha hb =
    let u : Vga = draw_row (pos px) (pos py) c f y v in
    let same : SameScreen v u = draw_row-SameScreen px py c y f v in
    let ih = rows_loop_lem px py c a b k (y + 1) f u (omega arith) (omega arith) in
    let here = draw_row_lem px py c y a b f v ha hb in
    elim (Bool-cases (b == py + y)) [
      | inl e ↦ let off : b - py ≡ y = ground arith in ground arith
      | inr e ↦ ground arith
    ]

pub draw_char-SameScreen :
    (px py : ℕ) (c : ℤ) (f : Bool) (v : Vga) → SameScreen v (draw_char (pos px) (pos py) c f v)
unfolding draw_char
draw_char-SameScreen px py (negsuc k) f v = (refl, refl, refl)
draw_char-SameScreen px py (pos c) f v = elim (Bool-cases (leb 256 c)) [
  | inl e ↦ rw e (refl, refl, refl)
  | inr e ↦ rw e (rows_loop-SameScreen px py c 8 0 f v)
]

pub vga_draw_char_fill-draw_char :
    (px py c : ℤ) (v : Vga) → vga_draw_char_fill px py c v ≡ draw_char px py c true v
unfolding vga_draw_char_fill
vga_draw_char_fill-draw_char px py c v = refl

-- Nothing is drawn for a negative char.
pub vga_draw_char_fill-negative :
    (px py : ℤ) (k : ℕ) (v : Vga) → vga_draw_char_fill px py (negsuc k) v ≡ v
unfolding vga_draw_char_fill draw_char
vga_draw_char_fill-negative px py k v = refl

-- Of the pixels on the screen, a character below 256 drawn at (px, py) sets those of the 8 by 8
-- there to its glyph: the set bits in the font's colour, the others black if the background is
-- drawn and as they were if not. Every other pixel is as it was.
pub draw_char_lem :
    (px py c a b : ℕ) (f : Bool) (v : Vga)
    → a < v.width
    → b < v.height
    → c < 256
    → pixel (draw_char (pos px) (pos py) (pos c) f v) a b ≡ (
        if (leb py b && ltb b (py + 8)) && (leb px a && ltb a (px + 8))
        then inked (get_or vga_font (c * 8 + (b - py)) 0) v.font_color f (a - px) (pixel v a b)
        else pixel v a b)
unfolding draw_char
draw_char_lem px py c a b f v ha hb hc = ground (arith, rows_loop_lem px py c a b 8 0 f v ha hb)
