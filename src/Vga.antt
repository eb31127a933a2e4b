-- ===== src/Vga.antt =====
-- src/kernel/video/vga16.c and vga16.h: the display in 320x200 mode.
-- The frame buffer, which kmalloc gives, and the memory of the display are arrays by index. What
-- goes out to the ports is a list of port and byte.
pub mod Font
pub mod Palette
pub mod Pixel
pub mod Glyph
pub mod Registers
mod Examples
use strange_os.Prelude.{
  ℕ, zero, suc, ◌+◌, ◌-◌, ◌*◌, ◌/◌, ◌%◌, ◌^◌, Bool, true, false, not, ◌&&◌, ◌||◌, List, [], ◌∷◌,
  ◌++◌, bit_and, bit_or, ltb, leb, ◌==◌, if◌then◌else◌, get_or, set, drop,
}
use strange_os.Prelude.Int.{ℤ, pos, negsuc, add_nat}
use strange_os.Prelude.Loops.{for_loop}
use Font.{vga_font}
use Palette.{vga_palette}

abbrev pub Bytes : Type 0
Bytes = ℕ → ℕ

-- The global and static variables, and the memory at 0xa0000.
pub record Vga : Type 0 where
  pub width : ℕ
  pub height : ℕ
  pub bpp : ℕ
  pub addr : Bytes
  pub font_color : ℕ
  pub drvidx : ℕ
  pub intern : Bytes

abbrev pub write : Bytes → ℕ → ℕ → Bytes
write b i v x = if x == i then v else b x

-- Whether a coordinate lies on an axis: `!(x < 0 || x >= n)`.
abbrev pub on_axis : ℤ → ℕ → Bool
on_axis (pos x) n = ltb x n
on_axis (negsuc k) n = false

abbrev pub to_nat : ℤ → ℕ
to_nat (pos x) = x
to_nat (negsuc k) = 0

pub vga_set_pixel : ℤ → ℤ → ℕ → Vga → Vga
vga_set_pixel x y c v =
    if on_axis x v.width && on_axis y v.height
    then record v { addr = write v.addr (to_nat y * v.width + to_nat x) c }
    else v

-- One pixel of a character: `g[y] & (1 << x)`, else the background if `f` is set.
pub draw_bit : ℤ → ℤ → ℕ → Bool → ℕ → ℕ → Vga → Vga
draw_bit px py row f y x v =
    if not (bit_and row (2 ^ x) == 0)
    then vga_set_pixel (add_nat px x) (add_nat py y) v.font_color v
    else (if f then vga_set_pixel (add_nat px x) (add_nat py y) 0 v else v)

pub draw_row : ℤ → ℤ → ℕ → Bool → ℕ → Vga → Vga
draw_row px py c f y v = for_loop 8 0 (draw_bit px py (get_or vga_font (c * 8 + y) 0) f y) v

-- `_vga_draw_char`
pub draw_char : ℤ → ℤ → ℤ → Bool → Vga → Vga
draw_char px py (negsuc k) f v = v
draw_char px py (pos c) f v = if leb 256 c then v else for_loop 8 0 (draw_row px py c f) v

pub vga_draw_char : ℤ → ℤ → ℤ → Vga → Vga
unfolding draw_char
vga_draw_char px py c = draw_char px py c false

pub vga_draw_char_fill : ℤ → ℤ → ℤ → Vga → Vga
unfolding draw_char
vga_draw_char_fill px py c = draw_char px py c true

cls_row : ℕ → Vga → Vga
cls_row y v = for_loop v.width 0 (λ x u. record u { addr = write u.addr (u.width * y + x) 0 }) v

pub vga_cls : Vga → Vga
unfolding cls_row
vga_cls v = for_loop v.height 0 cls_row v

-- `memcpy(vga_intern_addr, vga_addr, vga_width * vga_height)`
unfoldable pub vga_update : Vga → Vga
vga_update v = record v {
  intern = λ i. if ltb i (v.width * v.height) then v.addr i else v.intern i;
}

-- The display's control function: the result and the new state. `(u8)p` is the low byte.
pub vga_driverctl : ℕ → ℕ → Vga → ℕ × Vga
vga_driverctl cmd p v =
    if cmd == 0x10
    then (v.width, v)
    else (if cmd == 0x11
        then (v.height, v)
        else (if cmd == 0x12
            then (0, if ltb p (v.width * v.height) then record v { drvidx = p } else v)
            else (if cmd == 0x13
                then (0, record v { intern = write v.intern v.drvidx (p % 256) })
                else (0, v))))

-- `mode_a`: one misc byte, 5 sequencer, 25 CRT, 9 graphics and 21 attribute registers.
abbrev pub mode_a : List ℕ
mode_a =
    0x63 ∷ 0x03 ∷ 0x01 ∷ 0x0f ∷ 0x00 ∷ 0x0e ∷ 0x5f ∷ 0x4f ∷ 0x50 ∷ 0x82 ∷ 0x54 ∷ 0x80 ∷ 0xbf ∷ 0x1f
    ∷ 0x00 ∷ 0x41 ∷ 0x00 ∷ 0x00 ∷ 0x00 ∷ 0x00 ∷ 0x00 ∷ 0x00 ∷ 0x9c ∷ 0x0e ∷ 0x8f ∷ 0x28 ∷ 0x40
    ∷ 0x96 ∷ 0xb9 ∷ 0xa3 ∷ 0xff ∷ 0x00 ∷ 0x00 ∷ 0x00 ∷ 0x00 ∷ 0x00 ∷ 0x40 ∷ 0x05 ∷ 0x0f ∷ 0xff
    ∷ 0x00 ∷ 0x01 ∷ 0x02 ∷ 0x03 ∷ 0x04 ∷ 0x05 ∷ 0x06 ∷ 0x07 ∷ 0x08 ∷ 0x09 ∷ 0x0a ∷ 0x0b ∷ 0x0c
    ∷ 0x0d ∷ 0x0e ∷ 0x0f ∷ 0x41 ∷ 0x00 ∷ 0x0f ∷ 0x00 ∷ 0x00 ∷ []

abbrev pub Outs : Type 0
Outs = List (ℕ × ℕ)

-- A group of registers: index to the one port, value to the other, with the registers left.
pub write_group : ℕ → ℕ → ℕ → ℕ → List ℕ → Outs
write_group zero i idx dat regs = []
write_group (suc k) i idx dat regs =
    (idx, i) ∷ (dat, get_or regs i 0) ∷ write_group k (i + 1) idx dat regs

-- `vga_write_regs`. `r03` and `r11` are the bytes that the two reads of the CRT data port return.
pub vga_write_regs : ℕ → ℕ → List ℕ → Outs
unfolding write_group
vga_write_regs r03 r11 regs =
    let seq = drop 1 regs in
    let crtc₀ = drop 5 seq in
    let crtc₁ = set crtc₀ 0x03 (bit_or (get_or crtc₀ 0x03 0) 0x80) in
    let crtc = set crtc₁ 0x11 (bit_and (get_or crtc₁ 0x11 0) 0x7f) in
    let gc = drop 25 crtc in
    let ac = drop 9 gc in
    ((0x3c2, get_or regs 0 0) ∷ [])
    ++ (write_group 5 0 0x3c4 0x3c5 seq
        ++ (((0x3d4, 0x03)
              ∷ (0x3d5, bit_or r03 0x80)
              ∷ (0x3d4, 0x11)
              ∷ (0x3d5, bit_and r11 0x7f)
              ∷ [])
            ++ (write_group 25 0 0x3d4 0x3d5 crtc
                ++ (write_group 9 0 0x3ce 0x3cf gc
                    ++ (write_group 21 0 0x3c0 0x3c0 ac ++ ((0x3c0, 0x20) ∷ []))))))

-- The writes of the colours, with the colours left.
pub palette_outs : ℕ → ℕ → List ℕ → Outs
palette_outs zero i pal = []
palette_outs (suc k) i pal =
    (0x3c8, i)
    ∷ (0x3c9, bit_and (get_or pal (i * 3) 0) 0x3f)
    ∷ (0x3c9, bit_and (get_or pal (i * 3 + 1) 0) 0x3f)
    ∷ (0x3c9, bit_and (get_or pal (i * 3 + 2) 0) 0x3f)
    ∷ palette_outs k (i + 1) pal

-- `vga_init`; `buf` is the memory that kmalloc returns.
pub vga_init : ℕ → ℕ → ℕ → Bytes → ℕ → ℕ → Vga → Vga × Outs
unfolding vga_write_regs palette_outs vga_cls
vga_init w h bpp buf r03 r11 v = (
  vga_cls (record v { width = w; height = h; bpp = bpp; addr = buf }),
  vga_write_regs r03 r11 mode_a ++ palette_outs 256 0 vga_palette,
)
