-- ===== src/Vga/Examples.antt =====
-- A small screen, and the theorems about pixels and characters at it.
use strange_os.Prelude.{◌≡◌, refl}
use strange_os.Vga.{Vga, vga_cls}
use strange_os.Vga.Pixel.{pixel}
use strange_os.Prelude.Loops.{for_loop}

abbrev screen : Vga
screen = record {
  width = 16;
  height = 10;
  bpp = 256;
  addr = λ _. 1;
  font_color = 7;
  drvidx = 0;
  intern = λ _. 0;
}

cls_clears : pixel (vga_cls screen) 15 9 ≡ 0
unfolding vga_cls for_loop
cls_clears = refl
