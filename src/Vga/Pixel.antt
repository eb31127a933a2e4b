-- ===== src/Vga/Pixel.antt =====
-- Single pixels: what vga_set_pixel, vga_cls and the driver's commands change.
use strange_os.Prelude.{
  ℕ, ◌+◌, ◌*◌, ◌%◌, ◌≤◌, ◌<◌, ◌≡◌, refl, inl, inr, ◌&&◌, arith, ltb, ltb→lt, ◌==◌, if◌then◌else◌,
  Bool-cases,
}
use native.Mathlib.Nat.{mul_comm}
use mathlib.Core.Path.{ap}
use strange_os.Prelude.Int.{ℤ, pos, negsuc}
use strange_os.Vga.{Vga, vga_set_pixel, vga_driverctl}

-- The pixel at column `a` of line `b`.
abbrev pub pixel : Vga → ℕ → ℕ → ℕ
pixel v a b = v.addr (b * v.width + a)

row_step : (w b y : ℕ) → b < y → b * w + w ≤ y * w
row_step w b y h = grind arith

-- Different places of a frame have different indices.
index_ne : (w a b x y : ℕ) → a < w → x < w → b * w + a ≡ y * w + x → (a ≡ x) × (b ≡ y)
index_ne w a b x y ha hx e = elim (Bool-cases (ltb b y)) [
  | inl lt ↦ absurd (omega (arith, row_step w b y (ltb→lt b y lt)))
  | inr ge ↦ elim (Bool-cases (ltb y b)) [
    | inl lt ↦ absurd (omega (arith, row_step w y b (ltb→lt y b lt)))
    | inr le ↦ let same : b ≡ y = ground arith in (omega (arith, ap (λ (t : ℕ). t * w) same), same)
  ]
]

-- vga_set_pixel sets the pixel at its coordinates, if they lie on the screen, and no other pixel.
pub vga_set_pixel_lem :
    (v : Vga) (x y a b c : ℕ)
    → a < v.width
    → pixel (vga_set_pixel (pos x) (pos y) c v) a b
      ≡ (if (a == x && b == y) && (ltb x v.width && ltb y v.height) then c else pixel v a b)
unfolding vga_set_pixel
vga_set_pixel_lem v x y a b c h = elim (Bool-cases (ltb x v.width)) [
  | inl inside ↦ elim (Bool-cases (b * v.width + a == y * v.width + x)) [
    | inl hit ↦
        let (e, e') = index_ne v.width a b x y h (ltb→lt x v.width inside) (ground arith) in
        ground arith
    | inr miss ↦ ground arith
  ]
  | inr outside ↦ ground arith
]

-- vga_set_pixel writes below width * height of the frame buffer only, for all coordinates, also
-- negative ones, and leaves everything else of the display.
pub vga_set_pixel_bounds :
    (v : Vga) (x y : ℤ) (c i : ℕ)
    → v.width * v.height ≤ i
    → (vga_set_pixel x y c v ≡ record v { addr = (vga_set_pixel x y c v).addr })
      × ((vga_set_pixel x y c v).addr i ≡ v.addr i)
unfolding vga_set_pixel
vga_set_pixel_bounds v (pos x) (pos y) c i h = elim (Bool-cases (ltb y v.height)) [
  | inl inside ↦
      let below : y * v.width + v.width ≤ v.height * v.width =
        row_step v.width y v.height (ltb→lt y v.height inside) in
      (ground arith, ground (arith, mul_comm v.width v.height))
  | inr outside ↦ (ground arith, ground arith)
]
vga_set_pixel_bounds v (pos x) (negsuc y) c i h = (ground arith, ground arith)
vga_set_pixel_bounds v (negsuc x) y c i h = (refl, refl)

-- A program paints through the driver: setting the index `p` and then the pixel to `c` writes the
-- low byte of `c` at place `p` of the display's memory, if that is on the screen, and else at the
-- place that was set before; nothing else changes in that memory, and both commands return 0.
pub vga_driverctl_paints :
    (v : Vga) (p c i : ℕ)
    → let (r, u) = vga_driverctl 0x12 p v in
      let (r', t) = vga_driverctl 0x13 c u in
      (r ≡ 0)
      × (r' ≡ 0)
      × (t.intern i ≡ (
          if i == (if ltb p (v.width * v.height) then p else v.drvidx)
          then c % 256
          else v.intern i))
unfolding vga_driverctl
vga_driverctl_paints v p c i = (refl, refl, ground arith)
