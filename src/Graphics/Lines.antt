-- ===== src/Graphics/Lines.antt =====
-- Lines and boxes of kernel/arch/i386/tty.c in the framebuffer.
use potato_os.Base.{
  ℕ, Bool, zero, suc, ◌+◌, ◌*◌, ◌-◌, ◌^◌, ◌≤◌, ◌<◌, ◌≡◌, Mem, upd, ◌==◌, leb, ltb, ◌&&◌, ◌||◌,
  if◌then◌else◌, arith,
}
use potato_os.Graphics.{
  framebuffer_address, draw_pixel, horizontal_loop, draw_horizontal_line, vertical_loop,
  draw_vertical_line, draw_box,
}

-- The byte of a pixel.
abbrev pub pixel : (x y : ℕ) → ℕ
pixel x y = framebuffer_address + (y * 800 + x)

draw_pixel-pixel :
    (x y color px py : ℕ) (m : Mem)
    → x < 800
    → px < 800
    → y < 2 ^ 20
    → py < 2 ^ 20
    → draw_pixel x y color m (pixel px py)
      ≡ (if (px == x) && (py == y) then color else m (pixel px py))
unfolding draw_pixel upd
draw_pixel-pixel x y color px py m a b c d = ground arith

horizontal_loop-pixel :
    (left x y color px py : ℕ) (m : Mem)
    → x + left ≤ 800
    → px < 800
    → y < 2 ^ 20
    → py < 2 ^ 20
    → horizontal_loop left x y color m (pixel px py)
      ≡ (if (py == y) && leb x px && ltb px (x + left) then color else m (pixel px py))
unfolding horizontal_loop
horizontal_loop-pixel zero x y color px py m a b c d = ground arith
horizontal_loop-pixel (suc left) x y color px py m a b c d = ground (
  arith,
  horizontal_loop-pixel left (suc x) y color px py (draw_pixel x y color m) (omega arith) b c d,
  draw_pixel-pixel x y color px py m (omega arith) b c d,
)

vertical_loop-pixel :
    (left y x color px py : ℕ) (m : Mem)
    → y + left ≤ 2 ^ 20
    → x < 800
    → px < 800
    → py < 2 ^ 20
    → vertical_loop left y x color m (pixel px py)
      ≡ (if (px == x) && leb y py && ltb py (y + left) then color else m (pixel px py))
unfolding vertical_loop
vertical_loop-pixel zero y x color px py m a b c d = ground arith
vertical_loop-pixel (suc left) y x color px py m a b c d = ground (
  arith,
  vertical_loop-pixel left (suc y) x color px py (draw_pixel x y color m) (omega arith) b c d,
  draw_pixel-pixel x y color px py m b c (omega arith) d,
)

-- The pixels of the border of a box.
abbrev is_border : (x1 y1 x2 y2 px py : ℕ) → Bool
is_border x1 y1 x2 y2 px py =
    (((py == y1) || (py == y2)) && leb x1 px && leb px x2)
    || (((px == x1) || (px == x2)) && leb y1 py && leb py y2)

-- draw_box on columns below 800 sets the pixels of the border of the box to the colour, and no other
-- pixel of the framebuffer.
pub draw_box-border :
    (x1 y1 x2 y2 color px py : ℕ) (m : Mem)
    → x1 ≤ x2
    → x2 < 800
    → y1 ≤ y2
    → y2 < 2 ^ 20
    → px < 800
    → py < 2 ^ 20
    → draw_box x1 y1 x2 y2 color m (pixel px py)
      ≡ (if is_border x1 y1 x2 y2 px py then color else m (pixel px py))
unfolding draw_box draw_vertical_line draw_horizontal_line
draw_box-border x1 y1 x2 y2 color px py m a b c d e f =
    let m₁ = draw_horizontal_line x1 x2 y1 color m in
    let m₂ = draw_horizontal_line x1 x2 y2 color m₁ in
    let m₃ = draw_vertical_line y1 y2 x1 color m₂ in
    ground (
      arith,
      vertical_loop-pixel (y2 + 1 - y1) y1 x2 color px py m₃ (omega arith) (omega arith) e f,
      vertical_loop-pixel (y2 + 1 - y1) y1 x1 color px py m₂ (omega arith) (omega arith) e f,
      horizontal_loop-pixel (x2 + 1 - x1) x1 y2 color px py m₁ (omega arith) e (omega arith) f,
      horizontal_loop-pixel (x2 + 1 - x1) x1 y1 color px py m (omega arith) e (omega arith) f,
    )
