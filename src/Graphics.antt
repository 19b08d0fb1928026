-- ===== src/Graphics.antt =====
-- The drawing of kernel/arch/i386/tty.c into the framebuffer, a byte for each pixel of a row of 800.
-- Coordinates are not negative, and a `char` that is drawn is below 128.
pub mod Font
pub mod Lines
pub mod Glyphs
mod Tests
use potato_os.Base.{
  Option, none, some, ltb, ℕ, zero, suc, ◌+◌, ◌*◌, ◌-◌, ◌^◌, List, [], ◌∷◌, Mem, upd, u32, ◌==◌,
  ◌/=◌, if◌then◌else◌,
}
use potato_os.Graphics.Font.{font}

abbrev pub framebuffer_address : ℕ
framebuffer_address = 0xA0000

-- `VGA_HEIGHT * 600`
abbrev pub framebuffer_size : ℕ
framebuffer_size = 25 * 600

unfoldable pub draw_pixel : (x y color : ℕ) → Mem → Mem
draw_pixel x y color m = upd m (u32 (framebuffer_address + (y * 800 + x))) color

-- The loop of draw_horizontal_line, with `left` pixels to go.
unfoldable pub horizontal_loop : (left x y color : ℕ) → Mem → Mem
unfolding draw_pixel
horizontal_loop zero x y color m = m
horizontal_loop (suc left) x y color m =
    horizontal_loop left (suc x) y color (draw_pixel x y color m)

unfoldable pub draw_horizontal_line : (x1 x2 y color : ℕ) → Mem → Mem
unfolding horizontal_loop
draw_horizontal_line x1 x2 y color m = horizontal_loop (x2 + 1 - x1) x1 y color m

unfoldable pub vertical_loop : (left y x color : ℕ) → Mem → Mem
unfolding draw_pixel
vertical_loop zero y x color m = m
vertical_loop (suc left) y x color m = vertical_loop left (suc y) x color (draw_pixel x y color m)

unfoldable pub draw_vertical_line : (y1 y2 x color : ℕ) → Mem → Mem
unfolding vertical_loop
draw_vertical_line y1 y2 x color m = vertical_loop (y2 + 1 - y1) y1 x color m

unfoldable pub draw_box : (x1 y1 x2 y2 color : ℕ) → Mem → Mem
draw_box x1 y1 x2 y2 color m = draw_vertical_line y1 y2 x2 color (
    draw_vertical_line y1 y2 x1 color
      (draw_horizontal_line x1 x2 y2 color (draw_horizontal_line x1 x2 y1 color m)))

-- `font[c]`, whose further rows are 0.
abbrev pub glyph : (c : ℕ) → List (List ℕ) → List ℕ
glyph c [] = []
glyph zero (g ∷ gs) = g
glyph (suc c) (g ∷ gs) = glyph c gs

abbrev pub row_of : (i : ℕ) → List ℕ → ℕ
row_of i [] = 0
row_of zero (r ∷ rs) = r
row_of (suc i) (r ∷ rs) = row_of i rs

-- The inner loop of draw_char, with `left` columns to go.
unfoldable pub glyph_row : (left j row place : ℕ) → Mem → Mem
glyph_row zero j row place m = m
glyph_row (suc left) j row place m =
    glyph_row left (suc j) row place (if row /= 0 then upd m (u32 (place + j)) 0x30 else m)

-- The outer loop, with `left` rows to go. The place of a pixel is `(y + i) + (x + j)`.
unfoldable pub glyph_rows : (left i x y framebuffer : ℕ) → List ℕ → Mem → Mem
unfolding glyph_row
glyph_rows zero i x y framebuffer rows m = m
glyph_rows (suc left) i x y framebuffer rows m =
    glyph_rows left (suc i) x y framebuffer rows
      (glyph_row 8 0 (row_of i rows) (framebuffer + (y + i) + x) m)

-- A `char` from 128 on is negative, and so an index in front of the font: `none`.
unfoldable pub draw_char : (framebuffer x y c : ℕ) → Mem → Option Mem
unfolding glyph_rows
draw_char framebuffer x y c m =
    if ltb c 128 then some (glyph_rows 8 0 x y framebuffer (glyph c font) m) else none

-- The loop of draw_string over the bytes before the NUL.
unfoldable draw_string : (framebuffer x y : ℕ) → (str : List ℕ) → Mem → Option Mem
draw_string framebuffer x y [] m = some m
draw_string framebuffer x y (c ∷ cs) m = elim (draw_char framebuffer x y c m) [
  | none ↦ none
  | some m' ↦ draw_string framebuffer (x + 8) y cs m'
]

-- The loop of setup_framebuffer, with `left` bytes to go.
unfoldable clear_loop : (left i : ℕ) → Mem → Mem
clear_loop zero i m = m
clear_loop (suc left) i m = clear_loop left (suc i) (upd m (framebuffer_address + i) 0x03)

unfoldable setup_framebuffer : Mem → Mem
unfolding clear_loop
setup_framebuffer m = clear_loop framebuffer_size 0 m
