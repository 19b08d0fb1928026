-- ===== src/Vga.antt =====
-- kernel/arch/i386/vga.h: colours and character cells.
pub mod Fields
use potato_os.Base.{ℕ, ◌^◌, ◌*◌, ◌%◌, bit_or, u8, u16, ◌<<<◌}

-- `enum vga_color`.
pub data VgaColor : Type 0 where
  black blue green cyan red magenta brown light_grey : VgaColor
  dark_grey light_blue light_green light_cyan light_red light_magenta light_brown white : VgaColor

abbrev pub color_number : VgaColor → ℕ
color_number black = 0
color_number blue = 1
color_number green = 2
color_number cyan = 3
color_number red = 4
color_number magenta = 5
color_number brown = 6
color_number light_grey = 7
color_number dark_grey = 8
color_number light_blue = 9
color_number light_green = 10
color_number light_cyan = 11
color_number light_red = 12
color_number light_magenta = 13
color_number light_brown = 14
color_number white = 15

-- The arguments are numbers, since the code also passes computed ones.
unfoldable pub vga_entry_color : (fg bg : ℕ) → ℕ
vga_entry_color fg bg = u8 (bit_or fg (bg <<< 4))

unfoldable pub vga_entry : (uc color : ℕ) → ℕ
vga_entry uc color = u16 (bit_or (u8 uc) (color <<< 8))
