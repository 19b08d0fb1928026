-- ===== src/Vga/Fields.antt =====
-- What a cell and an attribute byte hold.
use potato_os.Base.{ℕ, ◌+◌, ◌*◌, ◌/◌, ◌%◌, ◌^◌, ◌<◌, ◌≡◌, u8, arith}
use potato_os.Base.Bits.{bit_or_fields, bit_or_comm}
use potato_os.Vga.{VgaColor, color_number, vga_entry_color, vga_entry}

vga_entry_color-sum : (fg bg : ℕ) → fg < 16 → bg < 16 → vga_entry_color fg bg ≡ bg * 16 + fg
unfolding vga_entry_color
vga_entry_color-sum fg bg hf hb = ground (arith, bit_or_comm fg (bg * 2 ^ 4), bit_or_fields 4 bg fg)

color_number-lt : (c : VgaColor) → color_number c < 16
color_number-lt c = ground arith

-- An attribute byte gives both colours back: the foreground below, the background above.
pub vga_entry_color_fields :
    (fg bg : VgaColor)
    → let attribute = vga_entry_color (color_number fg) (color_number bg) in
      (attribute % 16 ≡ color_number fg) × (attribute / 16 ≡ color_number bg)
vga_entry_color_fields fg bg = ground (
  arith,
  color_number-lt fg,
  color_number-lt bg,
  vga_entry_color-sum (color_number fg) (color_number bg),
)

-- A cell holds the character's low byte below and the attribute above.
vga_entry_fields :
    (uc color : ℕ)
    → color < 256
    → (vga_entry uc color % 256 ≡ uc % 256) × (vga_entry uc color / 256 ≡ color)
unfolding vga_entry
vga_entry_fields uc color h =
    ground (arith, bit_or_comm (u8 uc) (color * 2 ^ 8), bit_or_fields 8 color (u8 uc))
