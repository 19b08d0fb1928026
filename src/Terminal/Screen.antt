-- ===== src/Terminal/Screen.antt =====
-- The loops that blank the screen.
use potato_os.Base.{ℕ, zero, suc, ◌+◌, ◌*◌, ◌≤◌, ◌<◌, ◌≡◌, ◌⊎◌, refl, Mem, upd, upd_self, arith}
use potato_os.Vga.{vga_entry}
use potato_os.Terminal.{vga_width, vga_height, cell_address, blank_row, blank_rows, blank_screen}

-- The address is one of the cells of row `y` from column `x` on, `left` of them.
abbrev InRow : (left x y buffer a : ℕ) → Type 0
InRow left x y buffer a = (cell_address buffer x y ≤ a) × (a < cell_address buffer x y + 2 * left)

blank_row_outside :
    (left x y color buffer : ℕ) (m : Mem) (a : ℕ)
    → (a < cell_address buffer x y) ⊎ (cell_address buffer x y + 2 * left ≤ a)
    → blank_row left x y color buffer m a ≡ m a
unfolding blank_row upd
blank_row_outside zero x y color buffer m a h = refl
blank_row_outside (suc left) x y color buffer m a h = ground (
  arith,
  blank_row_outside left (x + 1) y color buffer
      (upd m (cell_address buffer x y) (vga_entry 0x20 color)) a,
)

blank_row_inside :
    (left x y color buffer : ℕ) (m : Mem) (i : ℕ)
    → i < left
    → blank_row left x y color buffer m (cell_address buffer (x + i) y) ≡ vga_entry 0x20 color
unfolding blank_row
blank_row_inside zero x y color buffer m i h = absurd (omega arith)
blank_row_inside (suc left) x y color buffer m zero h = ground (
  arith,
  upd_self m (cell_address buffer x y) (vga_entry 0x20 color),
  blank_row_outside left (x + 1) y color buffer
      (upd m (cell_address buffer x y) (vga_entry 0x20 color)) (cell_address buffer (x + 0) y),
)
blank_row_inside (suc left) x y color buffer m (suc i) h = ground (
  arith,
  blank_row_inside left (x + 1) y color buffer
      (upd m (cell_address buffer x y) (vga_entry 0x20 color)) i,
)

blank_rows_outside :
    (left y color buffer : ℕ) (m : Mem) (a : ℕ)
    → (a < cell_address buffer 0 y) ⊎ (cell_address buffer 0 (y + left) ≤ a)
    → blank_rows left y color buffer m a ≡ m a
unfolding blank_rows
blank_rows_outside zero y color buffer m a h = refl
blank_rows_outside (suc left) y color buffer m a h = ground (
  arith,
  blank_row_outside vga_width 0 y color buffer m a,
  blank_rows_outside left (y + 1) color buffer (blank_row vga_width 0 y color buffer m) a,
)

blank_rows_inside :
    (left y color buffer : ℕ) (m : Mem) (i x : ℕ)
    → i < left
    → x < vga_width
    → blank_rows left y color buffer m (cell_address buffer x (y + i)) ≡ vga_entry 0x20 color
unfolding blank_rows
blank_rows_inside zero y color buffer m i x h w = absurd (omega arith)
blank_rows_inside (suc left) y color buffer m zero x h w = ground (
  arith,
  blank_row_inside vga_width 0 y color buffer m x,
  blank_rows_outside left (y + 1) color buffer (blank_row vga_width 0 y color buffer m)
      (cell_address buffer x (y + 0)),
)
blank_rows_inside (suc left) y color buffer m (suc i) x h w = ground (
  arith,
  blank_rows_inside left (y + 1) color buffer (blank_row vga_width 0 y color buffer m) i x,
)

-- Every cell of the screen becomes a blank of the colour.
pub blank_screen_inside :
    (color buffer : ℕ) (m : Mem) (x y : ℕ)
    → x < vga_width
    → y < vga_height
    → blank_screen color buffer m (cell_address buffer x y) ≡ vga_entry 0x20 color
unfolding blank_screen
blank_screen_inside color buffer m x y w h =
    ground (arith, blank_rows_inside vga_height 0 color buffer m y x)

-- Nothing outside the 4000 bytes of the screen is written.
pub blank_screen_outside :
    (color buffer : ℕ) (m : Mem) (a : ℕ)
    → (a < buffer) ⊎ (buffer + 4000 ≤ a)
    → blank_screen color buffer m a ≡ m a
unfolding blank_screen
blank_screen_outside color buffer m a h =
    ground (arith, blank_rows_outside vga_height 0 color buffer m a)
