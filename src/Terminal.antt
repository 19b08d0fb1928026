-- ===== src/Terminal.antt =====
-- The text console of kernel/arch/i386/tty.c: its static variables, the cells of video memory and
-- the writes to the cursor's ports. The delay loops under `waitwrite` change nothing and are left out.
pub mod Frame
pub mod Screen
pub mod Place
pub mod Standing
pub mod Cursor
pub mod Shape
mod Tests
use potato_os.Base.{
  ℕ, zero, suc, ◌+◌, ◌*◌, ◌/◌, ◌%◌, ◌^◌, Bool, true, false, List, [], ◌∷◌, Mem, upd, u8, u16, u32,
  ◌>>>◌, ◌==◌, if◌then◌else◌,
}
use potato_os.Vga.{color_number, black, light_grey, white, vga_entry_color, vga_entry}

abbrev pub vga_width : ℕ
vga_width = 80

abbrev pub vga_height : ℕ
vga_height = 25

abbrev pub video_memory : ℕ
video_memory = 0xB8000

-- `outb(port, value)` or `outw(port, value)`.
pub record Out : Type 0 where
  pub port : ℕ
  pub value : ℕ

abbrev pub out : ℕ → ℕ → Out
out p v = record { port = p; value = v }

-- `cells` holds the 16-bit word at each byte address; `outs` is what went to the ports, newest
-- first.
pub record Terminal : Type 0 where
  pub row : ℕ
  pub column : ℕ
  pub color : ℕ
  pub buffer : ℕ
  pub initialized : Bool
  pub cells : Mem
  pub outs : List Out

-- The address of `terminal_buffer[y * VGA_WIDTH + x]`.
abbrev pub cell_address : (buffer x y : ℕ) → ℕ
cell_address buffer x y = buffer + 2 * (y * vga_width + x)

-- `update_cursor`; its arguments are `int`, and only the low 16 bits of the position are used.
unfoldable pub update_cursor : (x y : ℕ) → Terminal → Terminal
update_cursor x y t =
    let pos = u16 (y * vga_width + x) in
    record t {
      outs =
          out 0x3D5 (u8 (pos >>> 8))
          ∷ out 0x3D4 0x0E
          ∷ out 0x3D5 (u8 pos)
          ∷ out 0x3D4 0x0F
          ∷ t.outs;
    }

-- The inner loop of the code that blanks the screen, with `left` columns to go.
pub blank_row : (left x y color buffer : ℕ) → Mem → Mem
blank_row zero x y color buffer m = m
blank_row (suc left) x y color buffer m =
    blank_row left (x + 1) y color buffer (upd m (cell_address buffer x y) (vga_entry 0x20 color))

pub blank_rows : (left y color buffer : ℕ) → Mem → Mem
blank_rows zero y color buffer m = m
blank_rows (suc left) y color buffer m =
    blank_rows left (y + 1) color buffer (blank_row vga_width 0 y color buffer m)

unfoldable pub blank_screen : (color buffer : ℕ) → Mem → Mem
unfolding blank_rows blank_row
blank_screen color buffer m = blank_rows vga_height 0 color buffer m

-- The last test of the source, `terminal_buffer == 0xB8005`, is false: the buffer was set above it.
unfoldable pub terminal_initialize : Terminal → Terminal
terminal_initialize t =
    let first =
      if t.initialized
      then t.color
      else vga_entry_color (color_number black) (color_number light_grey) in
    let second = vga_entry_color (color_number white) (color_number black) in
    record t {
      row = 1;
      color = second;
      buffer = video_memory;
      initialized = true;
      cells = blank_screen second video_memory (blank_screen first video_memory t.cells);
    }

unfoldable terminal_setcolor : ℕ → Terminal → Terminal
terminal_setcolor color t = record t { color = u8 color }

unfoldable pub terminal_putentryat : (c color x y : ℕ) → Terminal → Terminal
unfolding update_cursor
terminal_putentryat c color x y t =
    update_cursor (x + 1) y
      (record t { cells = upd t.cells (cell_address t.buffer x y) (vga_entry c color) })

unfoldable pub terminal_scroll : Terminal → Terminal
unfolding terminal_initialize
terminal_scroll t = terminal_initialize t

-- The column and then the row go on, as `++terminal_column == VGA_WIDTH` and its branch.
advance : Terminal → Terminal
advance t =
    let column = u32 (t.column + 1) in
    let row = u32 (t.row + 1) in
    if column == vga_width
    then record t { column = 0; row = if row == vga_height then 0 else row }
    else record t { column = column }

-- The scroll that precedes a character on the last row.
pub make_room : Terminal → Terminal
unfolding terminal_scroll
make_room t = if t.row == 24 then terminal_scroll t else t

-- The character's cell, and then the next place.
pub put_at : ℕ → Terminal → Terminal
unfolding advance terminal_putentryat
put_at c t = advance (terminal_putentryat c t.color t.column t.row t)

unfoldable pub terminal_putchar : ℕ → Terminal → Terminal
terminal_putchar c t = put_at c (make_room t)

-- `terminal_write(data, size)` on the `size` bytes of `data`; `terminal_writestring` on the bytes
-- before the NUL.
unfoldable pub terminal_write : List ℕ → Terminal → Terminal
terminal_write [] t = t
terminal_write (c ∷ cs) t = terminal_write cs (terminal_putchar c t)

unfoldable pub terminal_writestring : List ℕ → Terminal → Terminal
unfolding terminal_write
terminal_writestring data_bytes t = terminal_write data_bytes t

unfoldable pub terminal_newline : Terminal → Terminal
terminal_newline t =
    let row = u32 (t.row + 1) in
    if row == vga_height
    then record t {
      row = 0;
      column = 0;
      buffer = video_memory;
      cells = blank_screen t.color video_memory t.cells;
    }
    else record t { row = row; column = 0 }

unfoldable pub disable_cursor : Terminal → Terminal
disable_cursor t = record t { outs = out 0x3D5 0x20 ∷ out 0x3D4 0x0A ∷ t.outs }
