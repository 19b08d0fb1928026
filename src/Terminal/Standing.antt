-- ===== src/Terminal/Standing.antt =====
-- Where the cursor of kernel/arch/i386/tty.c stands behind a text that fits its row, and behind a new
-- line.
use potato_os.Base.{ℕ, ◌+◌, ◌*◌, ◌≤◌, ◌<◌, ◌≡◌, refl, ◌∙◌, List, [], ◌∷◌, ◌++◌, length, Mem, arith}
use potato_os.Terminal.{
  Terminal, vga_width, video_memory, terminal_write, terminal_newline, terminal_putchar,
}
use potato_os.Terminal.Frame.{IsOnScreen, write-IsOnScreen}
use potato_os.Terminal.Place.{place, write-place, write_color}

-- The cursor is at a place, in a colour, and video memory below `limit` is that of `m`.
pub record Stands (limit : ℕ) (m : Mem) (color row column : ℕ) (t : Terminal) : Type 0 where
  pub row_at : t.row ≡ row
  pub column_at : t.column ≡ column
  pub in_color : t.color ≡ color
  pub buffer : t.buffer ≡ video_memory
  pub kept : (a : ℕ) → a < limit → t.cells a ≡ m a

pub write-append :
    (xs ys : List ℕ) (t : Terminal)
    → terminal_write (xs ++ ys) t ≡ terminal_write ys (terminal_write xs t)
unfolding terminal_write
write-append [] ys t = refl
write-append (x ∷ xs) ys t = write-append xs ys (terminal_putchar x t)

module _ (limit : ℕ) (m : Mem) (color : ℕ) where
  -- Text that fits its row.
  pub write-Stands :
      (cs : List ℕ) (row column : ℕ) (t : Terminal)
      → Stands limit m color row column t
      → row < 24
      → column + length cs < 80
      → limit ≤ video_memory + 2 * (row * 80 + column)
      → Stands limit m color row (column + length cs) (terminal_write cs t)
  write-Stands cs row column t s above fits under =
      let here : place t ≡ row * 80 + column = omega (arith, s.row_at, s.column_at) in
      let v : IsOnScreen t = record {
        row = omega (arith, s.row_at);
        column = omega (arith, s.column_at);
        buffer = s.buffer;
      } in
      let room : place t + length cs ≤ 24 * vga_width = omega (arith, here) in
      let (cells, before, next) = write-place cs t v room in
      let v' = write-IsOnScreen cs v in
      record {
        row_at = omega (arith, next, here, v'.column);
        column_at = omega (arith, next, here, v'.column);
        in_color = write_color cs t v room ∙ s.in_color;
        buffer = v'.buffer;
        kept = λ a h. before a (omega (arith, here)) ∙ s.kept a h;
      }

  pub newline-Stands :
      (row column : ℕ) (t : Terminal)
      → Stands limit m color row column t
      → row < 24
      → Stands limit m color (row + 1) 0 (terminal_newline t)
  unfolding terminal_newline
  newline-Stands row column t s above =
      let e = s.row_at in
      let k = s.kept in
      record {
        row_at = ground arith;
        column_at = ground arith;
        in_color = ground (arith, s.in_color);
        buffer = ground (arith, s.buffer);
        kept = λ a h. ground (arith, s.kept a h);
      }

  -- The cursor moves to the start of a text.
  pub indent-Stands :
      (row column x : ℕ) (t : Terminal)
      → Stands limit m color row column t
      → Stands limit m color row x (record t { column = x })
  indent-Stands row column x t s = record {
    row_at = s.row_at;
    column_at = refl;
    in_color = s.in_color;
    buffer = s.buffer;
    kept = s.kept;
  }

  pub move-Stands :
      (row column y : ℕ) (t : Terminal)
      → Stands limit m color row column t
      → Stands limit m color y column (record t { row = y })
  move-Stands row column y t s = record {
    row_at = refl;
    column_at = s.column_at;
    in_color = s.in_color;
    buffer = s.buffer;
    kept = s.kept;
  }

  -- A line of panic: a text at column 6, and a new line.
  pub line-Stands :
      (cs : List ℕ) (row : ℕ) (t : Terminal)
      → Stands limit m color row 0 t
      → row < 24
      → 6 + length cs < 80
      → limit ≤ video_memory + 2 * (row * 80 + 6)
      → Stands limit m color
          (row + 1)
          0
          (terminal_newline (terminal_write cs (record t { column = 6 })))
  line-Stands cs row t s above fits under =
      newline-Stands row (6 + length cs) (terminal_write cs (record t { column = 6 }))
        (write-Stands cs row 6 (record t { column = 6 }) (indent-Stands row 0 6 t s) above fits
          under)
        above
