-- ===== src/Terminal/Place.antt =====
-- Where written text appears.
use potato_os.Base.{
  ℕ, zero, suc, ◌+◌, ◌*◌, ◌%◌, ◌≤◌, ◌<◌, ◌≡◌, ◌&&◌, ◌==◌, refl, ◌∙◌, ap, List, [], ◌∷◌, length,
  Option, some, none, Mem, upd, upd_self, upd_ne, arith, if◌then◌else◌,
}
use potato_os.Vga.{vga_entry, vga_entry_color}
use potato_os.Terminal.{
  Terminal, vga_width, vga_height, video_memory, cell_address, make_room, put_at, terminal_putchar,
  terminal_write, terminal_initialize, terminal_scroll,
}
use potato_os.Terminal.Screen.{blank_screen_inside}
use potato_os.Terminal.Frame.{IsOnScreen, put_at-cells, putchar-IsOnScreen}

-- The number of the cell at the cursor.
abbrev pub place : Terminal → ℕ
place t = t.row * vga_width + t.column

put_at-next :
    (c : ℕ) (t : Terminal)
    → IsOnScreen t
    → t.row < 24
    → (place (put_at c t) ≡ place t + 1) × ((put_at c t).color ≡ t.color)
unfolding put_at
put_at-next c t v h = ground arith

make_room-above : (t : Terminal) → t.row < 24 → make_room t ≡ t
unfolding make_room
make_room-above t h = ground arith

-- A character above the last row: its cell is written, no other, and the cursor goes one place on.
putchar_above :
    (c : ℕ) (t : Terminal)
    → IsOnScreen t
    → t.row < 24
    → (place (terminal_putchar c t) ≡ place t + 1)
      × ((terminal_putchar c t).color ≡ t.color)
      × ((terminal_putchar c t).cells
          ≡ upd t.cells (video_memory + 2 * place t) (vga_entry c t.color))
unfolding terminal_putchar
putchar_above c t v h =
    rw (make_room-above t h)
      ((put_at-next c t v h).0, (put_at-next c t v h).1, rw (put_at-cells c t, v.buffer))

-- Byte `i` of the text, if there is one.
abbrev pub get_elem? {ℓ} : {A : Type ℓ} → List A → ℕ → Option A
get_elem? [] i = none
get_elem? (x ∷ xs) zero = some x
get_elem? (x ∷ xs) (suc i) = get_elem? xs i

write_before :
    (cs : List ℕ) (t : Terminal) (a : ℕ)
    → IsOnScreen t
    → place t + length cs ≤ 24 * vga_width
    → a < video_memory + 2 * place t
    → (terminal_write cs t).cells a ≡ t.cells a
unfolding terminal_write
write_before [] t a v fits h = refl
write_before (c ∷ cs) t a v fits h =
    let (next, same, cells) = putchar_above c t v (omega arith) in
    write_before cs (terminal_putchar c t) a (putchar-IsOnScreen c v) (omega arith) (omega arith)
    ∙ (ap (λ (m : Mem). m a) cells
        ∙ upd_ne t.cells (video_memory + 2 * place t) (vga_entry c t.color) a (omega arith))

write_cursor :
    (cs : List ℕ) (t : Terminal)
    → IsOnScreen t
    → place t + length cs ≤ 24 * vga_width
    → place (terminal_write cs t) ≡ place t + length cs
unfolding terminal_write
write_cursor [] t v fits = omega arith
write_cursor (c ∷ cs) t v fits =
    let (next, same, cells) = putchar_above c t v (omega arith) in
    omega (arith, write_cursor cs (terminal_putchar c t) (putchar-IsOnScreen c v) (omega arith))

pub write_color :
    (cs : List ℕ) (t : Terminal)
    → IsOnScreen t
    → place t + length cs ≤ 24 * vga_width
    → (terminal_write cs t).color ≡ t.color
unfolding terminal_write
write_color [] t v fits = refl
write_color (c ∷ cs) t v fits =
    let (next, same, cells) = putchar_above c t v (omega arith) in
    write_color cs (terminal_putchar c t) (putchar-IsOnScreen c v) (omega arith) ∙ same

write_cell :
    (cs : List ℕ) (t : Terminal) (i c : ℕ)
    → IsOnScreen t
    → place t + length cs ≤ 24 * vga_width
    → get_elem? cs i ≡ some c
    → (terminal_write cs t).cells (video_memory + 2 * (place t + i)) ≡ vga_entry c t.color
unfolding terminal_write
write_cell [] t i c v fits e = cc
write_cell (d ∷ cs) t zero c v fits e =
    let (next, same, cells) = putchar_above d t v (omega arith) in
    let d-eq : d ≡ c = cc in
    let at : place t + 0 ≡ place t = omega arith in
    write_before cs (terminal_putchar d t) (video_memory + 2 * (place t + 0))
      (putchar-IsOnScreen d v) (omega arith) (omega arith)
    ∙ (ap (λ (m : Mem). m (video_memory + 2 * (place t + 0))) cells
        ∙ rw (at, d-eq) (upd_self t.cells (video_memory + 2 * place t) (vga_entry c t.color)))
write_cell (d ∷ cs) t (suc i) c v fits e =
    let (next, same, cells) = putchar_above d t v (omega arith) in
    let at : place t + suc i ≡ place (terminal_putchar d t) + i = omega arith in
    rw at (
      write_cell cs (terminal_putchar d t) i c (putchar-IsOnScreen d v) (omega arith) e
      ∙ ap (vga_entry c) same)

-- Text that ends above the last row appears in order from the cursor's cell on, from row to row,
-- in the current colour; the cells before it are as they were, and the cursor is behind it.
pub write-place :
    (cs : List ℕ) (t : Terminal)
    → IsOnScreen t
    → place t + length cs ≤ 24 * vga_width
    → ((i c : ℕ)
        → get_elem? cs i ≡ some c
        → (terminal_write cs t).cells (video_memory + 2 * (place t + i)) ≡ vga_entry c t.color)
      × ((a : ℕ) → a < video_memory + 2 * place t → (terminal_write cs t).cells a ≡ t.cells a)
      × (place (terminal_write cs t) ≡ place t + length cs)
write-place cs t v fits = (
  λ i c e. write_cell cs t i c v fits e,
  λ a h. write_before cs t a v fits h,
  write_cursor cs t v fits,
)

make_room_last : (t : Terminal) → t.row ≡ 24 → make_room t ≡ terminal_initialize t
unfolding make_room terminal_scroll
make_room_last t e = ground arith

initialize_cell :
    (t : Terminal) (x y : ℕ)
    → x < vga_width
    → y < vga_height
    → (terminal_initialize t).cells (cell_address video_memory x y)
      ≡ vga_entry 0x20 (vga_entry_color 15 0)
unfolding terminal_initialize
initialize_cell t x y w h = blank_screen_inside (vga_entry_color 15 0) video_memory _ x y w h

initialize_statics :
    (t : Terminal)
    → ((terminal_initialize t).row ≡ 1)
      × ((terminal_initialize t).column ≡ t.column)
      × ((terminal_initialize t).buffer ≡ video_memory)
      × ((terminal_initialize t).color ≡ vga_entry_color 15 0)
unfolding terminal_initialize
initialize_statics t = (refl, refl, refl, refl)

-- On the last row a character first clears the screen: every other cell becomes a blank, the
-- character stands on row 1 in its old column, and the colour is white on black.
putchar_last_row :
    (c : ℕ) (t : Terminal) (x y : ℕ)
    → IsOnScreen t
    → t.row ≡ 24
    → x < vga_width
    → y < vga_height
    → (terminal_putchar c t).cells (cell_address video_memory x y) ≡ (
        if (x == t.column) && (y == 1)
        then vga_entry c (vga_entry_color 15 0)
        else vga_entry 0x20 (vga_entry_color 15 0))
unfolding terminal_putchar upd
putchar_last_row c t x y v last w h =
    rw (make_room_last t last, put_at-cells)
      (ground (arith, initialize_statics t, initialize_cell t x y w h))

-- The column goes round from the last to the first, whether the screen is cleared or not.
pub putchar_column :
    (c : ℕ) (t : Terminal)
    → IsOnScreen t
    → (terminal_putchar c t).column ≡ (t.column + 1) % vga_width
unfolding terminal_putchar put_at make_room terminal_scroll terminal_initialize
putchar_column c t v = ground (arith, v.column)

pub write_column :
    (cs : List ℕ) (t : Terminal)
    → IsOnScreen t
    → (terminal_write cs t).column ≡ (t.column + length cs) % vga_width
unfolding terminal_write
write_column [] t v = omega (arith, v.column)
write_column (c ∷ cs) t v =
    write_column cs (terminal_putchar c t) (putchar-IsOnScreen c v)
    ∙ omega (arith, putchar_column c t v)
