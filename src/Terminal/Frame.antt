-- ===== src/Terminal/Frame.antt =====
-- The console stays on the screen, whatever text is written.
use potato_os.Base.{
  ℕ, ◌<◌, ◌≡◌, refl, ◌∙◌, List, [], ◌∷◌, SameOutside, upd, upd_ne, arith, if◌then◌else◌,
}
use potato_os.Vga.{vga_entry, vga_entry_color}
use potato_os.Terminal.{
  Terminal, vga_width, vga_height, video_memory, cell_address, blank_screen, terminal_initialize,
  terminal_scroll, make_room, put_at, terminal_putchar, terminal_write, terminal_newline,
}
use potato_os.Terminal.Screen.{blank_screen_outside}

pub record IsOnScreen (t : Terminal) : Type 0 where
  pub row : t.row < vga_height
  pub column : t.column < vga_width
  pub buffer : t.buffer ≡ video_memory

-- `t'` has the video memory of `t` but for the 4000 bytes of the screen.
abbrev pub SameOffScreen : Terminal → Terminal → Type 0
SameOffScreen t t' = SameOutside video_memory 4000 t.cells t'.cells

initialize-IsOnScreen : {t : Terminal} → IsOnScreen t → IsOnScreen (terminal_initialize t)
unfolding terminal_initialize
initialize-IsOnScreen v = ground arith

initialize-SameOffScreen : (t : Terminal) → SameOffScreen t (terminal_initialize t)
unfolding terminal_initialize
initialize-SameOffScreen t a h =
    blank_screen_outside (vga_entry_color 15 0) video_memory
      (blank_screen (if t.initialized then t.color else vga_entry_color 0 7) video_memory t.cells) a
      h
    ∙ blank_screen_outside (if t.initialized then t.color else vga_entry_color 0 7) video_memory
        t.cells a h

pub newline-IsOnScreen : {t : Terminal} → IsOnScreen t → IsOnScreen (terminal_newline t)
unfolding terminal_newline
newline-IsOnScreen v = ground arith

newline-SameOffScreen : (t : Terminal) → SameOffScreen t (terminal_newline t)
unfolding terminal_newline
newline-SameOffScreen t a h = ground (arith, blank_screen_outside t.color video_memory t.cells a)

make_room-IsOnScreen :
    {t : Terminal} → IsOnScreen t → IsOnScreen (make_room t) × ((make_room t).row < 24)
unfolding make_room terminal_scroll terminal_initialize
make_room-IsOnScreen v = ground arith

make_room-SameOffScreen : (t : Terminal) → SameOffScreen t (make_room t)
unfolding make_room terminal_scroll
make_room-SameOffScreen t a h = ground (arith, initialize-SameOffScreen t a)

-- The cells after a character was put.
pub put_at-cells :
    (c : ℕ) (t : Terminal)
    → (put_at c t).cells ≡ upd t.cells (cell_address t.buffer t.column t.row) (vga_entry c t.color)
unfolding put_at
put_at-cells c t = ground arith

put_at-IsOnScreen : (c : ℕ) {t : Terminal} → IsOnScreen t → t.row < 24 → IsOnScreen (put_at c t)
unfolding put_at
put_at-IsOnScreen c v h = ground arith

pub putchar-IsOnScreen : (c : ℕ) {t : Terminal} → IsOnScreen t → IsOnScreen (terminal_putchar c t)
unfolding terminal_putchar
putchar-IsOnScreen c v = let r = make_room-IsOnScreen v in put_at-IsOnScreen c r.0 r.1

put_at-SameOffScreen : (c : ℕ) (t : Terminal) → IsOnScreen t → SameOffScreen t (put_at c t)
put_at-SameOffScreen c t v a h =
    rw (put_at-cells c t)
      (upd_ne t.cells (cell_address t.buffer t.column t.row) (vga_entry c t.color) a (omega arith))

putchar-SameOffScreen :
    (c : ℕ) (t : Terminal) → IsOnScreen t → SameOffScreen t (terminal_putchar c t)
unfolding terminal_putchar
putchar-SameOffScreen c t v a h =
    put_at-SameOffScreen c (make_room t) (make_room-IsOnScreen v).0 a h
    ∙ make_room-SameOffScreen t a h

-- After any text the cursor is on the screen.
pub write-IsOnScreen :
    (cs : List ℕ) {t : Terminal} → IsOnScreen t → IsOnScreen (terminal_write cs t)
unfolding terminal_write
write-IsOnScreen [] v = v
write-IsOnScreen (c ∷ cs) v = write-IsOnScreen cs (putchar-IsOnScreen c v)

-- No text, however long, is written outside the screen's 4000 bytes, if the console was on the
-- screen; and it is on the screen afterwards.
pub write-SameOffScreen :
    (cs : List ℕ) (t : Terminal)
    → IsOnScreen t
    → IsOnScreen (terminal_write cs t) × SameOffScreen t (terminal_write cs t)
unfolding terminal_write
write-SameOffScreen [] t v = (v, λ a h. refl)
write-SameOffScreen (c ∷ cs) t v =
    let (next, same) = write-SameOffScreen cs (terminal_putchar c t) (putchar-IsOnScreen c v) in
    (next, λ a h. same a h ∙ putchar-SameOffScreen c t v a h)
