-- ===== src/Graphics/Tests.antt =====
-- A box and two letters of kernel/arch/i386/tty.c.
use potato_os.Base.{ℕ, some, ◌+◌, ◌≡◌, Mem, arith}
use potato_os.Graphics.{framebuffer_address, draw_box, draw_char}
use potato_os.Graphics.Lines.{pixel, draw_box-border}
use potato_os.Graphics.Glyphs.{white, draw_char-white}

abbrev dark : Mem
dark _ = 0

draw_box-border_example : draw_box 10 20 30 40 7 dark (pixel 30 25) ≡ 7
draw_box-border_example =
    draw_box-border 10 20 30 40 7 30 25 dark (omega arith) (omega arith) (omega arith) (omega arith)
      (omega arith) (omega arith)

-- '1' is drawn as a bar; 'A', whose code is 65, is not drawn.
draw_char-white_example :
    (m' : Mem) × (draw_char framebuffer_address 8 16 49 dark ≡ some m')
    × ((a : ℕ) → m' a ≡ white (framebuffer_address + 24) 15 dark a)
draw_char-white_example =
    draw_char-white framebuffer_address 8 16 49 dark (omega arith) (omega arith)

no_letter :
    (m' : Mem) × (draw_char framebuffer_address 8 16 65 dark ≡ some m') × ((a : ℕ) → m' a ≡ 0)
no_letter = draw_char-white framebuffer_address 8 16 65 dark (omega arith) (omega arith)
