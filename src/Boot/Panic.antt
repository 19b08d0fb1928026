-- ===== src/Boot/Panic.antt =====
-- What stands on the screen before the reboot of panic of kernel/arch/i386/tty.c.
use potato_os.Base.{
  ℕ, zero, suc, ◌+◌, ◌*◌, ◌<◌, ◌≡◌, refl, ap, sym, ◌∙◌, List, [], ◌∷◌, ◌++◌, length, codes, some,
  Mem, arith,
}
use mathlib.Core.Path.{subst}
use potato_os.Vga.{vga_entry, vga_entry_color}
use potato_os.Terminal.{
  Terminal, video_memory, terminal_write, terminal_writestring, terminal_newline, disable_cursor,
}
use potato_os.Terminal.Frame.{IsOnScreen}
use potato_os.Terminal.Place.{place, get_elem?, write-place}
use potato_os.Shell.{Shell, on_terminal, write, new_line, version, subversion}
use potato_os.Boot.{panic_screen, clear_screen, hashes, osname}
use potato_os.Terminal.Standing.{
  Stands, write-append, write-Stands, newline-Stands, indent-Stands, move-Stands, line-Stands,
}

-- The console of panic before its message.
unfoldable before_message : (paniccolor : ℕ) (s : Shell) → Terminal
before_message paniccolor s =
    let t₁ =
      terminal_newline
        (clear_screen paniccolor
          (write (codes "PANIC!!!") (on_terminal disable_cursor s))).terminal in
    let t₂ = terminal_newline (
      terminal_write (codes "An error occurred and the system has been shutdown.")
        (record t₁ { column = 6 })) in
    let t₃ = terminal_newline (
      terminal_write (codes "Contact me at ospotato3@gmail.com with the error message below.")
        (record t₂ { column = 6 })) in
    let t₄ = terminal_newline (
      terminal_write (codes "Github: https://github.com/winvistalover/PotatoOS/tree/nightly")
        (record t₃ { column = 6 })) in
    record (terminal_newline t₄) { column = 6 }

before_message-Stands :
    (paniccolor : ℕ) (s : Shell)
    → Stands 0 (λ _. 0) (vga_entry_color 15 paniccolor) 11 6 (before_message paniccolor s)
unfolding before_message clear_screen
before_message-Stands paniccolor s =
    let color = vga_entry_color 15 paniccolor in
    let t₀ =
      (clear_screen paniccolor
        (write (codes "PANIC!!!") (on_terminal disable_cursor s))).terminal in
    let s₀ : Stands 0 (λ _. 0) color 6 t₀.column t₀ = record {
      row_at = refl;
      column_at = refl;
      in_color = refl;
      buffer = refl;
      kept = λ a h. absurd (omega (arith, h));
    } in
    let s₁ = newline-Stands 0 (λ _. 0) color 6 t₀.column t₀ s₀ (omega arith) in
    let s₂ =
      line-Stands 0 (λ _. 0) color (codes "An error occurred and the system has been shutdown.") 7 _
        s₁ (omega arith) (omega arith) (omega arith) in
    let s₃ =
      line-Stands 0 (λ _. 0) color
        (codes "Contact me at ospotato3@gmail.com with the error message below.") 8 _ s₂
        (omega arith) (omega arith) (omega arith) in
    let s₄ =
      line-Stands 0 (λ _. 0) color
        (codes "Github: https://github.com/winvistalover/PotatoOS/tree/nightly") 9 _ s₃
        (omega arith) (omega arith) (omega arith) in
    let s₅ = newline-Stands 0 (λ _. 0) color 10 0 _ s₄ (omega arith) in
    indent-Stands 0 (λ _. 0) color 11 0 6 _ s₅

-- The console of panic from the line behind its message on.
unfoldable after_message : Terminal → Terminal
after_message t =
    let t₁ = terminal_write subversion (
      terminal_write (codes ".") (
        terminal_write version (
          terminal_write (codes " ") (
            terminal_write osname (
              terminal_write (codes "Kernel: ") (record (terminal_newline t) { column = 6 })))))) in
    let t₂ = terminal_newline (terminal_newline (terminal_newline t₁)) in
    let t₃ =
      terminal_newline (
        terminal_write (codes "The system will automatically reboot") (record t₂ { column = 6 })) in
    let t₄ = terminal_write (codes "Timeout:") (record t₃ { row = 22; column = 0 }) in
    terminal_write (hashes 80) (record t₄ { column = 0; row = 23; color = vga_entry_color 15 15 })

-- The bar fills a row further down.
bar-cells :
    (color a : ℕ) (t : Terminal) (m : Mem)
    → Stands (video_memory + 2 * (12 * 80)) m color 22 8 t
    → a < video_memory + 2 * (12 * 80)
    → (terminal_write
          (hashes 80)
          (record t { column = 0; row = 23; color = vga_entry_color 15 15 })).cells
        a
      ≡ m a
bar-cells color a t m s below =
    let v : IsOnScreen (record t { column = 0; row = 23; color = vga_entry_color 15 15 }) = record {
      row = omega arith;
      column = omega arith;
      buffer = s.buffer;
    } in
    (write-place (hashes 80) (record t { column = 0; row = 23; color = vga_entry_color 15 15 }) v
        (omega arith)).1
      a (omega arith)
    ∙ s.kept a below

-- It leaves the rows above.
after_message-cells :
    (column color : ℕ) (t : Terminal) (a : ℕ)
    → Stands (video_memory + 2 * (12 * 80)) t.cells color 11 column t
    → a < video_memory + 2 * (12 * 80)
    → (after_message t).cells a ≡ t.cells a
unfolding after_message
after_message-cells column color t a s below =
    let limit = video_memory + 2 * (12 * 80) in
    let m = t.cells in
    let k₀ =
      indent-Stands limit m color 12 0 6 _
        (newline-Stands limit m color 11 column t s (omega arith)) in
    let k₁ =
      write-Stands limit m color (codes "Kernel: ") 12 6 _ k₀ (omega arith) (omega arith)
        (omega arith) in
    let k₂ =
      write-Stands limit m color osname 12 14 _ k₁ (omega arith) (omega arith) (omega arith) in
    let k₃ =
      write-Stands limit m color (codes " ") 12 22 _ k₂ (omega arith) (omega arith) (omega arith) in
    let k₄ =
      write-Stands limit m color version 12 23 _ k₃ (omega arith) (omega arith) (omega arith) in
    let k₅ =
      write-Stands limit m color (codes ".") 12 24 _ k₄ (omega arith) (omega arith) (omega arith) in
    let k₆ =
      write-Stands limit m color subversion 12 25 _ k₅ (omega arith) (omega arith) (omega arith) in
    let k₇ = newline-Stands limit m color 12 30 _ k₆ (omega arith) in
    let k₈ = newline-Stands limit m color 13 0 _ k₇ (omega arith) in
    let k₉ = newline-Stands limit m color 14 0 _ k₈ (omega arith) in
    let l₁ =
      line-Stands limit m color (codes "The system will automatically reboot") 15 _ k₉ (omega arith)
        (omega arith) (omega arith) in
    let l₂ = move-Stands limit m color 16 0 22 _ (indent-Stands limit m color 16 0 0 _ l₁) in
    let l₃ =
      write-Stands limit m color (codes "Timeout:") 22 0 _ l₂ (omega arith) (omega arith)
        (omega arith) in
    bar-cells color a _ m l₃ below

whole_screen :
    (paniccolor : ℕ) (msg : List ℕ) (s : Shell)
    → (panic_screen paniccolor msg s).terminal
      ≡ after_message (terminal_write (codes "Panic: " ++ msg) (before_message paniccolor s))
unfolding panic_screen after_message before_message write new_line on_terminal terminal_writestring
whole_screen paniccolor msg s =
    ap after_message (sym (write-append (codes "Panic: ") msg (before_message paniccolor s)))

get_elem?-lt : (cs : List ℕ) (i c : ℕ) → get_elem? cs i ≡ some c → i < length cs
get_elem?-lt [] i c e = cc
get_elem?-lt (x ∷ cs) zero c e = omega arith
get_elem?-lt (x ∷ cs) (suc i) c e = omega (arith, get_elem?-lt cs i c e)

-- A message of at most 66 bytes stands on row 11 of the screen that panic shows while it counts down to
-- its call of reboot, behind "Panic: ", from column 6 on, in white on panic's colour, wherever the
-- console was before.
pub panic_screen_message :
    (paniccolor : ℕ) (msg : List ℕ) (s : Shell) (i c : ℕ)
    → length msg < 67
    → get_elem? (codes "Panic: " ++ msg) i ≡ some c
    → (panic_screen paniccolor msg s).terminal.cells (video_memory + 2 * (11 * 80 + 6 + i))
      ≡ vga_entry c (vga_entry_color 15 paniccolor)
panic_screen_message paniccolor msg s i c short e =
    let color = vga_entry_color 15 paniccolor in
    let text = codes "Panic: " ++ msg in
    let t = before_message paniccolor s in
    let here = before_message-Stands paniccolor s in
    let v : IsOnScreen t = record {
      row = omega (arith, here.row_at);
      column = omega (arith, here.column_at);
      buffer = here.buffer;
    } in
    let at : place t ≡ 11 * 80 + 6 = omega (arith, here.row_at, here.column_at) in
    let size : length text ≡ 7 + length msg = omega arith in
    let inside : i < length text = get_elem?-lt text i c e in
    let (cells, _, next) = write-place text t v (omega (arith, at, size)) in
    let w =
      write-Stands 0 (λ _. 0) color text 11 6 t here (omega arith) (omega (arith, size))
        (omega arith) in
    let after : Stands (video_memory + 2 * (12 * 80)) (terminal_write text t).cells color 11
        (6 + length text) (terminal_write text t) =
      record {
        row_at = w.row_at;
        column_at = w.column_at;
        in_color = w.in_color;
        buffer = w.buffer;
        kept = λ a h. refl;
      } in
    ap (λ (x : Terminal). x.cells (video_memory + 2 * (11 * 80 + 6 + i)))
      (whole_screen paniccolor msg s)
    ∙ after_message-cells (6 + length text) color (terminal_write text t)
        (video_memory + 2 * (11 * 80 + 6 + i)) after (omega (arith, inside, size))
    ∙ subst (λ p. (terminal_write text t).cells (video_memory + 2 * (p + i)) ≡ vga_entry c t.color)
        at (cells i c e)
    ∙ ap (vga_entry c) here.in_color
