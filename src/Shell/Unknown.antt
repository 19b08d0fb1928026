-- ===== src/Shell/Unknown.antt =====
-- Enter in handle_keyboard_input of kernel/arch/i386/tty.c on a line that is no command.
use potato_os.Base.{
  ℕ, ◌<◌, ◌≡◌, ◌≢◌, refl, ap, ◌∙◌, true, List, [], length, codes, Option, some, SameOutside, ◌/=◌,
  arith,
}
use potato_os.Terminal.{Terminal, terminal_newline, terminal_write}
use potato_os.Terminal.Frame.{IsOnScreen, newline-IsOnScreen, write-IsOnScreen}
use potato_os.Strings.{Reads}
use potato_os.Stdio.Plain.{IsPlain, printf-plain}
use potato_os.Shell.{
  Layout, Shell, Result, back, and_then, buffer_size, print_format, new_line, text_at, on_terminal,
}
use potato_os.Shell.Line.{IsPlaced, IsLine}
use potato_os.Shell.Handler.{prompt, handle_key}
use potato_os.Shell.Commands.{
  cmd_other, command_of, execute, run_command, with_text, unknown_command,
}
use potato_os.Shell.Prompt.{IsText, prompt_console, text_at_lem, prompt-IsLine, handle_key-enter}
use potato_os.Shell.Dispatch.{command_named, command_of-Reads}

pub then_back :
    {o : Option Result} {s : Shell} (next : Shell → Option Result)
    → o ≡ some (back s)
    → and_then o next ≡ next s
then_back next e = ap (λ x. and_then x next) e

print_format-plain :
    (cs : List ℕ) (s : Shell)
    → IsPlain cs
    → length cs < 256
    → print_format cs [] s ≡ some (back (on_terminal (terminal_write cs) s))
unfolding print_format on_terminal
print_format-plain cs s p h = rw (print_format, printf-plain cs s.terminal p (omega arith)) refl

-- What is printed about an unknown command.
abbrev pub complain : List ℕ → Terminal → Terminal
complain line t = terminal_write (codes " unknown command or file name.") (
    terminal_write (codes "'")
      (terminal_write line (terminal_write (codes "'") (terminal_newline t))))

unknown_command_lem :
    (fuel : ℕ) (layout : Layout) (s : Shell) (line : List ℕ)
    → Reads s.memory layout.input_buffer line
    → IsPlain line
    → length line < 256
    → length line < fuel
    → unknown_command fuel layout s ≡ some (back (on_terminal (complain line) s))
unfolding unknown_command on_terminal new_line
unknown_command_lem fuel layout s line r p small enough =
    let s₁ = on_terminal (terminal_write (codes "'")) (new_line s) in
    let s₂ = on_terminal (terminal_write line) s₁ in
    let s₃ = on_terminal (terminal_write (codes "'")) s₂ in
    let last = λ (x : Shell). print_format (codes " unknown command or file name.") [] x in
    let quote = λ (x : Shell). and_then (print_format (codes "'") [] x) last in
    let body = λ (x : Shell) (cs : List ℕ). and_then (print_format cs [] x) quote in
    let read = λ (x : Shell). with_text (text_at fuel layout.input_buffer x.memory) (body x) in
    then_back read (print_format-plain (codes "'") (new_line s) (ground arith) (omega arith))
    ∙ ap (λ x. with_text x (body s₁)) (text_at_lem fuel layout.input_buffer line s₁.memory r enough)
    ∙ then_back quote (print_format-plain line s₁ p small)
    ∙ then_back last (print_format-plain (codes "'") s₂ (ground arith) (omega arith))
    ∙ print_format-plain (codes " unknown command or file name.") s₃ (ground arith) (omega arith)

module _ (layout : Layout) (name : List ℕ) where
  complain-IsLine :
      (line : List ℕ) (s : Shell)
      → IsLine layout name s line
      → IsPlaced layout name (on_terminal (complain line) s)
        × IsOnScreen (on_terminal (complain line) s).terminal
  unfolding on_terminal
  complain-IsLine line s l =
      let p = l.placed in
      (
        record { fits = p.fits; apart = p.apart; named = p.named; short = p.short },
        write-IsOnScreen (codes " unknown command or file name.") (
            write-IsOnScreen (codes "'") (
              write-IsOnScreen line
                (write-IsOnScreen (codes "'") (newline-IsOnScreen l.on_screen)))),
      )

  other_branch :
      (fuel : ℕ) (s : Shell) (line : List ℕ)
      → command_of s.memory layout.input_buffer ≡ cmd_other
      → s.input_buffer_index ≢ 0
      → run_command fuel layout s ≡ unknown_command fuel layout s
  unfolding run_command execute
  other_branch fuel s line e h =
      let some_text : (s.input_buffer_index /= 0) ≡ true = ground arith in
      rw (run_command, e, some_text) refl

  -- Enter on a line that is no command, is not empty and has no '%' returns and prints the line with
  -- a complaint; then the prompt stands on an empty line, and no byte of memory outside the buffer
  -- has changed.
  pub handle_key-unknown :
      (fuel : ℕ) (s : Shell) (line : List ℕ)
      → IsLine layout name s line
      → IsText line
      → IsPlain line
      → 0 < length line
      → command_named line ≡ cmd_other
      → length line < fuel
      → length name < fuel
      → (s' : Shell) × (handle_key fuel 10 layout s ≡ some (back s'))
        × IsLine layout name s' []
        × (s'.terminal ≡ prompt_console name (complain line s.terminal))
        × SameOutside layout.input_buffer buffer_size s.memory s'.memory
  unfolding on_terminal
  handle_key-unknown fuel s line l t p positive e enough enough' =
      let (s₁, step, r, l₁, shows, same) = handle_key-enter layout name fuel s line l t in
      let none_of : command_of s₁.memory layout.input_buffer ≡ cmd_other =
        command_of-Reads s₁.memory layout.input_buffer line r ∙ e in
      let bound = l.bound in
      let ran : run_command fuel layout s₁ ≡ some (back (on_terminal (complain line) s₁)) =
        other_branch fuel s₁ line none_of (λ z. absurd (omega (arith, l₁.index, z)))
        ∙ unknown_command_lem fuel layout s₁ line r p bound enough in
      let (placed, shown) = complain-IsLine line s₁ l₁ in
      let (s₂, e', l₂, kept, _, printed) =
        prompt-IsLine layout name fuel (on_terminal (complain line) s₁) placed shown enough' in
      (
        s₂,
        step ∙ ap (λ x. and_then x (λ s'. prompt fuel s')) ran ∙ e',
        l₂,
        printed ∙ ap (λ x. prompt_console name (complain line x)) shows,
        λ a h. ap (λ m. m a) kept ∙ same a h,
      )
