-- ===== src/Shell/Prompt.antt =====
-- Enter in handle_keyboard_input of kernel/arch/i386/tty.c: the line that a command is read from, and
-- the prompt after it.
use potato_os.Base.{
  ℕ, zero, suc, ◌+◌, ◌<◌, ◌≡◌, ◌≢◌, refl, ap, sym, ◌∙◌, false, List, [], ◌∷◌, length, codes, some,
  Mem, upd_self, SameOutside, ◌==◌, ne→==, arith,
}
use native.Mathlib.Nat.{add-zero}
use potato_os.Terminal.{Terminal, terminal_newline, terminal_write, terminal_writestring}
use potato_os.Terminal.Frame.{IsOnScreen, newline-IsOnScreen, write-IsOnScreen}
use potato_os.Terminal.Place.{write_column}
use potato_os.Strings.{Reads}
use potato_os.Shell.{
  Layout, Shell, back, and_then, buffer_size, hostname, text_at, write, write_at, new_line,
  on_terminal,
}
use potato_os.Shell.Line.{Holds, prompt_width, IsPlaced, IsLine}
use potato_os.Shell.Handler.{end_line, prompt, handle_key}
use potato_os.Shell.Commands.{run_command}
use potato_os.Shell.Editing.{slot_lem, end_line-IsLine}

pub text_at_lem :
    (fuel p : ℕ) (cs : List ℕ) (m : Mem)
    → Reads m p cs
    → length cs < fuel
    → text_at fuel p m ≡ some cs
unfolding text_at
text_at_lem zero p cs m r enough = absurd (omega arith)
text_at_lem (suc fuel) p [] m r enough = rw r refl
text_at_lem (suc fuel) p (c ∷ cs) m (e, nonzero, r) enough =
    let filled : (m p == 0) ≡ false = ne→== (m p) 0 (λ z. nonzero (sym e ∙ z)) in
    rw (filled, text_at_lem fuel (p + 1) cs m r (omega arith)) (ap (λ x. some (x ∷ cs)) e)

-- No byte is NUL.
abbrev pub IsText : List ℕ → Type 0
IsText [] = Unit {0}
IsText (c ∷ cs) = (c ≢ 0) × IsText cs

Reads-Holds :
    (m : Mem) (p : ℕ) (cs : List ℕ)
    → Holds m p cs
    → IsText cs
    → m (p + length cs) ≡ 0
    → Reads m p cs
Reads-Holds m p [] h t e = ap m (sym (add-zero p)) ∙ e
Reads-Holds m p (c ∷ cs) (h, hs) (t, ts) e =
    let at : p + suc (length cs) ≡ p + 1 + length cs = omega arith in
    (h, t, Reads-Holds m (p + 1) cs hs ts (ap m (sym at) ∙ e))

newline_column : (t : Terminal) → (terminal_newline t).column ≡ 0
unfolding terminal_newline
newline_column t = ground arith

-- The console behind the prompt.
unfoldable pub prompt_console : (name : List ℕ) → Terminal → Terminal
prompt_console name t = terminal_write (codes " /> ") (
    terminal_write hostname (terminal_write (codes "@") (terminal_write name (terminal_newline t))))

module _ (layout : Layout) (name : List ℕ) where
  prompt_console-IsOnScreen :
      (t : Terminal)
      → IsOnScreen t
      → prompt_width name < 80
      → IsOnScreen (prompt_console name t) × ((prompt_console name t).column ≡ prompt_width name)
  unfolding prompt_console
  prompt_console-IsOnScreen t v short =
      let v₀ = newline-IsOnScreen v in
      let v₁ = write-IsOnScreen name v₀ in
      let v₂ = write-IsOnScreen (codes "@") v₁ in
      let v₃ = write-IsOnScreen hostname v₂ in
      (
        write-IsOnScreen (codes " /> ") v₃,
        omega (
          arith,
          newline_column t,
          write_column name _ v₀,
          write_column (codes "@") _ v₁,
          write_column hostname _ v₂,
          write_column (codes " /> ") _ v₃,
        ),
      )

  -- After the prompt the line is empty, and no byte of memory has changed.
  pub prompt-IsLine :
      (fuel : ℕ) (s : Shell)
      → IsPlaced layout name s
      → IsOnScreen s.terminal
      → length name < fuel
      → (s' : Shell) × (prompt fuel s ≡ some (back s'))
        × IsLine layout name s' []
        × (s'.memory ≡ s.memory)
        × (s'.exit_loop ≡ s.exit_loop)
        × (s'.terminal ≡ prompt_console name s.terminal)
  unfolding prompt write_at write new_line on_terminal terminal_writestring
  prompt-IsLine fuel s p v enough =
      let (shown, column) = prompt_console-IsOnScreen s.terminal v p.short in
      let short = p.short in
      (
        record s { terminal = prompt_console name s.terminal; input_buffer_index = 0 },
        unfold prompt_console in
            rw (prompt, write_at, text_at_lem fuel s.username name s.memory p.named enough) refl,
        record {
          placed = record { fits = p.fits; apart = p.apart; named = p.named; short = p.short };
          on_screen = shown;
          index = refl;
          bound = omega arith;
          holds = tt;
          column = omega (arith, column);
        },
        refl,
        refl,
        refl,
      )

  -- Enter runs the command on a buffer that reads as the line, and goes on with the prompt.
  pub handle_key-enter :
      (fuel : ℕ) (s : Shell) (cs : List ℕ)
      → IsLine layout name s cs
      → IsText cs
      → (s₁ : Shell) × (handle_key fuel 10 layout s
          ≡ and_then (run_command fuel layout s₁) (λ s'. prompt fuel s'))
        × Reads s₁.memory layout.input_buffer cs
        × IsLine layout name s₁ cs
        × (s₁.terminal ≡ s.terminal)
        × SameOutside layout.input_buffer buffer_size s.memory s₁.memory
  unfolding handle_key
  handle_key-enter fuel s cs l t =
      let (l', same) = end_line-IsLine layout name s cs l in
      (
        end_line layout s,
        refl,
        Reads-Holds (end_line layout s).memory layout.input_buffer cs l'.holds t
            (unfold end_line in rw (sym (slot_lem layout name s cs l)) (upd_self s.memory _ 0)),
        l',
        unfold end_line in refl,
        same,
      )
