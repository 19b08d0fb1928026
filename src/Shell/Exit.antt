-- ===== src/Shell/Exit.antt =====
-- The command that ends the loop of shell of kernel/arch/i386/tty.c.
use potato_os.Base.{
  ℕ, ◌<◌, ◌≡◌, refl, ap, ◌∙◌, fun_ext, true, List, [], ◌∷◌, ◌++◌, length, codes, Option, none, some,
  SameOutside, arith,
}
use potato_os.Shell.{Layout, Shell, Result, back, stops, and_then, buffer_size}
use potato_os.Shell.Line.{IsLine}
use potato_os.Shell.Handler.{prompt, handle_key}
use potato_os.Shell.Commands.{cmd_exit, command_of, execute, run_command}
use potato_os.Shell.Keys.{handle_keys, handle_keys-edits}
use potato_os.Shell.Prompt.{prompt-IsLine, handle_key-enter}
use potato_os.Shell.Dispatch.{command_of-Reads}
use potato_os.Shell.Unknown.{then_back}

and_then_assoc :
    (o : Option Result) (f g : Shell → Option Result)
    → and_then o (λ s. and_then (f s) g) ≡ and_then (and_then o f) g
and_then_assoc none f g = refl
and_then_assoc (some (stops reason s)) f g = refl
and_then_assoc (some (back s)) f g = refl

handle_keys-++ :
    (fuel : ℕ) (xs ys : List ℕ) (layout : Layout) (s : Shell)
    → handle_keys fuel (xs ++ ys) layout s
      ≡ and_then (handle_keys fuel xs layout s) (λ s'. handle_keys fuel ys layout s')
unfolding handle_keys
handle_keys-++ fuel [] ys layout s = refl
handle_keys-++ fuel (c ∷ xs) ys layout s =
    ap (and_then (handle_key fuel c layout s)) (fun_ext (λ s'. handle_keys-++ fuel xs ys layout s'))
    ∙ and_then_assoc (handle_key fuel c layout s) (λ s'. handle_keys fuel xs layout s')
        (λ s'. handle_keys fuel ys layout s')

one_key :
    (fuel c : ℕ) (layout : Layout) (s s' : Shell)
    → handle_key fuel c layout s ≡ some (back s')
    → handle_keys fuel (c ∷ []) layout s ≡ some (back s')
unfolding handle_keys
one_key fuel c layout s s' e = rw (handle_keys, e) refl

module _ (layout : Layout) (name : List ℕ) where
  exit_branch :
      (fuel : ℕ) (s : Shell)
      → command_of s.memory layout.input_buffer ≡ cmd_exit
      → run_command fuel layout s ≡ some (back (record s { exit_loop = true }))
  unfolding run_command execute
  exit_branch fuel s e = rw (run_command, e) refl

  -- On an empty line, "exit" and Enter return with the mark that ends the shell's loop set, the
  -- prompt on an empty line, and no byte of memory outside the line buffer changed.
  pub handle_keys-exit :
      (fuel : ℕ) (s : Shell)
      → IsLine layout name s []
      → length name < fuel
      → (s' : Shell) × (handle_keys fuel (codes "exit" ++ (10 ∷ [])) layout s ≡ some (back s'))
        × (s'.exit_loop ≡ true)
        × IsLine layout name s' []
        × SameOutside layout.input_buffer buffer_size s.memory s'.memory
  handle_keys-exit fuel s l enough =
      let (s₁, e₁, l₁, same₁) =
        handle_keys-edits layout name fuel (codes "exit") s [] l enough (ground arith) in
      let (s₂, e₂, r, l₂, _, same₂) =
        handle_key-enter layout name fuel s₁ (codes "exit") l₁ (ground arith) in
      let named : command_of s₂.memory layout.input_buffer ≡ cmd_exit =
        command_of-Reads s₂.memory layout.input_buffer (codes "exit") r in
      let p = l₂.placed in
      let (s₃, e₃, l₃, kept, marked, _) =
        prompt-IsLine layout name fuel (record s₂ { exit_loop = true })
          (record { fits = p.fits; apart = p.apart; named = p.named; short = p.short }) l₂.on_screen
          enough in
      (
        s₃,
        handle_keys-++ fuel (codes "exit") (10 ∷ []) layout s
            ∙ then_back (λ x. handle_keys fuel (10 ∷ []) layout x) e₁
            ∙ one_key fuel 10 layout s₁ s₃
                (e₂ ∙ then_back (λ x. prompt fuel x) (exit_branch fuel s₂ named) ∙ e₃),
        marked,
        l₃,
        λ a h. ap (λ m. m a) kept ∙ same₂ a h ∙ same₁ a h,
      )
