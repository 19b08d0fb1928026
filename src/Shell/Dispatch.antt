-- ===== src/Shell/Dispatch.antt =====
-- Which command handle_keyboard_input of kernel/arch/i386/tty.c runs on a line, and what it does with
-- a line that is none.
use potato_os.Base.{
  ℕ, ◌+◌, ◌≡◌, refl, sym, ◌∙◌, Bool, true, false, List, [], ◌∷◌, codes, Mem, ◌==◌, ◌&&◌, ne→==,
  if◌then◌else◌, arith,
}
use potato_os.Strings.{Reads}
use potato_os.Shell.Commands.{
  equals, begins, Command, cmd_ls, cmd_le, cmd_echo, cmd_m, cmd_ppm, cmd_help, cmd_clear, cmd_exit,
  cmd_panic, cmd_reboot, cmd_g, cmd_fatinit, cmd_waitwrite, cmd_shutdown, cmd_un, cmd_color,
  cmd_other, command_of,
}
use potato_os.Shell.Prompt.{IsText}

-- The two texts are the same, and the first begins with the second.
abbrev is_same : List ℕ → List ℕ → Bool
is_same [] [] = true
is_same [] (d ∷ ds) = false
is_same (c ∷ cs) [] = false
is_same (c ∷ cs) (d ∷ ds) = (c == d) && is_same cs ds

abbrev starts : List ℕ → List ℕ → Bool
starts cs [] = true
starts [] (d ∷ ds) = false
starts (c ∷ cs) (d ∷ ds) = (c == d) && starts cs ds

equals_lem :
    (m : Mem) (p : ℕ) (cs ds : List ℕ) → Reads m p cs → IsText ds → equals m p ds ≡ is_same cs ds
equals_lem m p [] [] r t = rw r refl
equals_lem m p [] (d ∷ ds) r t = rw (r, ne→== 0 d (λ e. t.0 (sym e))) refl
equals_lem m p (c ∷ cs) [] r t = ne→== (m p) 0 (λ e. r.1 (sym r.0 ∙ e))
equals_lem m p (c ∷ cs) (d ∷ ds) r t = rw (r.0, equals_lem m (p + 1) cs ds r.2 t.1) refl

begins_lem :
    (m : Mem) (p : ℕ) (cs ds : List ℕ) → Reads m p cs → IsText ds → begins m p ds ≡ starts cs ds
begins_lem m p cs [] r t = refl
begins_lem m p [] (d ∷ ds) r t = rw (r, ne→== 0 d (λ e. t.0 (sym e))) refl
begins_lem m p (c ∷ cs) (d ∷ ds) r t = rw (r.0, begins_lem m (p + 1) cs ds r.2 t.1) refl

-- The command of a line: the first literal of the source that it is, or begins with.
abbrev pub command_named : List ℕ → Command
command_named line =
    if is_same line (codes "ls")
    then cmd_ls
    else if is_same line (codes "le")
    then cmd_le
    else if starts line (codes "echo ")
    then cmd_echo
    else if is_same line (codes "m")
    then cmd_m
    else if is_same line (codes "ppm")
    then cmd_ppm
    else if is_same line (codes "help")
    then cmd_help
    else if is_same line (codes "clear")
    then cmd_clear
    else if is_same line (codes "exit")
    then cmd_exit
    else if is_same line (codes "panic")
    then cmd_panic
    else if is_same line (codes "reboot")
    then cmd_reboot
    else if is_same line (codes "g")
    then cmd_g
    else if is_same line (codes "fatinit")
    then cmd_fatinit
    else if is_same line (codes "waitwrite")
    then cmd_waitwrite
    else if is_same line (codes "shutdown")
    then cmd_shutdown
    else if starts line (codes "un")
    then cmd_un
    else if is_same line (codes "color")
    then cmd_color
    else cmd_other

-- The handler finds the command of the line that the buffer reads as.
pub command_of-Reads :
    (m : Mem) (p : ℕ) (line : List ℕ) → Reads m p line → command_of m p ≡ command_named line
unfolding command_of
command_of-Reads m p line r =
    rw
      (
        command_of,
        equals_lem m p line (codes "ls") r (ground arith),
        equals_lem m p line (codes "le") r (ground arith),
        begins_lem m p line (codes "echo ") r (ground arith),
        equals_lem m p line (codes "m") r (ground arith),
        equals_lem m p line (codes "ppm") r (ground arith),
        equals_lem m p line (codes "help") r (ground arith),
        equals_lem m p line (codes "clear") r (ground arith),
        equals_lem m p line (codes "exit") r (ground arith),
        equals_lem m p line (codes "panic") r (ground arith),
        equals_lem m p line (codes "reboot") r (ground arith),
        equals_lem m p line (codes "g") r (ground arith),
        equals_lem m p line (codes "fatinit") r (ground arith),
        equals_lem m p line (codes "waitwrite") r (ground arith),
        equals_lem m p line (codes "shutdown") r (ground arith),
        begins_lem m p line (codes "un") r (ground arith),
        equals_lem m p line (codes "color") r (ground arith),
      )
      refl
