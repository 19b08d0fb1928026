-- ===== src/Shell/Commands.antt =====
-- The commands of handle_keyboard_input of kernel/arch/i386/tty.c.
use potato_os.Base.{
  ℕ, ◌+◌, ◌*◌, Bool, true, false, List, [], ◌∷◌, codes, Option, none, some, Mem, ◌==◌, ◌/=◌, ◌&&◌,
  if◌then◌else◌,
}
use potato_os.Terminal.{Terminal, out, terminal_initialize}
use potato_os.Strings.{strtok}
use potato_os.Stdio.{string_arg}
use potato_os.Shell.{
  Layout, Shell, panics, reboots, shuts_down, tests_colors, Result, back, stops, text_at, and_then,
  on_terminal, write, write_at, new_line, print_format, print_lines, task, version, subversion,
}

-- `strcmp(p, literal) == 0`
abbrev pub equals : Mem → (p : ℕ) → List ℕ → Bool
equals m p [] = m p == 0
equals m p (c ∷ cs) = (m p == c) && equals m (p + 1) cs

-- `strncmp(p, literal, n) == 0`, on the first `n` bytes of the literal.
abbrev pub begins : Mem → (p : ℕ) → List ℕ → Bool
begins m p [] = true
begins m p (c ∷ cs) = (m p == c) && begins m (p + 1) cs

abbrev fakeroot : List (List ℕ)
fakeroot =
    codes "/usr"
    ∷ codes "/root"
    ∷ codes "/var"
    ∷ codes "/sys"
    ∷ codes "/boot"
    ∷ codes "/dev"
    ∷ codes "/dev/console"
    ∷ codes "/dev/random"
    ∷ codes "/dev/stdout"
    ∷ codes "/dev/stdin"
    ∷ codes "/dev/stderr"
    ∷ []

-- `outb(port, value)` in turn.
abbrev pub outb_all : List (ℕ × ℕ) → Terminal → Terminal
outb_all [] t = t
outb_all ((port, value) ∷ rest) t = outb_all rest (record t { outs = out port value ∷ t.outs })

-- `m`
unfoldable pub m_command : Terminal → Terminal
unfolding terminal_initialize
m_command t = terminal_initialize (
    outb_all
      ((0x3C4, 0x01)
        ∷ (0x3C5, 0x01)
        ∷ (0x3C4, 0x02)
        ∷ (0x3C5, 0x99)
        ∷ (0x3C4, 0x03)
        ∷ (0x3C5, 0x00)
        ∷ (0x3C4, 0x04)
        ∷ (0x3C5, 0x80)
        ∷ [])
      (terminal_initialize t))

-- The directories, each with `printf("%s ", ...)`.
unfoldable print_roots : List (List ℕ) → Shell → Option Result
unfolding print_format
print_roots [] s = some (back s)
print_roots (name ∷ names) s =
    and_then (print_format (codes "%s ") (string_arg name ∷ []) s) (λ s'. print_roots names s')

unfoldable ls_command : Shell → Option Result
unfolding print_roots new_line
ls_command s =
    if s.fsinit
    then print_roots fakeroot (new_line s)
    else some (stops (panics (codes "FS NOT INIT!")) (new_line s))

-- The events, each with `printf("%s | ", ...)`.
unfoldable print_events : (fuel : ℕ) → List ℕ → Shell → Option Result
unfolding text_at print_format
print_events fuel [] s = some (back s)
print_events fuel (event ∷ events) s = elim (text_at fuel event s.memory) [
  | none ↦ none
  | some cs ↦
      and_then (print_format (codes "%s | ") (string_arg cs ∷ []) s)
        (λ s'. print_events fuel events s')
]

unfoldable le_command : (fuel : ℕ) → Shell → Option Result
unfolding print_events print_format
le_command fuel s =
    and_then (print_format (codes "%n") [] s) (λ s'. print_events fuel s'.eventlog s')

-- `strtok(str, " ")`, which may cut the buffer, and what is done with the token.
abbrev with_token :
    (fuel str : ℕ) → Layout → Shell → ((token : ℕ) → Shell → Option Result) → Option Result
with_token fuel str layout s next = elim (strtok fuel s.last str layout.space s.memory) [
  | none ↦ none
  | some r ↦ next r.token (record s { memory = r.memory; last = r.last })
]

unfoldable echo_command : (fuel : ℕ) → Layout → Shell → Option Result
unfolding strtok write_at new_line
echo_command fuel layout s =
    with_token fuel (layout.input_buffer + 5) layout s
      (λ content s'. write_at fuel content (new_line s'))

-- `new_buffer` is a `char **`, so `new_buffer + 2` is eight bytes on.
unfoldable un_command : (fuel : ℕ) → Layout → Shell → Option Result
unfolding strtok write_at write new_line
un_command fuel layout s = with_token fuel (layout.input_buffer + 2 * 4) layout s (λ content s'.
    write_at fuel content
      (write (codes "Username is now: ") (new_line (record s' { username = content }))))

unfoldable ppm_command : Shell → Shell
unfolding write new_line
ppm_command s = write (codes "This is a placeholder.") (
    new_line (
      write (codes "Usage ppm [install][remove][update] [package name]")
        (new_line (write (codes "PotatoOS Package Manager") (new_line s)))))

abbrev help_lines : List (List ℕ)
help_lines =
    codes "fatinit         - Initialize the FAT."
    ∷ codes "shutdown        - Shut down the computer."
    ∷ codes "color           - Show the color test screen."
    ∷ codes "ls              - List all the contents of the currently open directory."
    ∷ codes "echo            - Output text onto the terminal."
    ∷ codes "cat             - View the contents of a file."
    ∷ codes
        "waitwrite       - Wait a duration of time before outputting a character onto the terminal, an example of this is in the kernel panic screen."
    ∷ codes "ld              - Link object files and libraries."
    ∷ []

unfoldable help_command : Shell → Option Result
unfolding print_format print_lines new_line
help_command s = and_then (print_format (codes "PotatoOS ") [] (new_line s)) (λ s₁.
    and_then (print_format version [] s₁) (λ s₂. and_then (print_format (codes ".") [] s₂) (λ s₃.
      and_then (print_format subversion [] s₃)
        (λ s₄. print_lines help_lines (new_line (new_line s₄))))))

-- `mainfat`, which returns 1, and the branch on its result.
unfoldable fatinit_command : (fuel : ℕ) → Layout → Shell → Option Result
unfolding task write new_line
fatinit_command fuel layout s =
    and_then
      (task fuel layout.no_fat 2
        (write (codes "[      ] Attempting to initialize FAT...") (new_line s)))
      (λ s'. let mainfat : ℕ = 1 in some (back (record s' { fsinit = mainfat == 0 })))

abbrev pub with_text : Option (List ℕ) → (List ℕ → Option Result) → Option Result
with_text none next = none
with_text (some cs) next = next cs

-- The line is printed as a format.
unfoldable pub unknown_command : (fuel : ℕ) → Layout → Shell → Option Result
unfolding text_at print_format new_line
unknown_command fuel layout s = and_then (print_format (codes "'") [] (new_line s)) (λ s₁.
    with_text (text_at fuel layout.input_buffer s₁.memory) (λ line.
      and_then (print_format line [] s₁) (λ s₂.
        and_then (print_format (codes "'") [] s₂)
          (λ s₃. print_format (codes " unknown command or file name.") [] s₃))))

-- The branches of the chain of comparisons.
pub data Command : Type 0 where
  cmd_ls : Command
  cmd_le : Command
  cmd_echo : Command
  cmd_m : Command
  cmd_ppm : Command
  cmd_help : Command
  cmd_clear : Command
  cmd_exit : Command
  cmd_panic : Command
  cmd_reboot : Command
  cmd_g : Command
  cmd_fatinit : Command
  cmd_waitwrite : Command
  cmd_shutdown : Command
  cmd_un : Command
  cmd_color : Command
  cmd_other : Command

unfoldable pub command_of : Mem → (line : ℕ) → Command
command_of m line =
    if equals m line (codes "ls")
    then cmd_ls
    else if equals m line (codes "le")
    then cmd_le
    else if begins m line (codes "echo ")
    then cmd_echo
    else if equals m line (codes "m")
    then cmd_m
    else if equals m line (codes "ppm")
    then cmd_ppm
    else if equals m line (codes "help")
    then cmd_help
    else if equals m line (codes "clear")
    then cmd_clear
    else if equals m line (codes "exit")
    then cmd_exit
    else if equals m line (codes "panic")
    then cmd_panic
    else if equals m line (codes "reboot")
    then cmd_reboot
    else if equals m line (codes "g")
    then cmd_g
    else if equals m line (codes "fatinit")
    then cmd_fatinit
    else if equals m line (codes "waitwrite")
    then cmd_waitwrite
    else if equals m line (codes "shutdown")
    then cmd_shutdown
    else if begins m line (codes "un")
    then cmd_un
    else if equals m line (codes "color")
    then cmd_color
    else cmd_other

unfoldable pub execute : (fuel : ℕ) → Layout → Command → Shell → Option Result
unfolding ls_command le_command echo_command m_command ppm_command help_command terminal_initialize
    on_terminal fatinit_command un_command unknown_command
execute fuel layout cmd_ls s = ls_command s
execute fuel layout cmd_le s = le_command fuel s
execute fuel layout cmd_echo s = echo_command fuel layout s
execute fuel layout cmd_m s = some (back (on_terminal m_command s))
execute fuel layout cmd_ppm s = some (back (ppm_command s))
execute fuel layout cmd_help s = help_command s
execute fuel layout cmd_clear s = some (back (on_terminal terminal_initialize s))
execute fuel layout cmd_exit s = some (back (record s { exit_loop = true }))
execute fuel layout cmd_panic s = some (back (record s { fsinit = false }))
execute fuel layout cmd_reboot s = some (stops reboots s)
execute fuel layout cmd_g s =
    some (back (on_terminal (outb_all ((0x3D4, 0x0A) ∷ (0x3D5, 0x02) ∷ [])) s))
execute fuel layout cmd_fatinit s = fatinit_command fuel layout s
execute fuel layout cmd_waitwrite s = some (back (record s { waitwrite = true }))
execute fuel layout cmd_shutdown s = some (stops shuts_down s)
execute fuel layout cmd_un s = un_command fuel layout s
execute fuel layout cmd_color s = some (stops tests_colors s)
execute fuel layout cmd_other s =
    if s.input_buffer_index /= 0 then unknown_command fuel layout s else some (back s)

-- The chain of comparisons, from the first command to the last, and the branch that is taken.
unfoldable pub run_command : (fuel : ℕ) → Layout → Shell → Option Result
unfolding command_of execute
run_command fuel layout s = execute fuel layout (command_of s.memory layout.input_buffer) s
