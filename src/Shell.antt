-- ===== src/Shell.antt =====
-- The keyboard and the recovery shell of kernel/arch/i386/tty.c: its static variables, the event log,
-- and what the handler of a key prints. Texts that the code names by a pointer stand in one byte
-- memory, with the line buffer; a loop over them takes fuel.
pub mod Keyboard
pub mod Commands
pub mod Handler
pub mod Line
pub mod Editing
pub mod Keys
pub mod Prompt
pub mod Dispatch
pub mod Unknown
pub mod ColorKey
pub mod Exit
mod Tests
use potato_os.Base.{
  ℕ, zero, suc, ◌+◌, ◌*◌, ◌-◌, ◌<◌, Bool, true, false, List, [], ◌∷◌, ◌++◌, length, codes, Option,
  none, some, Mem, upd, u8, u32, minus_one, ltb, ◌==◌, ◌/=◌, ◌||◌, ◌&&◌, if◌then◌else◌,
}
use potato_os.Vga.{color_number, black, white, light_green, light_red, vga_entry_color}
use potato_os.Terminal.{Terminal, out, terminal_writestring, terminal_newline}
use potato_os.Stdio.{Arg, string_arg, returned, undefined, printf}

-- Where the line buffer, the literal " ", the message of `mainfat` and that of `shell` stand.
pub record Layout : Type 0 where
  pub input_buffer : ℕ
  pub space : ℕ
  pub no_fat : ℕ
  pub entering : ℕ

-- `last` is the static of `strtok`; `eventlog` holds the first `size` pointers, in order.
pub record Shell : Type 0 where
  pub terminal : Terminal
  pub memory : Mem
  pub last : ℕ
  pub input_buffer_index : ℕ
  pub username : ℕ
  pub exit_loop : Bool
  pub fsinit : Bool
  pub waitwrite : Bool
  pub eventlog : List ℕ

-- `sizeof(input_buffer)`
abbrev pub buffer_size : ℕ
buffer_size = 256

abbrev max_events : ℕ
max_events = 10000

abbrev pub hostname : List ℕ
hostname = codes "live"

abbrev pub version : List ℕ
version = codes "0"

abbrev pub subversion : List ℕ
subversion = codes "2.5.2"

-- Calls that do not return: `panic` and `reboot`, `shutdown`, which ends in `panic`, the loop of
-- the colour test, and a `printf` whose argument is missing.
pub data Stop : Type 0 where
  panics : (msg : List ℕ) → Stop
  reboots : Stop
  shuts_down : Stop
  tests_colors : Stop
  is_undefined : Stop

pub data Result : Type 0 where
  back : Shell → Result
  stops : Stop → Shell → Result

-- The bytes before the NUL at `p`, as `terminal_writestring(p)` and a `%s` print them.
unfoldable pub text_at : (fuel p : ℕ) → Mem → Option (List ℕ)
text_at zero p m = none
text_at (suc fuel) p m =
    let rest = text_at fuel (p + 1) m in
    if m p == 0 then some [] else elim rest [ none ↦ none | some cs ↦ some (m p ∷ cs) ]

abbrev pub and_then : Option Result → (Shell → Option Result) → Option Result
and_then none next = none
and_then (some (back s)) next = next s
and_then (some (stops reason s)) next = some (stops reason s)

unfoldable pub on_terminal : (Terminal → Terminal) → Shell → Shell
on_terminal f s = record s { terminal = f s.terminal }

-- `terminal_writestring` on a literal, and on a pointer.
unfoldable pub write : List ℕ → Shell → Shell
unfolding on_terminal
write cs s = on_terminal (terminal_writestring cs) s

unfoldable pub write_at : (fuel p : ℕ) → Shell → Option Result
unfolding text_at write
write_at fuel p s = elim (text_at fuel p s.memory) [
  | none ↦ none
  | some cs ↦ some (back (write cs s))
]

unfoldable pub new_line : Shell → Shell
unfolding on_terminal
new_line s = on_terminal terminal_newline s

unfoldable pub print_format : (format : List ℕ) (parameters : List Arg) → Shell → Option Result
unfolding printf
print_format format parameters s = elim (printf format parameters s.terminal) [
  | none ↦ none
  | some undefined ↦ some (stops is_undefined s)
  | some (returned _ t) ↦ some (back (record s { terminal = t }))
]

-- `printf` of each text in turn, each on a line of its own from the second on.
unfoldable pub print_lines : (lines : List (List ℕ)) → Shell → Option Result
unfolding print_format new_line
print_lines [] s = some (back s)
print_lines (l ∷ []) s = print_format l [] s
print_lines (l ∷ l' ∷ ls) s =
    and_then (print_format l [] s) (λ s'. print_lines (l' ∷ ls) (new_line s'))

-- `addevent`
unfoldable addevent : (new_event : ℕ) → Shell → Shell
addevent new_event s =
    if ltb (length s.eventlog) max_events
    then record s { eventlog = s.eventlog ++ (new_event ∷ []) }
    else s

abbrev pub set_color : (fg bg : ℕ) → Shell → Shell
set_color fg bg s = record s { terminal = record s.terminal { color = vga_entry_color fg bg } }

-- `[  OK  ] ` or `[ FAIL ] `, the word in its colour.
unfoldable write_state : (before word after : List ℕ) (color : ℕ) → Shell → Shell
unfolding write
write_state before word after color s = write after (
    set_color (color_number white) (color_number black)
      (write word (set_color color (color_number black) (write before s))))

-- `task`: the state is logged as if it were a text.
unfoldable pub task : (fuel name state : ℕ) → Shell → Option Result
unfolding addevent new_line write write_at write_state
task fuel name state s =
    let logged = addevent name (addevent state (new_line s)) in
    if state == 0
    then write_at fuel name (write (codes "[      ] ") logged)
    else if state == 1
    then write_at fuel name
        (write_state (codes "[  ") (codes "OK") (codes "  ] ") (color_number light_green) logged)
    else if state == 2
    then write_at fuel name
        (write_state (codes "[ ") (codes "FAIL") (codes " ] ") (color_number light_red) logged)
    else some (back logged)
