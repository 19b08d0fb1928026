-- ===== src/Shell/Handler.antt =====
-- handle_keyboard_input of kernel/arch/i386/tty.c.
use potato_os.Base.{
  ℕ, zero, suc, ◌+◌, ◌-◌, ◌*◌, codes, length, Option, none, some, upd, u32, sub32, ltb, ◌==◌,
  if◌then◌else◌,
}
use potato_os.Vga.{vga_entry_color}
use potato_os.Terminal.{
  video_memory, blank_screen, terminal_putentryat, terminal_putchar, update_cursor,
}
use potato_os.Strings.{strlen}
use potato_os.Ata.{Ports}
use potato_os.Shell.{
  Layout, Shell, Result, back, stops, and_then, write, write_at, new_line, task, buffer_size,
  hostname,
}
use potato_os.Shell.Keyboard.{read_keyboard}
use potato_os.Shell.Commands.{run_command}

-- `&input_buffer[index]`
abbrev pub slot : Layout → (index : ℕ) → ℕ
slot layout index = u32 (layout.input_buffer + index)

-- `input_buffer[input_buffer_index] = '\0';`
unfoldable pub end_line : Layout → Shell → Shell
end_line layout s = record s { memory = upd s.memory (slot layout s.input_buffer_index) 0 }

-- The last character of the line, off the screen and off the buffer.
unfoldable pub erase : Shell → Shell
unfolding terminal_putentryat update_cursor
erase s =
    let t = record s.terminal { column = sub32 s.terminal.column 1 } in
    record s {
      terminal = update_cursor t.column t.row (terminal_putentryat 0x20 t.color t.column t.row t);
      input_buffer_index = sub32 s.input_buffer_index 1;
    }

-- The branch for '\b'.
unfoldable pub backspace : (fuel : ℕ) → Shell → Option Result
unfolding strlen erase
backspace fuel s = elim (strlen fuel s.username s.memory) [
  | none ↦ none
  | some width ↦
      some (back (if ltb (u32 (width + length hostname + 5)) s.terminal.column then erase s else s))
]

-- The branch for 'U': a screen in a colour computed from the place.
unfoldable pub select_color : Shell → Shell
unfolding write blank_screen
select_color s =
    let color =
      vga_entry_color (u32 (s.terminal.row * s.input_buffer_index)) s.input_buffer_index in
    write (codes "Select a color") (record s {
      terminal = record s.terminal {
        color = color;
        buffer = video_memory;
        cells = blank_screen color video_memory s.terminal.cells;
        row = 6;
        column = 6;
      };
    })

-- A character goes into the buffer, if there is room, and onto the screen.
unfoldable pub store : (data_byte : ℕ) → Layout → Shell → Shell
unfolding terminal_putchar
store c layout s =
    if ltb s.input_buffer_index (buffer_size - 1)
    then record s {
      memory = upd s.memory (slot layout s.input_buffer_index) c;
      input_buffer_index = u32 (s.input_buffer_index + 1);
      terminal = terminal_putchar c s.terminal;
    }
    else s

-- The prompt after a command.
unfoldable pub prompt : (fuel : ℕ) → Shell → Option Result
unfolding write write_at new_line
prompt fuel s = and_then (write_at fuel s.username (new_line s)) (λ s'. some (
    back (record (write (codes " /> ") (write hostname (write (codes "@") s'))) {
      input_buffer_index = 0;
    })))

-- The prompt before the first command.
unfoldable pub first_prompt : (fuel : ℕ) → Shell → Option Result
first_prompt fuel s =
    and_then (write_at fuel s.username (new_line s))
      (λ s'. some (back (write (codes " /> ") (write hostname (write (codes "@") s')))))

-- `handle_keyboard_input` for the character that was read.
unfoldable pub handle_key : (fuel data_byte : ℕ) → Layout → Shell → Option Result
handle_key fuel c layout s =
    if c == 0
    then some (back s)
    else if c == 8
    then backspace fuel (end_line layout s)
    else if c == 85
    then some (back (store 0 layout (select_color (end_line layout s))))
    else if c == 10
    then and_then (run_command fuel layout (end_line layout s)) (λ s'. prompt fuel s')
    else some (back (store c layout (end_line layout s)))

module _ (ports : Ports) where
  open ports use {Controller}

  unfoldable pub handle_keyboard_input :
      (fuel : ℕ) → Layout → Shell → Controller → Option (Result × Controller)
  handle_keyboard_input fuel layout s c = elim (read_keyboard ports fuel c) [
    | none ↦ none
    | some (key, c') ↦ elim (handle_key fuel key layout s) [ none ↦ none | some r ↦ some (r, c') ]
  ]

  -- The loop of `shell`, with the rounds that are left.
  unfoldable pub shell_loop :
      (rounds fuel : ℕ) → Layout → Shell → Controller → Option (Result × Controller)
  shell_loop zero fuel layout s c = none
  shell_loop (suc rounds) fuel layout s c =
      if s.exit_loop then some (back s, c) else elim (handle_keyboard_input fuel layout s c) [
        | none ↦ none
        | some (stops reason s', c') ↦ some (stops reason s', c')
        | some (back s', c') ↦ shell_loop rounds fuel layout s' c'
      ]

  -- `shell`
  unfoldable pub shell :
      (rounds fuel : ℕ) → Layout → Shell → Controller → Option (Result × Controller)
  shell rounds fuel layout s c =
      elim (and_then (task fuel layout.entering 1 s) (λ s'. first_prompt fuel s')) [
        | none ↦ none
        | some (stops reason s') ↦ some (stops reason s', c)
        | some (back s') ↦ shell_loop rounds fuel layout s' c
      ]
