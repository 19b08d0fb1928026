-- ===== src/Boot.antt =====
-- The start of the kernel in kernel/arch/i386/tty.c: setup, the way of kernel_main into
-- the recovery shell, and panic. Delays change nothing and are left out, and so are the calls of
-- setup_paging and setup_framebuffer for what they do beside printing, and read_rtc.
pub mod Setup
pub mod Power
pub mod Start
pub mod Panic
pub mod Main
mod Tests
use potato_os.Base.{
  ℕ, zero, suc, ◌+◌, ◌*◌, ◌-◌, ◌/◌, ◌^◌, Bool, true, false, not, List, [], ◌∷◌, codes, Option, none,
  some, u8, u32, minus_one, bit_and, bit_or, ◌>>>◌, ◌==◌, ◌/=◌, ◌||◌, ◌&&◌, if◌then◌else◌,
}
use potato_os.Vga.{color_number, black, white, light_green, vga_entry_color}
use potato_os.Terminal.{
  Terminal, video_memory, vga_width, vga_height, blank_screen, terminal_initialize,
  terminal_putchar, disable_cursor,
}
use potato_os.Ata.{Ports}
use potato_os.Graphics.{framebuffer_size}
use potato_os.Paging.{page_size}
use potato_os.Shell.{
  Layout, Shell, Stop, panics, reboots, Result, back, stops, on_terminal, write, new_line,
  print_format, set_color, task, version, subversion,
}
use potato_os.Shell.Keyboard.{read_keyboard}
use potato_os.Shell.Commands.{outb_all, m_command}
use potato_os.Shell.Handler.{shell}

abbrev pub osname : List ℕ
osname = codes "PotatoOS"

-- Calls that change the console and the shell's variables, one after the other.
abbrev pub steps : List (Shell → Shell) → Shell → Shell
steps [] s = s
steps (f ∷ fs) s = steps fs (f s)

abbrev pub at_column : ℕ → Shell → Shell
at_column x s = record s { terminal = record s.terminal { column = x } }

abbrev pub at_row : ℕ → Shell → Shell
at_row y s = record s { terminal = record s.terminal { row = y } }

-- The loop over the screen with which panic, fixflash and displayscreen begin, and the lines around it.
unfoldable pub clear_screen : (paniccolor : ℕ) → Shell → Shell
clear_screen paniccolor s =
    let color = vga_entry_color (color_number white) paniccolor in
    record s {
      input_buffer_index = 0;
      waitwrite = true;
      terminal = record s.terminal {
        color = color;
        buffer = video_memory;
        cells = blank_screen color video_memory s.terminal.cells;
        row = 6;
      };
    }

-- The loop that draws the bar.
abbrev pub hashes : ℕ → List ℕ
hashes zero = []
hashes (suc n) = b'#' ∷ hashes n

-- What panic writes and what it shows while it counts down, up to the call of reboot.
unfoldable pub panic_screen : (paniccolor : ℕ) (msg : List ℕ) → Shell → Shell
panic_screen paniccolor msg = steps (
    on_terminal disable_cursor
    ∷ write (codes "PANIC!!!")
    ∷ clear_screen paniccolor
    ∷ new_line
    ∷ at_column 6
    ∷ write (codes "An error occurred and the system has been shutdown.")
    ∷ new_line
    ∷ at_column 6
    ∷ write (codes "Contact me at ospotato3@gmail.com with the error message below.")
    ∷ new_line
    ∷ at_column 6
    ∷ write (codes "Github: https://github.com/winvistalover/PotatoOS/tree/nightly")
    ∷ new_line
    ∷ new_line
    ∷ at_column 6
    ∷ write (codes "Panic: ")
    ∷ write msg
    ∷ new_line
    ∷ at_column 6
    ∷ write (codes "Kernel: ")
    ∷ write osname
    ∷ write (codes " ")
    ∷ write version
    ∷ write (codes ".")
    ∷ write subversion
    ∷ new_line
    ∷ new_line
    ∷ new_line
    ∷ at_column 6
    ∷ write (codes "The system will automatically reboot")
    ∷ new_line
    ∷ at_row (vga_height - 3)
    ∷ at_column 0
    ∷ write (codes "Timeout:")
    ∷ at_column 0
    ∷ at_row (vga_height - 2)
    ∷ set_color (color_number white) (color_number white)
    ∷ write (hashes vga_width)
    ∷ [])

module _ (ports : Ports) where
  open ports use {Controller, inb, outb, outw}

  -- The divisor is shifted by 80, which C leaves open: `high` is what it gives.
  unfoldable pub beep : (high frequency : ℕ) → Controller → Controller
  beep high frequency c =
      let (status, c₁) = inb 0x61 c in
      let divisor = 1193180 / frequency in
      let c₂ = outb 0x40 (bit_and high 0xFF) (
        outb 0x40 (bit_and divisor 0xFF)
          (outb 0x43 0x27 (outb 0x61 (u8 (bit_or status 0x03)) c₁))) in
      let (status', c₃) = inb 0x61 c₂ in outb 0x61 (bit_and status' 0xFC) c₃

  pub record Boot : Type 0 where
    pub shell_state : Shell
    pub paniccolor : ℕ
    pub networkinit : Bool
    pub controller : Controller

  -- What a call ends with: it returns, or one of its calls does not.
  pub data Progress : Type 0 where
    goes : Boot → Progress
    ends : Stop → Boot → Progress

  abbrev pub go_on : Option Progress → (Boot → Option Progress) → Option Progress
  go_on none next = none
  go_on (some (goes b)) next = next b
  go_on (some (ends reason b)) next = some (ends reason b)

  -- Calls one after the other.
  abbrev pub in_turn : List (Boot → Option Progress) → Boot → Option Progress
  in_turn [] b = some (goes b)
  in_turn (f ∷ fs) b = go_on (f b) (in_turn fs)

  abbrev pub does : (Shell → Shell) → Boot → Option Progress
  does f b = some (goes (record b { shell_state = f b.shell_state }))

  abbrev pub calls : (Shell → Option Result) → Boot → Option Progress
  calls f b = elim (f b.shell_state) [
    | none ↦ none
    | some (back s) ↦ some (goes (record b { shell_state = s }))
    | some (stops reason s) ↦ some (ends reason (record b { shell_state = s }))
  ]

  -- `read_keyboard`, and what is done with the key.
  abbrev pub with_key : (fuel : ℕ) → (ℕ → Boot → Option Progress) → Boot → Option Progress
  with_key fuel next b = elim (read_keyboard ports fuel b.controller) [
    | none ↦ none
    | some (key, c) ↦ next key (record b { controller = c })
  ]

  module _ (literal : List ℕ → ℕ) where
    -- `task(name, state)`, where the literal `name` stands at its address.
    abbrev pub tasks : (fuel : ℕ) (name : List ℕ) (state : ℕ) → Boot → Option Progress
    tasks fuel name state = calls (task fuel (literal name) state)

    -- `reboot`: the keyboard controller's reset, and the loop of `hlt` where it fails, which is an end.
    unfoldable pub reboot : (fuel : ℕ) → Boot → Option Progress
    reboot fuel = in_turn (
        tasks fuel (codes "Reboot computer...") 0
        ∷ (λ b. some (goes (record b { controller = outb 0x64 0xFE b.controller })))
        ∷ tasks fuel (codes "Reboot computer...") 2
        ∷ tasks fuel (codes "Sending hlt...") 0
        ∷ (λ b. some (ends reboots b))
        ∷ [])

    -- `panic`, whose last call is `reboot`.
    unfoldable pub panic : (fuel high : ℕ) (msg : List ℕ) → Boot → Option Progress
    unfolding reboot
    panic fuel high msg b = reboot fuel (record b {
      controller = beep high 7040 b.controller;
      shell_state = panic_screen b.paniccolor msg b.shell_state;
    })
