-- ===== src/Boot/Setup.antt =====
-- setup of kernel/arch/i386/tty.c, which asks about the display.
use potato_os.Base.{ℕ, List, [], ◌∷◌, codes, Option, some, ◌==◌, ◌||◌, if◌then◌else◌}
use potato_os.Vga.{color_number, black}
use potato_os.Terminal.{terminal_initialize, terminal_putchar}
use potato_os.Ata.{Ports}
use potato_os.Shell.{on_terminal, write, new_line}
use potato_os.Shell.Commands.{m_command}
use potato_os.Boot.{at_column, clear_screen, Boot, Progress, goes, in_turn, does, with_key, tasks}

module _ (ports : Ports) where
  -- `if (data2 == 'y' || data2 == '\n') paniccolor = VGA_COLOR_BLACK;`
  unfoldable pub choose_color : (key : ℕ) → Boot ports → Option (Progress ports)
  choose_color key b = some (
      goes
        (if (key == b'y') || (key == 10) then record b { paniccolor = color_number black } else b))

  unfoldable pub fixflash : (fuel : ℕ) → Boot ports → Option (Progress ports)
  unfolding choose_color
  fixflash fuel b =
      in_turn ports
        (does ports (clear_screen b.paniccolor)
          ∷ does ports new_line
          ∷ does ports (at_column 6)
          ∷ does ports (write (codes "Is this flashing? [Y/n]"))
          ∷ with_key ports fuel (λ key. in_turn ports (
              does ports (at_column 6)
              ∷ does ports (on_terminal (terminal_putchar key))
              ∷ choose_color key
              ∷ []))
          ∷ [])
        b

  -- The branches of displayscreen on its second key.
  unfoldable pub answer : (fuel key : ℕ) → Boot ports → Option (Progress ports)
  answer fuel key b =
      if key == b'y'
      then in_turn ports (does ports (on_terminal m_command) ∷ fixflash fuel ∷ fixflash fuel ∷ []) b
      else some (goes b)

  unfoldable pub displayscreen : (fuel : ℕ) → Boot ports → Option (Progress ports)
  displayscreen fuel b =
      in_turn ports
        (does ports (clear_screen b.paniccolor)
          ∷ does ports new_line
          ∷ does ports (at_column 6)
          ∷ does ports (write (codes "Do you have a black and white display? [y/N]"))
          ∷ does ports (at_column 6)
          ∷ with_key ports fuel (λ ignored. with_key ports fuel (λ key.
            in_turn ports (does ports (on_terminal (terminal_putchar key)) ∷ answer fuel key ∷ [])))
          ∷ [])
        b

  unfoldable pub setup : (literal : List ℕ → ℕ) (fuel : ℕ) → Boot ports → Option (Progress ports)
  setup literal fuel = in_turn ports (
      does ports (on_terminal terminal_initialize)
      ∷ tasks ports literal fuel (codes "Running setup...") 0
      ∷ fixflash fuel
      ∷ displayscreen fuel
      ∷ does ports new_line
      ∷ tasks ports literal fuel (codes "Running setup...") 1
      ∷ [])
