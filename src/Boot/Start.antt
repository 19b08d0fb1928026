-- ===== src/Boot/Start.antt =====
-- kernel_main of kernel/arch/i386/tty.c, and what it calls.
use potato_os.Base.{
  ℕ, zero, suc, ◌/◌, true, false, not, List, [], ◌∷◌, codes, Option, none, some, minus_one, ◌==◌,
  ◌&&◌, if◌then◌else◌,
}
use potato_os.Vga.{color_number, black, white, light_green}
use potato_os.Terminal.{terminal_initialize, terminal_putchar, disable_cursor}
use potato_os.Ata.{Ports}
use potato_os.Graphics.{framebuffer_size}
use potato_os.Paging.{page_size}
use potato_os.Shell.{
  Layout, back, stops, on_terminal, write, new_line, print_format, set_color, version, subversion,
}
use potato_os.Shell.Commands.{outb_all}
use potato_os.Shell.Handler.{shell}
use potato_os.Boot.{
  osname, at_row, Boot, Progress, goes, ends, in_turn, does, calls, go_on, with_key, panic, tasks,
}
use potato_os.Boot.Setup.{setup}

-- `findconfig`
abbrev findconfig : ℕ
findconfig = minus_one

module _ (ports : Ports) (literal : List ℕ → ℕ) where
  unfoldable pub set_vga_mode : (fuel : ℕ) → Boot ports → Option (Progress ports)
  set_vga_mode fuel = in_turn ports (
      tasks ports literal fuel (codes "Stop for 6000000...") 0
      ∷ tasks ports literal fuel (codes "Set VESA mode number...") 0
      ∷ tasks ports literal fuel (codes "Set VESA mode number...") 2
      ∷ tasks ports literal fuel (codes "Switch to 800x600x16 mode...") 0
      ∷ tasks ports literal fuel (codes "Switch to 800x600x16 mode...") 2
      ∷ tasks ports literal fuel (codes "Change cursor") 0
      ∷ does ports (on_terminal (outb_all ((0x3D4, 0x0A) ∷ (0x3D5, 0x02) ∷ [])))
      ∷ tasks ports literal fuel (codes "Change cursor") 1
      ∷ tasks ports literal fuel (codes "Stop for 6000000...") 0
      ∷ tasks ports literal fuel (codes "Stop for 6000000...") 1
      ∷ [])

  -- `printf(".")` in a loop.
  unfoldable dots : (left : ℕ) → Boot ports → Option (Progress ports)
  dots zero b = some (goes b)
  dots (suc left) b = go_on ports (calls ports (print_format (codes ".") []) b) (dots left)

  -- What setup_paging prints.
  unfoldable pub paging_console : (fuel : ℕ) → Boot ports → Option (Progress ports)
  unfolding dots
  paging_console fuel = in_turn ports (
      tasks ports literal fuel (codes "Initialize page directory and page table...") 0
      ∷ dots 1024
      ∷ tasks ports literal fuel (codes "Initialize page directory and page table...") 1
      ∷ tasks ports literal fuel (codes "Map the framebuffer...") 0
      ∷ dots (framebuffer_size / page_size)
      ∷ tasks ports literal fuel (codes "Map the framebuffer...") 1
      ∷ tasks ports literal fuel (codes "Point the page directory to the page table...") 0
      ∷ tasks ports literal fuel (codes "Point the page directory to the page table...") 1
      ∷ tasks ports literal fuel (codes "Load the page directory...") 0
      ∷ tasks ports literal fuel (codes "Load the page directory...") 1
      ∷ [])

  -- `mainfat` prints its message and returns 1.
  abbrev pub mainfat : (fuel : ℕ) → Boot ports → Option (Progress ports)
  mainfat fuel = tasks ports literal fuel (codes "No FAT FS support yet.") 2

  -- `if (mainfat() == 0) { ... }`
  unfoldable pub initialize_fat : (fuel : ℕ) → Boot ports → Option (Progress ports)
  initialize_fat fuel b = go_on ports (mainfat fuel b) (λ b'.
      let result : ℕ = 1 in
      if result == 0
      then go_on ports (does ports (λ s. record s { fsinit = true }) b')
          (tasks ports literal fuel (codes "Attempting to initialize FAT...") 1)
      else some (goes b'))

  -- `shell()`
  unfoldable pub run_shell : (rounds fuel : ℕ) → Layout → Boot ports → Option (Progress ports)
  run_shell rounds fuel layout b =
      elim (shell ports rounds fuel layout b.shell_state b.controller) [
        | none ↦ none
        | some (back s, c) ↦ some (goes (record b { shell_state = s; controller = c }))
        | some (stops reason s, c) ↦
            some (ends reason (record b { shell_state = s; controller = c }))
      ]

  -- The question for the shell.
  unfoldable pub ask_shell : (rounds fuel : ℕ) → Layout → Boot ports → Option (Progress ports)
  unfolding run_shell
  ask_shell rounds fuel layout = in_turn ports (
      does ports new_line
      ∷ does ports
          (write (codes "Press 's' to enter builtin shell or enter to continue boot process: "))
      ∷ with_key ports fuel (λ key b.
        go_on ports (does ports (on_terminal (terminal_putchar key)) b)
          (λ b'. if key == b's' then run_shell rounds fuel layout b' else some (goes b')))
      ∷ [])

  -- `findconfig("/sys/config")`, which gives -1, and what follows.
  unfoldable pub need_config : (fuel high : ℕ) → Boot ports → Option (Progress ports)
  unfolding panic
  need_config fuel high b =
      if findconfig == 0
      then some (goes b)
      else panic ports literal fuel high (codes "Config file invalid or not found.") b

  -- The part of kernel_main behind the branch on `networkinit` and `fsinit`.
  unfoldable pub boot_on : (rounds fuel high : ℕ) → Layout → Boot ports → Option (Progress ports)
  unfolding ask_shell need_config
  boot_on rounds fuel high layout b =
      go_on ports (ask_shell rounds fuel layout b) (need_config fuel high)

  -- The branch of kernel_main without a network and a file system, and the part behind it.
  unfoldable pub enter : (rounds fuel high : ℕ) → Layout → Boot ports → Option (Progress ports)
  unfolding run_shell panic boot_on
  enter rounds fuel high layout b =
      if not b.networkinit && not b.shell_state.fsinit
      then in_turn ports
          (tasks ports literal fuel (codes "Entering recovery shell...") 0
            ∷ run_shell rounds fuel layout
            ∷ panic ports literal fuel high []
            ∷ boot_on rounds fuel high layout
            ∷ [])
          b
      else boot_on rounds fuel high layout b

  -- kernel_main before that branch.
  unfoldable pub start_up : (fuel : ℕ) → Boot ports → Option (Progress ports)
  start_up fuel = in_turn ports (
      does ports (λ s. record s { waitwrite = true })
      ∷ does ports (on_terminal disable_cursor)
      ∷ setup ports literal fuel
      ∷ does ports (on_terminal terminal_initialize)
      ∷ does ports (set_color (color_number light_green) (color_number black))
      ∷ does ports (at_row 1)
      ∷ does ports new_line
      ∷ does ports (write (codes "Welcome to "))
      ∷ does ports (write osname)
      ∷ does ports (write (codes " "))
      ∷ does ports (write version)
      ∷ does ports (write (codes "."))
      ∷ does ports (write subversion)
      ∷ does ports (write (codes "!"))
      ∷ does ports new_line
      ∷ does ports (set_color (color_number white) (color_number black))
      ∷ tasks ports literal fuel (codes "Setup paging...") 0
      ∷ paging_console fuel
      ∷ tasks ports literal fuel (codes "Setup paging...") 1
      ∷ tasks ports literal fuel (codes "Setup framebuffer...") 0
      ∷ tasks ports literal fuel (codes "Setup framebuffer...") 1
      ∷ tasks ports literal fuel (codes "Set video mode...") 0
      ∷ set_vga_mode fuel
      ∷ tasks ports literal fuel (codes "Attempting to initialize FAT...") 0
      ∷ initialize_fat fuel
      ∷ does ports (λ s. record s { waitwrite = false })
      ∷ [])

  unfoldable pub kernel_main :
      (rounds fuel high : ℕ) → Layout → Boot ports → Option (Progress ports)
  unfolding start_up enter
  kernel_main rounds fuel high layout b =
      go_on ports (start_up fuel b) (enter rounds fuel high layout)
