-- ===== src/Boot/Tests.antt =====
-- The start of the kernel with a keyboard on which `n` is pressed over and over.
use potato_os.Base.{
  true, ℕ, ◌+◌, ◌*◌, ◌==◌, if◌then◌else◌, false, [], codes, some, ◌≡◌, refl, arith,
}
use potato_os.Vga.{vga_entry, vga_entry_color}
use potato_os.Terminal.{video_memory}
use potato_os.Ata.{Ports}
use potato_os.Shell.{Layout, Shell}
use potato_os.Boot.{Boot, panic_screen, goes}
use potato_os.Boot.Setup.{choose_color}
use potato_os.Boot.Panic.{panic_screen_message}

abbrev keyboard : Ports
keyboard = record {
  Controller = ℕ;
  inb = λ port c. (if port == 0x64 then 1 else 0x31, c + 1);
  inw = λ _ c. (0, c);
  outb = λ _ _ c. c;
  outw = λ _ _ c. c;
}

abbrev layout : Layout
layout = record { input_buffer = 0x2000; space = 0x1000; no_fat = 0x1100; entering = 0x1200 }

abbrev at_start : Shell
at_start = record {
  terminal = record {
    row = 0;
    column = 0;
    color = 0;
    buffer = 0;
    initialized = false;
    cells = λ _. 0;
    outs = [];
  };
  memory = λ _. 0;
  last = 0;
  input_buffer_index = 0;
  username = 0x3000;
  exit_loop = false;
  fsinit = false;
  waitwrite = false;
  eventlog = [];
}

abbrev booting : Boot keyboard
booting = record { shell_state = at_start; paniccolor = 8; networkinit = true; controller = 0 }

-- The `s` of "Panic: oops".
panic_screen_message_example :
    (panic_screen 8 (codes "oops") at_start).terminal.cells (video_memory + 2 * (11 * 80 + 6 + 10))
    ≡ vga_entry 0x73 (vga_entry_color 15 8)
panic_screen_message_example =
    panic_screen_message 8 (codes "oops") at_start 10 0x73 (omega arith) refl

-- `y` and Enter take the colour away, other keys keep it.
colors :
    (choose_color keyboard 0x79 booting ≡ some (goes (record booting { paniccolor = 0 })))
    × (choose_color keyboard 0x6E booting ≡ some (goes booting))
unfolding choose_color
colors = (refl, refl)
