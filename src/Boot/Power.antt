-- ===== src/Boot/Power.antt =====
-- nyan and shutdown of kernel/arch/i386/tty.c.
use potato_os.Base.{ℕ, List, [], ◌∷◌, codes, Option, some}
use potato_os.Ata.{Ports}
use potato_os.Shell.{new_line, print_format}
use potato_os.Boot.{at_row, Boot, Progress, goes, in_turn, does, calls, go_on, panic, tasks}

-- The picture of `nyan`.
abbrev nyan_lines : List (List ℕ)
nyan_lines =
    codes "           @@@@@@@@@@@@@@@@@@@@@@@@           "
    ∷ codes "         @::::------------------::::@@        "
    ∷ codes "         @:::--------+---+-------:::@@        "
    ∷ codes "         @:----------------@@-++---:@@  @@@   "
    ∷ codes "         @:--------------@@==@@----:@@ @===@  "
    ∷ codes "         @:---------+----@@=====@@@@@======@  "
    ∷ codes "@@==@@   @:-----+--------@@================@  "
    ∷ codes "@@==@@@@@@:----------+--@====  @======= @@==@@"
    ∷ codes "   @@@==%@:-------------@====@@@====@@=@@@==@@"
    ∷ codes "      @@@@:-------++----@=---=============--@@"
    ∷ codes "        @@::::-----------@=====@@@@@@@@@===@  "
    ∷ codes "        @@@:::::::::::::::@@==============@   "
    ∷ codes "       @+==@@ @===@         @===@  @===@      "
    ∷ codes "       @@@@    @@@@          @@@@   @@@@      "
    ∷ []

module _ (ports : Ports) (literal : List ℕ → ℕ) where
  open ports use {inb, outb, outw}

  -- `printf` of each line, and a new line behind it.
  unfoldable picture : List (List ℕ) → Boot ports → Option (Progress ports)
  picture [] b = some (goes b)
  picture (l ∷ ls) b =
      go_on ports (calls ports (print_format l []) b)
        (λ b'. go_on ports (does ports new_line b') (picture ls))

  unfoldable nyan : Boot ports → Option (Progress ports)
  unfolding picture
  nyan = in_turn ports (does ports (at_row 1) ∷ does ports new_line ∷ picture nyan_lines ∷ [])

  -- `outw(port, value)`
  abbrev writes_port : (port value : ℕ) → Boot ports → Option (Progress ports)
  writes_port port value b = some (goes (record b { controller = outw port value b.controller }))

  unfoldable pub shutdown : (fuel high : ℕ) → Boot ports → Option (Progress ports)
  unfolding panic
  shutdown fuel high = in_turn ports (
      tasks ports literal fuel (codes "Attempting to shutdown computer...") 0
      ∷ tasks ports literal fuel (codes "Shutdown computer using old QEMU...") 0
      ∷ writes_port 0xB004 0x2000
      ∷ tasks ports literal fuel (codes "Shutdown computer using new QEMU...") 0
      ∷ writes_port 0x604 0x2000
      ∷ tasks ports literal fuel (codes "Shutdown computer using Virtualbox...") 0
      ∷ writes_port 0x4004 0x3400
      ∷ tasks ports literal fuel (codes "Shutdown computer...") 2
      ∷ tasks ports literal fuel (codes "Sending panic...") 0
      ∷ panic ports literal fuel high
          (codes "Failed to shutdown computer. It is now safe to turn off your computer.")
      ∷ [])
