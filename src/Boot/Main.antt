-- ===== src/Boot/Main.antt =====
-- kernel_main of kernel/arch/i386/tty.c never returns to the code that called it.
use potato_os.Base.{Option, none, some}
use potato_os.Ata.{Ports}
use potato_os.Boot.{Boot, Progress, goes, ends}

module _ (ports : Ports) where
  -- What does not come back: a call that ends, or never ends.
  abbrev IsFinal : Option (Progress ports) → Type 0
  IsFinal none = Unit {0}
  IsFinal (some (goes b)) = ⊥
  IsFinal (some (ends reason b)) = Unit {0}
