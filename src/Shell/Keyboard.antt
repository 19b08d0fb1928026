-- ===== src/Shell/Keyboard.antt =====
-- read_keyboard of kernel/arch/i386/tty.c, over the ports of the keyboard controller.
use potato_os.Base.{
  ℕ, zero, suc, List, [], ◌∷◌, ◌++◌, codes, Option, none, some, bit_and, ltb, ◌==◌, ◌/=◌,
  if◌then◌else◌,
}
use potato_os.Ata.{Ports}

-- `keyboard_layout`, whose further elements are 0.
abbrev keyboard_layout : List ℕ
keyboard_layout =
    0 ∷ 0 ∷ codes "1234567890-="
    ++ (8 ∷ 9 ∷ codes "qwertyuiop[]")
    ++ (10 ∷ 0 ∷ codes "asdfghjkl;'`")
    ++ (0 ∷ 92 ∷ codes "zxcvbnm,./ ")
    ++ codes "!@ $%^&*()~"
    ++ codes "QWERTYUIOPASDFGHJKL"
    ++ codes "ZXCVBNM<>/|"

abbrev layout_size : ℕ
layout_size = 128

-- `keyboard_layout[i]` for `i` below its size.
abbrev layout_at : (i : ℕ) → List ℕ → ℕ
layout_at i [] = 0
layout_at zero (c ∷ cs) = c
layout_at (suc i) (c ∷ cs) = layout_at i cs

-- The character of a scan code; none for the release of a key.
unfoldable pub key_of : (scan_code : ℕ) → ℕ
key_of scan_code =
    if bit_and scan_code 0x80 /= 0
    then 0
    else if ltb scan_code layout_size
    then layout_at scan_code keyboard_layout
    else 0

module _ (ports : Ports) where
  open ports use {Controller, inb}

  -- `read_keyboard`, with `fuel` polls.
  unfoldable pub read_keyboard : (fuel : ℕ) → Controller → Option (ℕ × Controller)
  unfolding key_of
  read_keyboard zero c = none
  read_keyboard (suc fuel) c =
      let (status, c1) = inb 0x64 c in
      let (scan_code, c2) = inb 0x60 c1 in
      let next = read_keyboard fuel c1 in
      if bit_and status 0x01 == 0 then next else some (key_of scan_code, c2)
