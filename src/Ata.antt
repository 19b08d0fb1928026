-- ===== src/Ata.antt =====
-- The disk driver of kernel/arch/i386/FAT.c: int13h_read_o and int13h_write_o, over the ports of an
-- ATA controller. The delay loops change nothing and are left out, and so are the texts that the
-- polls of a write print.
pub mod Device
pub mod Reading
pub mod Command
pub mod Writing
pub mod Stored
pub mod Partition
pub mod Table
pub mod Faults
mod Sample
mod Tests
use potato_os.Base.{
  ℕ, zero, suc, ◌+◌, ◌*◌, ◌<◌, Bool, true, false, Mem, u8, u16, u32, minus_one, bit_and, bit_or,
  ◌>>>◌, ltb, ◌==◌, ◌/=◌, ◌||◌, if◌then◌else◌, List, [], ◌∷◌, Option, none, some,
}
use potato_os.Drive.{part_length, part_start_lba}
use potato_os.Terminal.{Terminal, terminal_newline, terminal_writestring}
use potato_os.Fat.{load16, store16}

-- `inb`, `inw`, `outb` and `outw` of a controller, by its state.
pub record Ports : Type 1 where
  pub Controller : Type 0
  pub inb : (port : ℕ) → Controller → ℕ × Controller
  pub inw : (port : ℕ) → Controller → ℕ × Controller
  pub outb : (port value : ℕ) → Controller → Controller
  pub outw : (port value : ℕ) → Controller → Controller

-- "[      ] Waiting for device to be ready..."
abbrev pub waiting_text : List ℕ
waiting_text =
    91 ∷ 32 ∷ 32 ∷ 32 ∷ 32 ∷ 32 ∷ 32 ∷ 93 ∷ 32 ∷ 87 ∷ 97 ∷ 105 ∷ 116 ∷ 105 ∷ 110 ∷ 103 ∷ 32 ∷ 102
    ∷ 111 ∷ 114 ∷ 32 ∷ 100 ∷ 101 ∷ 118 ∷ 105 ∷ 99 ∷ 101 ∷ 32 ∷ 116 ∷ 111 ∷ 32 ∷ 98 ∷ 101 ∷ 32 ∷ 114
    ∷ 101 ∷ 97 ∷ 100 ∷ 121 ∷ 46 ∷ 46 ∷ 46 ∷ []

-- "[ FAIL ] Attempting to initialize FAT..."
abbrev failed_text : List ℕ
failed_text =
    91 ∷ 32 ∷ 70 ∷ 65 ∷ 73 ∷ 76 ∷ 32 ∷ 93 ∷ 32 ∷ 65 ∷ 116 ∷ 116 ∷ 101 ∷ 109 ∷ 112 ∷ 116 ∷ 105 ∷ 110
    ∷ 103 ∷ 32 ∷ 116 ∷ 111 ∷ 32 ∷ 105 ∷ 110 ∷ 105 ∷ 116 ∷ 105 ∷ 97 ∷ 108 ∷ 105 ∷ 122 ∷ 101 ∷ 32 ∷ 70
    ∷ 65 ∷ 84 ∷ 46 ∷ 46 ∷ 46 ∷ []

-- "."
abbrev pub dot_text : List ℕ
dot_text = 46 ∷ []

abbrev pub read_sectors : ℕ
read_sectors = 0x20

abbrev pub write_sectors : ℕ
write_sectors = 0x30

-- The two tests at the head of both calls.
unfoldable pub is_refused : (sector_offset num_blocks : ℕ) → Bool
is_refused sector_offset num_blocks =
    ltb part_length (u32 (sector_offset + num_blocks)) || ltb 0x7F num_blocks

module _ (ports : Ports) where
  open ports use {Controller, inb, inw, outb, outw}

  -- The seven writes that give the drive a sector number of 28 bits, a count and a command.
  unfoldable pub send_command : (command lba num_blocks : ℕ) → Controller → Controller
  send_command command lba num_blocks c = outb 0x1F7 command (
      outb 0x1F6 (u8 (bit_or 0xE0 (bit_and (lba >>> 24) 0x0F))) (
        outb 0x1F5 (u8 (lba >>> 16)) (
          outb 0x1F4 (u8 (lba >>> 8))
            (outb 0x1F3 (u8 lba) (outb 0x1F2 num_blocks (outb 0x1F1 0 c))))))

  -- The wait for a block, with `left` polls before the timeout; true if data is there.
  unfoldable pub wait_data : (left : ℕ) → Terminal → Controller → Bool × Terminal × Controller
  wait_data zero t c = (false, terminal_writestring failed_text (terminal_newline t), c)
  wait_data (suc left) t c =
      let (status, c') = inb 0x1F7 c in
      let next = wait_data left (terminal_writestring dot_text t) c' in
      if bit_and status 0x08 /= 0 then (true, t, c') else next

  -- `left` words from the data port to `buffer[idx]` and on, where `buffer` stands at `base`.
  unfoldable pub read_words : (left base idx : ℕ) → Mem → Controller → Mem × Controller
  unfolding store16
  read_words zero base idx m c = (m, c)
  read_words (suc left) base idx m c =
      let (v, c') = inw 0x1F0 c in read_words left base (suc idx) (store16 m (base + 2 * idx) v) c'

  unfoldable pub read_blocks :
      (left base : ℕ) → Mem → Terminal → Controller → ℕ × Mem × Terminal × Controller
  read_blocks zero base m t c = (0, m, t, c)
  read_blocks (suc left) base m t c =
      let (ready, t', c') =
        wait_data 100 (terminal_writestring waiting_text (terminal_newline t)) c in
      let (m', c'') = read_words 256 base 0 m c' in
      let next = read_blocks left (base + 512) m' t' c'' in
      if ready then next else (minus_one, m, t', c')

  unfoldable pub int13h_read_o :
      (sector_offset num_blocks read_offset : ℕ)
      → Mem
      → Terminal
      → Controller
      → ℕ × Mem × Terminal × Controller
  unfolding is_refused send_command read_blocks
  int13h_read_o sector_offset num_blocks read_offset m t c =
      if is_refused sector_offset num_blocks
      then (minus_one, m, t, c)
      else read_blocks num_blocks read_offset m t
          (send_command read_sectors (u32 (sector_offset + part_start_lba)) num_blocks c)

  -- The wait before a block is written, with `fuel` rounds; each test of the source reads the status
  -- again. `none` when the rounds do not suffice.
  unfoldable pub wait_writable : (fuel : ℕ) → Controller → Option Controller
  wait_writable zero c = none
  wait_writable (suc fuel) c =
      let (error, c1) = inb 0x1F7 c in
      let (ready, c2) = inb 0x1F7 c1 in
      let (busy, c3) = inb 0x1F7 c2 in
      let (request, c4) = inb 0x1F7 c3 in
      let after_error = wait_writable fuel c1 in
      let after_ready = wait_writable fuel c2 in
      let after_busy = wait_writable fuel c3 in
      let after_request = wait_writable fuel c4 in
      if bit_and error 0x01 == 0x01
      then after_error
      else if bit_and ready 0x40 /= 0x40
      then after_ready
      else if bit_and busy 0x80 == 0x80
      then after_busy
      else if bit_and request 0x08 /= 0x08
      then after_request
      else some c4

  -- A read of port 0x323 for its delay.
  unfoldable pub delay : Controller → Controller
  delay c = let (_, c') = inb 0x323 c in c'

  unfoldable pub write_words : (left base idx : ℕ) → Mem → Controller → Controller
  unfolding load16 delay
  write_words zero base idx m c = c
  write_words (suc left) base idx m c =
      write_words left base (suc idx) m
        (delay (delay (delay (outw 0x1F0 (load16 m (base + 2 * idx)) c))))

  unfoldable pub write_blocks : (fuel left base : ℕ) → Mem → Controller → Option Controller
  write_blocks fuel zero base m c = some c
  write_blocks fuel (suc left) base m c = elim (wait_writable fuel c) [
    | none ↦ none
    | some c' ↦ write_blocks fuel left (base + 512) m (write_words 256 base 0 m c')
  ]

  -- The wait for the cache.
  unfoldable pub wait_flushed : (fuel : ℕ) → Controller → Option Controller
  wait_flushed zero c = none
  wait_flushed (suc fuel) c =
      let (status, c') = inb 0x1F7 c in
      let next = wait_flushed fuel c' in if bit_and status 0x80 /= 0 then next else some c'

  unfoldable pub int13h_write_o :
      (fuel sector_offset num_blocks write_offset : ℕ) → Mem → Controller → Option (ℕ × Controller)
  unfolding is_refused send_command write_blocks wait_flushed
  int13h_write_o fuel sector_offset num_blocks write_offset m c =
      let command =
        send_command write_sectors (u32 (sector_offset + part_start_lba)) num_blocks c in
      if is_refused sector_offset num_blocks
      then some (minus_one, c)
      else elim (write_blocks fuel num_blocks write_offset m command) [
        | none ↦ none
        | some c' ↦ elim (wait_flushed fuel (outb 0x1F7 0xE7 c')) [
          | none ↦ none
          | some c'' ↦ some (0, c'')
        ]
      ]
