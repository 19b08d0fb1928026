-- ===== src/Ata/Faults.antt =====
-- int13h_read_o and int13h_write_o of kernel/arch/i386/FAT.c on a disk that does not answer.
use potato_os.Base.{
  ℕ, zero, suc, ◌+◌, ◌≤◌, ◌<◌, ◌≡◌, refl, false, Mem, u32, minus_one, bit_and, none, arith,
}
use potato_os.Terminal.{Terminal, terminal_newline, terminal_writestring}
use potato_os.Drive.{part_length, part_start_lba}
use potato_os.Ata.{
  Ports, read_sectors, write_sectors, waiting_text, dot_text, send_command, wait_data, read_blocks,
  int13h_read_o, wait_writable, write_blocks, int13h_write_o,
}
use potato_os.Ata.Command.{in_range}

module _ (ports : Ports) where
  open ports use {Controller, inb}

  wait_data-quiet :
      ((c : Controller) → bit_and (inb 0x1F7 c).0 0x08 ≡ 0)
      → (left : ℕ) (t : Terminal) (c : Controller)
      → (t' : Terminal) × (c' : Controller) × (wait_data ports left t c ≡ (false, t', c'))
  unfolding wait_data
  wait_data-quiet quiet zero t c = (_, c, refl)
  wait_data-quiet quiet (suc left) t c =
      let (t', c', e) =
        wait_data-quiet quiet left (terminal_writestring dot_text t) (inb 0x1F7 c).1 in
      (t', c', rw (quiet c) e)

  timed_out :
      (left base : ℕ) (m : Mem) (t t' : Terminal) (c c' : Controller)
      → wait_data ports 100 (terminal_writestring waiting_text (terminal_newline t)) c
        ≡ (false, t', c')
      → read_blocks ports (suc left) base m t c ≡ (minus_one, m, t', c')
  unfolding read_blocks
  timed_out left base m t t' c c' e = rw e refl

  -- On a controller whose status never says that data is there, a read of 1 to 127 sectors inside the
  -- partition returns -1 and leaves the transfer area as it was.
  pub int13h_read_o_timeout :
      ((c : Controller) → bit_and (inb 0x1F7 c).0 0x08 ≡ 0)
      → (sector_offset num_blocks read_offset : ℕ) (m : Mem) (t : Terminal) (c : Controller)
      → sector_offset + num_blocks ≤ part_length
      → 0 < num_blocks
      → num_blocks ≤ 127
      → (t' : Terminal) × (c' : Controller) × (int13h_read_o ports sector_offset num_blocks
            read_offset m t c
          ≡ (minus_one, m, t', c'))
  unfolding int13h_read_o
  int13h_read_o_timeout quiet sector_offset zero read_offset m t c inside some few =
      absurd (omega arith)
  int13h_read_o_timeout quiet sector_offset (suc left) read_offset m t c inside some few =
      let sent =
        send_command ports read_sectors (u32 (sector_offset + part_start_lba)) (suc left) c in
      let (t', c', e) =
        wait_data-quiet quiet 100 (terminal_writestring waiting_text (terminal_newline t)) sent in
      (
        t',
        c',
        rw (in_range sector_offset (suc left) inside few)
            (timed_out left read_offset m t t' sent c' e),
      )

  wait_writable-failing :
      ((c : Controller) → bit_and (inb 0x1F7 c).0 0x01 ≡ 0x01)
      → (fuel : ℕ) (c : Controller) → wait_writable ports fuel c ≡ none
  unfolding wait_writable
  wait_writable-failing failing zero c = refl
  wait_writable-failing failing (suc fuel) c =
      rw (failing c) (wait_writable-failing failing fuel (inb 0x1F7 c).1)

  -- On a controller whose status keeps its error bit set, a write of 1 to 127 sectors inside the
  -- partition never returns, however many polls it may take: unlike the read it has no timeout.
  pub int13h_write_o_stuck :
      ((c : Controller) → bit_and (inb 0x1F7 c).0 0x01 ≡ 0x01)
      → (fuel sector_offset num_blocks write_offset : ℕ) (m : Mem) (c : Controller)
      → sector_offset + num_blocks ≤ part_length
      → 0 < num_blocks
      → num_blocks ≤ 127
      → int13h_write_o ports fuel sector_offset num_blocks write_offset m c ≡ none
  unfolding int13h_write_o write_blocks
  int13h_write_o_stuck failing fuel sector_offset zero write_offset m c inside some few =
      absurd (omega arith)
  int13h_write_o_stuck failing fuel sector_offset (suc left) write_offset m c inside some few =
      rw
        (
          in_range sector_offset (suc left) inside few,
          wait_writable-failing failing fuel (
              send_command ports write_sectors (u32 (sector_offset + part_start_lba)) (suc left) c),
        )
        refl
