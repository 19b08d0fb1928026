-- ===== src/Ata/Command.antt =====
-- int13h_read_o of kernel/arch/i386/FAT.c as a whole, on a disk that follows the protocol.
use potato_os.Base.{
  ℕ, zero, suc, ◌+◌, ◌*◌, ◌/◌, ◌%◌, ◌^◌, ◌≤◌, ◌<◌, ◌≡◌, false, Mem, SameOutside, u8, u32, bit_and,
  bit_or, ◌>>>◌, arith,
}
use mathlib.Core.Path.{subst, ap}
use potato_os.Terminal.{Terminal}
use potato_os.Drive.{part_length, part_start_lba}
use potato_os.Base.Bits.{bit_or_fields, bit_and_mask}
use potato_os.Ata.{Ports, read_sectors, write_sectors, is_refused, send_command, int13h_read_o}
use potato_os.Ata.Device.{Disk, commanded}
use potato_os.Ata.Reading.{read_blocks-Waiting}

-- The drive register takes the four high bits of the sector number, under the LBA flag.
drive_register :
    (lba : ℕ) → lba < 2 ^ 28 → u8 (bit_or 0xE0 (bit_and (lba >>> 24) 0x0F)) ≡ 0xE0 + lba / 16777216
drive_register lba h =
    rw (bit_and_mask 4 (lba / 16777216), bit_or_fields 4 14 ((lba / 16777216) % 16) (omega arith))
      (omega arith)

register_bytes :
    (lba : ℕ)
    → u8 lba + 256 * u8 (lba >>> 8) + 65536 * u8 (lba >>> 16) + 16777216 * (lba / 16777216) ≡ lba
register_bytes lba = omega arith

pub in_range :
    (sector_offset num_blocks : ℕ)
    → sector_offset + num_blocks ≤ part_length
    → num_blocks ≤ 127
    → is_refused sector_offset num_blocks ≡ false
unfolding is_refused
in_range sector_offset num_blocks h k = ground arith

module _ (ports : Ports) where
  open ports use {Controller, outb}

  send_command-commanded :
      (command lba num_blocks : ℕ) (c : Controller)
      → lba < 2 ^ 28
      → send_command ports command lba num_blocks c
        ≡ commanded ports command
            (u8 lba)
            (u8 (lba >>> 8))
            (u8 (lba >>> 16))
            (lba / 16777216)
            num_blocks
            c
  unfolding send_command
  send_command-commanded command lba num_blocks c small = ap register (drive_register lba small)
    where
      register : ℕ → Controller
      register v = outb 0x1F7 command (
          outb 0x1F6 v (
            outb 0x1F5 (u8 (lba >>> 16)) (
              outb 0x1F4 (u8 (lba >>> 8))
                (outb 0x1F3 (u8 lba) (outb 0x1F2 num_blocks (outb 0x1F1 0 c))))))

module _ (ports : Ports) (disk : Disk ports) where
  open ports use {Controller}
  open disk use {sectors, IsIdle, Waiting, Pending, byte, patience, accepts_read, accepts_write}

  send_command-Waiting :
      (lba num_blocks : ℕ) (c : Controller)
      → IsIdle c
      → lba < 2 ^ 28
      → 0 < num_blocks
      → num_blocks < 256
      → (wait : ℕ) × (wait < 100)
        × Waiting (sectors c) wait num_blocks lba (send_command ports read_sectors lba num_blocks c)
  send_command-Waiting lba num_blocks c idle small some few =
      let (wait, within, w) =
        accepts_read (u8 lba) (u8 (lba >>> 8)) (u8 (lba >>> 16)) (lba / 16777216) num_blocks c idle
          (omega arith) (omega arith) (omega arith) (omega arith) some few in
      (
        wait,
        within,
        rw (send_command-commanded ports read_sectors lba num_blocks c small) (
            subst
              (λ l. Waiting (sectors c) wait num_blocks l (
                commanded ports read_sectors (u8 lba) (u8 (lba >>> 8)) (u8 (lba >>> 16))
                  (lba / 16777216) num_blocks c))
              (register_bytes lba) w),
      )

  pub send_command-Pending :
      (lba num_blocks : ℕ) (c : Controller)
      → IsIdle c
      → lba < 2 ^ 28
      → 0 < num_blocks
      → num_blocks < 256
      → (wait : ℕ) × (wait < patience)
        × Pending
            (sectors c)
            wait
            num_blocks
            lba
            (send_command ports write_sectors lba num_blocks c)
  send_command-Pending lba num_blocks c idle small some few =
      let (wait, within, w) =
        accepts_write (u8 lba) (u8 (lba >>> 8)) (u8 (lba >>> 16)) (lba / 16777216) num_blocks c idle
          (omega arith) (omega arith) (omega arith) (omega arith) some few in
      (
        wait,
        within,
        rw (send_command-commanded ports write_sectors lba num_blocks c small) (
            subst
              (λ l. Pending (sectors c) wait num_blocks l (
                commanded ports write_sectors (u8 lba) (u8 (lba >>> 8)) (u8 (lba >>> 16))
                  (lba / 16777216) num_blocks c))
              (register_bytes lba) w),
      )

  -- On an idle disk that follows the protocol, a read of 1 to 127 sectors inside the partition
  -- returns 0, leaves the disk idle and its sectors as they were, and has byte `i` of block `j` in its place in the transfer area,
  -- which holds no other change; sectors are counted from the start of the partition.
  pub int13h_read_o_sectors :
      (sector_offset num_blocks read_offset : ℕ) (m : Mem) (t : Terminal) (c : Controller)
      → IsIdle c
      → sector_offset + num_blocks ≤ part_length
      → 0 < num_blocks
      → num_blocks ≤ 127
      → (m' : Mem) × (t' : Terminal) × (c' : Controller) × (int13h_read_o ports sector_offset
            num_blocks read_offset m t c
          ≡ (0, m', t', c'))
        × IsIdle c'
        × (sectors c' ≡ sectors c)
        × ((j i : ℕ)
            → j < num_blocks
            → i < 512
            → m' (read_offset + 512 * j + i) ≡ sectors c (part_start_lba + sector_offset + j) i)
        × SameOutside read_offset (512 * num_blocks) m m'
  unfolding int13h_read_o
  int13h_read_o_sectors sector_offset zero read_offset m t c idle inside some few =
      absurd (omega arith)
  int13h_read_o_sectors sector_offset (suc left) read_offset m t c idle inside some few =
      let lba = part_start_lba + sector_offset in
      let (wait, within, w) =
        send_command-Waiting lba (suc left) c idle (omega arith) some (omega arith) in
      let (m', t', c', e, idle', same, filled, outside) =
        read_blocks-Waiting ports disk (sectors c) (λ n i. byte c n i idle) left read_offset lba
          wait m t (send_command ports read_sectors lba (suc left) c) within w in
      let at : u32 (sector_offset + part_start_lba) ≡ lba = omega arith in
      (
        m',
        t',
        c',
        rw (in_range sector_offset (suc left) inside few, at) e,
        idle',
        same,
        filled,
        outside,
      )
