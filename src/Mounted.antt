-- ===== src/Mounted.antt =====
-- The FAT32 experiment of kernel/arch/i386/tty.c: blocks over the ports of a disk, clusters, the file
-- allocation table and mounting. A drive is an address in memory, with its fields at the offsets of
-- `MountedDrive`; an array is an address too, and what is read past its end lands behind it.
pub mod Files
pub mod Append
pub mod Mount
mod Tests
use potato_os.Base.{
  ltb, leb, ℕ, zero, suc, ◌+◌, ◌-◌, ◌*◌, ◌/◌, ◌%◌, ◌^◌, Bool, true, false, Option, none, some, Mem,
  upd, codes, u8, u16, u32, bit_and, ◌>>>◌, leb, ◌==◌, ◌/=◌, if◌then◌else◌,
}
use potato_os.Ata.{Ports}
use potato_os.Fat.{load16, load32, store16, store32}
use potato_os.Serial.{and_then}
use potato_os.Terminal.{Terminal, terminal_newline, terminal_writestring}

-- `DISK_PORT`.
abbrev disk_port : ℕ
disk_port = 0

abbrev pub block_size : ℕ
block_size = 512

abbrev fat_entry_size : ℕ
fat_entry_size = 4

abbrev max_mounted_drives : ℕ
max_mounted_drives = 4

-- `MountedDrive`: the flag, the packed boot sector of 90 bytes behind it, then aligned fields.
abbrev boot_sector : ℕ → ℕ
boot_sector drive = drive + 1

abbrev pub sectors_per_cluster : (drive : ℕ) → Mem → ℕ
sectors_per_cluster drive m = m (boot_sector drive + 13)

abbrev pub reserved_sectors : (drive : ℕ) → Mem → ℕ
reserved_sectors drive m = load16 m (boot_sector drive + 14)

abbrev pub num_fats : (drive : ℕ) → Mem → ℕ
num_fats drive m = m (boot_sector drive + 16)

abbrev pub total_sectors_32 : (drive : ℕ) → Mem → ℕ
total_sectors_32 drive m = load32 m (boot_sector drive + 32)

abbrev pub fat_size_32 : (drive : ℕ) → Mem → ℕ
fat_size_32 drive m = load32 m (boot_sector drive + 36)

abbrev pub fat_start : (drive : ℕ) → Mem → ℕ
fat_start drive m = load32 m (drive + 92)

abbrev pub data_start : (drive : ℕ) → Mem → ℕ
data_start drive m = load32 m (drive + 96)

abbrev pub mounted_drive_size : ℕ
mounted_drive_size = 5224

unfoldable pub initialize_fat32 : (drive : ℕ) → Mem → Mem
initialize_fat32 drive m =
    let m' = store32 m (drive + 92) (reserved_sectors drive m) in
    store32 m' (drive + 96)
      (u32 (reserved_sectors drive m' + num_fats drive m' * fat_size_32 drive m'))

-- `data_start + (cluster_number - 2) * sectors_per_cluster`, in uint32_t.
unfoldable pub get_cluster_address : (cluster_number drive : ℕ) → Mem → ℕ
get_cluster_address cluster_number drive m =
    u32 (data_start drive m + (cluster_number + 2 ^ 32 - 2) * sectors_per_cluster drive m)

abbrev is_cluster_free : (cluster_number fat_table : ℕ) → Mem → Bool
is_cluster_free cluster_number fat_table m = load32 m (fat_table + 4 * cluster_number) == 0

-- The words of the array `fat_table`, `BLOCK_SIZE / FAT_ENTRY_SIZE` of them.
abbrev table_words : ℕ
table_words = block_size / fat_entry_size

-- The loop of find_free_cluster, with `left` clusters to look at; 0 is that none is free, and `none`
-- that it reads past the end of the array.
unfoldable pub free_from : (left i fat_table : ℕ) → Mem → Option ℕ
free_from zero i fat_table m = some 0
free_from (suc left) i fat_table m =
    let next = free_from left (i + 1) fat_table m in
    if leb table_words i then none else if is_cluster_free i fat_table m then some i else next

module _ (ports : Ports) where
  open ports use {Controller, inb, inw, outb, outw}

  -- The seven port writes of a command.
  abbrev command_block : (command block_num : ℕ) → Controller → Controller
  command_block command block_num c = outb (disk_port + 7) command (
      outb (disk_port + 5) (bit_and (block_num >>> 16) 0xFF) (
        outb (disk_port + 4) (bit_and (block_num >>> 8) 0xFF) (
          outb (disk_port + 3) (bit_and block_num 0xFF)
            (outb (disk_port + 2) 1 (outb (disk_port + 1) 0 (outb (disk_port + 6) 0xE0 c))))))

  -- `while (!(inb(DISK_PORT + 7) & 0x08));`
  unfoldable pub wait_request : (fuel : ℕ) → Controller → Option Controller
  wait_request zero c = none
  wait_request (suc fuel) c =
      let (status, c') = inb (disk_port + 7) c in
      let next = wait_request fuel c' in if bit_and status 0x08 == 0 then next else some c'

  unfoldable pub words_in : (left i buffer : ℕ) → Mem × Controller → Mem × Controller
  words_in zero i buffer (m, c) = (m, c)
  words_in (suc left) i buffer (m, c) =
      let (v, c') = inw disk_port c in
      words_in left (i + 1) buffer (store16 m (buffer + 2 * i) v, c')

  unfoldable pub words_out : (left i buffer : ℕ) (m : Mem) → Controller → Controller
  words_out zero i buffer m c = c
  words_out (suc left) i buffer m c =
      words_out left (i + 1) buffer m (outw disk_port (load16 m (buffer + 2 * i)) c)

  unfoldable pub read_block :
      (fuel block_num buffer : ℕ) → Mem × Controller → Option (Mem × Controller)
  read_block fuel block_num buffer (m, c) =
      and_then (wait_request fuel (command_block 0x20 block_num c))
        (λ c'. some (words_in (block_size / 2) 0 buffer (m, c')))

  unfoldable pub write_block :
      (fuel block_num buffer : ℕ) (m : Mem) → Controller → Option Controller
  write_block fuel block_num buffer m c =
      and_then (wait_request fuel (command_block 0x30 block_num c))
        (λ c'. some (words_out (block_size / 2) 0 buffer m c'))

  -- The loops of read_cluster and write_cluster, from block `i`.
  unfoldable pub blocks_in :
      (fuel left i address buffer : ℕ) → Mem × Controller → Option (Mem × Controller)
  blocks_in fuel zero i address buffer s = some s
  blocks_in fuel (suc left) i address buffer s =
      and_then (read_block fuel (u32 (address + i)) (buffer + i * block_size) s)
        (blocks_in fuel left (i + 1) address buffer)

  unfoldable pub blocks_out :
      (fuel left i address buffer : ℕ) (m : Mem) → Controller → Option Controller
  blocks_out fuel zero i address buffer m c = some c
  blocks_out fuel (suc left) i address buffer m c =
      and_then (write_block fuel (u32 (address + i)) (buffer + i * block_size) m c)
        (blocks_out fuel left (i + 1) address buffer m)

  unfoldable pub read_cluster :
      (fuel cluster_number buffer drive : ℕ) → Mem × Controller → Option (Mem × Controller)
  read_cluster fuel cluster_number buffer drive (m, c) =
      blocks_in fuel (sectors_per_cluster drive m) 0 (get_cluster_address cluster_number drive m)
        buffer (m, c)

  unfoldable pub write_cluster :
      (fuel cluster_number buffer drive : ℕ) (m : Mem) → Controller → Option Controller
  write_cluster fuel cluster_number buffer drive m c =
      blocks_out fuel (sectors_per_cluster drive m) 0 (get_cluster_address cluster_number drive m)
        buffer m c

  -- Every copy of the table, block after block; the array must not overlap the drive's fields.
  -- In both callers it has the size of one block, and a second block overruns it: `none`.
  unfoldable pub read_fat_table :
      (fuel fat_table drive : ℕ) → Mem × Controller → Option (Mem × Controller)
  read_fat_table fuel fat_table drive (m, c) =
      if ltb 1 (u32 (fat_size_32 drive m * num_fats drive m))
      then none
      else blocks_in fuel (u32 (fat_size_32 drive m * num_fats drive m)) 0 (fat_start drive m)
          fat_table (m, c)

  -- Division by zero never returns.
  unfoldable pub find_free_cluster :
      (fuel fat_table drive : ℕ) → Mem × Controller → Option (ℕ × Mem × Controller)
  find_free_cluster fuel fat_table drive s =
      and_then (read_fat_table fuel fat_table drive s) (λ (m, c).
        if sectors_per_cluster drive m == 0
        then none
        else elim (free_from (total_sectors_32 drive m / sectors_per_cluster drive m - 2) 2
            fat_table m) [ none ↦ none | some found ↦ some (found, m, c) ])

  unfoldable pub update_fat_entry :
      (fuel fat_table cluster_number value drive : ℕ) → Mem × Controller → Option (Mem × Controller)
  update_fat_entry fuel fat_table cluster_number value drive s =
      and_then (read_fat_table fuel fat_table drive s) (λ (m, c).
        let m' = store32 m (fat_table + 4 * cluster_number) value in
        if leb table_words cluster_number
        then none
        else and_then
            (write_block fuel
              (u32 (fat_start drive m' + u32 (cluster_number * fat_entry_size) / block_size))
              fat_table m' c)
            (λ c'. some (m', c')))

  unfoldable pub read_boot_sector : (fuel drive : ℕ) → Mem × Controller → Option (Mem × Controller)
  read_boot_sector fuel drive s = read_block fuel 0 (boot_sector drive) s

  -- The array of drives is at `mounted_drives`; `bool` is a byte.
  unfoldable pub mount_drive :
      (fuel mounted_drives drive_number : ℕ)
      → Mem × Controller
      → Terminal
      → Option (Bool × Terminal × Mem × Controller)
  mount_drive fuel mounted_drives drive_number (m, c) t =
      let drive = mounted_drives + mounted_drive_size * drive_number in
      let mounted = and_then (read_boot_sector fuel drive (m, c)) (λ (m₁, c₁). some (
        true,
        terminal_writestring (codes "[  OK  ] Drive mounted successfully.") (terminal_newline t),
        upd (initialize_fat32 drive m₁) drive 1,
        c₁,
      )) in
      if leb max_mounted_drives drive_number
      then some (false, t, m, c)
      else if m drive /= 0
      then some (false, t, m, c)
      else mounted
