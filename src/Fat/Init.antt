-- ===== src/Fat/Init.antt =====
-- FATInitialize.
use potato_os.Base.{
  ℕ, ◌+◌, ◌*◌, ◌-◌, ◌/◌, some, Mem, u32, minus_one, ltb, ◌==◌, ◌/=◌, ◌&&◌, if◌then◌else◌,
}
use potato_os.Drive.{Drive}
use potato_os.Fat.{BootSector, Volume, Call, pure, stop, get, ◌>>=◌, load16, load32, int13h_read}

-- The packed structure at the start of the boot sector.
unfoldable boot_sector_at : Mem → BootSector
unfolding load16 load32
boot_sector_at m = record {
  bytes_per_sector = load16 m 11;
  sectors_per_cluster = m 13;
  reserved_sector_count = load16 m 14;
  table_count = m 16;
  root_entry_count = load16 m 17;
  total_sectors_16 = load16 m 19;
  table_size_16 = load16 m 22;
  total_sectors_32 = load32 m 32;
  table_size_32 = load32 m 36;
  root_cluster = load32 m 44;
}

-- `total_clusters`, the second division only where the first gives 0.
unfoldable count_clusters : BootSector → ℕ
count_clusters b =
    let by_16 = b.total_sectors_16 / b.sectors_per_cluster in
    if by_16 == 0 then b.total_sectors_32 / b.sectors_per_cluster else by_16

unfoldable fat_type_of : (total_clusters : ℕ) → ℕ
fat_type_of n = if ltb n 4085 then 12 else if ltb n 65525 then 16 else 32

-- `first_data_sector` of FAT12 and FAT16, and of FAT32.
unfoldable data_sector_16 : BootSector → ℕ
data_sector_16 b =
    b.reserved_sector_count
    + b.table_count * b.table_size_16
    + (b.root_entry_count * 32 + b.bytes_per_sector - 1) / b.bytes_per_sector

unfoldable data_sector_32 : BootSector → ℕ
data_sector_32 b = u32 (b.reserved_sector_count + b.table_count * b.table_size_32)

module _ (drive : Drive) where
  open drive use {Device}

  -- The assignments that follow the successful read of sector 0.
  set_volume : BootSector → Volume Device → Volume Device
  unfolding count_clusters fat_type_of data_sector_16 data_sector_32
  set_volume b s =
      let total = count_clusters b in
      record s {
        total_clusters = total;
        fat_type = fat_type_of total;
        first_data_sector = if fat_type_of total == 32 then data_sector_32 b else data_sector_16 b;
        bootsect = b;
        first_fat_sector = b.reserved_sector_count;
      }

  -- A volume with no sectors per cluster, or FAT12/16 with no bytes per sector, divides by zero.
  unfoldable fat_initialize : Call Device ℕ
  unfolding int13h_read boot_sector_at set_volume
  fat_initialize = do
    code ← int13h_read drive 0 1
    if code /= 0 then pure minus_one else (do
      s ← get
      let b = boot_sector_at s.transfer
      if b.sectors_per_cluster == 0
          then stop
          else if (fat_type_of (count_clusters b) /= 32) && (b.bytes_per_sector == 0)
          then stop
          else λ s. some (0, set_volume b s))
