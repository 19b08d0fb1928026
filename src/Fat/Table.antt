-- ===== src/Fat/Table.antt =====
-- FATRead, FATWrite, allocateFreeFAT, clusterRead and clusterWrite.
pub mod Sector
pub mod Entries
pub mod Allocate
pub mod Residue
pub mod Wide
use potato_os.Base.{
  Bool, ℕ, zero, suc, ◌+◌, ◌*◌, ◌-◌, ◌/◌, ◌%◌, ◌^◌, none, some, Mem, upd, u8, u16, u32, sub32,
  minus_one, bit_and, ltb, leb, ◌==◌, ◌/=◌, ◌||◌, ◌&&◌, if◌then◌else◌,
}
use potato_os.Drive.{Drive}
use potato_os.Memory.{memcpy}
use potato_os.Fat.{
  BootSector, Volume, Call, pure, stop, get, put, ◌>>=◌, ◌>>◌, load16, load32, store16, store32,
  int13h_read, int13h_write, int13h_read_o, int13h_write_o,
}

abbrev pub end_cluster_32 : ℕ
end_cluster_32 = 0x0FFF_FFF8

abbrev pub bad_cluster_32 : ℕ
bad_cluster_32 = 0x0FFF_FFF7

abbrev pub free_cluster_32 : ℕ
free_cluster_32 = 0

abbrev pub end_cluster_16 : ℕ
end_cluster_16 = 0xFFF8

abbrev pub bad_cluster_16 : ℕ
bad_cluster_16 = 0xFFF7

abbrev free_cluster_16 : ℕ
free_cluster_16 = 0

abbrev pub end_cluster_12 : ℕ
end_cluster_12 = 0xFF8

abbrev pub bad_cluster_12 : ℕ
bad_cluster_12 = 0xFF7

abbrev free_cluster_12 : ℕ
free_cluster_12 = 0

-- `memcpy(&FAT_table, DISK_READ_LOCATION, bytes_per_sector)` over what the array held.
unfoldable pub fill_table : (bytes_per_sector : ℕ) (source initial : Mem) → Mem
fill_table n source initial i = if ltb i n then source i else initial i

-- `unsigned char FAT_table[32 * 1024] = { '\0' }`.
abbrev pub zeroed : Mem
zeroed i = 0

-- A sector, or an entry that ends at `end`, is not within the 32 KiB of `FAT_table`.
abbrev pub overruns : (bytes_per_sector end : ℕ) → Bool
overruns bytes_per_sector end = ltb (32 * 1024) bytes_per_sector || ltb (32 * 1024) end

module _ (drive : Drive) where
  open drive use {Device}

  -- The table code of FAT32 (`width` 4) and FAT16 (`width` 2): read one sector, and give the
  -- continuation the table and the entry's offset in it. A sector or an entry past the end of the
  -- array of 32 KiB never returns.
  pub with_table :
      (width clusterNum : ℕ) → (Mem → ℕ → (fat_sector : ℕ) → Call Device ℕ) → Call Device ℕ
  unfolding int13h_read fill_table
  with_table width clusterNum k = do
    s ← get
    let cluster_size = s.bootsect.bytes_per_sector * s.bootsect.sectors_per_cluster
    let fat_offset = u32 (clusterNum * width)
    let fat_sector = u32 (s.first_fat_sector + fat_offset / cluster_size)
    let initial : Mem = if width == 4 then zeroed else s.stale
    if (cluster_size == 0)
          || overruns s.bootsect.bytes_per_sector (fat_offset % cluster_size + width)
        then stop
        else (do
          code ← int13h_read drive fat_sector 1
          if code /= 0 then pure minus_one else λ s'.
              k (fill_table s.bootsect.bytes_per_sector s'.transfer initial)
                (fat_offset % cluster_size) fat_sector s')

  -- `FATRead`; -1 is an `int`, and so is the masked entry.
  unfoldable pub fat_read : (clusterNum : ℕ) → Call Device ℕ
  unfolding with_table load32 load16
  fat_read clusterNum = do
    s ← get
    if ltb clusterNum 2 || leb s.total_clusters clusterNum
        then pure minus_one
        else if s.fat_type == 32
        then with_table 4 clusterNum
            (λ table ent_offset _. pure (bit_and (load32 table ent_offset) 0x0FFF_FFFF))
        else if s.fat_type == 16
        then with_table 2 clusterNum (λ table ent_offset _. pure (load16 table ent_offset))
        else pure minus_one

  -- The changed table goes back to the transfer area, and from there to the disk.
  pub put_table : (fat_sector : ℕ) → Mem → Call Device ℕ
  unfolding int13h_write fill_table
  put_table fat_sector table = do
    s ← get
    put (record s { transfer = fill_table s.bootsect.bytes_per_sector table s.transfer })
    code ← int13h_write drive fat_sector 1
    if code /= 0 then pure minus_one else pure 0

  unfoldable pub fat_write : (clusterNum clusterVal : ℕ) → Call Device ℕ
  unfolding with_table put_table store32 store16
  fat_write clusterNum clusterVal = do
    s ← get
    if ltb clusterNum 2 || leb s.total_clusters clusterNum
        then pure minus_one
        else if s.fat_type == 32
        then with_table 4 clusterNum (λ table ent_offset fat_sector.
          put_table fat_sector (store32 table ent_offset clusterVal))
        else if s.fat_type == 16
        then with_table 2 clusterNum (λ table ent_offset fat_sector.
          put_table fat_sector (store16 table ent_offset (u16 clusterVal)))
        else pure minus_one

  -- The loop of `allocateFreeFAT`, with `left` clusters to look at. Its test `clusterStatus < 0` is
  -- on an unsigned number and never true, so a failed FATRead counts as a cluster in use.
  pub allocate_loop : (free bad end left cluster : ℕ) → Call Device ℕ
  unfolding fat_read fat_write
  allocate_loop free bad end zero cluster = pure bad
  allocate_loop free bad end (suc left) cluster =
      let next = allocate_loop free bad end left (cluster + 1) in
      do
        clusterStatus ← fat_read cluster
        if clusterStatus == free
            then (do code ← fat_write cluster end; if code == 0 then pure cluster else pure bad)
            else next

  unfoldable pub allocate_free_fat : Call Device ℕ
  unfolding allocate_loop
  allocate_free_fat = do
    s ← get
    if s.fat_type == 32
        then allocate_loop free_cluster_32 bad_cluster_32 end_cluster_32 (s.total_clusters - 2) 2
        else if s.fat_type == 16
        then allocate_loop free_cluster_16 bad_cluster_16 end_cluster_16 (s.total_clusters - 2) 2
        else if s.fat_type == 12
        then allocate_loop free_cluster_12 bad_cluster_12 end_cluster_12 (s.total_clusters - 2) 2
        else pure bad_cluster_12

  -- `start_sect` of clusterRead and clusterWrite.
  abbrev start_sector : (clusterNum : ℕ) → Volume Device → ℕ
  start_sector clusterNum s =
      u32 ((clusterNum - 2) * s.bootsect.sectors_per_cluster + s.first_data_sector)

  unfoldable pub cluster_read : (clusterNum clusterOffset : ℕ) → Call Device ℕ
  unfolding int13h_read_o
  cluster_read clusterNum clusterOffset = do
    s ← get
    if ltb clusterNum 2 || leb s.total_clusters clusterNum then pure minus_one else (do
      code ←
          int13h_read_o drive (start_sector clusterNum s) (u8 s.bootsect.sectors_per_cluster)
            (u32 (clusterOffset * s.bootsect.sectors_per_cluster * s.bootsect.bytes_per_sector))
      if code /= 0 then pure minus_one else pure 0)

  -- `contentsToWrite` is given as bytes of a memory of their own, `contents`.
  unfoldable pub cluster_write :
      (contents : Mem) (contentSize contentBuffOffset clusterNum : ℕ) → Call Device ℕ
  unfolding int13h_write_o fill_table
  cluster_write contents contentSize contentBuffOffset clusterNum = do
    s ← get
    if ltb clusterNum 2 || leb s.total_clusters clusterNum then pure minus_one else (do
      let byteOffset =
          u32 (contentBuffOffset * s.bootsect.sectors_per_cluster * s.bootsect.bytes_per_sector)
      put (record s {
        transfer = λ i.
            if leb byteOffset i && ltb i (byteOffset + contentSize)
            then contents (i - byteOffset)
            else s.transfer i;
      })
      code ←
          int13h_write_o drive (start_sector clusterNum s) (u8 s.bootsect.sectors_per_cluster)
            byteOffset
      if code /= 0 then pure minus_one else pure 0)
