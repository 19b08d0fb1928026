-- ===== src/Fat/Table/Sector.antt =====
-- One sector of the table, read and written back, on a FAT32 volume of 512-byte sectors.
use potato_os.Base.{false, ℕ, ◌+◌, ◌*◌, ◌/◌, ◌%◌, ◌^◌, ◌≤◌, ◌<◌, ◌≡◌, Mem, SameOutside, arith, u32}
use mathlib.Core.Path.{subst₂}
use native.Mathlib.Nat.{zero-add, add-zero}
use potato_os.Drive.{Drive, part_length, IsByteMem}
use potato_os.Fat.{Volume, Call, load32, int13h_read_o, int13h_read}
use potato_os.Fat.Table.{overruns, with_table, fill_table, zeroed}

-- The place of a cluster's entry in its sector.
abbrev pub entry_offset : ℕ → ℕ
entry_offset n = 4 * n % 512

module _ (drive : Drive) where
  open drive use {Device, sectors, IsReady, read_in_range, write_in_range}

  -- A mounted FAT32 volume with one 512-byte sector per cluster, table and data within the
  -- partition, and a drive that is ready.
  pub record IsVolume (s : Volume Device) : Type 0 where
    pub ready : IsReady s.device
    pub bytes : IsByteMem s.transfer
    pub fat_32 : s.fat_type ≡ 32
    pub sector_size : s.bootsect.bytes_per_sector ≡ 512
    pub cluster_size : s.bootsect.sectors_per_cluster ≡ 1
    pub few : s.total_clusters ≤ 2 ^ 28
    pub table_fits : 512 * s.first_fat_sector + 4 * s.total_clusters ≤ 512 * part_length
    pub data_fits : s.first_data_sector + s.total_clusters ≤ part_length + 2

  -- Only the drive and the transfer area differ.
  abbrev pub with_drive : Volume Device → Device → Mem → Volume Device
  with_drive s d m = record s { device = d; transfer = m }

  pub with_drive-IsVolume :
      {s : Volume Device} {d : Device} {m : Mem}
      → IsVolume s
      → IsReady d
      → IsByteMem m
      → IsVolume (with_drive s d m)
  with_drive-IsVolume v r b = record {
    ready = r;
    bytes = b;
    fat_32 = v.fat_32;
    sector_size = v.sector_size;
    cluster_size = v.cluster_size;
    few = v.few;
    table_fits = v.table_fits;
    data_fits = v.data_fits;
  }

  -- The sector that holds a cluster's entry.
  abbrev pub entry_sector : Volume Device → ℕ → ℕ
  entry_sector s n = s.first_fat_sector + 4 * n / 512

  -- The 32-bit entry of a cluster, as it is on the disk.
  unfoldable pub entry : Volume Device → ℕ → ℕ
  entry s n = load32 (sectors s.device (entry_sector s n)) (entry_offset n)

  -- The call reads the entry's sector and goes on with the table.
  pub with_table_lem :
      (s : Volume Device) (n : ℕ) (k : Mem → ℕ → ℕ → Call Device ℕ)
      → IsVolume s
      → n < s.total_clusters
      → (d : Device) × (m : Mem) × (with_table drive 4 n k s
          ≡ k (fill_table 512 m zeroed) (entry_offset n) (entry_sector s n) (with_drive s d m))
        × IsReady d
        × IsByteMem m
        × (sectors d ≡ sectors s.device)
        × ((i : ℕ) → i < 512 → m i ≡ sectors s.device (entry_sector s n) i)
        × SameOutside 0 512 s.transfer m
  unfolding with_table int13h_read
  with_table_lem s n k v below =
      let f = v.table_fits in
      let (m, d, e, r, b, same, filled, outside) =
        read_in_range (entry_sector s n) 1 0 s.transfer s.device v.ready v.bytes (omega arith)
          (omega arith) (omega arith) in
      let at : u32 (s.first_fat_sector + u32 (n * 4) / 512) ≡ entry_sector s n =
        omega (arith, v.few) in
      let in_array : overruns 512 (u32 (n * 4) % 512 + 4) ≡ false = ground arith in
      let within : u32 (n * 4) % 512 ≡ entry_offset n = omega (arith, v.few) in
      (
        d,
        m,
        simp (v.sector_size, v.cluster_size) (rw (in_array, at, e, int13h_read_o, within)),
        r,
        b,
        same,
        λ i h.
            subst₂ (λ x y. m x ≡ sectors s.device y i) (zero-add i) (add-zero (entry_sector s n))
              (filled 0 i (omega arith) h),
        outside,
      )
