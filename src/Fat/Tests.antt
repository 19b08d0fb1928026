-- ===== src/Fat/Tests.antt =====
-- Runs of the FAT code on a small volume in memory, and its theorems at concrete inputs.
use potato_os.Base.{
  ℕ, ◌%◌, ◌^◌, ◌<◌, ◌≡◌, inl, refl, some, Mem, upd, arith, [], ◌∷◌, store_list, if◌then◌else◌, ◌==◌,
  minus_one,
}
use potato_os.Drive.{IsByteMem}
use potato_os.Drive.Ram.{Sectors, ram_drive}
use potato_os.Fat.{BootSector, Volume}
use potato_os.Fat.Table.{fat_read, fat_write}
use potato_os.Fat.Table.Sector.{IsVolume, entry}
use potato_os.Fat.Table.Entries.{fat_read-entry, fat_write-entry, fat_invalid}
use potato_os.Fat.Table.Wide.{IsWide, fat_write_wide}
use potato_os.Fat.Names.{test_if_fat_format, fat_name}

abbrev empty_disk : Sectors
empty_disk n i = 0

abbrev no_bytes : Mem
no_bytes a = 0

abbrev boot : ℕ → BootSector
boot sectors_per_cluster = record {
  bytes_per_sector = 512;
  sectors_per_cluster = sectors_per_cluster;
  reserved_sector_count = 32;
  table_count = 2;
  root_entry_count = 0;
  total_sectors_16 = 0;
  table_size_16 = 0;
  total_sectors_32 = 70000;
  table_size_32 = 547;
  root_cluster = 2;
}

abbrev volume : ℕ → Volume Sectors
volume sectors_per_cluster = record {
  device = empty_disk;
  transfer = no_bytes;
  fat_type = 32;
  first_fat_sector = 32;
  first_data_sector = 1126;
  total_clusters = 70000;
  bootsect = boot sectors_per_cluster;
  stale = no_bytes;
}

volume-IsVolume : IsVolume ram_drive (volume 1)
volume-IsVolume = record {
  ready = λ n i. omega arith;
  bytes = λ a. omega arith;
  fat_32 = refl;
  sector_size = refl;
  cluster_size = refl;
  few = omega arith;
  table_fits = omega arith;
  data_fits = omega arith;
}

volume-IsWide : IsWide ram_drive 1024 (volume 2)
volume-IsWide = record {
  ready = λ n i. omega arith;
  bytes = λ a. omega arith;
  fat_32 = refl;
  sector_size = refl;
  cluster_size = refl;
  wide = omega arith;
  few = omega arith;
  table_fits = omega arith;
  in_array = omega arith;
  whole = refl;
}

fat_read-entry_example :
    (s' : Volume Sectors) × (fat_read ram_drive 5 (volume 1)
      ≡ some (entry ram_drive (volume 1) 5 % 2 ^ 28, s'))
    × IsVolume ram_drive s'
    × ((k : ℕ) → entry ram_drive s' k ≡ entry ram_drive (volume 1) k)
    × (s'.total_clusters ≡ 70000)
fat_read-entry_example =
    fat_read-entry ram_drive (volume 1) 5 volume-IsVolume (omega arith) (omega arith)

fat_write-entry_example :
    (s' : Volume Sectors) × (fat_write ram_drive 200 7 (volume 1) ≡ some (0, s'))
    × IsVolume ram_drive s'
    × ((k : ℕ) → entry ram_drive s' k ≡ (if k == 200 then 7 else entry ram_drive (volume 1) k))
    × (s'.total_clusters ≡ 70000)
fat_write-entry_example =
    fat_write-entry ram_drive (volume 1) 200 7 volume-IsVolume (omega arith) (omega arith)
      (omega arith)

fat_invalid_example :
    (fat_read ram_drive 1 (volume 1) ≡ some (minus_one, volume 1))
    × (fat_write ram_drive 1 7 (volume 1) ≡ some (minus_one, volume 1))
fat_invalid_example = fat_invalid ram_drive (volume 1) 1 7 (inl (omega arith))

fat_write_wide_example :
    (s' : Volume Sectors) × (fat_write ram_drive 128 7 (volume 2) ≡ some (0, s'))
    × ((k i : ℕ) → i < 512 → s'.device k i ≡ 0)
fat_write_wide_example =
    fat_write_wide ram_drive 1024 (volume 2) 128 volume-IsWide (omega arith) (omega arith) 7
      (omega arith) (omega arith)

abbrev readme : Mem
unfolding store_list upd
readme =
    store_list no_bytes 100
      (0x52 ∷ 0x45 ∷ 0x41 ∷ 0x44 ∷ 0x4D ∷ 0x45 ∷ 0x2E ∷ 0x54 ∷ 0x58 ∷ 0x54 ∷ [])

readme_entry :
    (fat_name 100 readme 5 ≡ 0x45)
    × (fat_name 100 readme 6 ≡ 0x20)
    × (fat_name 100 readme 8 ≡ 0x54)
    × (fat_name 100 readme 11 ≡ 0)
unfolding fat_name readme
readme_entry = (refl, refl, refl, refl)

readme_has_dot : test_if_fat_format 100 readme ≡ 0x0A
unfolding test_if_fat_format readme
readme_has_dot = refl

-- Letters without end.
abbrev letters : Mem
letters a = 0x41

letters-IsByteMem : IsByteMem letters
letters-IsByteMem a = omega arith
