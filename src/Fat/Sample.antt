-- ===== src/Fat/Sample.antt =====
-- Blank volumes, with one sector per cluster.
use potato_os.Base.{refl, arith}
use potato_os.Drive.{Drive}
use potato_os.Drive.Ram.{Sectors, ram_drive}
use potato_os.Fat.{BootSector, Volume}
use potato_os.Fat.Table.{zeroed}
use potato_os.Fat.Table.Sector.{IsVolume}

abbrev pub boot : BootSector
boot = record {
  bytes_per_sector = 512;
  sectors_per_cluster = 1;
  reserved_sector_count = 32;
  table_count = 2;
  root_entry_count = 0;
  total_sectors_16 = 0;
  table_size_16 = 0;
  total_sectors_32 = 70000;
  table_size_32 = 547;
  root_cluster = 2;
}

abbrev pub blank_on : {Device : Type 0} → Device → Volume Device
blank_on d = record {
  device = d;
  transfer = zeroed;
  fat_type = 32;
  first_fat_sector = 32;
  first_data_sector = 1126;
  total_clusters = 70000;
  bootsect = boot;
  stale = zeroed;
}

module _ (drive : Drive) where
  open drive use {Device, IsReady}

  pub blank_on-IsVolume : (d : Device) → IsReady d → IsVolume drive (blank_on d)
  blank_on-IsVolume d r = record {
    ready = r;
    bytes = λ a. omega arith;
    fat_32 = refl;
    sector_size = refl;
    cluster_size = refl;
    few = omega arith;
    table_fits = omega arith;
    data_fits = omega arith;
  }

abbrev pub blank : Volume Sectors
blank = blank_on (λ n i. 0)

pub blank-IsVolume : IsVolume ram_drive blank
blank-IsVolume = blank_on-IsVolume ram_drive (λ n i. 0) (λ n i. omega arith)
