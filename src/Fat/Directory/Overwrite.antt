-- ===== src/Fat/Directory/Overwrite.antt =====
-- directoryAdd of kernel/arch/i386/FAT.c keeps the directory's cluster in the transfer area while
-- allocateFreeFAT uses that area for the table.
use potato_os.Base.{minus_one, ℕ, ◌+◌, ◌*◌, ◌≤◌, ◌<◌, ◌≡◌, ◌⊎◌, Mem}
use potato_os.Drive.{Drive}
use potato_os.Fat.{Volume}
use potato_os.Fat.Table.Sector.{entry_sector}
use potato_os.Fat.Directory.Chain.{cluster_bytes}

module _ (drive : Drive) where
  open drive use {Device, sectors, IsReady, write_in_range}

  -- What a directory's cluster holds beside the new entry `k` after an entry was added to it.
  pub HoldsTable : (s : Volume Device) (c k : ℕ) → (result : ℕ × Mem) → Volume Device → Type 0
  HoldsTable s c k (code, file) s' =
      (code ≡ minus_one)
      ⊎ (code ≡ 0)
        × (new : ℕ) × (2 ≤ new)
        × (new < s.total_clusters)
        × ((i : ℕ)
            → i < 512
            → (i < 32 * k) ⊎ (32 * k + 32 ≤ i)
            → cluster_bytes drive s' c i ≡ sectors s'.device (entry_sector drive s new) i)
