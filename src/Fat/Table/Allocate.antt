-- ===== src/Fat/Table/Allocate.antt =====
-- allocateFreeFAT takes the first free cluster.
use potato_os.Base.{ℕ, ◌%◌, ◌^◌, ◌≤◌, ◌<◌, ◌≡◌, ◌≢◌, ◌⊎◌, ◌==◌, if◌then◌else◌}
use potato_os.Drive.{Drive}
use potato_os.Fat.{Volume}
use potato_os.Fat.Table.{end_cluster_32, bad_cluster_32}
use potato_os.Fat.Table.Sector.{entry}

module _ (drive : Drive) where
  open drive use {Device}

  abbrev IsFree : Volume Device → ℕ → Type 0
  IsFree s n = entry drive s n % 2 ^ 28 ≡ 0

  -- No cluster from `from` up to `to` is free.
  abbrev NoneFree : Volume Device → (from to : ℕ) → Type 0
  NoneFree s from to = (k : ℕ) → from ≤ k → k < to → entry drive s k % 2 ^ 28 ≢ 0

  -- `cluster` was the first free one from `from` on, and is now the end of a chain; or there was
  -- none, and nothing has changed.
  abbrev pub Allocated : (s : Volume Device) (from cluster : ℕ) (s' : Volume Device) → Type 0
  Allocated s from cluster s' =
      (from ≤ cluster)
        × (cluster < s.total_clusters)
        × IsFree s cluster
        × NoneFree s from cluster
        × ((k : ℕ) → entry drive s' k ≡ (if k == cluster then end_cluster_32 else entry drive s k))
      ⊎ (cluster ≡ bad_cluster_32)
        × NoneFree s from s.total_clusters
        × ((k : ℕ) → entry drive s' k ≡ entry drive s k)
