-- ===== src/Fat/Table/Residue.antt =====
-- What allocateFreeFAT of kernel/arch/i386/FAT.c leaves in the transfer area.
use potato_os.Base.{
  ℕ, zero, suc, ◌+◌, ◌-◌, ◌%◌, ◌^◌, ◌≤◌, ◌<◌, ◌≡◌, ◌⊎◌, inl, inr, refl, some, Mem, arith, ◌==◌,
  Bool-cases,
}
use potato_os.Drive.{Drive, IsByteMem}
use potato_os.Fat.{Volume}
use potato_os.Fat.Table.{
  allocate_loop, allocate_free_fat, end_cluster_32, bad_cluster_32, free_cluster_32,
}
use potato_os.Fat.Table.Sector.{IsVolume, with_drive, with_drive-IsVolume, entry, entry_sector}
use potato_os.Fat.Table.Entries.{fat_read_lem, fat_write_lem}

module _ (drive : Drive) where
  open drive use {Device, sectors, IsReady}

  -- No cluster was free; or one from `from` on is taken, and the transfer area is the sector of the
  -- table that holds its entry.
  abbrev pub LeavesTable : (from : ℕ) → Volume Device → (cluster : ℕ) → Volume Device → Type 0
  LeavesTable from s cluster s' =
      (cluster ≡ bad_cluster_32)
      ⊎ (from ≤ cluster)
        × (cluster < s.total_clusters)
        × ((i : ℕ) → i < 512 → s'.transfer i ≡ sectors s'.device (entry_sector drive s cluster) i)

  LeavesTable-suc :
      (from cluster : ℕ) (s : Volume Device) (d : Device) (m : Mem) (s' : Volume Device)
      → LeavesTable (from + 1) (with_drive drive s d m) cluster s'
      → LeavesTable from s cluster s'
  LeavesTable-suc from cluster s d m s' (inl bad) = inl bad
  LeavesTable-suc from cluster s d m s' (inr (p, q, left)) = inr (omega arith, q, left)

  allocate_loop_leaves :
      (left from : ℕ) (s : Volume Device)
      → IsVolume drive s
      → 2 ≤ from
      → from + left ≡ s.total_clusters
      → (cluster : ℕ) × (d : Device) × (m : Mem) × (allocate_loop drive free_cluster_32
            bad_cluster_32 end_cluster_32 left from s
          ≡ some (cluster, with_drive drive s d m))
        × IsReady d
        × IsByteMem m
        × LeavesTable from s cluster (with_drive drive s d m)
  unfolding allocate_loop
  allocate_loop_leaves zero from s v two rest =
      (bad_cluster_32, s.device, s.transfer, refl, v.ready, v.bytes, inl refl)
  allocate_loop_leaves (suc left) from s v two rest =
      let (d₁, m₁, e₁, r₁, b₁, same, _) = fat_read_lem drive s from v two (omega arith) in
      let s₁ = with_drive drive s d₁ m₁ in
      let v₁ = with_drive-IsVolume drive v r₁ b₁ in
      elim (Bool-cases (entry drive s from % 2 ^ 28 == 0)) [
        | inl free ↦
            let (d₂, m₂, e₂, r₂, b₂, after, table, others) =
              fat_write_lem drive s₁ from end_cluster_32 v₁ two (omega arith) (omega arith) in
            (from, d₂, m₂, ground (arith, e₁, e₂), r₂, b₂, inr (omega arith, omega arith, table))
        | inr used ↦
            let (cluster, d', m', e', r', b', leaves) =
              allocate_loop_leaves left (from + 1) s₁ v₁ (omega arith) (omega arith) in
            (
              cluster,
              d',
              m',
              ground (arith, e₁, e'),
              r',
              b',
              LeavesTable-suc from cluster s d₁ m₁ (with_drive drive s d' m') leaves,
            )
      ]

  -- After allocateFreeFAT the transfer area is a sector of the table.
  pub allocate_free_fat_leaves :
      (s : Volume Device)
      → IsVolume drive s
      → 2 ≤ s.total_clusters
      → (cluster : ℕ) × (d : Device) × (m : Mem) × (allocate_free_fat drive s
          ≡ some (cluster, with_drive drive s d m))
        × IsReady d
        × IsByteMem m
        × LeavesTable 2 s cluster (with_drive drive s d m)
  unfolding allocate_free_fat
  allocate_free_fat_leaves s v two =
      let (cluster, d, m, e, r, b, leaves) =
        allocate_loop_leaves (s.total_clusters - 2) 2 s v (omega arith) (omega arith) in
      (cluster, d, m, ground (arith, v.fat_32, e), r, b, leaves)
