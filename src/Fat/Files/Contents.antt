-- ===== src/Fat/Files/Contents.antt =====
-- The loop of getFile of kernel/arch/i386/FAT.c that reads the clusters of a file.
use potato_os.Base.{
  ℕ, zero, suc, ◌+◌, ◌*◌, ◌-◌, ◌%◌, ◌^◌, ◌≤◌, ◌<◌, ◌≡◌, ◌≢◌, ne→==, refl, ◌⊎◌, inl, inr, some, List,
  [], ◌∷◌, length, Mem, u32, SameOutside, arith, ◌==◌, false, minus_one,
}
use mathlib.Core.Path.{ap, ◌∙◌, subst, subst₂}
use native.Mathlib.Nat.{add-zero}
use potato_os.Drive.{Drive, IsByteMem}
use potato_os.Fat.{Volume, int13h_read_o}
use potato_os.Fat.Table.{fat_read, cluster_read, end_cluster_32, bad_cluster_32}
use potato_os.Fat.Table.Sector.{entry, IsVolume, with_drive, with_drive-IsVolume}
use potato_os.Fat.Directory.Chain.{cluster_bytes, IsChain, read_and_next, same-IsChain}
use potato_os.Fat.Files.{read_chain}

-- The clusters `c ∷ cs` stand in memory from cluster `place` of the transfer area on.
abbrev pub IsLoaded : (bytes : ℕ → Mem) (place c : ℕ) (cs : List ℕ) → Mem → Type 0
IsLoaded bytes place c [] m = (i : ℕ) → i < 512 → m (512 * place + i) ≡ bytes c i
IsLoaded bytes place c (d ∷ cs) m =
    ((i : ℕ) → i < 512 → m (512 * place + i) ≡ bytes c i) × IsLoaded bytes (place + 1) d cs m

-- Above the first cluster of the transfer area, only `count` clusters from `place` on change.
abbrev SameAbove : (place count : ℕ) → Mem → Mem → Type 0
SameAbove place count m m' =
    (a : ℕ) → 512 ≤ a → (a < 512 * place) ⊎ (512 * (place + count) ≤ a) → m' a ≡ m a

module _ (drive : Drive) where
  open drive use {Device, sectors, IsReady, read_in_range}

  cluster_read_at :
      (s : Volume Device) (c place : ℕ)
      → IsVolume drive s
      → 2 ≤ c
      → c < s.total_clusters
      → 512 * place < 2 ^ 32
      → (d : Device) × (m : Mem) × (cluster_read drive c place s ≡ some (0, with_drive drive s d m))
        × IsReady d
        × IsByteMem m
        × (sectors d ≡ sectors s.device)
        × ((i : ℕ) → i < 512 → m (512 * place + i) ≡ cluster_bytes drive s c i)
        × SameOutside (512 * place) 512 s.transfer m
  unfolding cluster_read int13h_read_o
  cluster_read_at s c place v two below fits =
      let f = v.data_fits in
      let sector = c - 2 + s.first_data_sector in
      let (m, d, e, r, b, same, filled, outside) =
        read_in_range sector 1 (512 * place) s.transfer s.device v.ready v.bytes (omega arith)
          (omega arith) (omega arith) in
      let at : u32 ((c - 2) * 1 + s.first_data_sector) ≡ sector = omega arith in
      let here : u32 (place * 1 * 512) ≡ 512 * place = omega arith in
      (
        d,
        m,
        ground (arith, v.sector_size, v.cluster_size, at, here, e),
        r,
        b,
        same,
        λ i h.
            subst₂ (λ x y. m (x + i) ≡ sectors s.device y i) (add-zero (512 * place))
              (add-zero sector) (filled 0 i (omega arith) h),
        outside,
      )

  -- One round of the loop.
  round :
      (fuel c count offset next : ℕ) (s s' s'' : Volume Device)
      → c < end_cluster_32
      → count + 1 + offset < 2 ^ 32
      → cluster_read drive c (count + offset) s ≡ some (0, s')
      → fat_read drive c s' ≡ some (next, s'')
      → next ≢ bad_cluster_32
      → next < 2 ^ 28
      → read_chain drive (suc fuel) c count offset s
        ≡ read_chain drive fuel next (count + 1) offset s''
  unfolding read_chain
  round fuel c count offset next s s' s'' below fits read link good small =
      let here : u32 (count + offset) ≡ count + offset = omega arith in
      let counted : u32 (count + 1) ≡ count + 1 = omega arith in
      let no_error : (next == minus_one) ≡ false = ne→== next minus_one (omega arith) in
      ground (arith, here, read, link, ne→== next bad_cluster_32 good, no_error)
      ∙ ap (λ k. read_chain drive fuel next k offset s'') counted

  ends :
      (fuel c count offset : ℕ) (s : Volume Device)
      → end_cluster_32 ≤ c
      → c < 2 ^ 28
      → read_chain drive (suc fuel) c count offset s ≡ some (0, s)
  unfolding read_chain
  ends fuel c count offset s last small = ground arith

  loaded_below :
      (bytes : ℕ → Mem) (place count c : ℕ) (m m' m'' : Mem)
      → 1 ≤ place
      → ((i : ℕ) → i < 512 → m (512 * place + i) ≡ bytes c i)
      → SameOutside 0 512 m m'
      → SameAbove (place + 1) count m' m''
      → (i : ℕ) → i < 512
      → m'' (512 * place + i) ≡ bytes c i
  loaded_below bytes place count c m m' m'' up read table rest i h =
      rest (512 * place + i) (omega arith) (inl (omega arith))
      ∙ table (512 * place + i) (inr (omega arith))
      ∙ read i h

  same_above :
      (place count : ℕ) (m₀ m m' m'' : Mem)
      → SameOutside (512 * place) 512 m₀ m
      → SameOutside 0 512 m m'
      → SameAbove (place + 1) count m' m''
      → SameAbove place (suc count) m₀ m''
  same_above place count m₀ m m' m'' read table rest a up (inl before) =
      rest a up (inl (omega (arith, before)))
      ∙ table a (inr (omega (arith, up)))
      ∙ read a (inl before)
  same_above place count m₀ m m' m'' read table rest a up (inr behind) =
      rest a up (inr (omega (arith, behind)))
      ∙ table a (inr (omega (arith, up)))
      ∙ read a (inr (omega (arith, behind)))

  -- A cluster of a chain is below the number of clusters.
  chain_below :
      (c : ℕ) (cs : List ℕ) (s : Volume Device)
      → s.total_clusters ≤ bad_cluster_32
      → IsChain drive s c cs
      → c ≢ bad_cluster_32
  unfolding IsChain
  chain_below c [] s few (two, below, _) = omega arith
  chain_below c (_ ∷ _) s few (two, below, _, _, _) = omega arith

  -- On a FAT32 volume with one sector per cluster and no cluster with the number of the bad ones, the
  -- loop of getFile on a chain of the table returns 0 once it has fuel for the clusters and the end.
  -- The clusters stand one behind the other, from the given place on, which is above the first cluster
  -- of the transfer area; what is outside of them and above that one is as before. The sectors are not
  -- changed.
  pub read_chain-IsLoaded :
      (fuel c : ℕ) (cs : List ℕ) (count offset : ℕ) (s : Volume Device)
      → IsVolume drive s
      → IsChain drive s c cs
      → s.total_clusters ≤ bad_cluster_32
      → length cs + 1 < fuel
      → 1 ≤ offset
      → 512 * (count + offset + length cs + 1) < 2 ^ 32
      → (d : Device) × (m : Mem) × (read_chain drive fuel c count offset s
          ≡ some (0, with_drive drive s d m))
        × IsReady d
        × IsByteMem m
        × (sectors d ≡ sectors s.device)
        × IsLoaded (cluster_bytes drive s) (count + offset) c cs m
        × SameAbove (count + offset) (suc (length cs)) s.transfer m
  unfolding IsChain
  read_chain-IsLoaded zero c cs count offset s v chain few enough up fits = absurd (omega arith)
  read_chain-IsLoaded (suc zero) c cs count offset s v chain few enough up fits =
      absurd (omega arith)
  read_chain-IsLoaded (suc (suc fuel)) c [] count offset s v (two, below, last) few enough up fits =
      let (d, m, e, r, b, same, here, outside) =
        cluster_read_at s c (count + offset) v two below (omega arith) in
      let (d', m', f, r', b', same', table) = read_and_next drive s c m d v two below r b same in
      let next = entry drive s c % 2 ^ 28 in
      let rest : SameAbove (count + offset + 1) 0 m' m' = λ a h k. refl in
      (
        d',
        m',
        round (suc fuel) c count offset next s (with_drive drive s d m) (with_drive drive s d' m')
              (omega arith) (omega arith) e f (omega arith) (omega arith)
            ∙ ends fuel next (count + 1) offset (with_drive drive s d' m') last (omega arith),
        r',
        b',
        same',
        loaded_below (cluster_bytes drive s) (count + offset) 0 c m m' m' (omega arith) here table
            rest,
        same_above (count + offset) 0 s.transfer m m' m' outside table rest,
      )
  read_chain-IsLoaded (suc (suc fuel)) c (n ∷ cs) count offset s v (two, below, link, more, chain)
        few enough up fits =
      let (d, m, e, r, b, same, here, outside) =
        cluster_read_at s c (count + offset) v two below (omega arith) in
      let (d', m', f, r', b', same', table) = read_and_next drive s c m d v two below r b same in
      let s'' = with_drive drive s d' m' in
      let v'' = with_drive-IsVolume drive v r' b' in
      let (d₂, m₂, g, r₂, b₂, same₂, loaded, above) =
        read_chain-IsLoaded (suc fuel) n cs (count + 1) offset s'' v''
          (same-IsChain drive s d' m' n cs same' chain) few (omega arith) up (omega arith) in
      let place : count + 1 + offset ≡ count + offset + 1 = omega arith in
      let above' = subst (λ p. SameAbove p (suc (length cs)) m' m₂) place above in
      (
        d₂,
        m₂,
        round (suc fuel) c count offset n s (with_drive drive s d m) s'' (omega arith) (omega arith)
              e (subst (λ x. fat_read drive c (with_drive drive s d m) ≡ some (x, s'')) link f)
              (chain_below n cs s few chain) (omega arith)
            ∙ g,
        r₂,
        b₂,
        same₂ ∙ same',
        (
          loaded_below (cluster_bytes drive s) (count + offset) (suc (length cs)) c m m' m₂
              (omega arith) here table above',
          subst
              (λ (σ : ℕ → ℕ → ℕ).
                IsLoaded (λ x. σ (x - 2 + s.first_data_sector)) (count + offset + 1) n cs m₂)
              same' (subst (λ p. IsLoaded (cluster_bytes drive s'') p n cs m₂) place loaded),
        ),
        same_above (count + offset) (suc (length cs)) s.transfer m m' m₂ outside table above',
      )
