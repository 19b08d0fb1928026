-- ===== src/Fat/Directory/Lookup.antt =====
-- directorySearch of kernel/arch/i386/FAT.c on a directory whose chain of clusters is whole.
use potato_os.Base.{
  ℕ, zero, suc, ◌%◌, ◌^◌, ◌≤◌, ◌<◌, ◌≡◌, refl, ◌⊎◌, inl, inr, some, List, [], ◌∷◌, length, Mem,
  minus_two, arith, ltb, leb, ◌||◌, true, false,
}
use mathlib.Core.Path.{ap, ◌∙◌, sym, subst}
use potato_os.Drive.{Drive, IsByteMem}
use potato_os.Fat.{Volume}
use potato_os.Fat.Table.{fat_read, cluster_read, end_cluster_32}
use potato_os.Fat.Table.Sector.{entry, IsVolume, with_drive, with_drive-IsVolume}
use potato_os.Fat.Directory.{
  Scanned, at_end, exhausted, found, scan, Search, failed, entry_at, search_name, ends_chain,
  entries_left, directory_search,
}
use potato_os.Fat.Directory.Chain.{
  outcome, outcome-look_up, look_up, first_match, cluster_bytes, IsChain, cluster_read_lem,
  read_and_next, same-IsChain, same_match, read_scan, read_entry,
}

Scanned-cases : (r : Scanned) → (r ≡ at_end) ⊎ ((k : ℕ) × (r ≡ found k)) ⊎ (r ≡ exhausted)
Scanned-cases at_end = inl refl
Scanned-cases exhausted = inr (inr refl)
Scanned-cases (found k) = inr (inl (k, refl))

module _ (drive : Drive) where
  open drive use {Device, sectors, IsReady}

  -- One round of the search, by what the scan of the cluster gives.
  module _ (fuel name_fuel c : ℕ) (filepart name : Mem) (s s' : Volume Device)
      (inside : (ltb c 2 || leb s.total_clusters c) ≡ false)
      (named : search_name name_fuel filepart ≡ some name)
      (read : cluster_read drive c 0 s ≡ some (0, s')) where
    round_end :
        scan (entries_left s') 0 name s'.transfer ≡ at_end
        → directory_search drive (suc fuel) name_fuel filepart c s ≡ some (failed minus_two, s')
    unfolding directory_search
    round_end e = ground (arith, inside, named, read, e)

    round_found :
        (k : ℕ)
        → scan (entries_left s') 0 name s'.transfer ≡ found k
        → directory_search drive (suc fuel) name_fuel filepart c s
          ≡ some (record { code = 0; file = entry_at k s'.transfer; entry_offset = k }, s')
    unfolding directory_search
    round_found k e = ground (arith, inside, named, read, e)

    round_last :
        (next : ℕ) (s'' : Volume Device)
        → scan (entries_left s') 0 name s'.transfer ≡ exhausted
        → fat_read drive c s' ≡ some (next, s'')
        → leb (2 ^ 31) next ≡ false
        → ends_chain s'.fat_type next ≡ true
        → directory_search drive (suc fuel) name_fuel filepart c s ≡ some (failed minus_two, s'')
    unfolding directory_search
    round_last next s'' e f positive last =
        ground (arith, inside, named, read, e, f, positive, last)

    round_next :
        (next : ℕ) (s'' : Volume Device)
        → scan (entries_left s') 0 name s'.transfer ≡ exhausted
        → fat_read drive c s' ≡ some (next, s'')
        → leb (2 ^ 31) next ≡ false
        → ends_chain s'.fat_type next ≡ false
        → directory_search drive (suc fuel) name_fuel filepart c s
          ≡ directory_search drive fuel name_fuel filepart next s''
    unfolding directory_search
    round_next next s'' e f positive more =
        ground (arith, inside, named, read, e, f, positive, more)

  sixteen : (s : Volume Device) → IsVolume drive s → entries_left s ≡ 15
  sixteen s v = ground (arith, v.sector_size, v.cluster_size)

  within : (c total : ℕ) → 2 ≤ c → c < total → (ltb c 2 || leb total c) ≡ false
  within c total two below = ground arith

  -- What a search that reached its result has done to the volume.
  Answers : (fuel name_fuel : ℕ) (filepart : Mem) (c : ℕ) (s : Volume Device) → Search → Type 0
  Answers fuel name_fuel filepart c s result =
      (d : Device) × (m : Mem) × (directory_search drive fuel name_fuel filepart c s
        ≡ some (result, with_drive drive s d m))
      × IsReady d
      × IsByteMem m
      × (sectors d ≡ sectors s.device)

  -- A round that ends with a match, at the end mark, or with the rest of the chain.
  one_round :
      (fuel name_fuel c : ℕ) (filepart name : Mem) (s : Volume Device) (rest : Search)
      → IsVolume drive s
      → 2 ≤ c
      → c < s.total_clusters
      → search_name name_fuel filepart ≡ some name
      → ((i : ℕ) → i < 11 → name i < 256)
      → ((d : Device) (m : Mem)
          → cluster_read drive c 0 s ≡ some (0, with_drive drive s d m)
          → scan (entries_left (with_drive drive s d m)) 0 name m ≡ exhausted
          → IsReady d
          → IsByteMem m
          → sectors d ≡ sectors s.device
          → Answers (suc fuel) name_fuel filepart c s rest)
      → Answers (suc fuel) name_fuel filepart c s (look_up 16 0 (cluster_bytes drive s c) name rest)
  unfolding Answers
  one_round fuel name_fuel c filepart name s rest v two below named letters go_on =
      let (d, m, read, r, b, same, agree) = cluster_read_lem drive s c v two below in
      let s' = with_drive drive s d m in
      let bytes = cluster_bytes drive s c in
      let inside = within c s.total_clusters two below in
      let count = sixteen s' (with_drive-IsVolume drive v r b) in
      let seen = read_scan drive m bytes name agree in
      subst (Answers (suc fuel) name_fuel filepart c s)
        (outcome-look_up 15 0 name bytes rest (omega arith) letters
          (λ i h. subst (λ x. x < 256) (agree i h) (b i)))
        (elim (Scanned-cases (scan 15 0 name m)) [
          | inl e ↦ (
            d,
            m,
            round_end fuel name_fuel c filepart name s s' inside named read (rw count e)
                ∙ ap (λ x. some (outcome x bytes rest, s')) (sym e ∙ seen),
            r,
            b,
            same,
          )
          | inr (inl (k, e)) ↦ (
            d,
            m,
            round_found fuel name_fuel c filepart name s s' inside named read k (rw count e)
                ∙ (ap (λ (f : Mem). some (record { code = 0; file = f; entry_offset = k }, s'))
                      (read_entry drive m bytes name k agree e)
                    ∙ ap (λ x. some (outcome x bytes rest, s')) (sym e ∙ seen)),
            r,
            b,
            same,
          )
          | inr (inr e) ↦
              subst (Answers (suc fuel) name_fuel filepart c s)
                (ap (λ x. outcome x bytes rest) (sym e ∙ seen))
                (go_on d m read (rw count e) r b same)
        ])

  not_negative : (x : ℕ) → leb (2 ^ 31) (x % 2 ^ 28) ≡ false
  not_negative x = ground arith

  last_cluster : (t x : ℕ) → t ≡ 32 → end_cluster_32 ≤ x → ends_chain t x ≡ true
  last_cluster t x e h = ground arith

  middle_cluster : (t x : ℕ) → t ≡ 32 → x < end_cluster_32 → ends_chain t x ≡ false
  middle_cluster t x e h = ground arith

  pub directory_search-first_match :
      (fuel name_fuel c : ℕ) (cs : List ℕ) (filepart name : Mem) (s : Volume Device)
      → IsVolume drive s
      → IsChain drive s c cs
      → length cs < fuel
      → search_name name_fuel filepart ≡ some name
      → ((i : ℕ) → i < 11 → name i < 256)
      → (d : Device) × (m : Mem) × (directory_search drive fuel name_fuel filepart c s
          ≡ some (first_match (cluster_bytes drive s) name c cs, with_drive drive s d m))
        × IsReady d
        × IsByteMem m
        × (sectors d ≡ sectors s.device)
  unfolding Answers first_match IsChain
  directory_search-first_match zero name_fuel c cs filepart name s v chain enough named letters =
      absurd (omega arith)
  directory_search-first_match (suc fuel) name_fuel c [] filepart name s v (two, below, end) enough
        named letters =
      one_round fuel name_fuel c filepart name s (failed minus_two) v two below named letters
        λ d m read e r b same.
          let (d', m', f, r', b', same', _) = read_and_next drive s c m d v two below r b same in
          (
            d',
            m',
            round_last fuel name_fuel c filepart name s (with_drive drive s d m)
                (within c s.total_clusters two below) named read (entry drive s c % 2 ^ 28)
                (with_drive drive s d' m') e f (not_negative (entry drive s c))
                (last_cluster s.fat_type (entry drive s c % 2 ^ 28) v.fat_32 end),
            r',
            b',
            same',
          )
  directory_search-first_match (suc fuel) name_fuel c (n ∷ cs) filepart name s v
        (two, below, link, more, chain) enough named letters =
      one_round fuel name_fuel c filepart name s (first_match (cluster_bytes drive s) name n cs) v
        two below named letters
        λ d m read e r b same.
          let (d', m', f, r', b', same', _) = read_and_next drive s c m d v two below r b same in
          let s'' = with_drive drive s d' m' in
          let (d'', m'', g, r'', b'', same'') =
            directory_search-first_match fuel name_fuel n cs filepart name s''
              (with_drive-IsVolume drive v r' b') (same-IsChain drive s d' m' n cs same' chain)
              (omega arith) named letters in
          (
            d'',
            m'',
            round_next fuel name_fuel c filepart name s (with_drive drive s d m)
                  (within c s.total_clusters two below) named read n s'' e
                  (subst (λ x. fat_read drive c (with_drive drive s d m) ≡ some (x, s'')) link f)
                  (subst (λ x. leb (2 ^ 31) x ≡ false) link (not_negative (entry drive s c)))
                  (middle_cluster s.fat_type n v.fat_32 more)
                ∙ (g
                    ∙ ap (λ x. some (x, with_drive drive s d'' m''))
                        (same_match drive s d' m' name n cs same')),
            r'',
            b'',
            same'' ∙ same',
          )
