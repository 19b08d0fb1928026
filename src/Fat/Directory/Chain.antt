-- ===== src/Fat/Directory/Chain.antt =====
-- directorySearch of kernel/arch/i386/FAT.c answers the first match in the chain of a directory.
use potato_os.Base.{
  Bool, true, false, ◌&&◌, ◌||◌, ◌/=◌, sub32, sym, if◌then◌else◌, SameOutside, ℕ, zero, suc, ◌+◌,
  ◌*◌, ◌-◌, ◌%◌, ◌^◌, ◌≤◌, ◌<◌, ◌≡◌, refl, some, List, [], ◌∷◌, Mem, minus_two, u32, arith, ◌==◌,
}
use mathlib.Core.Path.{ap, fun_ext, subst₂, ◌∙◌, subst}
use native.Mathlib.Nat.{zero-add, add-zero}
use potato_os.Strings.{strncmp}
use potato_os.Drive.{Drive, IsByteMem}
use potato_os.Fat.{Volume, int13h_read_o, load32}
use potato_os.Fat.Table.{zeroed, fat_read, cluster_read, end_cluster_32}
use potato_os.Fat.Table.Sector.{
  IsVolume, with_drive, with_drive-IsVolume, entry, entry_sector, entry_offset,
}
use potato_os.Fat.Table.Entries.{fat_read_lem}
use potato_os.Fat.Directory.{
  Scanned, at_end, exhausted, found, scan, matches, beside, local_array, Search, failed, entry_at,
}

-- Two memories that agree on the entries of a cluster.
abbrev Agree : Mem → Mem → Type 0
Agree m m' = (i : ℕ) → i < 512 → m i ≡ m' i

strncmp_ext :
    (n a b : ℕ) (m m' : Mem)
    → ((i : ℕ) → i < n → m (a + i) ≡ m' (a + i))
    → ((i : ℕ) → i < n → m (b + i) ≡ m' (b + i))
    → strncmp a b n m ≡ strncmp a b n m'
unfolding strncmp
strncmp_ext zero a b m m' p q = refl
strncmp_ext (suc n) a b m m' p q =
    let first : m a ≡ m' a = subst (λ x. m x ≡ m' x) (add-zero a) (p 0 (omega arith)) in
    let second : m b ≡ m' b = subst (λ x. m x ≡ m' x) (add-zero b) (q 0 (omega arith)) in
    let rest =
      strncmp_ext n (a + 1) (b + 1) m m'
        (λ i h. subst (λ x. m x ≡ m' x) (omega arith) (p (suc i) (omega arith)))
        (λ i h. subst (λ x. m x ≡ m' x) (omega arith) (q (suc i) (omega arith))) in
    rw (first, second, rest) refl

beside_low : (m m' name : Mem) (a : ℕ) → Agree m m' → a < 512 → beside m name a ≡ beside m' name a
unfolding beside
beside_low m m' name a agree h = ground (arith, agree a)

beside_high :
    (m m' name : Mem) (i : ℕ) → beside m name (local_array + i) ≡ beside m' name (local_array + i)
unfolding beside
beside_high m m' name i = ground arith

matches_ext :
    (count : ℕ) (name m m' : Mem)
    → Agree m m'
    → count < 16
    → matches count name m ≡ matches count name m'
matches_ext count name m m' agree h =
    ap (λ (c : ℕ). c == 0)
      (strncmp_ext 11 (32 * count) local_array (beside m name) (beside m' name)
        (λ i k. beside_low m m' name (32 * count + i) agree (omega arith))
        (λ i k. beside_high m m' name i))

scan_ext :
    (left count : ℕ) (name m m' : Mem)
    → Agree m m'
    → count + left < 16
    → scan left count name m ≡ scan left count name m'
unfolding scan
scan_ext zero count name m m' agree h =
    rw (agree (32 * count) (omega arith), matches_ext count name m m' agree (omega arith)) refl
scan_ext (suc left) count name m m' agree h =
    rw
      (
        agree (32 * count) (omega arith),
        matches_ext count name m m' agree (omega arith),
        scan_ext left (count + 1) name m m' agree (omega arith),
      )
      refl

scan_bound :
    (left count : ℕ) (name m : Mem) (k : ℕ) → scan left count name m ≡ found k → k ≤ count + left
unfolding scan
scan_bound zero count name m k e = ground arith
scan_bound (suc left) count name m k e = ground (arith, scan_bound left (count + 1) name m k)

entry_at_ext : (k : ℕ) (m m' : Mem) → Agree m m' → k < 16 → entry_at k m ≡ entry_at k m'
entry_at_ext k m m' agree h = fun_ext (λ i. ground (arith, agree (32 * k + i)))

-- What a search ends with, by the bytes of a cluster and by the result in the rest of the chain.
abbrev pub outcome : Scanned → (bytes : Mem) → Search → Search
outcome result bytes rest = elim result [
  | at_end ↦ failed minus_two
  | exhausted ↦ rest
  | found k ↦ record { code = 0; file = entry_at k bytes; entry_offset = k }
]

-- Two texts are the same in their next `left` bytes, or up to a NUL before.
abbrev pub same_text : (left i : ℕ) (a b : Mem) → Bool
same_text zero i a b = true
same_text (suc left) i a b = (a i == b i) && ((a i == 0) || same_text left (i + 1) a b)

-- What is meant by looking a name up in `left` entries from `k` on, of a cluster with these bytes: an
-- entry that begins with 0 ends the directory, the first entry with the eleven bytes of the name is
-- the answer, and behind the last entry the rest of the directory is looked up.
abbrev pub look_up : (left k : ℕ) (bytes name : Mem) (rest : Search) → Search
look_up zero k bytes name rest = rest
look_up (suc left) k bytes name rest =
    if bytes (32 * k) == 0
    then record { code = minus_two; file = zeroed; entry_offset = 0 }
    else if same_text 11 0 (entry_at k bytes) name
    then record { code = 0; file = entry_at k bytes; entry_offset = k }
    else look_up left (k + 1) bytes name rest

-- The clusters of the chain have sixteen entries each, and -2 stands behind the last.
unfoldable pub first_match : (bytes : ℕ → Mem) (name : Mem) → ℕ → List ℕ → Search
first_match bytes name c [] =
    look_up 16 0 (bytes c) name (record { code = minus_two; file = zeroed; entry_offset = 0 })
first_match bytes name c (d ∷ cs) = look_up 16 0 (bytes c) name (first_match bytes name d cs)

first_bytes :
    (x y r : ℕ) (others : Bool)
    → x < 256
    → y < 256
    → (r == 0) ≡ others
    → ((if (x == 0) || (y == 0) then sub32 x y else if x /= y then sub32 x y else r) == 0)
      ≡ ((x == y) && ((x == 0) || others))
first_bytes x y r others p q e = rw (sym e) (ground (arith, p, q))

beside_entry :
    (k j : ℕ) (bytes name : Mem)
    → k < 16
    → j < 11
    → beside bytes name (32 * k + j) ≡ entry_at k bytes (0 + j)
unfolding beside
beside_entry k j bytes name h p = ground (arith, ap (λ x. bytes (32 * k + x)) (zero-add j))

beside_name : (j : ℕ) (bytes name : Mem) → beside bytes name (local_array + j) ≡ name (0 + j)
unfolding beside
beside_name j bytes name = ground (arith, ap name (zero-add j))

entry_small :
    (k j : ℕ) (bytes : Mem) → j < 11 → bytes (32 * k + j) < 256 → entry_at k bytes (0 + j) < 256
entry_small k j bytes p h = subst (λ x. entry_at k bytes x < 256) (sym (zero-add j)) (ground arith)

name_small : (j : ℕ) (name : Mem) → j < 11 → ((i : ℕ) → i < 11 → name i < 256) → name (0 + j) < 256
name_small j name p letters = subst (λ x. name x < 256) (sym (zero-add j)) (letters j p)

-- The branches of a round, by the outcomes of its tests.
branches :
    (k : ℕ) (ended same : Bool) (bytes : Mem) (next : Scanned) (rest : Search)
    → outcome (if ended then at_end else if same then found k else next) bytes rest ≡ (
        if ended
        then failed minus_two
        else if same
        then record { code = 0; file = entry_at k bytes; entry_offset = k }
        else outcome next bytes rest)
branches k true same bytes next rest = refl
branches k false true bytes next rest = refl
branches k false false bytes next rest = refl

strncmp-same_text :
    (n i a b : ℕ) (m e f : Mem)
    → ((j : ℕ) → j < n → (m (a + j) ≡ e (i + j)) × (m (b + j) ≡ f (i + j)))
    → ((j : ℕ) → j < n → (e (i + j) < 256) × (f (i + j) < 256))
    → (strncmp a b n m == 0) ≡ same_text n i e f
unfolding strncmp
strncmp-same_text zero i a b m e f same small = refl
strncmp-same_text (suc n) i a b m e f same small =
    let (first, second) = same 0 (omega arith) in
    let (low, low') = small 0 (omega arith) in
    let rest =
      strncmp-same_text n (i + 1) (a + 1) (b + 1) m e f
        (λ j h.
          let (p, q) = same (suc j) (omega arith) in
          (
            subst₂ (λ x y. m x ≡ e y) (omega arith) (omega arith) p,
            subst₂ (λ x y. m x ≡ f y) (omega arith) (omega arith) q,
          ))
        (λ j h.
          subst (λ x. (e x < 256) × (f x < 256)) (omega arith) (small (suc j) (omega arith))) in
    let here : m a ≡ e i = subst₂ (λ x y. m x ≡ e y) (add-zero a) (add-zero i) first in
    let there : m b ≡ f i = subst₂ (λ x y. m x ≡ f y) (add-zero b) (add-zero i) second in
    let low_here : e i < 256 = subst (λ x. e x < 256) (add-zero i) low in
    let low_there : f i < 256 = subst (λ x. f x < 256) (add-zero i) low' in
    rw (strncmp, here, there)
      (first_bytes (e i) (f i) (strncmp (a + 1) (b + 1) n m) (same_text n (i + 1) e f) low_here
        low_there rest)

matches-same_text :
    (k : ℕ) (name bytes : Mem)
    → k < 16
    → ((i : ℕ) → i < 11 → name i < 256)
    → ((i : ℕ) → i < 512 → bytes i < 256)
    → matches k name bytes ≡ same_text 11 0 (entry_at k bytes) name
matches-same_text k name bytes h letters small =
    strncmp-same_text 11 0 (32 * k) local_array (beside bytes name) (entry_at k bytes) name
      (λ j p. (beside_entry k j bytes name h p, beside_name j bytes name))
      (λ j p.
        (entry_small k j bytes p (small (32 * k + j) (omega arith)), name_small j name p letters))

pub outcome-look_up :
    (left k : ℕ) (name bytes : Mem) (rest : Search)
    → k + left < 16
    → ((i : ℕ) → i < 11 → name i < 256)
    → ((i : ℕ) → i < 512 → bytes i < 256)
    → outcome (scan left k name bytes) bytes rest ≡ look_up (suc left) k bytes name rest
unfolding scan
outcome-look_up zero k name bytes rest h letters small =
    rw (matches-same_text k name bytes (omega arith) letters small) (
      branches k (bytes (32 * k) == 0) (same_text 11 0 (entry_at k bytes) name) bytes exhausted
        rest)
outcome-look_up (suc left) k name bytes rest h letters small =
    rw (matches-same_text k name bytes (omega arith) letters small) (
      branches k (bytes (32 * k) == 0) (same_text 11 0 (entry_at k bytes) name) bytes
        (scan left (k + 1) name bytes) rest)
    ∙ ap
        (λ r.
          if bytes (32 * k) == 0
          then failed minus_two
          else if same_text 11 0 (entry_at k bytes) name
          then record { code = 0; file = entry_at k bytes; entry_offset = k }
          else r)
        (outcome-look_up left (k + 1) name bytes rest (omega arith) letters small)

module _ (drive : Drive) where
  open drive use {Device, sectors, IsReady, read_in_range}

  -- The sector of a cluster on a volume with one sector per cluster.
  abbrev pub cluster_bytes : Volume Device → ℕ → Mem
  cluster_bytes s c = sectors s.device (c - 2 + s.first_data_sector)

  -- The clusters `c ∷ cs` are a chain of the table, to its end.
  unfoldable pub IsChain : Volume Device → ℕ → List ℕ → Type 0
  IsChain s c [] = (2 ≤ c) × (c < s.total_clusters) × (end_cluster_32 ≤ entry drive s c % 2 ^ 28)
  IsChain s c (d ∷ cs) =
      (2 ≤ c)
      × (c < s.total_clusters)
      × (entry drive s c % 2 ^ 28 ≡ d)
      × (d < end_cluster_32)
      × IsChain s d cs

  pub cluster_read_lem :
      (s : Volume Device) (c : ℕ)
      → IsVolume drive s
      → 2 ≤ c
      → c < s.total_clusters
      → (d : Device) × (m : Mem) × (cluster_read drive c 0 s ≡ some (0, with_drive drive s d m))
        × IsReady d
        × IsByteMem m
        × (sectors d ≡ sectors s.device)
        × Agree m (cluster_bytes s c)
  unfolding cluster_read int13h_read_o
  cluster_read_lem s c v two below =
      let f = v.data_fits in
      let sector = c - 2 + s.first_data_sector in
      let (m, d, e, r, b, same, filled, outside) =
        read_in_range sector 1 0 s.transfer s.device v.ready v.bytes (omega arith) (omega arith)
          (omega arith) in
      let at : u32 ((c - 2) * 1 + s.first_data_sector) ≡ sector = omega arith in
      (
        d,
        m,
        ground (arith, v.sector_size, v.cluster_size, at, e),
        r,
        b,
        same,
        λ i h.
            subst₂ (λ x y. m x ≡ sectors s.device y i) (zero-add i) (add-zero sector)
              (filled 0 i (omega arith) h),
      )

  -- The volume after a cluster and its entry in the table are read.
  pub read_and_next :
      (s : Volume Device) (c : ℕ) (m : Mem) (d : Device)
      → IsVolume drive s
      → 2 ≤ c
      → c < s.total_clusters
      → IsReady d
      → IsByteMem m
      → sectors d ≡ sectors s.device
      → (d' : Device) × (m' : Mem) × (fat_read drive c (with_drive drive s d m)
          ≡ some (entry drive s c % 2 ^ 28, with_drive drive s d' m'))
        × IsReady d'
        × IsByteMem m'
        × (sectors d' ≡ sectors s.device)
        × SameOutside 0 512 m m'
  unfolding entry
  read_and_next s c m d v two below r b same =
      let (d', m', e, r', b', same', outside) =
        fat_read_lem drive (with_drive drive s d m) c (with_drive-IsVolume drive v r b) two below in
      (
        d',
        m',
        subst
            (λ (f : ℕ → ℕ → ℕ).
              fat_read drive c (with_drive drive s d m)
              ≡ some (
                load32 (f (entry_sector drive s c)) (entry_offset c) % 2 ^ 28,
                with_drive drive s d' m',
              ))
            same e,
        r',
        b',
        same' ∙ same,
        outside,
      )

  pub same-IsChain :
      (s : Volume Device) (d : Device) (m : Mem) (c : ℕ) (cs : List ℕ)
      → sectors d ≡ sectors s.device
      → IsChain s c cs
      → IsChain (with_drive drive s d m) c cs
  unfolding IsChain entry
  same-IsChain s d m c [] same (a, b, e) = (a, b, rw same e)
  same-IsChain s d m c (n ∷ cs) same (a, b, e, f, rest) =
      (a, b, rw same e, f, same-IsChain s d m n cs same rest)

  pub same_match :
      (s : Volume Device) (d : Device) (m name : Mem) (c : ℕ) (cs : List ℕ)
      → sectors d ≡ sectors s.device
      → first_match (cluster_bytes (with_drive drive s d m)) name c cs
        ≡ first_match (cluster_bytes s) name c cs
  same_match s d m name c cs same =
      ap (λ (f : ℕ → Mem). first_match (λ c'. f (c' - 2 + s.first_data_sector)) name c cs) same

  -- The scan of the cluster that was read.
  pub read_scan : (m bytes name : Mem) → Agree m bytes → scan 15 0 name m ≡ scan 15 0 name bytes
  read_scan m bytes name agree = scan_ext 15 0 name m bytes agree (omega arith)

  -- The file's entry is taken from the transfer area.
  pub read_entry :
      (m bytes name : Mem) (k : ℕ)
      → Agree m bytes
      → scan 15 0 name m ≡ found k
      → entry_at k m ≡ entry_at k bytes
  read_entry m bytes name k agree e =
      entry_at_ext k m bytes agree (omega (arith, scan_bound 15 0 name m k e))
