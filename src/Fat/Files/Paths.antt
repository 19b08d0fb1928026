-- ===== src/Fat/Files/Paths.antt =====
-- The walk of getFile of kernel/arch/i386/FAT.c along a path.
use potato_os.Base.{
  ltb, ℕ, zero, suc, ◌+◌, ◌-◌, ◌≤◌, ◌<◌, ◌≡◌, ◌≢◌, ne→==, refl, ◌⊎◌, inl, inr, some, List, [], ◌∷◌,
  length, Mem, u16, arith, ◌==◌, ◌||◌, true, false, Bool-cases, ==→eq, ==→ne, minus_one, minus_two,
}
use mathlib.Core.Path.{ap, ◌∙◌, sym, subst}
use native.Mathlib.Nat.{zero-add, add-zero}
use potato_os.Drive.{Drive, IsByteMem}
use potato_os.Fat.{Volume}
use potato_os.Fat.Table.Sector.{IsVolume, with_drive, with_drive-IsVolume}
use potato_os.Fat.Directory.{Search, search_name, directory_search, get_cluster_from_entry}
use potato_os.Fat.Directory.Chain.{first_match, cluster_bytes, IsChain, same-IsChain, same_match}
use potato_os.Fat.Directory.Lookup.{directory_search-first_match}
use potato_os.Fat.Files.{Walk, walk_path, file_name_part}

-- One part of a path: the place behind it, its name in the form of the directory, and the clusters
-- behind the first of the directory that it is looked up in.
pub record Part : Type 0 where
  pub end : ℕ
  pub name : Mem
  pub clusters : List ℕ

-- The bytes from `start` on are a part of the path, up to a backslash or the end at `stop`.
abbrev IsPart : (path : Mem) (start stop : ℕ) → Type 0
IsPart path start stop =
    (path (start - 1) ≢ 0)
    × (start ≤ stop)
    × (stop < 65535)
    × (stop - start < 256)
    × ((k : ℕ) → start ≤ k → k < stop → (path k ≢ 0) × (path k ≢ 0x5C))
    × ((path stop ≡ 0) ⊎ (path stop ≡ 0x5C))

-- The rounds of the walk: one for each byte, and one behind the end.
abbrev pub rounds : (start : ℕ) → List Part → ℕ
rounds start [] = 1
rounds start (part ∷ parts) = part.end - start + suc (rounds (part.end + 1) parts)

-- `chain_fuel` is enough for every directory on the way.
abbrev pub AreShort : (chain_fuel : ℕ) → List Part → Type 0
AreShort chain_fuel [] = Unit {0}
AreShort chain_fuel (part ∷ parts) = (length part.clusters < chain_fuel) × AreShort chain_fuel parts

-- The byte in front of a part's end is not the path's end.
before_stop :
    (path : Mem) (start stop : ℕ)
    → path (start - 1) ≢ 0
    → start ≤ stop
    → ((k : ℕ) → start ≤ k → k < stop → path k ≢ 0)
    → path (stop - 1) ≢ 0
before_stop path start stop before up bytes = elim (Bool-cases (start == stop)) [
  | inl e ↦ subst (λ k. path (k - 1) ≢ 0) (==→eq start stop e) before
  | inr e ↦
      let apart = ==→ne start stop e in
      bytes (stop - 1) (omega (arith, apart)) (omega (arith, apart))
]

module _ (drive : Drive) where
  open drive use {Device, sectors, IsReady}

  -- The parts of the path from `start` on lead from the directory at cluster `c` to the entry of the
  -- result: each directory is a chain of the table, and its first match is the next entry.
  unfoldable pub Resolves :
      (s : Volume Device) (name_fuel : ℕ) (path : Mem) (start c : ℕ) (file : Mem)
      → List Part
      → Walk
      → Type 0
  Resolves s name_fuel path start c file [] w =
      (path (start - 1) ≡ 0) × (w ≡ record { code = 0; file_info = file; active_cluster = c })
  Resolves s name_fuel path start c file (part ∷ parts) w =
      IsPart path start part.end
      × (search_name name_fuel (file_name_part path start part.end) ≡ some part.name)
      × ((i : ℕ) → i < 11 → part.name i < 256)
      × IsChain drive s c part.clusters
      × ((first_match (cluster_bytes drive s) part.name c part.clusters).code ≡ 0)
      × Resolves s name_fuel path (part.end + 1)
          (get_cluster_from_entry s.fat_type
            (first_match (cluster_bytes drive s) part.name c part.clusters).file)
          (first_match (cluster_bytes drive s) part.name c part.clusters).file parts w

  -- The walk goes on over a byte inside of a part.
  inside :
      (fuel chain_fuel name_fuel : ℕ) (path : Mem) (iterator start c : ℕ) (file : Mem)
      (s : Volume Device)
      → path (iterator - 1) ≢ 0
      → path iterator ≢ 0
      → path iterator ≢ 0x5C
      → walk_path drive (suc fuel) chain_fuel name_fuel path iterator start c file s
        ≡ walk_path drive fuel chain_fuel name_fuel path (iterator + 1) start c file s
  unfolding walk_path
  inside fuel chain_fuel name_fuel path iterator start c file s before here beside =
      rw
        (
          walk_path,
          ne→== (path (iterator - 1)) 0 before,
          ne→== (path iterator) 0x5C beside,
          ne→== (path iterator) 0 here,
        )
        refl

  over :
      (left fuel chain_fuel name_fuel : ℕ) (path : Mem) (iterator start c : ℕ) (file : Mem)
      (s : Volume Device)
      → path (iterator - 1) ≢ 0
      → ((k : ℕ) → iterator ≤ k → k < iterator + left → (path k ≢ 0) × (path k ≢ 0x5C))
      → walk_path drive (left + fuel) chain_fuel name_fuel path iterator start c file s
        ≡ walk_path drive fuel chain_fuel name_fuel path (iterator + left) start c file s
  over zero fuel chain_fuel name_fuel path iterator start c file s before bytes =
      rw (zero-add fuel, add-zero iterator) refl
  over (suc left) fuel chain_fuel name_fuel path iterator start c file s before bytes =
      let (here, beside) = bytes iterator (omega arith) (omega arith) in
      let back : iterator + 1 - 1 ≡ iterator = omega arith in
      let on : iterator + 1 + left ≡ iterator + suc left = omega arith in
      let steps : suc left + fuel ≡ suc (left + fuel) = omega arith in
      ap (λ k. walk_path drive k chain_fuel name_fuel path iterator start c file s) steps
      ∙ inside (left + fuel) chain_fuel name_fuel path iterator start c file s before here beside
      ∙ over left fuel chain_fuel name_fuel path (iterator + 1) start c file s
          (subst (λ k. path k ≢ 0) (sym back) here) (λ k p q. bytes k (omega arith) (omega arith))
      ∙ ap (λ k. walk_path drive fuel chain_fuel name_fuel path k start c file s) on

  -- At the end of a part it is looked up.
  looked_up :
      (fuel chain_fuel name_fuel : ℕ) (path : Mem) (iterator start c : ℕ) (file : Mem) (r : Search)
      (s s' : Volume Device)
      → path (iterator - 1) ≢ 0
      → (path iterator ≡ 0) ⊎ (path iterator ≡ 0x5C)
      → iterator < 65535
      → iterator - start < 256
      → directory_search drive chain_fuel name_fuel (file_name_part path start iterator) c s
        ≡ some (r, s')
      → r.code ≡ 0
      → walk_path drive (suc fuel) chain_fuel name_fuel path iterator start c file s
        ≡ walk_path drive fuel chain_fuel name_fuel path
            (iterator + 1)
            (iterator + 1)
            (get_cluster_from_entry s.fat_type r.file)
            r.file
            s'
  unfolding walk_path
  looked_up fuel chain_fuel name_fuel path iterator start c file r s s' before stop small short
        found ok =
      let next : u16 (iterator + 1) ≡ iterator + 1 = omega arith in
      let ended : ((path iterator == 0x5C) || (path iterator == 0)) ≡ true = ground arith in
      let in_array : ltb 255 (iterator - start) ≡ false = ground arith in
      let no_error : ((r.code == minus_two) || (r.code == minus_one)) ≡ false = ground arith in
      ground (arith, ne→== (path (iterator - 1)) 0 before, ended, in_array, found, no_error, next)

  -- Behind the end of the path the walk is over.
  arrived :
      (fuel chain_fuel name_fuel : ℕ) (path : Mem) (iterator start c : ℕ) (file : Mem)
      (s : Volume Device)
      → path (iterator - 1) ≡ 0
      → walk_path drive (suc fuel) chain_fuel name_fuel path iterator start c file s
        ≡ some (record { code = 0; file_info = file; active_cluster = c }, s)
  unfolding walk_path
  arrived fuel chain_fuel name_fuel path iterator start c file s e = rw (walk_path, e) refl

  -- What holds of a volume holds after its drive has only moved on.
  same-Resolves :
      (s : Volume Device) (d : Device) (m : Mem) (name_fuel : ℕ) (path : Mem) (start c : ℕ)
      (file : Mem) (parts : List Part) (w : Walk)
      → sectors d ≡ sectors s.device
      → Resolves s name_fuel path start c file parts w
      → Resolves (with_drive drive s d m) name_fuel path start c file parts w
  unfolding Resolves
  same-Resolves s d m name_fuel path start c file [] w same h = h
  same-Resolves s d m name_fuel path start c file (part ∷ parts) w same
        (a, named, letters, chain, found, rest) =
      let e = sym (same_match drive s d m part.name c part.clusters same) in
      (
        a,
        named,
        letters,
        same-IsChain drive s d m c part.clusters same chain,
        subst (λ (r : Search). r.code ≡ 0) e found,
        subst
            (λ (r : Search).
              Resolves (with_drive drive s d m) name_fuel path (part.end + 1)
                (get_cluster_from_entry s.fat_type r.file) r.file parts w)
            e
            (same-Resolves s d m name_fuel path (part.end + 1)
              (get_cluster_from_entry s.fat_type
                (first_match (cluster_bytes drive s) part.name c part.clusters).file)
              (first_match (cluster_bytes drive s) part.name c part.clusters).file parts w same
              rest),
      )

  -- On a FAT32 volume with one sector per cluster, the walk along a path that resolves ends with the
  -- entry of its last part, once it has fuel for the bytes of the path and for the directories. The
  -- sectors are not changed.
  pub walk_path-Resolves :
      (fuel chain_fuel name_fuel : ℕ) (path : Mem) (start c : ℕ) (file : Mem) (parts : List Part)
      (w : Walk) (s : Volume Device)
      → IsVolume drive s
      → Resolves s name_fuel path start c file parts w
      → rounds start parts ≤ fuel
      → AreShort chain_fuel parts
      → (d : Device) × (m : Mem) × (walk_path drive fuel chain_fuel name_fuel path start start c
            file s
          ≡ some (w, with_drive drive s d m))
        × IsReady d
        × IsByteMem m
        × (sectors d ≡ sectors s.device)
  unfolding Resolves
  walk_path-Resolves zero chain_fuel name_fuel path start c file [] w s v h enough short =
      absurd (omega arith)
  walk_path-Resolves (suc fuel) chain_fuel name_fuel path start c file [] w s v (ended, e) enough
        short =
      (
        s.device,
        s.transfer,
        arrived fuel chain_fuel name_fuel path start start c file s ended
            ∙ ap (λ x. some (x, s)) (sym e),
        v.ready,
        v.bytes,
        refl,
      )
  walk_path-Resolves fuel chain_fuel name_fuel path start c file (part ∷ parts) w s v
        ((before, up, small, narrow, bytes, stop), named, letters, chain, ok, rest) enough
        (fits, short) =
      let left = part.end - start in
      let fuel' = fuel - left - 1 in
      let steps : fuel ≡ left + suc fuel' = omega arith in
      let at : start + left ≡ part.end = omega arith in
      let r = first_match (cluster_bytes drive s) part.name c part.clusters in
      let (d, m, found, r', b, same) =
        directory_search-first_match drive chain_fuel name_fuel c part.clusters
          (file_name_part path start part.end) part.name s v chain fits named letters in
      let s' = with_drive drive s d m in
      let next = get_cluster_from_entry s.fat_type r.file in
      let (d₂, m₂, e₂, r₂, b₂, same₂) =
        walk_path-Resolves fuel' chain_fuel name_fuel path (part.end + 1) next r.file parts w s'
          (with_drive-IsVolume drive v r' b)
          (same-Resolves s d m name_fuel path (part.end + 1) next r.file parts w same rest)
          (omega arith) short in
      (
        d₂,
        m₂,
        ap (λ k. walk_path drive k chain_fuel name_fuel path start start c file s) steps
            ∙ over left (suc fuel') chain_fuel name_fuel path start start c file s before
                (λ k p q. bytes k p (omega arith))
            ∙ ap (λ k. walk_path drive (suc fuel') chain_fuel name_fuel path k start c file s) at
            ∙ looked_up fuel' chain_fuel name_fuel path part.end start c file r s s'
                (before_stop path start part.end before up (λ k p q. (bytes k p q).0)) stop small
                narrow found ok
            ∙ e₂,
        r₂,
        b₂,
        same₂ ∙ same,
      )
