-- ===== src/Fat/Files/Tests.antt =====
-- Files on volumes in memory: five bytes written to a blank one, and README.TXT read from the root.
use potato_os.Base.{
  ℕ, ◌+◌, ◌<◌, ◌≡◌, none, some, [], ◌∷◌, Mem, upd, store_list, arith, ◌==◌, if◌then◌else◌, ltb,
  ◌&&◌,
}
use potato_os.Drive.Ram.{Sectors, ram_drive}
use potato_os.Fat.{Volume}
use potato_os.Fat.Table.{zeroed}
use potato_os.Fat.Names.Format.{IsNameByte}
use potato_os.Fat.Names.Printed.{IsEntryName}
use potato_os.Fat.Names.Convert.{or_blank}
use potato_os.Fat.Names.{uppercase}
use potato_os.Fat.Directory.{search_name, get_cluster_from_entry}
use potato_os.Fat.Directory.Chain.{first_match, cluster_bytes}
use potato_os.Fat.Sample.{blank}
use potato_os.Fat.Files.{Walk, file_name_part, output_name}
use potato_os.Fat.Files.Named.{search_name-output_name}
use potato_os.Fat.Files.Paths.{Part}

abbrev letters : Mem
letters i = 0x41

-- The root is cluster 2; the file is cluster 5, then 6.
abbrev table : Mem
unfolding store_list upd
table =
    store_list (store_list zeroed 8 (0xFF ∷ 0xFF ∷ 0xFF ∷ 0x0F ∷ [])) 20
      (6 ∷ 0 ∷ 0 ∷ 0 ∷ 0xFF ∷ 0xFF ∷ 0xFF ∷ 0x0F ∷ [])

-- The first entry, of 600 bytes.
abbrev root : Mem
unfolding store_list upd
root =
    store_list (store_list zeroed 26 (5 ∷ 0 ∷ 0x58 ∷ 2 ∷ [])) 0
      (0x52 ∷ 0x45 ∷ 0x41 ∷ 0x44 ∷ 0x4D ∷ 0x45 ∷ 0x20 ∷ 0x20 ∷ 0x54 ∷ 0x58 ∷ 0x54 ∷ [])

abbrev disk : Sectors
disk n i =
    if n == 32
    then table i
    else if n == 1126
    then root i
    else if n == 1129
    then 0x41
    else if n == 1130
    then 0x42
    else 0

abbrev volume : Volume Sectors
volume = record blank { device = disk }

-- C:\README.TXT
abbrev path : Mem
unfolding store_list upd
path =
    store_list zeroed 0 (
      0x43 ∷ 0x3A ∷ 0x5C ∷ 0x52 ∷ 0x45 ∷ 0x41 ∷ 0x44 ∷ 0x4D ∷ 0x45 ∷ 0x2E ∷ 0x54 ∷ 0x58 ∷ 0x54 ∷ [])

abbrev readme_name : Mem
unfolding search_name
readme_name = elim (search_name 16 (file_name_part path 3 13)) [ none ↦ zeroed | some n ↦ n ]

abbrev readme : Part
readme = record { end = 13; name = readme_name; clusters = [] }

abbrev found : Mem
found = (first_match (cluster_bytes ram_drive volume) readme_name 2 []).file

abbrev walk : Walk
walk = record { code = 0; file_info = found; active_cluster = get_cluster_from_entry 32 found }

-- MAIN.C, over an output that held Z behind the extension.
abbrev main_c : Mem
unfolding store_list upd
main_c =
    store_list (store_list (upd (λ _. 0x20) 70 0x5A) 0 (0x4D ∷ 0x41 ∷ 0x49 ∷ 0x4E ∷ [])) 8
      (0x43 ∷ [])

main_c-IsEntryName : IsEntryName 0 4 1 main_c
unfolding main_c store_list upd
main_c-IsEntryName = record {
  base_fits = omega arith;
  not_empty = omega arith;
  suffix_fits = omega arith;
  base = λ i h. ground arith;
  base_end = λ i p q. ground arith;
  suffix = λ i h. ground arith;
  suffix_end = λ i p q. ground arith;
  no_dot = ground arith;
}

main_c_bytes : (j : ℕ) → j < 11 → IsNameByte (main_c j)
unfolding main_c store_list upd
main_c_bytes j h = ground arith

-- The search is for MAIN with the extension CZ.
search_name-output_name_example :
    (name : Mem) × (search_name 13 (output_name main_c) ≡ some name)
    × ((i : ℕ)
        → i < 11
        → name i ≡ (
            if ltb 0 1 && (i == 8 + 1)
            then or_blank (uppercase (main_c (64 + (4 + 1 + 1))))
            else main_c i))
search_name-output_name_example =
    search_name-output_name 4 1 main_c main_c-IsEntryName main_c_bytes 13 (omega arith)
