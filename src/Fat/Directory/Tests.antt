-- ===== src/Fat/Directory/Tests.antt =====
-- A directory of two clusters, and searches in it.
use potato_os.Base.{
  ◌++◌, codes, ◌≡◌, refl, none, some, [], ◌∷◌, Mem, upd, store_list, arith, ◌==◌, if◌then◌else◌,
}
use potato_os.Drive.Ram.{Sectors, ram_drive}
use potato_os.Strings.{strlen}
use potato_os.Fat.{Volume, load32}
use potato_os.Fat.Table.{zeroed}
use potato_os.Fat.Names.{convert_from_fat_format, convert_to_fat_format, test_if_fat_format}
use potato_os.Fat.Directory.{get_cluster_from_entry, set_cluster, search_name, beside}
use potato_os.Fat.Sample.{blank}
use potato_os.Fat.Directory.Chain.{first_match, cluster_bytes}
use potato_os.Fat.Directory.Numbers.{get_cluster_from_entry-set_cluster}
use potato_os.Fat.Directory.Listing.{
  entry_line, is_skipped, name_text, size_text, all_listed, list_entries,
}

-- Cluster 2 goes on in cluster 3, where the chain ends.
abbrev table : Mem
unfolding store_list upd
table = store_list zeroed 8 (3 ∷ 0 ∷ 0 ∷ 0 ∷ 0xF8 ∷ 0xFF ∷ 0xFF ∷ 0x0F ∷ [])

-- Entry 5 of the second cluster is README.TXT; the others have another name.
abbrev readme_entry : Mem
unfolding store_list upd
readme_entry =
    store_list (λ i. 0x58) 160
      (0x52 ∷ 0x45 ∷ 0x41 ∷ 0x44 ∷ 0x4D ∷ 0x45 ∷ 0x20 ∷ 0x20 ∷ 0x54 ∷ 0x58 ∷ 0x54 ∷ [])

abbrev disk : Sectors
disk n i =
    if n == 32 then table i else if n == 1126 then 0x58 else if n == 1127 then readme_entry i else 0

abbrev volume : Volume Sectors
volume = record blank { device = disk }

abbrev readme_txt : Mem
unfolding store_list upd
readme_txt =
    store_list zeroed 0 (0x72 ∷ 0x65 ∷ 0x61 ∷ 0x64 ∷ 0x6D ∷ 0x65 ∷ 0x2E ∷ 0x74 ∷ 0x78 ∷ 0x74 ∷ [])

abbrev readme_name : Mem
unfolding search_name
readme_name = elim (search_name 16 readme_txt) [ none ↦ zeroed | some name ↦ name ]

-- The match is entry 5 of the second cluster.
readme_found :
    ((first_match (cluster_bytes ram_drive volume) readme_name 2 (3 ∷ [])).code ≡ 0)
    × ((first_match (cluster_bytes ram_drive volume) readme_name 2 (3 ∷ [])).entry_offset ≡ 5)
unfolding first_match search_name test_if_fat_format convert_to_fat_format readme_name readme_txt
    store_list upd strlen readme_entry
readme_found = (refl, refl)

get_cluster_from_entry-set_cluster_example :
    get_cluster_from_entry 32 (set_cluster 32 0x12345 zeroed) ≡ 0x10005
get_cluster_from_entry-set_cluster_example =
    get_cluster_from_entry-set_cluster 0x12345 zeroed (omega arith)

abbrev new_file : Mem
unfolding store_list upd
new_file =
    store_list zeroed 0
      (0x52 ∷ 0x45 ∷ 0x41 ∷ 0x44 ∷ 0x4D ∷ 0x45 ∷ 0x20 ∷ 0x20 ∷ 0x54 ∷ 0x58 ∷ 0x54 ∷ [])

-- One file, and the end mark.
abbrev one_file : Mem
one_file = store_list (λ _. 0) 0 (codes "FOO     TXT" ++ (0x20 ∷ []))

listed_one_file :
    list_entries 2 6 15 zeroed 0 one_file
    ≡ some (all_listed (codes "FOO.TXT     " ++ (9 ∷ codes "00000000" ++ (9 ∷ 10 ∷ []))))
unfolding store_list upd entry_line is_skipped convert_from_fat_format name_text size_text beside
    load32 list_entries
listed_one_file = refl
