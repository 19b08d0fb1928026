-- ===== src/Fat/Directory/Listing.antt =====
-- directoryList of kernel/arch/i386/FAT.c. Its output here is the texts that it hands to d_printss and the
-- digits of d_printhex, for the entries: d_printss gives the first character of a text to printf as
-- a format, so the texts are not what the screen shows. The messages on errors are left out.
use potato_os.Base.{
  ℕ, zero, suc, ◌+◌, ◌-◌, ◌*◌, Option, none, some, Bool, true, false, List, [], ◌∷◌, ◌++◌, codes,
  Mem, u8, minus_one, bit_and, ◌>>>◌, ltb, leb, ◌==◌, ◌/=◌, ◌||◌, if◌then◌else◌,
}
use potato_os.Drive.{Drive}
use potato_os.Fat.{Call, pure, stop, get, ◌>>=◌}
use potato_os.Fat.Names.{convert_from_fat_format}
use potato_os.Fat.Table.{fat_read, cluster_read}
use potato_os.Fat.Directory.{
  file_directory, entry_free, entry_end, attributes, file_size, entry_at, entries_left, ends_chain,
  local_array, beside,
}

abbrev file_long_name : ℕ
file_long_name = 0x0F

-- `FILE_HIDDEN | FILE_SYSTEM`
abbrev default_hidden_attributes : ℕ
default_hidden_attributes = 0x06

-- `exclusive` is FALSE, TRUE or another number.
unfoldable attributes_to_hide : (attributes_to_add exclusive : ℕ) → ℕ
attributes_to_hide attributes_to_add exclusive =
    if exclusive == 0
    then bit_and default_hidden_attributes (u8 (0xFF - u8 attributes_to_add))
    else if exclusive == 1
    then 0xFF - u8 attributes_to_add
    else default_hidden_attributes

-- The bytes at `p` before the NUL, of the `left` that an array has.
unfoldable pub name_text : (left p : ℕ) → Mem → List ℕ
name_text zero p m = []
name_text (suc left) p m =
    let rest = name_text left (p + 1) m in if m p == 0 then [] else m p ∷ rest

-- The digits of d_printhex.
unfoldable pub size_text : (num left : ℕ) → List ℕ
size_text num zero = []
size_text num (suc left) =
    let buf = bit_and (num >>> (left * 4)) 0xF in
    (if ltb buf 10 then buf + 48 else buf + (65 - 10)) ∷ size_text num left

abbrev is_directory_entry : Mem → Bool
is_directory_entry entry = bit_and (attributes entry) file_directory == file_directory

-- The line of a regular entry, with its name in 8.3 form; `stale` is what the array for the name held.
unfoldable pub entry_line : (stale : Mem) (count : ℕ) (transfer : Mem) → List ℕ
entry_line stale count transfer =
    let entry = entry_at count transfer in
    let conversion = convert_from_fat_format (32 * count) local_array (beside transfer stale) in
    name_text 13 local_array conversion
    ++ (9 ∷ [])
    ++ (if is_directory_entry entry then 9 ∷ [] else size_text (file_size entry) 8)
    ++ (9 ∷ [])
    ++ (if is_directory_entry entry then codes "DIR" else [])
    ++ (10 ∷ [])

-- The line of `.` or `..`.
unfoldable pub dot_line : (count : ℕ) (transfer : Mem) → List ℕ
dot_line count transfer =
    (if transfer (32 * count + 1) == 46 then 46 ∷ 46 ∷ [] else 46 ∷ [])
    ++ (9 ∷ 9 ∷ 9 ∷ codes "DIR")
    ++ (10 ∷ [])

-- A free entry, a piece of a long name, or one with an attribute that is not wanted.
unfoldable pub is_skipped : (hide count : ℕ) (transfer : Mem) → Bool
is_skipped hide count transfer =
    (transfer (32 * count) == entry_free)
    || ((bit_and (attributes (entry_at count transfer)) file_long_name == file_long_name)
        || (bit_and (attributes (entry_at count transfer)) hide /= 0))

-- What the loop over the entries of one cluster ends with, and the texts it handed to d_printss.
pub data Listed : Type 0 where
  all_listed : List ℕ → Listed
  cluster_over : List ℕ → Listed

abbrev pub behind : List ℕ → Option Listed → Option Listed
behind line none = none
behind line (some (all_listed rest)) = some (all_listed (line ++ rest))
behind line (some (cluster_over rest)) = some (cluster_over (line ++ rest))

-- `while (1)`: only a skipped entry is tested for the end of the cluster.
unfoldable pub list_entries :
    (fuel hide last_entry : ℕ) (stale : Mem) (count : ℕ) (transfer : Mem) → Option Listed
list_entries zero hide last_entry stale count transfer = none
list_entries (suc fuel) hide last_entry stale count transfer =
    let rest = list_entries fuel hide last_entry stale (count + 1) transfer in
    if transfer (32 * count) == entry_end
    then some (all_listed [])
    else if transfer (32 * count) == 46
    then behind (dot_line count transfer) rest
    else if is_skipped hide count transfer
    then (if ltb count last_entry then rest else some (cluster_over []))
    else behind (entry_line stale count transfer) rest

abbrev print_before : {D : Type 0} → List ℕ → ℕ × List ℕ → Call D (ℕ × List ℕ)
print_before line (code, rest) = pure (code, line ++ rest)

module _ (drive : Drive) where
  open drive use {Device}

  -- The return value and the output. An unsigned number is never below 0, so an error of FATRead counts
  -- as the end of the chain.
  unfoldable directory_list :
      (fuel entry_fuel cluster attributes_to_add exclusive : ℕ) → Call Device (ℕ × List ℕ)
  directory_list zero entry_fuel cluster attributes_to_add exclusive = stop
  directory_list (suc fuel) entry_fuel cluster attributes_to_add exclusive = do
    s ← get
    if ltb cluster 2 || leb s.total_clusters cluster then pure (minus_one, []) else (do
      code ← cluster_read drive cluster 0
      s' ← get
      if code /= 0
          then pure (minus_one, [])
          else elim (list_entries entry_fuel (attributes_to_hide attributes_to_add exclusive)
              (entries_left s') s'.stale 0 s'.transfer) [
                | none ↦ stop
                | some (all_listed printed) ↦ pure (0, printed)
                | some (cluster_over printed) ↦ (do
                  next_cluster ← fat_read drive cluster
                  elim (ends_chain s'.fat_type next_cluster) [
                    | true ↦ pure (0, printed)
                    | false ↦ (do
                      r ← directory_list fuel entry_fuel next_cluster attributes_to_add exclusive
                      print_before printed r)
                  ])
              ])
