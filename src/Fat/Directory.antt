-- ===== src/Fat/Directory.antt =====
-- directorySearch and directoryAdd of kernel/arch/i386/FAT.c. A chain of clusters may be cyclic, so a
-- search takes fuel, one for each cluster it reads; `stop` is a search that goes on for longer.
pub mod Chain
pub mod Lookup
pub mod Numbers
pub mod Slot
pub mod Overwrite
pub mod First
pub mod Listing
mod Tests
use potato_os.Base.{
  ℕ, zero, suc, ◌+◌, ◌*◌, ◌-◌, ◌/◌, ◌^◌, Option, none, some, Bool, true, false, Mem, upd, u8, u16,
  u32, sub32, minus_one, minus_two, bit_and, bit_or, ◌<<<◌, ◌>>>◌, ltb, leb, ◌==◌, ◌/=◌, ◌&&◌, ◌||◌,
  if◌then◌else◌,
}
use potato_os.Strings.{strncmp}
use potato_os.Drive.{Drive}
use potato_os.Fat.{Volume, Call, pure, stop, get, put, ◌>>=◌, ◌>>◌, load16, load32, store16}
use potato_os.Fat.Names.{test_if_fat_format, copy_name, convert_to_fat_format}
use potato_os.Fat.Table.{
  zeroed, fat_read, fat_write, allocate_free_fat, cluster_read, cluster_write, end_cluster_32,
  end_cluster_16, end_cluster_12, bad_cluster_32, bad_cluster_16, bad_cluster_12,
}

abbrev pub file_directory : ℕ
file_directory = 0x10

abbrev pub entry_free : ℕ
entry_free = 0xE5

abbrev pub entry_end : ℕ
entry_end = 0x00

-- A `directory_entry_t` is its 32 bytes from address 0, the name first.
abbrev pub attributes : Mem → ℕ
attributes entry = entry 11

abbrev high_bits : Mem → ℕ
high_bits entry = load16 entry 20

abbrev low_bits : Mem → ℕ
low_bits entry = load16 entry 26

abbrev pub file_size : Mem → ℕ
file_size entry = load32 entry 28

-- The macros on an entry's cluster number.
unfoldable pub get_cluster_from_entry : (fat_type : ℕ) → Mem → ℕ
unfolding load16
get_cluster_from_entry fat_type entry =
    bit_or (low_bits entry) (u32 (high_bits entry <<< (fat_type / 2)))

abbrev pub get_entry_low_bits : (fat_type x : ℕ) → ℕ
get_entry_low_bits fat_type x = bit_and x (fat_type / 2 - 1)

abbrev pub get_entry_high_bits : (fat_type x : ℕ) → ℕ
get_entry_high_bits fat_type x = x >>> (fat_type / 2)

-- The tests of a FATRead that ends a chain, and of an allocation that failed.
abbrev pub ends_chain : (fat_type cluster : ℕ) → Bool
ends_chain fat_type cluster =
    (leb end_cluster_32 cluster && (fat_type == 32))
    || ((leb end_cluster_16 cluster && (fat_type == 16))
        || (leb end_cluster_12 cluster && (fat_type == 12)))

abbrev pub is_bad : (fat_type cluster : ℕ) → Bool
is_bad fat_type cluster =
    ((cluster == bad_cluster_32) && (fat_type == 32))
    || (((cluster == bad_cluster_16) && (fat_type == 16))
        || ((cluster == bad_cluster_12) && (fat_type == 12)))

-- Where a local array stands beside the transfer area.
abbrev pub local_array : ℕ
local_array = 2 ^ 32

unfoldable pub beside : (transfer array : Mem) → Mem
beside transfer array a = if ltb a local_array then transfer a else array (a - local_array)

-- `searchName`, from the caller's name at address 0 of its memory. The array has 13 bytes, and a
-- longer name overruns it: `none`, as for a name that the fuel does not end.
unfoldable pub search_name : (fuel : ℕ) → Mem → Option Mem
search_name fuel filepart = elim (copy_name 13 0 0 filepart zeroed) [
  | none ↦ none
  | some name ↦
      if test_if_fat_format 0 name /= 0 then convert_to_fat_format fuel 0 name else some name
]

-- What the loop over the entries of one cluster ends with.
pub data Scanned : Type 0 where
  at_end : Scanned
  exhausted : Scanned
  found : ℕ → Scanned

-- The entry at `count` is the searched one.
abbrev pub matches : (count : ℕ) (name transfer : Mem) → Bool
matches count name transfer = strncmp (32 * count) local_array 11 (beside transfer name) == 0

-- From entry `count` on, with `left` entries of the cluster behind it.
unfoldable pub scan : (left count : ℕ) (name transfer : Mem) → Scanned
unfolding beside
scan zero count name transfer =
    if transfer (32 * count) == entry_end
    then at_end
    else if matches count name transfer
    then found count
    else exhausted
scan (suc left) count name transfer =
    let next = scan left (count + 1) name transfer in
    if transfer (32 * count) == entry_end
    then at_end
    else if matches count name transfer
    then found count
    else next

-- The entries of a cluster behind the first: `cluster size / sizeof(directory_entry_t) - 1`.
abbrev pub entries_left : {D : Type 0} → Volume D → ℕ
entries_left s = sub32 (s.bootsect.bytes_per_sector * s.bootsect.sectors_per_cluster / 32) 1

-- The return value, and what is stored through `file` and `entryOffset` when it is 0.
pub record Search : Type 0 where
  pub code : ℕ
  pub file : Mem
  pub entry_offset : ℕ

abbrev pub failed : ℕ → Search
failed code = record { code = code; file = zeroed; entry_offset = 0 }

-- `memcpy(file, file_metadata, sizeof(directory_entry_t))`.
abbrev pub entry_at : (count : ℕ) → Mem → Mem
entry_at count transfer i = if ltb i 32 then transfer (32 * count + i) else 0

module _ (drive : Drive) where
  open drive use {Device}

  -- `next_cluster` is an `int` here, and a negative one is below every mark of a chain's end.
  unfoldable pub directory_search :
      (fuel name_fuel : ℕ) (filepart : Mem) (cluster : ℕ) → Call Device Search
  directory_search zero name_fuel filepart cluster = stop
  directory_search (suc fuel) name_fuel filepart cluster = do
    s ← get
    if ltb cluster 2 || leb s.total_clusters cluster
        then pure (failed minus_one)
        else elim (search_name name_fuel filepart) [
          | none ↦ stop
          | some name ↦ (do
            code ← cluster_read drive cluster 0
            s' ← get
            if code /= 0
                then pure (failed minus_one)
                else elim (scan (entries_left s') 0 name s'.transfer) [
                  | at_end ↦ pure (failed minus_two)
                  | found k ↦
                      pure (record { code = 0; file = entry_at k s'.transfer; entry_offset = k })
                  | exhausted ↦ (do
                    next_cluster ← fat_read drive cluster
                    if leb (2 ^ 31) next_cluster
                        then pure (failed minus_one)
                        else elim (ends_chain s'.fat_type next_cluster) [
                          | true ↦ pure (failed minus_two)
                          | false ↦ directory_search fuel name_fuel filepart next_cluster
                        ])
                ])
        ]

-- A slot that a new entry may take.
abbrev is_vacant : ℕ → Bool
is_vacant first = (first == entry_free) || (first == entry_end)

-- The search of directoryAdd for one, from entry `count` on.
unfoldable pub vacant_slot : (left count : ℕ) (transfer : Mem) → Option ℕ
vacant_slot zero count transfer = if is_vacant (transfer (32 * count)) then some count else none
vacant_slot (suc left) count transfer =
    let next = vacant_slot left (count + 1) transfer in
    if is_vacant (transfer (32 * count)) then some count else next

-- The loop over `dot_checker`.
unfoldable pub has_dot : (left dot_checker : ℕ) → Mem → Bool
has_dot zero dot_checker file = false
has_dot (suc left) dot_checker file =
    let next = has_dot left (dot_checker + 1) file in
    if file dot_checker == b'.' then true else next

abbrev current_time : ℕ
current_time = 0

abbrev current_date : ℕ
current_date = 0x11

abbrev current_time_tenths : ℕ
current_time_tenths = 0

-- The dates and times of a new entry.
unfoldable pub stamp : Mem → Mem
unfolding store16
stamp file =
    store16
      (store16
        (store16
          (upd (store16 (store16 file 16 current_date) 14 current_time) 13 current_time_tenths) 18
          current_date)
        24 current_date)
      22 current_time

-- `low_bits` and `high_bits`.
unfoldable pub set_cluster : (fat_type cluster : ℕ) → Mem → Mem
unfolding store16
set_cluster fat_type cluster file =
    store16 (store16 file 26 (u16 (get_entry_low_bits fat_type cluster))) 20
      (u16 (get_entry_high_bits fat_type cluster))

-- `memcpy(file_metadata, file_to_add, sizeof(directory_entry_t))`.
unfoldable pub put_entry : (count : ℕ) (file transfer : Mem) → Mem
put_entry count file transfer i =
    if leb (32 * count) i && ltb i (32 * count + 32) then file (i - 32 * count) else transfer i

module _ (drive : Drive) where
  open drive use {Device}

  -- The branch of directoryAdd that has found a slot: the return value and the entry as it is left.
  unfoldable pub add_entry : (cluster count : ℕ) (file_to_add : Mem) → Call Device (ℕ × Mem)
  unfolding stamp set_cluster put_entry has_dot
  add_entry cluster count file_to_add =
      if has_dot 11 0 file_to_add then pure (minus_one, file_to_add) else (do
        new_cluster ← allocate_free_fat drive
        s ← get
        if is_bad s.fat_type new_cluster then pure (minus_one, stamp file_to_add) else (do
          let file = set_cluster s.fat_type new_cluster (stamp file_to_add)
          let transfer = put_entry count file s.transfer
          put (record s { transfer = transfer })
          code ←
              cluster_write drive transfer
                (s.bootsect.bytes_per_sector * s.bootsect.sectors_per_cluster) 0 cluster
          pure ((if code /= 0 then minus_one else 0), file)))

  -- `next_cluster` is unsigned here, and a FATRead that fails with -1 counts as the end of the chain.
  unfoldable pub directory_add : (fuel cluster : ℕ) (file_to_add : Mem) → Call Device (ℕ × Mem)
  unfolding add_entry vacant_slot
  directory_add zero cluster file_to_add = stop
  directory_add (suc fuel) cluster file_to_add =
      if test_if_fat_format 0 file_to_add /= 0 then pure (minus_one, file_to_add) else (do
        code ← cluster_read drive cluster 0
        s ← get
        if code /= 0
            then pure (minus_one, file_to_add)
            else elim (vacant_slot (entries_left s) 0 s.transfer) [
              | some count ↦ add_entry cluster count file_to_add
              | none ↦ (do
                next_cluster ← fat_read drive cluster
                elim (ends_chain s.fat_type next_cluster) [
                  | false ↦ directory_add fuel next_cluster file_to_add
                  | true ↦ (do
                    new_cluster ← allocate_free_fat drive
                    if is_bad s.fat_type new_cluster then pure (minus_one, file_to_add) else (do
                      written ← fat_write drive cluster new_cluster
                      elim (written == 0) [
                        | false ↦ pure (minus_one, file_to_add)
                        | true ↦ directory_add fuel new_cluster file_to_add
                      ]))
                ])
            ])
