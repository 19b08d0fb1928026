-- ===== src/Fat/Files.antt =====
-- getFile and putFile of kernel/arch/i386/FAT.c. A path is walked with fuel, one for each byte, and a
-- chain of clusters with fuel, one for each cluster.
pub mod Short
pub mod Contents
pub mod Paths
pub mod Whole
mod Sought
pub mod Named
mod Tests
use potato_os.Base.{
  ℕ, zero, suc, ◌+◌, ◌*◌, ◌-◌, ◌^◌, Bool, true, false, Mem, upd, u16, u32, sub32, minus_one,
  minus_two, minus_three, bit_and, bit_or, ltb, leb, ◌==◌, ◌/=◌, ◌&&◌, ◌||◌, if◌then◌else◌,
}
use potato_os.Drive.{Drive}
use potato_os.Fat.{Volume, Call, pure, stop, get, ◌>>=◌, ◌>>◌, load16, load32, store32}
use potato_os.Fat.Names.{test_if_fat_format, convert_from_fat_format}
use potato_os.Fat.Table.{
  zeroed, fat_read, fat_write, allocate_free_fat, cluster_read, cluster_write, end_cluster_32,
  bad_cluster_32,
}
use potato_os.Fat.Directory.{
  file_directory, attributes, file_size, get_cluster_from_entry, is_bad, directory_search,
  directory_add, set_cluster,
}

-- `fileNamePart`: the bytes of the path from `start` up to `iterator`, at most 255 and a NUL.
abbrev pub file_name_part : (path : Mem) (start iterator : ℕ) → Mem
file_name_part path start iterator i = if ltb i (iterator - start) then path (start + i) else 0

-- Where the walk along a path ends: 0 or an error, the entry found last, and its cluster.
pub record Walk : Type 0 where
  pub code : ℕ
  pub file_info : Mem
  pub active_cluster : ℕ

abbrev pub is_directory : Mem → Bool
is_directory file_info = bit_and (attributes file_info) file_directory == file_directory

-- `file_info` of the root, over what the structure held.
unfoldable root_entry : (root_cluster : ℕ) → Mem → Mem
unfolding set_cluster store32
root_entry root_cluster stale =
    set_cluster 32 root_cluster (store32 (upd stale 11 (bit_or file_directory 0x08)) 28 0)

-- `strcmp(filePath, "C:\\") == 0`
abbrev is_root : Mem → Bool
is_root path = (path 0 == b'C') && ((path 1 == b':') && ((path 2 == 0x5C) && (path 3 == 0)))

-- `convertFromFATFormat(fileMeta->file_name, output)`, where `output` stands behind the entry.
unfoldable pub output_name : Mem → Mem
unfolding convert_from_fat_format
output_name file_meta i = convert_from_fat_format 0 64 file_meta (64 + i)

module _ (drive : Drive) where
  open drive use {Device}

  -- The loop over the path, from `iterator` on.
  unfoldable pub walk_path :
      (fuel chain_fuel name_fuel : ℕ) (path : Mem) (iterator start active_cluster : ℕ)
      (file_info : Mem)
      → Call Device Walk
  walk_path zero chain_fuel name_fuel path iterator start active_cluster file_info = stop
  walk_path (suc fuel) chain_fuel name_fuel path iterator start active_cluster file_info =
      elim (path (iterator - 1) == 0) [
        | true ↦ pure (record { code = 0; file_info = file_info; active_cluster = active_cluster })
        | false ↦ elim ((path iterator == 0x5C) || (path iterator == 0)) [
          | false ↦
              walk_path fuel chain_fuel name_fuel path (iterator + 1) start active_cluster file_info
          | true ↦ elim (ltb 255 (iterator - start)) [
            | true ↦ stop
            | false ↦ (do
              s ← get
              r ←
                  directory_search drive chain_fuel name_fuel (file_name_part path start iterator)
                    active_cluster
              elim ((r.code == minus_two) || (r.code == minus_one)) [
                | true ↦ pure (record {
                  code = r.code;
                  file_info = file_info;
                  active_cluster = active_cluster;
                })
                | false ↦
                    walk_path fuel chain_fuel name_fuel path (iterator + 1) (u16 (iterator + 1))
                      (get_cluster_from_entry s.fat_type r.file) r.file
              ])
          ]
        ]
      ]

  -- The loop of getFile that reads the clusters; `cluster` is an `int`, and the result of clusterRead
  -- is not looked at.
  unfoldable pub read_chain : (fuel cluster cluster_read_count read_in_offset : ℕ) → Call Device ℕ
  read_chain zero cluster cluster_read_count read_in_offset = stop
  read_chain (suc fuel) cluster cluster_read_count read_in_offset =
      elim (ltb cluster end_cluster_32 || leb (2 ^ 31) cluster) [
        | false ↦ pure 0
        | true ↦ (do
          _ ← cluster_read drive cluster (u32 (cluster_read_count + read_in_offset))
          next ← fat_read drive cluster
          elim ((next == bad_cluster_32) || (next == minus_one)) [
            | true ↦ pure minus_one
            | false ↦ read_chain fuel next (u32 (cluster_read_count + 1)) read_in_offset
          ])
      ]

  -- The return value, `*fileMeta`, and the place of the contents in the transfer area. The caller's
  -- pointers are not null.
  unfoldable pub get_file :
      (fuel chain_fuel name_fuel : ℕ) (path : Mem) (read_in_offset : ℕ) → Call Device (ℕ × Mem × ℕ)
  get_file fuel chain_fuel name_fuel path read_in_offset = do
    s ← get
    if s.fat_type /= 32 then pure (minus_one, zeroed, 0) else (do
      w ← walk_path fuel chain_fuel name_fuel path 3 3 s.bootsect.root_cluster s.stale
      let cluster_size = s.bootsect.bytes_per_sector * s.bootsect.sectors_per_cluster
      let place = u32 (read_in_offset * cluster_size)
      if w.code /= 0
          then pure (w.code, zeroed, 0)
          else if is_directory w.file_info
          then pure (minus_three, w.file_info, 0)
          else if ltb read_in_offset 1 || ltb 262144 (u32 (place + file_size w.file_info))
          then pure (minus_three, w.file_info, 0)
          else (do
            code ←
                read_chain chain_fuel (get_cluster_from_entry s.fat_type w.file_info) 0
                  read_in_offset
            pure (code, w.file_info, (if code == 0 then place else 0))))

  -- The loop of putFile. Its test of the unsigned `dataLeftToWrite` for a negative value is never
  -- true.
  unfoldable pub write_contents :
      (fuel data_left_to_write active_cluster size : ℕ) (contents : Mem) → Call Device ℕ
  write_contents zero data_left_to_write active_cluster size contents = stop
  write_contents (suc fuel) data_left_to_write active_cluster size contents =
      elim (data_left_to_write == 0) [
        | true ↦ pure 0
        | false ↦ (do
          s ← get
          let cluster_size = s.bootsect.bytes_per_sector * s.bootsect.sectors_per_cluster
          let data_write =
              if leb cluster_size data_left_to_write then cluster_size + 1 else data_left_to_write
          let left = sub32 data_left_to_write data_write
          code ←
              cluster_write drive (λ i. contents (sub32 size data_left_to_write + i)) data_write 1
                active_cluster
          elim (code /= 0) [
            | true ↦ pure minus_one
            | false ↦ elim (left == 0) [
              | true ↦ pure 0
              | false ↦ (do
                new_cluster ← allocate_free_fat drive
                elim (is_bad s.fat_type new_cluster) [
                  | true ↦ pure minus_one
                  | false ↦ (do
                    written ← fat_write drive active_cluster new_cluster
                    elim (written /= 0) [
                      | true ↦ pure minus_one
                      | false ↦ write_contents fuel left new_cluster size contents
                    ])
                ])
            ]
          ])
      ]

  -- The part of putFile behind the walk: the directory `w` takes the file.
  unfoldable put_in :
      (fuel chain_fuel name_fuel : ℕ) (contents file_meta : Mem) → Walk → Call Device ℕ
  put_in fuel chain_fuel name_fuel contents file_meta w = do
    before ← directory_search drive chain_fuel name_fuel (output_name file_meta) w.active_cluster
    if before.code == minus_one
        then pure minus_one
        else if before.code /= minus_two
        then pure minus_three
        else if is_directory w.file_info
        then (do
          added ← directory_add drive chain_fuel w.active_cluster file_meta
          if added.0 /= 0 then pure minus_one else (do
            found ←
                directory_search drive chain_fuel name_fuel (output_name added.1) w.active_cluster
            s ← get
            if found.code == minus_two
                then pure minus_two
                else if found.code /= 0
                then pure minus_one
                else write_contents fuel (file_size added.1)
                    (get_cluster_from_entry s.fat_type found.file) (file_size added.1) contents))
        else pure minus_two

  unfoldable put_file :
      (fuel chain_fuel name_fuel : ℕ) (path contents file_meta : Mem) → Call Device ℕ
  put_file fuel chain_fuel name_fuel path contents file_meta =
      if test_if_fat_format 0 file_meta /= 0 then pure minus_two else (do
        s ← get
        if s.fat_type /= 32
            then pure minus_one
            else if is_root path
            then put_in fuel chain_fuel name_fuel contents file_meta (record {
              code = 0;
              file_info = root_entry s.bootsect.root_cluster s.stale;
              active_cluster = s.bootsect.root_cluster;
            })
            else (do
              w ← walk_path fuel chain_fuel name_fuel path 3 3 s.bootsect.root_cluster s.stale
              if w.code /= 0
                  then pure w.code
                  else put_in fuel chain_fuel name_fuel contents file_meta w))
