-- ===== src/Mounted/Files.antt =====
-- write_file and read_file of kernel/arch/i386/tty.c. Local arrays and records have given addresses.
use potato_os.Base.{
  ℕ, zero, suc, ◌+◌, ◌*◌, Bool, true, false, Option, none, some, List, [], ◌∷◌, Mem, u32, ◌==◌,
  if◌then◌else◌,
}
use potato_os.Ata.{Ports}
use potato_os.Fat.{load32, store32}
use potato_os.Memory.{memcpy, memset}
use potato_os.Serial.{and_then}
use potato_os.Strings.{strlen, strcmp, strncpy}
use potato_os.Terminal.{Terminal, terminal_writestring}
use potato_os.Mounted.{block_size, find_free_cluster, read_cluster, update_fat_entry, write_cluster}

abbrev pub max_files : ℕ
max_files = 128

abbrev max_filename_length : ℕ
max_filename_length = 32

-- `FileEntry`: the name, then the size and the first cluster.
abbrev pub file_entry_size : ℕ
file_entry_size = 40

abbrev pub file_count : (drive : ℕ) → Mem → ℕ
file_count drive m = load32 m (drive + 100)

abbrev pub file_at : (drive i : ℕ) → ℕ
file_at drive i = drive + 104 + file_entry_size * i

abbrev recorded_size : (file : ℕ) → Mem → ℕ
recorded_size file m = load32 m (file + 32)

abbrev start_cluster : (file : ℕ) → Mem → ℕ
start_cluster file m = load32 m (file + 36)

-- `drive->root_directory.files[drive->root_directory.file_count++] = new_file`
unfoldable pub append_file : (new_file drive : ℕ) → Mem → Mem
append_file new_file drive m =
    let count = file_count drive m in
    memcpy (file_at drive count) new_file file_entry_size
      (store32 m (drive + 100) (u32 (count + 1)))

-- Whether one of `left` entries from `i` on has the size 0; the first ends the loop of write_file.
unfoldable has_free_file : (left i drive : ℕ) → Mem → Bool
has_free_file zero i drive m = false
has_free_file (suc left) i drive m =
    let rest = has_free_file left (i + 1) drive m in
    if recorded_size (file_at drive i) m == 0 then true else rest

-- The file whose name is `filename`, if one of `left` files from `i` on is.
unfoldable file_from : (fuel left i drive filename : ℕ) → Mem → Option (Option ℕ)
file_from fuel zero i drive filename m = some none
file_from fuel (suc left) i drive filename m =
    let rest = file_from fuel left (i + 1) drive filename m in
    and_then (strcmp fuel (file_at drive i) filename m)
      (λ difference. if difference == 0 then some (some (file_at drive i)) else rest)

-- The `left` bytes at `p`.
abbrev bytes_at : (left p : ℕ) → Mem → List ℕ
bytes_at zero p m = []
bytes_at (suc left) p m = m p ∷ bytes_at left (p + 1) m

module _ (ports : Ports) where
  open ports use {Controller}

  -- What write_file does once it has seen an entry of size 0.
  unfoldable create_file :
      (fuel new_file buffer fat_table drive filename content : ℕ)
      → Mem × Controller
      → Option (Mem × Controller)
  create_file fuel new_file buffer fat_table drive filename content (m, c) =
      let named = strncpy new_file filename max_filename_length m in
      and_then (strlen fuel content named) (λ len.
        and_then
          (find_free_cluster ports fuel fat_table drive (store32 named (new_file + 32) len, c))
          (λ (cluster, m₁, c₁).
            let m₂ = store32 m₁ (new_file + 36) cluster in
            let m₃ = strncpy buffer content block_size (memset buffer 0 block_size m₂) in
            and_then (write_cluster ports fuel (start_cluster new_file m₃) buffer drive m₃ c₁)
              (λ c₂.
                and_then
                  (update_fat_entry ports fuel fat_table (start_cluster new_file m₃) 0xFFFFFFFF
                    drive (m₃, c₂))
                  (λ (m₄, c₃). some (append_file new_file drive m₄, c₃)))))

  unfoldable write_file :
      (fuel new_file buffer fat_table drive filename content : ℕ)
      → Mem × Controller
      → Option (Mem × Controller)
  write_file fuel new_file buffer fat_table drive filename content (m, c) =
      if has_free_file max_files 0 drive m
      then create_file fuel new_file buffer fat_table drive filename content (m, c)
      else some (m, c)

  -- A file is printed up to its first NUL, which may stand behind the buffer.
  unfoldable print_file :
      (fuel buffer drive file : ℕ)
      → Mem × Controller
      → Terminal
      → Option (Terminal × Mem × Controller)
  print_file fuel buffer drive file (m, c) t =
      and_then
        (read_cluster ports fuel (start_cluster file m) buffer drive
          (memset buffer 0 block_size m, c))
        (λ (m₁, c₁).
          and_then (strlen fuel buffer m₁)
            (λ len. some (terminal_writestring (bytes_at len buffer m₁) t, m₁, c₁)))

  unfoldable read_file :
      (fuel buffer drive filename : ℕ)
      → Mem × Controller
      → Terminal
      → Option (Terminal × Mem × Controller)
  read_file fuel buffer drive filename (m, c) t =
      and_then (file_from fuel (file_count drive m) 0 drive filename m) (λ found. elim found [
        | none ↦ some (t, m, c)
        | some file ↦ print_file fuel buffer drive file (m, c) t
      ])
