-- ===== src/Mounted/Append.antt =====
-- write_file of kernel/arch/i386/tty.c stores the new file behind the others.
use potato_os.Base.{ℕ, ◌+◌, ◌≤◌, ◌<◌, ◌≡◌, ◌⊎◌, inl, ◌∙◌, Mem, u32, arith}
use potato_os.Fat.{store32}
use potato_os.Fat.Loads.{store32_outside, load32-store32_self, load32_ext}
use potato_os.Memory.Copy.{moved, memcpy-moved}
use potato_os.Mounted.Files.{append_file, file_at, file_count, file_entry_size, max_files}

before_or_behind :
    (drive count new_file : ℕ)
    → count < max_files
    → (new_file + 40 ≤ drive) ⊎ (drive + 5224 ≤ new_file)
    → (file_at drive count ≤ new_file) ⊎ (new_file + file_entry_size ≤ file_at drive count)
before_or_behind drive count new_file few apart = ground arith

-- Inside and outside of a block that was copied.
moved_inside :
    (dst src size j : ℕ) (m : Mem) → j < size → moved 0 size dst src m (dst + j) ≡ m (src + j)
moved_inside dst src size j m h = ground arith

moved_outside :
    (dst src size a : ℕ) (m : Mem) → (a < dst) ⊎ (dst + size ≤ a) → moved 0 size dst src m a ≡ m a
moved_outside dst src size a m h = ground arith

-- With fewer than 128 files, and the new file's record outside of the drive's, append_file counts one
-- file more, copies the record behind the files that were there, and changes nothing else.
append_file-appended :
    (new_file drive : ℕ) (m : Mem)
    → file_count drive m < max_files
    → (new_file + 40 ≤ drive) ⊎ (drive + 5224 ≤ new_file)
    → (file_count drive (append_file new_file drive m) ≡ file_count drive m + 1)
      × ((j : ℕ)
          → j < file_entry_size
          → append_file new_file drive m (file_at drive (file_count drive m) + j)
            ≡ m (new_file + j))
      × ((a : ℕ)
          → (a < drive + 100) ⊎ (drive + 104 ≤ a)
          → (a < file_at drive (file_count drive m))
            ⊎ (file_at drive (file_count drive m) + file_entry_size ≤ a)
          → append_file new_file drive m a ≡ m a)
unfolding append_file
append_file-appended new_file drive m few apart =
    let count = file_count drive m in
    let counted = store32 m (drive + 100) (u32 (count + 1)) in
    let target = file_at drive count in
    let copied : (a : ℕ)
        → append_file new_file drive m a ≡ moved 0 file_entry_size target new_file counted a =
      λ a.
        memcpy-moved target new_file file_entry_size counted a
          (before_or_behind drive count new_file few apart) in
    let untouched : (a : ℕ)
        → (a < target) ⊎ (target + file_entry_size ≤ a)
        → append_file new_file drive m a ≡ counted a =
      λ a h. copied a ∙ moved_outside target new_file file_entry_size a counted h in
    (
      load32_ext (append_file new_file drive m) counted (drive + 100)
            (λ i p q. untouched i (inl (omega (arith, p, q))))
          ∙ load32-store32_self m (drive + 100) (u32 (count + 1)) (omega arith)
          ∙ count_fits count few,
      λ j h.
          copied (target + j)
          ∙ moved_inside target new_file file_entry_size j counted h
          ∙ store32_outside m (drive + 100) (u32 (count + 1)) (new_file + j)
              (beside_count drive new_file j h apart),
      λ a p q.
          untouched a q
          ∙ store32_outside m (drive + 100) (u32 (count + 1)) a (count_outside drive a p),
    )
  where
    count_fits : (count : ℕ) → count < max_files → u32 (count + 1) ≡ count + 1
    count_fits count h = omega (arith, h)

    beside_count :
        (drive new_file j : ℕ)
        → j < 40
        → (new_file + 40 ≤ drive) ⊎ (drive + 5224 ≤ new_file)
        → (new_file + j < drive + 100) ⊎ (drive + 100 + 4 ≤ new_file + j)
    beside_count drive new_file j h apart = ground arith

    count_outside :
        (drive a : ℕ)
        → (a < drive + 100) ⊎ (drive + 104 ≤ a)
        → (a < drive + 100) ⊎ (drive + 100 + 4 ≤ a)
    count_outside drive a h = ground arith
