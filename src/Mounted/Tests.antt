-- ===== src/Mounted/Tests.antt =====
-- The FAT32 experiment on a disk that is always ready and whose first six words are 1, the others 0.
use potato_os.Base.{
  none, [], ℕ, ◌+◌, ◌*◌, ◌≡◌, refl, true, false, some, Mem, upd, u32, ltb, if◌then◌else◌, arith,
}
use potato_os.Ata.{Ports}
use potato_os.Fat.{load32}
use potato_os.Terminal.{Terminal, terminal_initialize}
use potato_os.Mounted.{
  read_block, read_boot_sector, wait_request, words_in, free_from, mount_drive, fat_start,
  data_start, reserved_sectors, num_fats, fat_size_32, get_cluster_address,
}
use potato_os.Mounted.Mount.{words_in-IsByteMem, mount_drive-mounts}

-- The state counts the words that were read.
abbrev counting : Ports
counting = record {
  Controller = ℕ;
  inb = λ _ c. (0x08, c);
  inw = λ _ c. (if ltb c 6 then 1 else 0, c + 1);
  outb = λ _ _ c. c;
  outw = λ _ _ c. c;
}

-- The search passes clusters in use, and does not end behind the array's 128 words.
free_in_array :
    (free_from 4 2 10000 (upd (upd (λ _. 0) 10008 7) 10012 7) ≡ some 4)
    × (free_from 200 2 10000 (λ _. 1) ≡ none)
unfolding free_from load32 upd
free_in_array = (refl, refl)

-- The second drive is mounted from address 0 of the array.
abbrev after_boot : Mem × ℕ
after_boot = words_in counting 256 0 5225 ((λ _. 0), 0)

boot_read : read_boot_sector counting 1 5224 ((λ _. 0), 0) ≡ some after_boot
unfolding read_boot_sector read_block wait_request
boot_read = refl

abbrev blank_console : Terminal
blank_console = terminal_initialize (record {
  row = 0;
  column = 0;
  color = 0;
  buffer = 0;
  initialized = false;
  cells = λ _. 0;
  outs = [];
})

mount_drive-mounts_example :
    (t' : Terminal) × (m' : Mem) × (mount_drive counting 1 0 1 ((λ _. 0), 0) blank_console
      ≡ some (true, t', m', after_boot.1))
    × (fat_start 5224 m' ≡ reserved_sectors 5224 after_boot.0)
    × (data_start 5224 m'
        ≡ u32 (
            reserved_sectors 5224 after_boot.0
            + num_fats 5224 after_boot.0 * fat_size_32 5224 after_boot.0))
    × ((fuel' : ℕ) (c' : ℕ) (t'' : Terminal)
        → mount_drive counting fuel' 0 1 (m', c') t'' ≡ some (false, t'', m', c'))
mount_drive-mounts_example =
    mount_drive-mounts counting 1 0 1 (λ _. 0) after_boot.0 0 after_boot.1 blank_console
      (omega arith) refl boot_read
      (words_in-IsByteMem counting 256 0 5225 (λ _. 0) 0 (λ _. omega arith))

-- Cluster 2 is the first of the data; the number is 32 bits.
second_cluster : get_cluster_address 2 0 (upd (λ _. 0) 96 40) ≡ 40
unfolding get_cluster_address load32 upd
second_cluster = refl
