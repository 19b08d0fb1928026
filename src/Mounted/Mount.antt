-- ===== src/Mounted/Mount.antt =====
-- mount_drive of kernel/arch/i386/tty.c.
use potato_os.Base.{
  ℕ, zero, suc, ◌+◌, ◌*◌, ◌^◌, ◌<◌, ◌≡◌, inl, refl, ◌∙◌, Mem, true, false, codes, some, upd, u32,
  leb, arith,
}
use potato_os.Drive.{IsByteMem}
use potato_os.Ata.{Ports}
use potato_os.Fat.{load16, load32, store16, store32}
use potato_os.Fat.Loads.{
  store32_outside, load32-store32_self, load32-store32_other, store16-IsByteMem,
}
use potato_os.Terminal.{Terminal, terminal_newline, terminal_writestring}
use potato_os.Mounted.{
  initialize_fat32, mount_drive, reserved_sectors, num_fats, fat_size_32, fat_start, data_start,
  mounted_drive_size, read_boot_sector, words_in,
}

load16-lt : (m : Mem) (a : ℕ) → IsByteMem m → load16 m a < 2 ^ 32
unfolding load16
load16-lt m a b = omega (arith, b a, b (a + 1))

-- A store of the fields behind the boot sector leaves the numbers in it.
data_number : (drive : ℕ) → Mem → ℕ
data_number drive m = u32 (reserved_sectors drive m + num_fats drive m * fat_size_32 drive m)

data_number_ext :
    (drive : ℕ) (m m' : Mem)
    → ((a : ℕ) → a < drive + 92 → m' a ≡ m a)
    → data_number drive m' ≡ data_number drive m
unfolding data_number load16 load32
data_number_ext drive m m' same =
    rw
      (
        same (drive + 1 + 14) (omega arith),
        same (drive + 1 + 14 + 1) (omega arith),
        same (drive + 1 + 16) (omega arith),
        same (drive + 1 + 36) (omega arith),
        same (drive + 1 + 36 + 1) (omega arith),
        same (drive + 1 + 36 + 2) (omega arith),
        same (drive + 1 + 36 + 3) (omega arith),
      )
      refl

-- In a memory of bytes, initialize_fat32 lets the table start behind the reserved sectors and the data
-- behind the copies of the table, as numbers of 32 bits, and changes nothing up to the boot sector.
initialize_fat32-starts :
    (drive : ℕ) (m : Mem)
    → IsByteMem m
    → (fat_start drive (initialize_fat32 drive m) ≡ reserved_sectors drive m)
      × (data_start drive (initialize_fat32 drive m)
          ≡ u32 (reserved_sectors drive m + num_fats drive m * fat_size_32 drive m))
      × ((a : ℕ) → a < drive + 92 → initialize_fat32 drive m a ≡ m a)
unfolding initialize_fat32 data_number
initialize_fat32-starts drive m b =
    let m₁ = store32 m (drive + 92) (reserved_sectors drive m) in
    let before : (a : ℕ) → a < drive + 92 → m₁ a ≡ m a =
      λ a h. store32_outside m (drive + 92) (reserved_sectors drive m) a (inl h) in
    (
      load32-store32_other m₁ (drive + 96) (drive + 92) (data_number drive m₁) (inl (omega arith))
          ∙ load32-store32_self m (drive + 92) (reserved_sectors drive m)
              (load16-lt m (drive + 1 + 14) b),
      load32-store32_self m₁ (drive + 96) (data_number drive m₁) (omega arith)
          ∙ data_number_ext drive m m₁ before,
      λ a h.
          store32_outside m₁ (drive + 96) (data_number drive m₁) a (inl (omega (arith, h)))
          ∙ before a h,
    )

load32_flag :
    (drive a : ℕ) (m : Mem) → 0 < a → load32 (upd m drive 1) (drive + a) ≡ load32 m (drive + a)
unfolding load32 upd
load32_flag drive a m h = ground arith

upd_here : (drive : ℕ) (m : Mem) → upd m drive 1 drive ≡ 1
unfolding upd
upd_here drive m = ground arith

lt→leb : (a b : ℕ) → a < b → leb b a ≡ false
lt→leb a b h = ground arith

module _ (ports : Ports) where
  open ports use {Controller, inw}

  pub words_in-IsByteMem :
      (left i buffer : ℕ) (m : Mem) (c : Controller)
      → IsByteMem m
      → IsByteMem (words_in ports left i buffer (m, c)).0
  unfolding words_in
  words_in-IsByteMem zero i buffer m c b = b
  words_in-IsByteMem (suc left) i buffer m c b =
      words_in-IsByteMem left (i + 1) buffer (store16 m (buffer + 2 * i) (inw 0 c).0) (inw 0 c).1
        (store16-IsByteMem m (buffer + 2 * i) (inw 0 c).0 b)

  -- A drive whose flag is set is refused, and nothing changes.
  mount_drive-twice :
      (fuel mounted_drives drive_number : ℕ) (m : Mem) (c : Controller) (t : Terminal)
      → drive_number < 4
      → m (mounted_drives + mounted_drive_size * drive_number) ≡ 1
      → mount_drive ports fuel mounted_drives drive_number (m, c) t ≡ some (false, t, m, c)
  unfolding mount_drive
  mount_drive-twice fuel mounted_drives drive_number m c t few set =
      rw (mount_drive, lt→leb drive_number 4 few, set) refl

  -- Where the boot sector is read, mounting one of the four drives that is not mounted succeeds: the
  -- table and the data start where the boot sector says, and a second attempt is refused and changes
  -- nothing.
  pub mount_drive-mounts :
      (fuel mounted_drives drive_number : ℕ) (m m₁ : Mem) (c c₁ : Controller) (t : Terminal)
      → drive_number < 4
      → m (mounted_drives + mounted_drive_size * drive_number) ≡ 0
      → read_boot_sector ports fuel (mounted_drives + mounted_drive_size * drive_number) (m, c)
        ≡ some (m₁, c₁)
      → IsByteMem m₁
      → (t' : Terminal) × (m' : Mem) × (mount_drive ports fuel mounted_drives drive_number (m, c) t
          ≡ some (true, t', m', c₁))
        × (fat_start (mounted_drives + mounted_drive_size * drive_number) m'
            ≡ reserved_sectors (mounted_drives + mounted_drive_size * drive_number) m₁)
        × (data_start (mounted_drives + mounted_drive_size * drive_number) m'
            ≡ u32 (
                reserved_sectors (mounted_drives + mounted_drive_size * drive_number) m₁
                + num_fats (mounted_drives + mounted_drive_size * drive_number) m₁
                  * fat_size_32 (mounted_drives + mounted_drive_size * drive_number) m₁))
        × ((fuel' : ℕ) (c' : Controller) (t'' : Terminal)
            → mount_drive ports fuel' mounted_drives drive_number (m', c') t''
              ≡ some (false, t'', m', c'))
  unfolding mount_drive
  mount_drive-mounts fuel mounted_drives drive_number m m₁ c c₁ t few free read b =
      let drive = mounted_drives + mounted_drive_size * drive_number in
      let m₂ = initialize_fat32 drive m₁ in
      let (table, data_area, _) = initialize_fat32-starts drive m₁ b in
      (
        terminal_writestring (codes "[  OK  ] Drive mounted successfully.") (terminal_newline t),
        upd m₂ drive 1,
        rw (mount_drive, lt→leb drive_number 4 few, free, read) refl,
        load32_flag drive 92 m₂ (omega arith) ∙ table,
        load32_flag drive 96 m₂ (omega arith) ∙ data_area,
        λ fuel' c' t''.
            mount_drive-twice fuel' mounted_drives drive_number (upd m₂ drive 1) c' t'' few
              (upd_here drive m₂),
      )
