-- ===== src/Ata/Partition.antt =====
-- The driver of kernel/arch/i386/FAT.c on a disk that follows the protocol is what its file system
-- code is promised of a drive.
use potato_os.Base.{
  ℕ, ◌+◌, ◌*◌, ◌-◌, ◌/◌, ◌%◌, ◌^◌, ◌≤◌, ◌<◌, ◌≡◌, inl, inr, refl, Mem, SameOutside, true, some,
  none, Option, minus_one, ltb, leb, ◌&&◌, le_or_lt, if◌then◌else◌, arith,
}
use mathlib.Core.Path.{subst, ◌∙◌}
use potato_os.Terminal.{Terminal}
use potato_os.Drive.{Drive, IsByteMem, part_length, part_start_lba}
use potato_os.Ata.{Ports, is_refused, int13h_read_o, int13h_write_o}
use potato_os.Ata.Device.{Disk}
use potato_os.Ata.Command.{int13h_read_o_sectors}
use potato_os.Ata.Stored.{stored, int13h_write_o_sectors}

out_of_range :
    (sector count : ℕ)
    → sector < 2 ^ 31
    → count < 256
    → part_length < sector + count
    → is_refused sector count ≡ true
unfolding is_refused
out_of_range sector count h k l = ground arith

-- Every byte of a filled area is a byte.
filled-IsByteMem :
    (offset count : ℕ) (m m' : Mem)
    → IsByteMem m
    → ((j i : ℕ) → j < count → i < 512 → m' (offset + 512 * j + i) < 256)
    → SameOutside offset (512 * count) m m'
    → IsByteMem m'
filled-IsByteMem offset count m m' bytes inside outside a = elim (le_or_lt offset a) [
  | inr before ↦ rw (outside a (inl before)) (bytes a)
  | inl from ↦ elim (le_or_lt (offset + 512 * count) a) [
    | inl after ↦ rw (outside a (inr after)) (bytes a)
    | inr within ↦
        let place : offset + 512 * ((a - offset) / 512) + (a - offset) % 512 ≡ a = omega arith in
        subst (λ x. m' x < 256) place
          (inside ((a - offset) / 512) ((a - offset) % 512) (omega arith) (omega arith))
  ]
]

-- The numbers of sectors are counted from the start of the partition.
shifted :
    (sector count offset n i : ℕ) (m : Mem) (σ : ℕ → ℕ → ℕ)
    → stored (part_start_lba + sector) count offset m σ (part_start_lba + n) i ≡ (
        if leb sector n && ltb n (sector + count)
        then m (offset + 512 * (n - sector) + i)
        else σ (part_start_lba + n) i)
shifted sector count offset n i m σ =
    let distance : part_start_lba + n - (part_start_lba + sector) ≡ n - sector = omega arith in
    ground (arith, distance)

module _ (ports : Ports) (disk : Disk ports) where
  open ports use {Controller}
  open disk use {sectors, IsIdle, patience, byte}

  -- The controller, and the console that the polls of a read print on.
  pub record AtaDevice : Type 0 where
    pub controller : Controller
    pub console : Terminal

  unfoldable pub ata_read :
      (sector count offset : ℕ) → Mem → AtaDevice → Option (ℕ × Mem × AtaDevice)
  ata_read sector count offset m d =
      let (result, m', t', c') = int13h_read_o ports sector count offset m d.console d.controller in
      some (result, m', record { controller = c'; console = t' })

  unfoldable pub ata_write : (sector count offset : ℕ) → Mem → AtaDevice → Option (ℕ × AtaDevice)
  ata_write sector count offset m d =
      elim (int13h_write_o ports patience sector count offset m d.controller) [
        | none ↦ none
        | some (result, c') ↦ some (result, record { controller = c'; console = d.console })
      ]

  pub ata_read-refused :
      (sector count offset : ℕ) (m : Mem) (d : AtaDevice)
      → sector < 2 ^ 31
      → count < 256
      → part_length < sector + count
      → ata_read sector count offset m d ≡ some (minus_one, m, d)
  unfolding ata_read int13h_read_o
  ata_read-refused sector count offset m d h k l = rw (out_of_range sector count h k l) refl

  write_refused :
      (fuel sector count offset : ℕ) (m : Mem) (c : Controller)
      → sector < 2 ^ 31
      → count < 256
      → part_length < sector + count
      → int13h_write_o ports fuel sector count offset m c ≡ some (minus_one, c)
  unfolding int13h_write_o
  write_refused fuel sector count offset m c h k l = rw (out_of_range sector count h k l) refl

  pub ata_write-refused :
      (sector count offset : ℕ) (m : Mem) (d : AtaDevice)
      → sector < 2 ^ 31
      → count < 256
      → part_length < sector + count
      → ata_write sector count offset m d ≡ some (minus_one, d)
  unfolding ata_write
  ata_write-refused sector count offset m d h k l =
      rw (ata_write, write_refused patience sector count offset m d.controller h k l) refl

  abbrev ata_sectors : AtaDevice → ℕ → ℕ → ℕ
  ata_sectors d n i = sectors d.controller (part_start_lba + n) i

  pub ata_read-fills :
      (sector count offset : ℕ) (m : Mem) (d : AtaDevice)
      → IsIdle d.controller
      → IsByteMem m
      → sector + count ≤ part_length
      → 0 < count
      → count ≤ 127
      → (m' : Mem) × (d' : AtaDevice) × (ata_read sector count offset m d ≡ some (0, m', d'))
        × IsIdle d'.controller
        × IsByteMem m'
        × (ata_sectors d' ≡ ata_sectors d)
        × ((j i : ℕ)
            → j < count
            → i < 512
            → m' (offset + 512 * j + i) ≡ ata_sectors d (sector + j) i)
        × SameOutside offset (512 * count) m m'
  unfolding ata_read
  ata_read-fills sector count offset m d idle bytes inside positive few =
      let (m', t', c', e, idle', same, filled, outside) =
        int13h_read_o_sectors ports disk sector count offset m d.console d.controller idle inside
          positive few in
      (
        m',
        record { controller = c'; console = t' },
        rw (ata_read, e) refl,
        idle',
        filled-IsByteMem offset count m m' bytes
            (λ j i p q. rw (filled j i p q) (byte d.controller _ i idle)) outside,
        (λ x n i. same x (part_start_lba + n) i),
        (λ j i p q.
            let at : part_start_lba + (sector + j) ≡ part_start_lba + sector + j = omega arith in
            rw (ata_sectors, at) (filled j i p q)),
        outside,
      )

  pub ata_write-stores :
      (sector count offset : ℕ) (m : Mem) (d : AtaDevice)
      → IsIdle d.controller
      → IsByteMem m
      → sector + count ≤ part_length
      → 0 < count
      → count ≤ 127
      → (d' : AtaDevice) × (ata_write sector count offset m d ≡ some (0, d'))
        × IsIdle d'.controller
        × ((n i : ℕ)
            → i < 512
            → ata_sectors d' n i ≡ (
                if leb sector n && ltb n (sector + count)
                then m (offset + 512 * (n - sector) + i)
                else ata_sectors d n i))
  unfolding ata_write
  ata_write-stores sector count offset m d idle bytes inside positive few =
      let (c', e, idle', written) =
        int13h_write_o_sectors ports disk patience sector count offset m d.controller (omega arith)
          idle bytes inside positive few in
      (
        record { controller = c'; console = d.console },
        rw (ata_write, e) refl,
        idle',
        λ n i h.
            written (part_start_lba + n) i h
            ∙ shifted sector count offset n i m (sectors d.controller),
      )

  abbrev pub ata_drive : Drive
  ata_drive = record {
    Device = AtaDevice;
    read = ata_read;
    write = ata_write;
    sectors = ata_sectors;
    IsReady = λ d. IsIdle d.controller;
    read_out_of_bounds = ata_read-refused;
    write_out_of_bounds = ata_write-refused;
    read_in_range = ata_read-fills;
    write_in_range = ata_write-stores;
  }
