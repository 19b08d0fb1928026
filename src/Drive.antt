-- ===== src/Drive.antt =====
-- What the FAT code is promised by int13h_read_o and int13h_write_o of kernel/arch/i386/FAT.c.
-- The transfer area at DISK_READ_LOCATION, which is also DISK_WRITE_LOCATION, is a memory `m` whose
-- byte `i` stands at 0x40000 + `i`.
pub mod Ram
use potato_os.Base.{
  ℕ, ◌+◌, ◌^◌, ◌*◌, ◌-◌, ◌≤◌, ◌<◌, ◌≡◌, Option, some, Mem, SameOutside, minus_one, leb, ltb, ◌&&◌,
  if◌then◌else◌,
}

-- `part_length = 2*8385930` and `part_start_lba = 33543720`, in sectors.
abbrev pub part_length : ℕ
part_length = 16771860

abbrev pub part_start_lba : ℕ
part_start_lba = 33543720

abbrev pub IsByteMem : Mem → Type 0
IsByteMem m = (a : ℕ) → m a < 256

-- `none` is a call that never returns.
pub record Drive : Type 1 where
  pub Device : Type 0
  pub read : (sector count offset : ℕ) → Mem → Device → Option (ℕ × Mem × Device)
  pub write : (sector count offset : ℕ) → Mem → Device → Option (ℕ × Device)
  -- byte `i` of sector `n` of the partition
  pub sectors : Device → ℕ → ℕ → ℕ
  pub IsReady : Device → Type 0
  pub read_out_of_bounds :
      (sector count offset : ℕ) (m : Mem) (d : Device)
      → sector < 2 ^ 31
      → count < 256
      → part_length < sector + count
      → read sector count offset m d ≡ some (minus_one, m, d)
  pub write_out_of_bounds :
      (sector count offset : ℕ) (m : Mem) (d : Device)
      → sector < 2 ^ 31
      → count < 256
      → part_length < sector + count
      → write sector count offset m d ≡ some (minus_one, d)
  -- A read in range fills its part of the transfer area from the partition.
  pub read_in_range :
      (sector count offset : ℕ) (m : Mem) (d : Device)
      → IsReady d
      → IsByteMem m
      → sector + count ≤ part_length
      → 0 < count
      → count ≤ 127
      → (m' : Mem) × (d' : Device) × (read sector count offset m d ≡ some (0, m', d'))
        × IsReady d'
        × IsByteMem m'
        × (sectors d' ≡ sectors d)
        × ((j i : ℕ) → j < count → i < 512 → m' (offset + 512 * j + i) ≡ sectors d (sector + j) i)
        × SameOutside offset (512 * count) m m'
  -- A write in range stores its part of the transfer area to the partition.
  pub write_in_range :
      (sector count offset : ℕ) (m : Mem) (d : Device)
      → IsReady d
      → IsByteMem m
      → sector + count ≤ part_length
      → 0 < count
      → count ≤ 127
      → (d' : Device) × (write sector count offset m d ≡ some (0, d'))
        × IsReady d'
        × ((n i : ℕ)
            → i < 512
            → sectors d' n i ≡ (
                if leb sector n && ltb n (sector + count)
                then m (offset + 512 * (n - sector) + i)
                else sectors d n i))
