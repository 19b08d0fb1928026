-- ===== src/Fat.antt =====
-- The FAT file system of kernel/arch/i386/FAT.c: its global variables and the calls that every part
-- of it makes. The diagnostic texts (d_printss, d_printhex, printf) change none of this state and
-- are left out.
pub mod Init
pub mod Loads
pub mod Table
pub mod Names
pub mod Directory
pub mod Files
pub mod Sample
mod Tests
use potato_os.Base.{
  ℕ, ◌+◌, ◌*◌, ◌/◌, ◌%◌, ◌^◌, ◌<◌, ◌≡◌, Option, none, some, Mem, upd, u8, u16, u32, ◌>>>◌, Bool,
  true, false, if◌then◌else◌,
}
use potato_os.Drive.{Drive}

-- The fields of `fat_BS_t` and of `fat_extBS_32_t` that the code reads.
pub record BootSector : Type 0 where
  pub bytes_per_sector : ℕ
  pub sectors_per_cluster : ℕ
  pub reserved_sector_count : ℕ
  pub table_count : ℕ
  pub root_entry_count : ℕ
  pub total_sectors_16 : ℕ
  pub table_size_16 : ℕ
  pub total_sectors_32 : ℕ
  pub table_size_32 : ℕ
  pub root_cluster : ℕ

-- Little-endian loads and stores, as the casts to `unsigned short *` and `unsigned int *` do.
unfoldable pub load16 : Mem → ℕ → ℕ
load16 m a = m a + 256 * m (a + 1)

unfoldable pub load32 : Mem → ℕ → ℕ
load32 m a = m a + 256 * m (a + 1) + 65536 * m (a + 2) + 16777216 * m (a + 3)

unfoldable pub store16 : Mem → (a v : ℕ) → Mem
store16 m a v = upd (upd m a (u8 v)) (a + 1) (u8 (v >>> 8))

unfoldable pub store32 : Mem → (a v : ℕ) → Mem
store32 m a v =
    upd (upd (upd (upd m a (u8 v)) (a + 1) (u8 (v >>> 8))) (a + 2) (u8 (v >>> 16))) (a + 3)
      (u8 (v >>> 24))

-- `fat_type` and the other globals, the transfer area, the drive, and the stale bytes that an
-- uninitialised local array holds.
pub record Volume (Device : Type 0) : Type 0 where
  pub device : Device
  pub transfer : Mem
  pub fat_type : ℕ
  pub first_fat_sector : ℕ
  pub first_data_sector : ℕ
  pub total_clusters : ℕ
  pub bootsect : BootSector
  pub stale : Mem

-- A call either never returns (`none`: a poll, a cyclic chain or a division by zero), or returns.
abbrev pub Call : Type 0 → Type 0 → Type 0
Call D A = Volume D → Option (A × Volume D)

module _ {D : Type 0} where
  abbrev pub pure : {A : Type 0} → A → Call D A
  pure a s = some (a, s)

  abbrev pub stop : {A : Type 0} → Call D A
  stop s = none

  abbrev pub get : Call D (Volume D)
  get s = some (s, s)

  abbrev pub put : Volume D → Call D (Unit {0})
  put s' s = some (tt, s')

  infixl 5 ◌>>=◌ ◌>>◌
  abbrev pub ◌>>=◌ : {A B : Type 0} → Call D A → (A → Call D B) → Call D B
  ◌>>=◌ c f s = elim (c s) [ none ↦ none | some (a, s') ↦ f a s' ]

  abbrev pub ◌>>◌ : {A B : Type 0} → Call D A → Call D B → Call D B
  c >> k = c >>= λ _. k

module _ (drive : Drive) where
  open drive use {Device, read, write}

  unfoldable pub int13h_read_o : (sector count offset : ℕ) → Call Device ℕ
  int13h_read_o sector count offset s = elim (read sector count offset s.transfer s.device) [
    | none ↦ none
    | some (code, m, d) ↦ some (code, record s { device = d; transfer = m })
  ]

  unfoldable pub int13h_write_o : (sector count offset : ℕ) → Call Device ℕ
  int13h_write_o sector count offset s = elim (write sector count offset s.transfer s.device) [
    | none ↦ none
    | some (code, d) ↦ some (code, record s { device = d })
  ]

  unfoldable pub int13h_read : (sector count : ℕ) → Call Device ℕ
  unfolding int13h_read_o
  int13h_read sector count = int13h_read_o sector count 0

  unfoldable pub int13h_write : (sector count : ℕ) → Call Device ℕ
  unfolding int13h_write_o
  int13h_write sector count = int13h_write_o sector count 0
