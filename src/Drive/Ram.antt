-- ===== src/Drive/Ram.antt =====
-- A drive that keeps its sectors in memory: the promises of `Drive` can be met.
use potato_os.Base.{
  ℕ, ◌+◌, ◌*◌, ◌-◌, ◌/◌, ◌%◌, ◌≤◌, ◌<◌, ◌≡◌, refl, Option, some, Mem, minus_one, leb, ltb, ◌&&◌,
  ◌||◌, if◌then◌else◌, arith, le→ltb, ◌⊎◌,
}
use potato_os.Drive.{Drive, part_length, IsByteMem}

abbrev pub Sectors : Type 0
Sectors = ℕ → ℕ → ℕ

abbrev ram_read : (sector count offset : ℕ) → Mem → Sectors → Option (ℕ × Mem × Sectors)
ram_read sector count offset m d =
    if ltb part_length (sector + count) || ltb 127 count
    then some (minus_one, m, d)
    else some (
      0,
      (λ a.
          if leb offset a && ltb a (offset + 512 * count)
          then d (sector + (a - offset) / 512) ((a - offset) % 512)
          else m a),
      d,
    )

abbrev ram_write : (sector count offset : ℕ) → Mem → Sectors → Option (ℕ × Sectors)
ram_write sector count offset m d =
    if ltb part_length (sector + count) || ltb 127 count
    then some (minus_one, d)
    else some (
      0,
      λ n i.
          if leb sector n && ltb n (sector + count)
          then m (offset + 512 * (n - sector) + i)
          else d n i,
    )

abbrev pub IsByteSectors : Sectors → Type 0
IsByteSectors d = (n i : ℕ) → d n i < 256

pub ram_read_refused :
    (sector count offset : ℕ) (m : Mem) (d : Sectors)
    → part_length < sector + count
    → ram_read sector count offset m d ≡ some (minus_one, m, d)
ram_read_refused sector count offset m d h = ground arith

pub ram_write_refused :
    (sector count offset : ℕ) (m : Mem) (d : Sectors)
    → part_length < sector + count
    → ram_write sector count offset m d ≡ some (minus_one, d)
ram_write_refused sector count offset m d h = ground arith

-- The memory after a read.
abbrev pub filled : (sector count offset : ℕ) → Mem → Sectors → Mem
filled sector count offset m d a =
    if leb offset a && ltb a (offset + 512 * count)
    then d (sector + (a - offset) / 512) ((a - offset) % 512)
    else m a

pub ram_read_done :
    (sector count offset : ℕ) (m : Mem) (d : Sectors)
    → sector + count ≤ part_length
    → count ≤ 127
    → ram_read sector count offset m d ≡ some (0, filled sector count offset m d, d)
ram_read_done sector count offset m d h k =
    rw (le→ltb part_length (sector + count) h, le→ltb 127 count k)

pub filled_byte :
    (sector count offset : ℕ) (m : Mem) (d : Sectors) (j i : ℕ)
    → j < count
    → i < 512
    → filled sector count offset m d (offset + 512 * j + i) ≡ d (sector + j) i
filled_byte sector count offset m d j i h k =
    let a = offset + 512 * j + i in
    let quotient : (a - offset) / 512 ≡ j = omega arith in
    let rest : (a - offset) % 512 ≡ i = omega arith in ground (arith, quotient, rest)

pub filled-IsByteMem :
    (sector count offset : ℕ) (m : Mem) (d : Sectors)
    → IsByteMem m
    → IsByteSectors d
    → IsByteMem (filled sector count offset m d)
filled-IsByteMem sector count offset m d b c a =
    ground (arith, b a, c (sector + (a - offset) / 512) ((a - offset) % 512))

pub filled_outside :
    (sector count offset : ℕ) (m : Mem) (d : Sectors) (a : ℕ)
    → (a < offset) ⊎ (offset + 512 * count ≤ a)
    → filled sector count offset m d a ≡ m a
filled_outside sector count offset m d a h = ground arith

-- The sectors after a write.
abbrev pub stored : (sector count offset : ℕ) → Mem → Sectors → Sectors
stored sector count offset m d n i =
    if leb sector n && ltb n (sector + count) then m (offset + 512 * (n - sector) + i) else d n i

pub ram_write_done :
    (sector count offset : ℕ) (m : Mem) (d : Sectors)
    → sector + count ≤ part_length
    → count ≤ 127
    → ram_write sector count offset m d ≡ some (0, stored sector count offset m d)
ram_write_done sector count offset m d h k =
    rw (le→ltb part_length (sector + count) h, le→ltb 127 count k)

pub stored-IsByteSectors :
    (sector count offset : ℕ) (m : Mem) (d : Sectors)
    → IsByteMem m
    → IsByteSectors d
    → IsByteSectors (stored sector count offset m d)
stored-IsByteSectors sector count offset m d b c n i =
    ground (arith, b (offset + 512 * (n - sector) + i), c n i)

abbrev pub ram_drive : Drive
ram_drive = record {
  Device = Sectors;
  read = ram_read;
  write = ram_write;
  sectors = λ d. d;
  IsReady = IsByteSectors;
  read_out_of_bounds = λ sector count offset m d _ _ h. ram_read_refused sector count offset m d h;
  write_out_of_bounds =
      λ sector count offset m d _ _ h. ram_write_refused sector count offset m d h;
  read_in_range = λ sector count offset m d r b h _ k. (
    filled sector count offset m d,
    d,
    ram_read_done sector count offset m d h k,
    r,
    filled-IsByteMem sector count offset m d b r,
    refl,
    (λ j i p q. filled_byte sector count offset m d j i p q),
    λ a p. filled_outside sector count offset m d a p,
  );
  write_in_range = λ sector count offset m d r b h _ k. (
    stored sector count offset m d,
    ram_write_done sector count offset m d h k,
    stored-IsByteSectors sector count offset m d b r,
    λ n i p. refl,
  );
}
