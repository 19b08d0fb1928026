-- ===== src/Fat/Table/Wide.antt =====
-- FATRead and FATWrite divide the table into pieces of a cluster's size but load one sector of each.
use potato_os.Base.{
  le→ltb, ap, ℕ, ◌+◌, ◌*◌, ◌-◌, ◌/◌, ◌%◌, ◌^◌, ◌≤◌, ◌<◌, ◌≡◌, ◌∙◌, some, Mem, upd, arith, u32, ltb,
  leb, ◌==◌, ◌&&◌, if◌then◌else◌, bit_and, ne→==,
}
use potato_os.Base.Bits.{bit_and_mask}
use mathlib.Core.Path.{subst, subst₂}
use mathlib.Core.Bool.{false}
use native.Mathlib.Nat.{zero-add, add-zero, div-add-mod, mod-lt}
use potato_os.Drive.{Drive, part_length, IsByteMem}
use potato_os.Fat.{Volume, Call, load32, store32, int13h_read, int13h_read_o, int13h_write}
use potato_os.Fat.Loads.{store32-IsByteMem}
use potato_os.Fat.Table.{overruns, with_table, put_table, fill_table, zeroed, fat_read, fat_write}
use potato_os.Fat.Table.Sector.{with_drive}

bytes_filled : (m : Mem) → IsByteMem m → IsByteMem (fill_table 512 m zeroed)
unfolding fill_table
bytes_filled m b i = ground (arith, b i)

bytes_of :
    (table old : Mem) (a v : ℕ)
    → IsByteMem table
    → IsByteMem old
    → IsByteMem (fill_table 512 (store32 table a v) old)
unfolding fill_table
bytes_of table old a v b c i = ground (arith, store32-IsByteMem table a v b i, c i)

quartered : (a b : ℕ) → a * 4 * b ≡ 4 * (a * b)
quartered a b = grind arith

-- An entry of four bytes in a piece of a whole number of them.
in_array_lem :
    (size n : ℕ)
    → size ≤ 32 * 1024
    → 0 < size
    → size % 4 ≡ 0
    → overruns 512 (4 * n % size + 4) ≡ false
in_array_lem size n small some_bytes whole =
    let quarter = size / 4 in
    let e : size ≡ quarter * 4 = omega (arith, whole) in
    let t = quarter * (4 * n / size) in
    let product : size * (4 * n / size) ≡ 4 * t =
      ap (λ x. x * (4 * n / size)) e ∙ quartered quarter (4 * n / size) in
    let divided : size * (4 * n / size) + 4 * n % size ≡ 4 * n = div-add-mod (4 * n) size in
    let below : 4 * n % size < size = mod-lt (4 * n) some_bytes in
    le→ltb _ _ (omega (arith, product, divided, below, e, small))

module _ (drive : Drive) where
  open drive use {Device, sectors, IsReady, read_in_range, write_in_range}

  -- A FAT32 volume of 512-byte sectors with clusters of `size` bytes, more than one sector.
  pub record IsWide (size : ℕ) (s : Volume Device) : Type 0 where
    pub ready : IsReady s.device
    pub bytes : IsByteMem s.transfer
    pub fat_32 : s.fat_type ≡ 32
    pub sector_size : s.bootsect.bytes_per_sector ≡ 512
    pub cluster_size : s.bootsect.bytes_per_sector * s.bootsect.sectors_per_cluster ≡ size
    pub wide : 512 < size
    pub in_array : size ≤ 32 * 1024
    pub whole : size % 4 ≡ 0
    pub few : s.total_clusters ≤ 2 ^ 28
    pub table_fits : s.first_fat_sector + s.total_clusters ≤ part_length

  abbrev piece : ℕ → Volume Device → ℕ → ℕ
  piece size s n = s.first_fat_sector + 4 * n / size

  piece-fits : (size n total : ℕ) → 512 < size → n < total → 4 * n / size < total
  piece-fits size n total h below = grind arith

  module _ (size : ℕ) (s : Volume Device) (n : ℕ) (v : IsWide size s) (below : n < s.total_clusters)
      (beyond : 512 ≤ 4 * n % size) where
    -- The table is loaded from a sector in which the entry does not stand.
    wide-with_table :
        (k : Mem → ℕ → ℕ → Call Device ℕ)
        → (d : Device) × (m : Mem) × (with_table drive 4 n k s
            ≡ k (fill_table 512 m zeroed) (4 * n % size) (piece size s n) (with_drive drive s d m))
          × IsReady d
          × IsByteMem m
          × (sectors d ≡ sectors s.device)
          × ((i : ℕ) → i < 512 → m i ≡ sectors s.device (piece size s n) i)
    unfolding with_table int13h_read
    wide-with_table k =
        let f = v.table_fits in
        let p = piece-fits size n s.total_clusters v.wide below in
        let (m, d, e, r, b, same, filled, outside) =
          read_in_range (piece size s n) 1 0 s.transfer s.device v.ready v.bytes (omega arith)
            (omega arith) (omega arith) in
        let four : u32 (n * 4) ≡ 4 * n = omega (arith, v.few) in
        let at : u32 (s.first_fat_sector + 4 * n / size) ≡ piece size s n = omega arith in
        let product : 512 * s.bootsect.sectors_per_cluster ≡ size =
          subst (λ b. b * s.bootsect.sectors_per_cluster ≡ size) v.sector_size v.cluster_size in
        let some_bytes : (size == 0) ≡ false = ne→== size 0 (omega (arith, v.wide)) in
        let in_array : overruns 512 (4 * n % size + 4) ≡ false =
          in_array_lem size n v.in_array (omega (arith, v.wide)) v.whole in
        (
          d,
          m,
          simp (v.sector_size, product, some_bytes) (rw (four, in_array, at, e, int13h_read_o, at)),
          r,
          b,
          same,
          λ i h.
              subst₂ (λ x y. m x ≡ sectors s.device y i) (zero-add i) (add-zero (piece size s n))
                (filled 0 i (omega arith) h),
        )

    zero_entry : (m : Mem) → load32 (fill_table 512 m zeroed) (4 * n % size) ≡ 0
    unfolding load32 fill_table
    zero_entry m = ground arith

    -- FATRead answers 0, the mark of a free cluster, whatever the disk holds.
    fat_read_wide : 2 ≤ n → (s' : Volume Device) × (fat_read drive n s ≡ some (0, s'))
    unfolding fat_read
    fat_read_wide two =
        let (d, m, e, r, b, same, read) =
          wide-with_table (λ table ent_offset _.
            λ s'. some (bit_and (load32 table ent_offset) 0x0FFF_FFFF, s')) in
        (
          with_drive drive s d m,
          ground (
            arith,
            v.fat_32,
            e,
            zero_entry m,
            bit_and_mask 28 (load32 (fill_table 512 m zeroed) (4 * n % size)),
          ),
        )

    beyond_table :
        (m old : Mem) (val i : ℕ)
        → i < 512
        → fill_table 512 (store32 (fill_table 512 m zeroed) (4 * n % size) val) old i ≡ m i
    unfolding fill_table store32 upd
    beyond_table m old val i h = ground arith

    stored_same :
        (m back : Mem) (d : Device)
        → sectors d ≡ sectors s.device
        → ((i : ℕ) → i < 512 → m i ≡ sectors s.device (piece size s n) i)
        → (k i : ℕ) → i < 512
        → back i ≡ m i
        → (if leb (piece size s n) k && ltb k (piece size s n + 1)
            then back (0 + 512 * (k - piece size s n) + i)
            else sectors d k i)
          ≡ sectors s.device k i
    stored_same m back d same read k i h e = rw same (ground (arith, read i h))

    -- With clusters of more than 512 bytes and at most 32 KiB, FATWrite to an entry beyond the first
    -- sector of its piece of the table answers 0, its success, and the disk is as it was.
    pub fat_write_wide :
        (val : ℕ)
        → 2 ≤ n
        → val < 2 ^ 32
        → (s' : Volume Device) × (fat_write drive n val s ≡ some (0, s'))
          × ((k i : ℕ) → i < 512 → sectors s'.device k i ≡ sectors s.device k i)
    unfolding fat_write put_table int13h_write
    fat_write_wide val two small =
        let (d, m, e, r, b, same, read) = wide-with_table (λ table ent_offset fat_sector.
          put_table drive fat_sector (store32 table ent_offset val)) in
        let f = v.table_fits in
        let p = piece-fits size n s.total_clusters v.wide below in
        let table = store32 (fill_table 512 m zeroed) (4 * n % size) val in
        let back = fill_table 512 table m in
        let back-bytes =
          bytes_of (fill_table 512 m zeroed) m (4 * n % size) val (bytes_filled m b) b in
        let (d', e', r', stored) =
          write_in_range (piece size s n) 1 0 back d r back-bytes (omega arith) (omega arith)
            (omega arith) in
        (
          with_drive drive s d' back,
          ground (arith, v.fat_32, v.sector_size, e, e'),
          λ k i h. stored k i h ∙ stored_same m back d same read k i h (beyond_table m m val i h),
        )
