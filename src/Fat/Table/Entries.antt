-- ===== src/Fat/Table/Entries.antt =====
-- FATRead and FATWrite are reads and writes of one map from clusters to entries.
use potato_os.Base.{
  SameOutside, ℕ, ◌+◌, ◌*◌, ◌-◌, ◌%◌, ◌^◌, ◌≤◌, ◌<◌, ◌≡◌, ◌⊎◌, inl, inr, refl, ◌∙◌, ap, sym, ◌≢◌,
  some, Mem, arith, ltb, leb, ◌==◌, ◌&&◌, if◌then◌else◌, minus_one, Bool-cases, true, false,
  bit_and, ne→==, ==→ne,
}
use potato_os.Base.Bits.{bit_and_mask}
use potato_os.Drive.{Drive, IsByteMem}
use potato_os.Fat.{Volume, load32, store32, int13h_write}
use potato_os.Fat.Loads.{load32-store32_self, load32-store32_other, store32-IsByteMem, load32_ext}
use potato_os.Fat.Table.{put_table, fill_table, zeroed, fat_read, fat_write}
use potato_os.Fat.Table.Sector.{
  IsVolume, with_drive, with_drive-IsVolume, entry_sector, entry_offset, entry, with_table_lem,
}

fill_table-IsByteMem :
    (m initial : Mem) → IsByteMem m → IsByteMem initial → IsByteMem (fill_table 512 m initial)
unfolding fill_table
fill_table-IsByteMem m initial b c i = ground (arith, b i, c i)

stored_byte :
    (table old : Mem) (sector k i other : ℕ)
    → i < 512
    → (if leb sector k && ltb k (sector + 1)
        then fill_table 512 table old (0 + 512 * (k - sector) + i)
        else other)
      ≡ (if k == sector then table i else other)
unfolding fill_table
stored_byte table old sector k i other h = ground arith

filled_byte : (table old : Mem) (i : ℕ) → i < 512 → fill_table 512 table old i ≡ table i
unfolding fill_table
filled_byte table old i h = ground arith

at_sector :
    (sector here : ℕ) (new old b : ℕ)
    → b ≡ new
    → here ≡ sector
    → (if here == sector then new else old) ≡ b
at_sector sector here new old b e at = ground arith

off_sector : (sector k new old : ℕ) → k ≢ sector → (if k == sector then new else old) ≡ old
off_sector sector k new old h = ground arith

module _ (drive : Drive) where
  open drive use {Device, sectors, IsReady, read_in_range, write_in_range}

  -- FATRead changes the transfer area and the drive's state, but no sector.
  pub fat_read_lem :
      (s : Volume Device) (n : ℕ)
      → IsVolume drive s
      → 2 ≤ n
      → n < s.total_clusters
      → (d : Device) × (m : Mem) × (fat_read drive n s
          ≡ some (entry drive s n % 2 ^ 28, with_drive drive s d m))
        × IsReady d
        × IsByteMem m
        × (sectors d ≡ sectors s.device)
        × SameOutside 0 512 s.transfer m
  unfolding fat_read entry
  fat_read_lem s n v two below =
      let (d, m, e, r, b, same, read, outside) =
        with_table_lem drive s n
          (λ table ent_offset _. λ s'. some (bit_and (load32 table ent_offset) 0x0FFF_FFFF, s')) v
          below in
      let loaded : load32 (fill_table 512 m zeroed) (entry_offset n)
          ≡ load32 (sectors s.device (entry_sector drive s n)) (entry_offset n) =
        load32_ext (fill_table 512 m zeroed) (sectors s.device (entry_sector drive s n))
          (entry_offset n) λ i p q. unfold fill_table in ground (arith, read i) in
      (
        d,
        m,
        ground (
          arith,
          v.fat_32,
          e,
          loaded,
          bit_and_mask 28 (load32 (fill_table 512 m zeroed) (entry_offset n)),
        ),
        r,
        b,
        same,
        outside,
      )

  -- FATRead answers the low 28 bits of the cluster's entry, and leaves every entry as it was.
  pub fat_read-entry :
      (s : Volume Device) (n : ℕ)
      → IsVolume drive s
      → 2 ≤ n
      → n < s.total_clusters
      → (s' : Volume Device) × (fat_read drive n s ≡ some (entry drive s n % 2 ^ 28, s'))
        × IsVolume drive s'
        × ((k : ℕ) → entry drive s' k ≡ entry drive s k)
        × (s'.total_clusters ≡ s.total_clusters)
  unfolding entry
  fat_read-entry s n v two below =
      let (d, m, e, r, b, same, _) = fat_read_lem s n v two below in
      (
        with_drive drive s d m,
        e,
        with_drive-IsVolume drive v r b,
        λ k. ap (λ (c : ℕ → ℕ → ℕ). load32 (c (entry_sector drive s k)) (entry_offset k)) same,
        refl,
      )

  -- The table is stored to its sector, and no other sector changes.
  put_table_lem :
      (s : Volume Device) (n : ℕ) (table : Mem)
      → IsVolume drive s
      → n < s.total_clusters
      → IsByteMem table
      → let sector = entry_sector drive s n in
        (d : Device) × (m : Mem) × (put_table drive sector table s
          ≡ some (0, with_drive drive s d m))
        × IsReady d
        × IsByteMem m
        × ((k i : ℕ)
            → i < 512
            → sectors d k i ≡ (if k == sector then table i else sectors s.device k i))
        × ((i : ℕ) → i < 512 → m i ≡ table i)
  unfolding put_table int13h_write
  put_table_lem s n table v below b =
      let sector = entry_sector drive s n in
      let f = v.table_fits in
      let m = fill_table 512 table s.transfer in
      let m-bytes = fill_table-IsByteMem table s.transfer b v.bytes in
      let (d, e, r, stored) =
        write_in_range sector 1 0 m s.device v.ready m-bytes (omega arith) (omega arith)
          (omega arith) in
      (
        d,
        m,
        ground (arith, v.sector_size, e),
        r,
        m-bytes,
        (λ k i h. stored k i h ∙ stored_byte table s.transfer sector k i (sectors s.device k i) h),
        λ i h. filled_byte table s.transfer i h,
      )

  module _ (s s' : Volume Device) (n val : ℕ) (table : Mem) (small : val < 2 ^ 32)
      (first : s'.first_fat_sector ≡ s.first_fat_sector)
      (held : (i : ℕ) → i < 512 → table i ≡ sectors s.device (entry_sector drive s n) i)
      (stored : (k i : ℕ)
        → i < 512
        → sectors s'.device k i ≡ (
            if k == entry_sector drive s n
            then store32 table (entry_offset n) val i
            else sectors s.device k i)) where
    other_sector :
        (k : ℕ)
        → (entry_sector drive s k == entry_sector drive s n) ≡ false
        → entry drive s' k ≡ (if k == n then val else entry drive s k)
    unfolding entry
    other_sector k other =
        rw (first, ne→== k n (λ e. ==→ne _ _ other (rw e)))
          (load32_ext (sectors s'.device (entry_sector drive s k))
            (sectors s.device (entry_sector drive s k)) (entry_offset k)
            λ i p q. ground (arith, stored (entry_sector drive s k) i))

    same_sector :
        (k : ℕ)
        → (entry_sector drive s k == entry_sector drive s n) ≡ true
        → entry drive s' k ≡ (if k == n then val else entry drive s k)
    unfolding entry
    same_sector k at =
        let sector = entry_sector drive s k in
        let new = store32 table (entry_offset n) val in
        let after : load32 (sectors s'.device sector) (entry_offset k)
            ≡ load32 new (entry_offset k) =
          load32_ext (sectors s'.device sector) new (entry_offset k)
            λ i p q. ground (arith, stored sector i) in
        let before : load32 table (entry_offset k)
            ≡ load32 (sectors s.device sector) (entry_offset k) =
          load32_ext table (sectors s.device sector) (entry_offset k)
            λ i p q. ground (arith, held i) in
        rw (first, after)
          (ground (
            arith,
            before,
            load32-store32_self table (entry_offset n) val,
            load32-store32_other table (entry_offset n) (entry_offset k) val,
          ))

    entry_after : (k : ℕ) → entry drive s' k ≡ (if k == n then val else entry drive s k)
    entry_after k = elim (Bool-cases (entry_sector drive s k == entry_sector drive s n)) [
      | inl at ↦ same_sector k at
      | inr other ↦ other_sector k other
    ]

  -- FATWrite changes the sector of the entry, and leaves that sector in the transfer area.
  pub fat_write_lem :
      (s : Volume Device) (n val : ℕ)
      → IsVolume drive s
      → 2 ≤ n
      → n < s.total_clusters
      → val < 2 ^ 32
      → (d : Device) × (m : Mem) × (fat_write drive n val s ≡ some (0, with_drive drive s d m))
        × IsReady d
        × IsByteMem m
        × ((k : ℕ)
            → entry drive (with_drive drive s d m) k ≡ (if k == n then val else entry drive s k))
        × ((i : ℕ) → i < 512 → m i ≡ sectors d (entry_sector drive s n) i)
        × ((k i : ℕ) → i < 512 → k ≢ entry_sector drive s n → sectors d k i ≡ sectors s.device k i)
  unfolding fat_write
  fat_write_lem s n val v two below small =
      let (d, m, e, r, b, same, read, outside) =
        with_table_lem drive s n
          (λ table ent_offset fat_sector. put_table drive fat_sector (store32 table ent_offset val))
          v below in
      let s₁ = with_drive drive s d m in
      let table = fill_table 512 m zeroed in
      let new = store32 table (entry_offset n) val in
      let sector = entry_sector drive s n in
      let v₁ = with_drive-IsVolume drive v r b in
      let t-bytes = fill_table-IsByteMem m zeroed b (λ a. omega arith) in
      let (d', m', e', r', b', stored, left) =
        put_table_lem s₁ n new v₁ below (store32-IsByteMem table (entry_offset n) val t-bytes) in
      (
        d',
        m',
        ground (arith, v.fat_32, e, e'),
        r',
        b',
        entry_after s (with_drive drive s d' m') n val table small refl
            (λ i h. unfold fill_table in ground (arith, read i))
            (λ k i h. rw (← same) (stored k i h)),
        (λ i h.
            left i h
            ∙ sym (stored sector i h ∙ at_sector sector sector (new i) _ (new i) refl refl)),
        λ k i h other.
            stored k i h ∙ off_sector sector k (new i) _ other ∙ ap (λ (f : ℕ → ℕ → ℕ). f k i) same,
      )

  -- FATWrite stores the value as the cluster's entry, succeeds, and leaves every other entry as it
  -- was.
  pub fat_write-entry :
      (s : Volume Device) (n val : ℕ)
      → IsVolume drive s
      → 2 ≤ n
      → n < s.total_clusters
      → val < 2 ^ 32
      → (s' : Volume Device) × (fat_write drive n val s ≡ some (0, s'))
        × IsVolume drive s'
        × ((k : ℕ) → entry drive s' k ≡ (if k == n then val else entry drive s k))
        × (s'.total_clusters ≡ s.total_clusters)
  fat_write-entry s n val v two below small =
      let (d, m, e, r, b, after, left, others) = fat_write_lem s n val v two below small in
      (with_drive drive s d m, e, with_drive-IsVolume drive v r b, after, refl)

  -- An invalid cluster number is refused by both, with no access to the drive.
  pub fat_invalid :
      (s : Volume Device) (n val : ℕ)
      → (n < 2) ⊎ (s.total_clusters ≤ n)
      → (fat_read drive n s ≡ some (minus_one, s)) × (fat_write drive n val s ≡ some (minus_one, s))
  unfolding fat_read fat_write
  fat_invalid s n val h = ground arith
