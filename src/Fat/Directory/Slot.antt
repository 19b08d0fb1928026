-- ===== src/Fat/Directory/Slot.antt =====
-- The bytes that directoryAdd of kernel/arch/i386/FAT.c puts into a slot, and those around them.
use potato_os.Base.{
  u16, ℕ, zero, suc, ◌+◌, ◌*◌, ◌-◌, ◌≤◌, ◌<◌, ◌≡◌, ◌≢◌, ◌⊎◌, refl, Mem, ltb, leb, ◌&&◌, arith,
  if◌then◌else◌, false,
}
use potato_os.Drive.{IsByteMem}
use potato_os.Fat.Loads.{upd-IsByteMem, store16-IsByteMem}
use potato_os.Fat.Table.{bad_cluster_32}
use potato_os.Fat.Directory.{
  get_entry_low_bits, get_entry_high_bits, stamp, set_cluster, put_entry, is_bad, vacant_slot,
}

-- A cluster copied onto itself.
abbrev pub copied : (size : ℕ) → Mem → Mem
copied size m i = if leb 0 i && ltb i (0 + size) then m (i - 0) else m i

pub copied-IsByteMem : (m : Mem) → IsByteMem m → IsByteMem (copied 512 m)
copied-IsByteMem m b i = ground (arith, b i, b (i - 0))

pub copied_byte :
    (sector : ℕ) (m : Mem) (i old : ℕ)
    → i < 512
    → (if leb sector sector && ltb sector (sector + 1)
        then copied 512 m (0 + 512 * (sector - sector) + i)
        else old)
      ≡ m i
copied_byte sector m i old h =
    let at : 0 + 512 * (sector - sector) + i ≡ i = omega arith in
    let same : i - 0 ≡ i = omega arith in rw at (ground (arith, same))

pub other_byte :
    (sector k new old : ℕ)
    → k ≢ sector
    → (if leb sector k && ltb k (sector + 1) then new else old) ≡ old
other_byte sector k new old h = ground arith

pub vacant_slot_ext :
    (left count : ℕ) (m m' : Mem)
    → ((i : ℕ) → i < 512 → m i ≡ m' i)
    → count + left < 16
    → vacant_slot left count m ≡ vacant_slot left count m'
unfolding vacant_slot
vacant_slot_ext zero count m m' agree h = rw (agree (32 * count) (omega arith)) refl
vacant_slot_ext (suc left) count m m' agree h =
    rw (agree (32 * count) (omega arith), vacant_slot_ext left (count + 1) m m' agree (omega arith))
      refl

pub outside_entry :
    (k i : ℕ) (file m : Mem) → (i < 32 * k) ⊎ (32 * k + 32 ≤ i) → put_entry k file m i ≡ m i
unfolding put_entry
outside_entry k i file m h = ground arith

pub put_entry-IsByteMem :
    (k : ℕ) (file m : Mem) → IsByteMem file → IsByteMem m → IsByteMem (put_entry k file m)
unfolding put_entry
put_entry-IsByteMem k file m a b i = ground (arith, a (i - 32 * k), b i)

stamp-IsByteMem : (file : Mem) → IsByteMem file → IsByteMem (stamp file)
unfolding stamp
stamp-IsByteMem file b =
    let b₁ = store16-IsByteMem file 16 0x11 b in
    let b₂ = store16-IsByteMem _ 14 0 b₁ in
    let b₃ = upd-IsByteMem _ 13 0 b₂ (omega arith) in
    let b₄ = store16-IsByteMem _ 18 0x11 b₃ in
    let b₅ = store16-IsByteMem _ 24 0x11 b₄ in store16-IsByteMem _ 22 0 b₅

pub filled-IsByteMem :
    (fat_type cluster : ℕ) (file : Mem)
    → IsByteMem file
    → IsByteMem (set_cluster fat_type cluster (stamp file))
unfolding set_cluster
filled-IsByteMem fat_type cluster file b =
    let b₁ =
      store16-IsByteMem (stamp file) 26 (u16 (get_entry_low_bits fat_type cluster))
        (stamp-IsByteMem file b) in
    store16-IsByteMem _ 20 (u16 (get_entry_high_bits fat_type cluster)) b₁

pub bad_marked : (t new : ℕ) → t ≡ 32 → new ≡ bad_cluster_32 → is_bad t new ≢ false
bad_marked t new a b e = ground arith
