-- ===== src/Ata/Stored.antt =====
-- int13h_write_o of kernel/arch/i386/FAT.c as a whole, on a disk that follows the protocol.
use potato_os.Base.{
  ℕ, zero, suc, ◌+◌, ◌*◌, ◌-◌, ◌≤◌, ◌<◌, ◌≡◌, ◌≢◌, ◌⊎◌, inl, inr, refl, Mem, u32, some, ltb, leb,
  ◌&&◌, le_or_lt, if◌then◌else◌, arith,
}
use mathlib.Core.Path.{subst, sym, ap, ◌∙◌}
use potato_os.Drive.{IsByteMem, part_length, part_start_lba}
use potato_os.Ata.{
  Ports, write_sectors, send_command, wait_writable, write_words, write_blocks, wait_flushed,
  int13h_write_o,
}
use potato_os.Ata.Device.{Content, Disk}
use potato_os.Ata.Command.{in_range, send_command-Pending}
use potato_os.Ata.Writing.{wait_writable-Pending, write_words-Accepting}

-- Sectors `lba` to `lba + count` take the bytes of `m` from `base` on.
abbrev pub stored : (lba count base : ℕ) → Mem → Content → Content
stored lba count base m σ n i =
    if leb lba n && ltb n (lba + count) then m (base + 512 * (n - lba) + i) else σ n i

stored_here :
    (lba count base n i : ℕ) (m : Mem) (σ : Content)
    → lba ≤ n
    → n < lba + count
    → stored lba count base m σ n i ≡ m (base + 512 * (n - lba) + i)
stored_here lba count base n i m σ h k = ground arith

stored_elsewhere :
    (lba count base n i : ℕ) (m : Mem) (σ : Content)
    → (n < lba) ⊎ (lba + count ≤ n)
    → stored lba count base m σ n i ≡ σ n i
stored_elsewhere lba count base n i m σ h = ground arith

stored_none : (lba base n i : ℕ) (m : Mem) (σ : Content) → stored lba 0 base m σ n i ≡ σ n i
stored_none lba base n i m σ = ground arith

-- A block and the blocks after it.
stored_join :
    (lba left base n i : ℕ) (m : Mem) (σ σ₁ : Content)
    → (n ≡ lba → σ₁ n i ≡ m (base + i))
    → (n ≢ lba → σ₁ n i ≡ σ n i)
    → stored (suc lba) left (base + 512) m σ₁ n i ≡ stored lba (suc left) base m σ n i
stored_join lba left base n i m σ σ₁ here others = elim (le_or_lt lba n) [
  | inr below ↦
      stored_elsewhere (suc lba) left (base + 512) n i m σ₁ (inl (omega arith))
      ∙ others (omega arith)
      ∙ sym (stored_elsewhere lba (suc left) base n i m σ (inl below))
  | inl from ↦ elim (le_or_lt n lba) [
    | inl same ↦
        let eq : n ≡ lba = omega arith in
        let place : base + i ≡ base + 512 * (n - lba) + i = omega arith in
        stored_elsewhere (suc lba) left (base + 512) n i m σ₁ (inl (omega arith))
        ∙ here eq
        ∙ ap m place
        ∙ sym (stored_here lba (suc left) base n i m σ from (omega arith))
    | inr past ↦ elim (le_or_lt (suc lba + left) n) [
      | inl beyond ↦
          stored_elsewhere (suc lba) left (base + 512) n i m σ₁ (inr beyond)
          ∙ others (omega arith)
          ∙ sym (stored_elsewhere lba (suc left) base n i m σ (inr (omega arith)))
      | inr within ↦
          let place : base + 512 + 512 * (n - suc lba) + i ≡ base + 512 * (n - lba) + i =
            omega arith in
          stored_here (suc lba) left (base + 512) n i m σ₁ past within
          ∙ ap m place
          ∙ sym (stored_here lba (suc left) base n i m σ from (omega arith))
    ]
  ]
]

module _ (ports : Ports) where
  open ports use {Controller, inb, outb}

  block_step :
      (fuel left base : ℕ) (m : Mem) (c c' : Controller)
      → wait_writable ports fuel c ≡ some c'
      → write_blocks ports fuel (suc left) base m c
        ≡ write_blocks ports fuel left (base + 512) m (write_words ports 256 base 0 m c')
  unfolding write_blocks
  block_step fuel left base m c c' e = rw (write_blocks, e) refl

  no_blocks :
      (fuel base : ℕ) (m : Mem) (c : Controller) → write_blocks ports fuel 0 base m c ≡ some c
  unfolding write_blocks
  no_blocks fuel base m c = refl

  module _ (disk : Disk ports) where
    open disk use {
      sectors, IsIdle, patience, Pending, Accepting, Flushing, begins, continues, flushes,
      still_busy, flushed,
    }

    -- The first block of a write.
    first_block :
        (fuel left base wait lba : ℕ) (m : Mem) (σ : Content) (c : Controller)
        → IsByteMem m
        → wait < fuel
        → Pending σ wait (suc left) lba c
        → (σ₁ : Content) × (c₁ : Controller) × (write_blocks ports fuel (suc left) base m c
            ≡ write_blocks ports fuel left (base + 512) m c₁)
          × Accepting σ₁ (suc left) lba 256 c₁
          × ((i : ℕ) → i < 512 → σ₁ lba i ≡ m (base + i))
          × ((k i : ℕ) → k ≢ lba → σ₁ k i ≡ σ k i)
    first_block fuel left base wait lba m σ c bytes within p =
        let (c', e, free) = wait_writable-Pending ports disk fuel wait (suc left) lba c within p in
        let (σ₁, done, here, others) =
          write_words-Accepting ports disk 256 base 0 (suc left) lba m σ c' bytes refl
            (begins free) in
        (
          σ₁,
          write_words ports 256 base 0 m c',
          block_step fuel left base m c c' e,
          done,
          (λ i h. here i (omega arith) h),
          λ k i h. others k i (inl h),
        )

    write_blocks-Pending :
        (fuel left base wait lba : ℕ) (m : Mem) (σ : Content) (c : Controller)
        → patience ≤ fuel
        → IsByteMem m
        → wait < patience
        → Pending σ wait (suc left) lba c
        → (σ' : Content) × (c' : Controller) × (write_blocks ports fuel (suc left) base m c
            ≡ some c')
          × Accepting σ' 1 (lba + left) 256 c'
          × ((n i : ℕ) → i < 512 → σ' n i ≡ stored lba (suc left) base m σ n i)
    write_blocks-Pending fuel zero base wait lba m σ c enough bytes within p =
        let (σ₁, c₁, e, done, here, others) =
          first_block fuel 0 base wait lba m σ c bytes (omega arith) p in
        (
          σ₁,
          c₁,
          e ∙ no_blocks fuel (base + 512) m c₁,
          subst (λ n. Accepting σ₁ 1 n 256 c₁) (omega arith) done,
          λ n i h.
              sym (stored_none (suc lba) (base + 512) n i m σ₁)
              ∙ stored_join lba 0 base n i m σ σ₁ (λ q. rw q (here i h)) (others n i),
        )
    write_blocks-Pending fuel (suc left) base wait lba m σ c enough bytes within p =
        let (σ₁, c₁, e, done, here, others) =
          first_block fuel (suc left) base wait lba m σ c bytes (omega arith) p in
        let (wait₁, within₁, next) = continues done in
        let (σ', c', e', done', rest) =
          write_blocks-Pending fuel left (base + 512) wait₁ (suc lba) m σ₁ c₁ enough bytes within₁
            next in
        (
          σ',
          c',
          e ∙ e',
          subst (λ n. Accepting σ' 1 n 256 c') (omega arith) done',
          λ n i h.
              rest n i h
              ∙ stored_join lba (suc left) base n i m σ σ₁ (λ q. rw q (here i h)) (others n i),
        )

    wait_flushed-Flushing :
        (fuel wait : ℕ) (σ : Content) (c : Controller)
        → wait < fuel
        → Flushing σ wait c
        → (c' : Controller) × (wait_flushed ports fuel c ≡ some c') × IsIdle c' × (sectors c' ≡ σ)
    unfolding wait_flushed
    wait_flushed-Flushing zero wait σ c h f = absurd (omega arith)
    wait_flushed-Flushing (suc fuel) zero σ c h f =
        let (e, idle, same) = flushed f in (_, rw e refl, idle, same)
    wait_flushed-Flushing (suc fuel) (suc wait) σ c h f =
        let (e, next) = still_busy f in
        let (c', e', idle, same) =
          wait_flushed-Flushing fuel wait σ (inb 0x1F7 c).1 (omega arith) next in
        (c', rw e e', idle, same)

    -- On an idle disk that follows the protocol, and with as many polls as it may be busy for, a
    -- write of 1 to 127 sectors inside the partition returns 0 and leaves the disk idle, its sectors
    -- from `sector_offset` of the partition on filled from the transfer area and no other changed.
    pub int13h_write_o_sectors :
        (fuel sector_offset num_blocks write_offset : ℕ) (m : Mem) (c : Controller)
        → patience ≤ fuel
        → IsIdle c
        → IsByteMem m
        → sector_offset + num_blocks ≤ part_length
        → 0 < num_blocks
        → num_blocks ≤ 127
        → (c' : Controller) × (int13h_write_o ports fuel sector_offset num_blocks write_offset m c
            ≡ some (0, c'))
          × IsIdle c'
          × ((n i : ℕ)
              → i < 512
              → sectors c' n i
                ≡ stored (part_start_lba + sector_offset) num_blocks write_offset m (sectors c) n i)
    unfolding int13h_write_o
    int13h_write_o_sectors fuel sector_offset zero write_offset m c enough idle bytes inside
          at_least_one few =
        absurd (omega arith)
    int13h_write_o_sectors fuel sector_offset (suc left) write_offset m c enough idle bytes inside
          at_least_one few =
        let lba = part_start_lba + sector_offset in
        let (wait, within, p) =
          send_command-Pending ports disk lba (suc left) c idle (omega arith) at_least_one
            (omega arith) in
        let (σ, c₁, e, done, written) =
          write_blocks-Pending fuel left write_offset wait lba m (sectors c)
            (send_command ports write_sectors lba (suc left) c) enough bytes within p in
        let (wait₁, within₁, f) = flushes done in
        let (c₂, e₁, idle', same) =
          wait_flushed-Flushing fuel wait₁ σ (outb 0x1F7 0xE7 c₁) (omega arith) f in
        let at : u32 (sector_offset + part_start_lba) ≡ lba = omega arith in
        (
          c₂,
          rw (in_range sector_offset (suc left) inside few, at, e, e₁) refl,
          idle',
          λ n i h. ap (λ s. s n i) same ∙ written n i h,
        )
