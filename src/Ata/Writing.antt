-- ===== src/Ata/Writing.antt =====
-- int13h_write_o of kernel/arch/i386/FAT.c on a disk that follows the protocol.
use potato_os.Base.{
  ℕ, zero, suc, ◌+◌, ◌*◌, ◌/◌, ◌≤◌, ◌<◌, ◌≡◌, ◌≢◌, ◌⊎◌, inl, inr, refl, Mem, u8, bit_and, some,
  le_or_lt, arith,
}
use mathlib.Core.Path.{subst, ◌∙◌}
use potato_os.Fat.{load16}
use potato_os.Drive.{IsByteMem}
use potato_os.Ata.{Ports, wait_writable, delay, write_words}
use potato_os.Ata.Device.{Content, set_word, Disk}

load16_low : (m : Mem) (a : ℕ) → IsByteMem m → u8 (load16 m a) ≡ m a
unfolding load16
load16_low m a h = ground (arith, h a, h (a + 1))

load16_high : (m : Mem) (a : ℕ) → IsByteMem m → u8 (load16 m a / 256) ≡ m (a + 1)
unfolding load16
load16_high m a h = ground (arith, h a, h (a + 1))

set_word_here :
    (lba idx v base i : ℕ) (m : Mem) (σ : Content)
    → u8 v ≡ m (base + 2 * idx)
    → u8 (v / 256) ≡ m (base + 2 * idx + 1)
    → 2 * idx ≤ i
    → i < 2 * suc idx
    → set_word lba idx v σ lba i ≡ m (base + i)
set_word_here lba idx v base i m σ low high h k = ground (arith, low, high)

set_word_elsewhere :
    (lba idx v n i : ℕ) (σ : Content) → (n ≢ lba) ⊎ (i < 2 * idx) → set_word lba idx v σ n i ≡ σ n i
set_word_elsewhere lba idx v n i σ h = ground arith

earlier : (n lba i idx : ℕ) → (n ≢ lba) ⊎ (i < 2 * idx) → (n ≢ lba) ⊎ (i < 2 * suc idx)
earlier n lba i idx (inl h) = inl h
earlier n lba i idx (inr h) = inr (omega arith)

module _ (ports : Ports) where
  open ports use {Controller, inb, outw, outb}

  after : Controller → Controller
  after c = (inb 0x1F7 c).1

  round_done :
      (fuel : ℕ) (c : Controller)
      → bit_and (inb 0x1F7 c).0 0x01 ≡ 0
      → bit_and (inb 0x1F7 (after c)).0 0x40 ≡ 0x40
      → bit_and (inb 0x1F7 (after (after c))).0 0x80 ≡ 0
      → bit_and (inb 0x1F7 (after (after (after c)))).0 0x08 ≡ 0x08
      → wait_writable ports (suc fuel) c ≡ some (after (after (after (after c))))
  unfolding wait_writable after
  round_done fuel c a b d e = rw (a, b, d, e) refl

  round_busy :
      (fuel : ℕ) (c : Controller)
      → bit_and (inb 0x1F7 c).0 0x01 ≡ 0
      → bit_and (inb 0x1F7 (after c)).0 0x40 ≡ 0x40
      → bit_and (inb 0x1F7 (after (after c))).0 0x80 ≡ 0x80
      → wait_writable ports (suc fuel) c ≡ wait_writable ports fuel (after (after (after c)))
  unfolding wait_writable after
  round_busy fuel c a b d = rw (a, b, d) refl

  module _ (disk : Disk ports) where
    open disk use {
      sectors, IsIdle, patience, Pending, Accepting, Flushing, busy, requests, begins, takes,
      elsewhere, continues, flushes, still_busy, flushed,
    }

    abbrev one_less : ℕ → ℕ
    one_less zero = zero
    one_less (suc wait) = wait

    -- A poll finds neither the error bit nor the ready bit amiss.
    polled_once :
        {σ : Content} (wait left lba : ℕ) (c : Controller)
        → Pending σ wait left lba c
        → (bit_and (inb 0x1F7 c).0 0x01 ≡ 0)
          × (bit_and (inb 0x1F7 c).0 0x40 ≡ 0x40)
          × Pending σ (one_less wait) left lba (after c)
    unfolding after
    polled_once zero left lba c p = let (a, b, _, _, e) = requests p in (a, b, e)
    polled_once (suc wait) left lba c p = let (a, b, _, e) = busy p in (a, b, e)

    -- Three polls find the disk free.
    round_free :
        {σ : Content} (fuel left lba : ℕ) (c : Controller)
        → bit_and (inb 0x1F7 c).0 0x01 ≡ 0
        → bit_and (inb 0x1F7 (after c)).0 0x40 ≡ 0x40
        → Pending σ 0 left lba (after (after c))
        → (c' : Controller) × (wait_writable ports (suc fuel) c ≡ some c') × Pending σ 0 left lba c'
    unfolding after
    round_free fuel left lba c a b p =
        let (_, _, d, _, p₁) = requests p in
        let (_, _, _, e, p₂) = requests p₁ in (_, round_done fuel c a b d e, p₂)

    pub wait_writable-Pending :
        {σ : Content} (fuel wait left lba : ℕ) (c : Controller)
        → wait < fuel
        → Pending σ wait left lba c
        → (c' : Controller) × (wait_writable ports fuel c ≡ some c') × Pending σ 0 left lba c'
    unfolding after
    wait_writable-Pending zero wait left lba c h p = absurd (omega arith)
    wait_writable-Pending (suc fuel) zero left lba c h p =
        let (a, _, p₁) = polled_once 0 left lba c p in
        let (_, b, p₂) = polled_once 0 left lba (after c) p₁ in round_free fuel left lba c a b p₂
    wait_writable-Pending (suc fuel) (suc zero) left lba c h p =
        let (a, _, p₁) = polled_once 1 left lba c p in
        let (_, b, p₂) = polled_once 0 left lba (after c) p₁ in round_free fuel left lba c a b p₂
    wait_writable-Pending (suc fuel) (suc (suc zero)) left lba c h p =
        let (a, _, p₁) = polled_once 2 left lba c p in
        let (_, b, p₂) = polled_once 1 left lba (after c) p₁ in round_free fuel left lba c a b p₂
    wait_writable-Pending (suc fuel) (suc (suc (suc wait))) left lba c h p =
        let (a, _, p₁) = polled_once (suc (suc (suc wait))) left lba c p in
        let (_, b, p₂) = polled_once (suc (suc wait)) left lba (after c) p₁ in
        let (_, _, d, p₃) = busy p₂ in
        let (c', e, done) =
          wait_writable-Pending fuel wait left lba (after (after (after c))) (omega arith) p₃ in
        (c', round_busy fuel c a b d ∙ e, done)

    pub write_words-Accepting :
        (left base idx n lba : ℕ) (m : Mem) (σ : Content) (c : Controller)
        → IsByteMem m
        → idx + left ≡ 256
        → Accepting σ n lba idx c
        → (σ' : Content) × Accepting σ' n lba 256 (write_words ports left base idx m c)
          × ((i : ℕ) → 2 * idx ≤ i → i < 512 → σ' lba i ≡ m (base + i))
          × ((k i : ℕ) → (k ≢ lba) ⊎ (i < 2 * idx) → σ' k i ≡ σ k i)
    unfolding write_words delay
    write_words-Accepting zero base idx n lba m σ c bytes total t = (
      σ,
      subst (λ k. Accepting σ n lba k c) (omega arith) t,
      (λ i h k. absurd (omega arith)),
      λ k i h. refl,
    )
    write_words-Accepting (suc left) base idx n lba m σ c bytes total t =
        let v = load16 m (base + 2 * idx) in
        let next = elsewhere (elsewhere (elsewhere (takes v t (omega arith)))) in
        let σ₁ = set_word lba idx v σ in
        let (σ', done, stored, kept) =
          write_words-Accepting left base (suc idx) n lba m σ₁ _ bytes (omega arith) next in
        (
          σ',
          done,
          λ i h k. elim (le_or_lt (2 * suc idx) i) [
            | inl later ↦ stored i later k
            | inr now ↦
                kept lba i (inr now)
                ∙ set_word_here lba idx v base i m σ (load16_low m (base + 2 * idx) bytes)
                    (load16_high m (base + 2 * idx) bytes) h now
          ],
          λ k i h. kept k i (earlier k lba i idx h) ∙ set_word_elsewhere lba idx v k i σ h,
        )
