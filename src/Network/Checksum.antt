-- ===== src/Network/Checksum.antt =====
-- checksum of kernel/arch/i386/tty.c: its loops end, and a packet that carries its checksum sums to
-- nothing.
use potato_os.Base.{
  ℕ, zero, suc, ◌+◌, ◌*◌, ◌-◌, ◌/◌, ◌%◌, ◌^◌, ◌≤◌, ◌<◌, ◌≡◌, inl, inr, refl, ◌∙◌, some, Mem, u32,
  bit_and, ◌>>>◌, ◌==◌, if◌then◌else◌, arith,
}
use mathlib.Core.Path.{subst}
use potato_os.Base.Bits.{bit_and_mask}
use potato_os.Drive.{IsByteMem}
use potato_os.Fat.{load16, store16}
use potato_os.Fat.Loads.{store16-IsByteMem, load16-store16_self, load16-store16_other}
use potato_os.Network.{sum_words, fold_carries, complement16, checksum}

-- The sum of the words without a bound.
unfoldable pub total : (left ptr : ℕ) → Mem → ℕ
total zero ptr m = 0
total (suc left) ptr m = load16 m ptr + total left (ptr + 2) m

-- The one's complement sum: 0 only of 0, and otherwise the remainder by 65535 from 1 to 65535.
abbrev pub ones_complement : ℕ → ℕ
ones_complement n = if n == 0 then 0 else (n + 65534) % 65535 + 1

round_lem :
    (sum : ℕ) → sum < 2 ^ 32 → u32 (bit_and sum 0xFFFF + (sum >>> 16)) ≡ sum % 65536 + sum / 65536
round_lem sum h = rw (bit_and_mask 16 sum) (omega arith)

-- Three rounds are enough for any 32-bit sum.
fold_carries_lem : (sum : ℕ) → sum < 2 ^ 32 → fold_carries 3 sum ≡ some (ones_complement sum)
unfolding fold_carries
fold_carries_lem sum h =
    let s₁ = sum % 65536 + sum / 65536 in
    ground (arith, round_lem sum h, round_lem s₁ (omega arith))

word_bound : (m : Mem) (a : ℕ) → IsByteMem m → load16 m a < 65536
unfolding load16
word_bound m a b = omega (arith, b a, b (a + 1))

sum_words_lem :
    (left sum ptr : ℕ) (m : Mem)
    → IsByteMem m
    → sum + left * 65536 ≤ 2 ^ 32 - 1
    → (sum_words left sum ptr m ≡ sum + total left ptr m) × (total left ptr m ≤ left * 65536)
unfolding sum_words total
sum_words_lem zero sum ptr m b h = (omega arith, omega arith)
sum_words_lem (suc left) sum ptr m b h =
    let word = word_bound m ptr b in
    let now : u32 (sum + load16 m ptr) ≡ sum + load16 m ptr = omega arith in
    let (e, bound) = sum_words_lem left (sum + load16 m ptr) (ptr + 2) m b (omega arith) in
    (rw now (omega (arith, e)), omega arith)

complement_lem : (n : ℕ) → complement16 (ones_complement n) ≡ 65535 - ones_complement n
complement_lem n = ground arith

-- The checksum of fewer than 65536 words is the complement of their one's complement sum; three
-- rounds of carries are enough.
pub checksum-total :
    (n address : ℕ) (m : Mem)
    → IsByteMem m
    → n < 65536
    → checksum 3 address (2 * n) m ≡ some (65535 - ones_complement (total n address m))
unfolding checksum
checksum-total n address m b few =
    let half : 2 * n / 2 ≡ n = omega arith in
    let even : 2 * n % 2 ≡ 0 = omega arith in
    let (e, bound) = sum_words_lem n 0 address m b (omega arith) in
    let folded = fold_carries_lem (total n address m) (omega arith) in
    ground (arith, half, even, e, folded, complement_lem (total n address m))

total-store16_before :
    (n a ptr v : ℕ) (m : Mem) → a + 2 ≤ ptr → total n ptr (store16 m a v) ≡ total n ptr m
unfolding total
total-store16_before zero a ptr v m h = refl
total-store16_before (suc n) a ptr v m h =
    rw
      (load16-store16_other m a ptr v (inl h), total-store16_before n a (ptr + 2) v m (omega arith))
      refl

-- A word of 0 among the `n` is set to `v`.
total-store16 :
    (n k ptr v : ℕ) (m : Mem)
    → k < n
    → v < 65536
    → load16 m (ptr + 2 * k) ≡ 0
    → total n ptr (store16 m (ptr + 2 * k) v) ≡ total n ptr m + v
unfolding total
total-store16 zero k ptr v m h small empty = absurd (omega arith)
total-store16 (suc n) zero ptr v m h small empty =
    let at : ptr + 2 * 0 ≡ ptr = omega arith in
    let blank : load16 m ptr ≡ 0 = subst (λ a. load16 m a ≡ 0) at empty in
    rw
      (
        at,
        load16-store16_self m ptr v small,
        total-store16_before n ptr (ptr + 2) v m (omega arith),
      )
      (omega (arith, blank))
total-store16 (suc n) (suc k) ptr v m h small empty =
    let at : ptr + 2 * suc k ≡ ptr + 2 + 2 * k = omega arith in
    let rest =
      total-store16 n k (ptr + 2) v m (omega arith) small (subst (λ a. load16 m a ≡ 0) at empty) in
    rw (at, load16-store16_other m (ptr + 2 + 2 * k) ptr v (inr (omega arith)))
      (omega (arith, rest))

completed : (t : ℕ) → 65535 - ones_complement (t + (65535 - ones_complement t)) ≡ 0
completed t = ground arith

-- A header whose checksum field was 0 and takes the header's checksum has the checksum 0: the
-- receiver's test holds.
pub checksum_verifies :
    (n k address : ℕ) (m : Mem)
    → IsByteMem m
    → n < 65536
    → k < n
    → load16 m (address + 2 * k) ≡ 0
    → (c : ℕ) × (checksum 3 address (2 * n) m ≡ some c)
      × (checksum 3 address (2 * n) (store16 m (address + 2 * k) c) ≡ some 0)
checksum_verifies n k address m b few here empty =
    let t = total n address m in
    let c = 65535 - ones_complement t in
    let m' = store16 m (address + 2 * k) c in
    (
      c,
      checksum-total n address m b few,
      checksum-total n address m' (store16-IsByteMem m (address + 2 * k) c b) few
          ∙ rw (total-store16 n k address c m here (omega arith) empty, completed t) refl,
    )
