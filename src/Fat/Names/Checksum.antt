-- ===== src/Fat/Names/Checksum.antt =====
-- ChkSum tells apart names that differ in one byte.
use potato_os.Base.{
  ℕ, zero, suc, ◌+◌, ◌*◌, ◌/◌, ◌%◌, ◌<◌, ◌≡◌, ◌≢◌, Mem, upd, upd_self, upd_ne, arith, refl,
}
use mathlib.Core.Path.{subst}
use native.Mathlib.Nat.{add-zero}
use potato_os.Base.Bits.{bit_and_mask}
use potato_os.Drive.{IsByteMem}
use potato_os.Fat.Names.{chk_step, chk_loop, chk_sum}

chk_step_value : (sum c : ℕ) → chk_step sum c ≡ (sum % 2 * 128 + sum / 2 + c) % 256
unfolding chk_step
chk_step_value sum c = ground (arith, bit_and_mask 1 sum)

-- A round loses nothing of the sum, and nothing of the byte.
chk_step-injective_sum : (a b c : ℕ) → a < 256 → b < 256 → chk_step a c ≡ chk_step b c → a ≡ b
chk_step-injective_sum a b c ha hb e = omega (arith, chk_step_value a c, chk_step_value b c)

chk_step-injective_byte : (a c d : ℕ) → c < 256 → d < 256 → chk_step a c ≡ chk_step a d → c ≡ d
chk_step-injective_byte a c d hc hd e = omega (arith, chk_step_value a c, chk_step_value a d)

chk_step-lt : (a c : ℕ) → chk_step a c < 256
chk_step-lt a c = omega (arith, chk_step_value a c)

chk_loop-lt : (left sum p : ℕ) (m : Mem) → sum < 256 → chk_loop left sum p m < 256
unfolding chk_loop
chk_loop-lt zero sum p m h = h
chk_loop-lt (suc left) sum p m h =
    chk_loop-lt left (chk_step sum (m p)) (p + 1) m (chk_step-lt sum (m p))

-- The same bytes from two different sums give two different results.
chk_loop-injective :
    (left a b p : ℕ) (m : Mem)
    → a < 256
    → b < 256
    → a ≢ b
    → chk_loop left a p m ≢ chk_loop left b p m
unfolding chk_loop
chk_loop-injective zero a b p m ha hb ne = ne
chk_loop-injective (suc left) a b p m ha hb ne =
    chk_loop-injective left (chk_step a (m p)) (chk_step b (m p)) (p + 1) m (chk_step-lt a (m p))
      (chk_step-lt b (m p)) (λ e. ne (chk_step-injective_sum a b (m p) ha hb e))

-- A change outside the bytes that are read changes nothing.
chk_loop-upd :
    (left sum p a v : ℕ) (m : Mem) → a < p → chk_loop left sum p (upd m a v) ≡ chk_loop left sum p m
unfolding chk_loop
chk_loop-upd zero sum p a v m h = refl
chk_loop-upd (suc left) sum p a v m h = rw (
  upd_ne m a v p (omega arith),
  chk_loop-upd left (chk_step sum (m p)) (p + 1) a v m (omega arith),
)

chk_loop_change :
    (left sum p i v : ℕ) (m : Mem)
    → IsByteMem m
    → sum < 256
    → i < left
    → v < 256
    → v ≢ m (p + i)
    → chk_loop left sum p (upd m (p + i) v) ≢ chk_loop left sum p m
unfolding chk_loop
chk_loop_change zero sum p i v m b h below hv ne = absurd (omega arith)
chk_loop_change (suc left) sum p zero v m b h below hv ne =
    rw (add-zero p, upd_self m p v, chk_loop-upd left (chk_step sum v) (p + 1) p v m (omega arith))
      (chk_loop-injective left (chk_step sum v) (chk_step sum (m p)) (p + 1) m (chk_step-lt sum v)
        (chk_step-lt sum (m p))
        (λ e. absurd (ne (rw (add-zero p) (chk_step-injective_byte sum v (m p) hv (b p) e)))))
chk_loop_change (suc left) sum p (suc i) v m b h below hv ne =
    let at : p + suc i ≡ p + 1 + i = omega arith in
    rw (at, upd_ne m (p + 1 + i) v p (omega arith))
      (chk_loop_change left (chk_step sum (m p)) (p + 1) i v m b (chk_step-lt sum (m p))
        (omega arith) hv (subst (λ a. v ≢ m a) at ne))

-- One changed byte among the eleven of a name always changes the checksum.
chk_sum_change :
    (name i v : ℕ) (m : Mem)
    → IsByteMem m
    → i < 11
    → v < 256
    → v ≢ m (name + i)
    → chk_sum name (upd m (name + i) v) ≢ chk_sum name m
unfolding chk_sum
chk_sum_change name i v m b below hv ne =
    chk_loop_change 11 0 name i v m b (omega arith) below hv ne
