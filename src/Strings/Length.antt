-- ===== src/Strings/Length.antt =====
-- `strlen` of tty.c and of libc.
use potato_os.Base.{ℕ, zero, suc, ◌+◌, ◌<◌, ◌≡◌, List, [], ◌∷◌, length, some, Mem, arith}
use native.Mathlib.Nat.{add-zero}
use potato_os.Strings.{Reads, strlen_loop, strlen}

strlen_loop_lem :
    (fuel len p : ℕ) (cs : List ℕ) (m : Mem)
    → Reads m (p + len) cs
    → length cs < fuel
    → strlen_loop fuel len p m ≡ some (len + length cs)
unfolding strlen_loop
strlen_loop_lem zero len p cs m s enough = absurd (omega arith)
strlen_loop_lem (suc fuel) len p [] m s enough = ground arith
strlen_loop_lem (suc fuel) len p (c ∷ cs) m s enough =
    ground (arith, strlen_loop_lem fuel (len + 1) p cs m (rw (← shift) s.2))
  where
    shift : p + len + 1 ≡ p + (len + 1)
    shift = omega arith

-- On a string at `p` the loop ends, with any fuel above the string's length, and answers that length.
pub strlen_lem :
    (fuel p : ℕ) (cs : List ℕ) (m : Mem)
    → Reads m p cs
    → length cs < fuel
    → strlen fuel p m ≡ some (length cs)
unfolding strlen
strlen_lem fuel p cs m s enough = ground (arith, strlen_loop_lem fuel 0 p cs m (rw (add-zero p) s))
