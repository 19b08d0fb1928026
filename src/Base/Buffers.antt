-- ===== src/Base/Buffers.antt =====
-- Bytes at addresses. A `char *` is a number, and memory is a function from addresses to bytes.
use Prim.Native.Nat.{ℕ, suc, ◌+◌, ◌<◌, ◌≤◌}
use mathlib.Core.Path.{◌≡◌}
use mathlib.Core.Logic.{◌≢◌, ◌⊎◌}
use mathlib.Core.List.{List, [], ◌∷◌}
use native.Mathlib.Omega.{arith}
use potato_os.Base.Tests.{◌==◌, if◌then◌else◌}

abbrev pub Mem : Type 0
Mem = ℕ → ℕ

-- `m[a] = v`
unfoldable pub upd : Mem → ℕ → ℕ → Mem
upd m a v x = if x == a then v else m x

pub upd_self : (m : Mem) (a v : ℕ) → upd m a v a ≡ v
unfolding upd
upd_self m a v = ground arith

pub upd_ne : (m : Mem) (a v x : ℕ) → x ≢ a → upd m a v x ≡ m x
unfolding upd
upd_ne m a v x h = ground arith

abbrev pub length {ℓ} : {A : Type ℓ} → List A → ℕ
length [] = 0
length (x ∷ xs) = suc (length xs)

-- Consecutive bytes from an address, as test data.
unfoldable pub store_list : Mem → ℕ → List ℕ → Mem
store_list m p [] = m
store_list m p (c ∷ cs) = store_list (upd m p c) (p + 1) cs

-- Two memories agree outside `n` bytes from `p`.
abbrev pub SameOutside : ℕ → ℕ → Mem → Mem → Type 0
SameOutside p n m m' = (a : ℕ) → (a < p) ⊎ (p + n ≤ a) → m' a ≡ m a
