-- ===== src/Fat/Loads.antt =====
-- Loads after stores.
use potato_os.Base.{ℕ, ◌+◌, ◌^◌, ◌≤◌, ◌<◌, ◌≡◌, ◌⊎◌, Mem, upd, arith}
use potato_os.Drive.{IsByteMem}
use potato_os.Fat.{load16, load32, store16, store32}

pub load32-store32_self : (m : Mem) (a v : ℕ) → v < 2 ^ 32 → load32 (store32 m a v) a ≡ v
unfolding load32 store32 upd
load32-store32_self m a v h = ground arith

pub load32-store32_other :
    (m : Mem) (a b v : ℕ) → (b + 4 ≤ a) ⊎ (a + 4 ≤ b) → load32 (store32 m a v) b ≡ load32 m b
unfolding load32 store32 upd
load32-store32_other m a b v h = ground arith

pub store32-IsByteMem : (m : Mem) (a v : ℕ) → IsByteMem m → IsByteMem (store32 m a v)
unfolding store32 upd
store32-IsByteMem m a v b i = ground (arith, b i)

-- A load depends on its four bytes.
pub load32_ext :
    (m m' : Mem) (a : ℕ) → ((i : ℕ) → a ≤ i → i < a + 4 → m i ≡ m' i) → load32 m a ≡ load32 m' a
unfolding load32
load32_ext m m' a same = ground (arith, same a, same (a + 1), same (a + 2), same (a + 3))

load32-lt : (m : Mem) (a : ℕ) → IsByteMem m → load32 m a < 2 ^ 32
unfolding load32
load32-lt m a b = omega (arith, b a, b (a + 1), b (a + 2), b (a + 3))

pub load16-store16_self : (m : Mem) (a v : ℕ) → v < 2 ^ 16 → load16 (store16 m a v) a ≡ v
unfolding load16 store16 upd
load16-store16_self m a v h = ground arith

pub load16-store16_other :
    (m : Mem) (a b v : ℕ) → (a + 2 ≤ b) ⊎ (b + 2 ≤ a) → load16 (store16 m a v) b ≡ load16 m b
unfolding load16 store16 upd
load16-store16_other m a b v h = ground arith

pub store16-IsByteMem : (m : Mem) (a v : ℕ) → IsByteMem m → IsByteMem (store16 m a v)
unfolding store16 upd
store16-IsByteMem m a v b i = ground (arith, b i)

pub upd-IsByteMem : (m : Mem) (a v : ℕ) → IsByteMem m → v < 256 → IsByteMem (upd m a v)
unfolding upd
upd-IsByteMem m a v b h i = ground (arith, b i)

pub store32_outside : (m : Mem) (p v a : ℕ) → (a < p) ⊎ (p + 4 ≤ a) → store32 m p v a ≡ m a
unfolding store32 upd
store32_outside m p v a h = ground arith
