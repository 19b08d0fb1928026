-- ===== src/Base/Bits.antt =====
-- `|` of disjoint fields and `&` with a low mask, as arithmetic, at every width.
use Prim.Native.Nat.{
  ℕ, zero, suc, ◌+◌, ◌-◌, ◌*◌, ◌/◌, ◌%◌, ◌^◌, ◌≤◌, ◌<◌, min, max, bit_and, bit_or, digits,
  bit_and-bitwise, bit_or-bitwise,
}
use mathlib.Core.Path.{◌≡◌, refl}
use native.Mathlib.Omega.{arith}
use native.Mathlib.Nat.{pow-suc, one-le-pow}

-- A round more than the first number needs changes nothing.
spare_round :
    (rest : ℕ → ℕ) (op : ℕ → ℕ → ℕ) (rounds x y : ℕ)
    → x ≤ rounds
    → digits rest op (suc rounds) x y ≡ digits rest op rounds x y
spare_round rest op zero zero y enough = refl
spare_round rest op zero (suc x) y enough = absurd (omega arith)
spare_round rest op (suc rounds) zero y enough = refl
spare_round rest op (suc rounds) (suc x) y enough =
    rw (spare_round rest op rounds (suc x / 2) (y / 2) (omega arith)) refl

spare_rounds :
    (rest : ℕ → ℕ) (op : ℕ → ℕ → ℕ) (rounds x y : ℕ)
    → x ≤ rounds
    → digits rest op rounds x y ≡ digits rest op x x y
spare_rounds rest op zero zero y enough = refl
spare_rounds rest op zero (suc x) y enough = absurd (omega arith)
spare_rounds rest op (suc rounds) x y enough =
    ground (arith, spare_round rest op rounds x y, spare_rounds rest op rounds x y)

-- The lowest digit of `|` is the larger of the lowest digits, and the others are `|` of halves.
pub bit_or_step : (x y : ℕ) → bit_or x y ≡ bit_or (x / 2) (y / 2) * 2 + max (x % 2) (y % 2)
bit_or_step zero y = rw (bit_or-bitwise, bit_or-bitwise) (omega arith)
bit_or_step (suc x) y =
    rw (bit_or-bitwise, bit_or-bitwise)
      (omega (arith, spare_rounds (λ b. b) max x (suc x / 2) (y / 2) (omega arith)))

-- The lowest digit of `&` is the smaller of the lowest digits.
bit_and_step : (x y : ℕ) → bit_and x y ≡ bit_and (x / 2) (y / 2) * 2 + min (x % 2) (y % 2)
bit_and_step zero y = rw (bit_and-bitwise, bit_and-bitwise) (omega arith)
bit_and_step (suc x) y =
    rw (bit_and-bitwise, bit_and-bitwise)
      (omega (arith, spare_rounds (λ b. 0) min x (suc x / 2) (y / 2) (omega arith)))

fits_itself : (x : ℕ) → x < 2 ^ x
fits_itself zero = omega arith
fits_itself (suc x) = omega (arith, fits_itself x, pow-suc 2 x)

less_than_one : (x : ℕ) → x < 2 ^ 0 → x ≡ 0
less_than_one x fits = omega arith

-- A number of at most `width` binary digits, by recursion on `width`.
pub nothing_added : (width x : ℕ) → x < 2 ^ width → bit_or x 0 ≡ x
nothing_added zero x fits = rw (less_than_one x fits) refl
nothing_added (suc width) x fits =
    let rest = nothing_added width (x / 2) (omega (arith, pow-suc 2 width)) in
    omega (arith, rest, bit_or_step x 0)

nothing_kept : (width x : ℕ) → x < 2 ^ width → bit_and x 0 ≡ 0
nothing_kept zero x fits = rw (less_than_one x fits) refl
nothing_kept (suc width) x fits =
    let rest = nothing_kept width (x / 2) (omega (arith, pow-suc 2 width)) in
    omega (arith, rest, bit_and_step x 0)

doubled : (width high : ℕ) → high * 2 ^ suc width ≡ high * 2 ^ width * 2
doubled width high = grind (arith, pow-suc 2 width)

-- A field shifted up by `width` and one that fits below it: `|` is their sum.
pub bit_or_fields :
    (width high low : ℕ) → low < 2 ^ width → bit_or (high * 2 ^ width) low ≡ high * 2 ^ width + low
bit_or_fields zero high low fits = ground (arith, nothing_added high high (fits_itself high))
bit_or_fields (suc width) high low fits =
    let next = bit_or_fields width high (low / 2) (omega (arith, pow-suc 2 width)) in
    ground (next, doubled width high, bit_or_step (high * 2 ^ suc width) low, arith)

keeps_low :
    (width high low : ℕ) → low < 2 ^ width → bit_and (high * 2 ^ width + low) (2 ^ width - 1) ≡ low
keeps_low zero high low fits =
    rw (nothing_kept (high * 2 ^ 0 + low) _ (fits_itself _)) (omega arith)
keeps_low (suc width) high low fits =
    let next = keeps_low width high (low / 2) (omega (arith, pow-suc 2 width)) in
    let now = bit_and_step (high * 2 ^ suc width + low) (2 ^ suc width - 1) in
    ground (next, now, doubled width high, pow-suc 2 width, arith)

-- `x & (2 ^ width - 1)` keeps the low `width` bits.
pub bit_and_mask : (width x : ℕ) → bit_and x (2 ^ width - 1) ≡ x % 2 ^ width
bit_and_mask width x =
    ground (keeps_low width (x / 2 ^ width) (x % 2 ^ width), one-le-pow width 2, arith)

or_swapped : (rounds x y : ℕ) → x ≤ rounds → y ≤ rounds → bit_or x y ≡ bit_or y x
or_swapped zero zero zero p q = refl
or_swapped zero zero (suc y) p q = absurd (omega arith)
or_swapped zero (suc x) y p q = absurd (omega arith)
or_swapped (suc rounds) x y p q =
    let halves = or_swapped rounds (x / 2) (y / 2) (omega arith) (omega arith) in
    omega (halves, bit_or_step x y, bit_or_step y x, arith)

pub bit_or_comm : (x y : ℕ) → bit_or x y ≡ bit_or y x
bit_or_comm x y = or_swapped (x + y) x y (omega arith) (omega arith)
