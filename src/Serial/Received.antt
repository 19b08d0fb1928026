-- ===== src/Serial/Received.antt =====
-- gethex of kernel/arch/i386/lib_c.c on the digits that its printhex sends.
use potato_os.Base.{
  ℕ, zero, suc, ◌+◌, ◌*◌, ◌-◌, ◌/◌, ◌%◌, ◌^◌, ◌≤◌, ◌<◌, ◌≡◌, refl, ap, sym, ◌∙◌, List, ◌∷◌, ◌++◌,
  some, ◌||◌, ◌&&◌, false, ltb, u32, ◌<<<◌, if◌then◌else◌, arith,
}
use mathlib.Core.Path.{subst}
use native.Mathlib.Nat.{pow-suc, div-div-eq-div-mul, div-le_self, div-eq_of_lt, pow-le-pow_right}
use potato_os.Ata.{Ports}
use potato_os.Fat.Names.{lowercase}
use potato_os.Serial.{
  tty, line_status, hex_digit, wait_status, getcc, printhex, gethex_loop, gethex,
}
use potato_os.Serial.Wire.{Wire, IsSent}
use potato_os.Serial.Digits.{hex_digits, printhex-IsSent}

-- What gethex makes of a digit.
digit_back :
    (d : ℕ)
    → d < 16
    → ((ltb (lowercase (hex_digit d)) 48
          || ltb 102 (lowercase (hex_digit d))
          || (ltb 57 (lowercase (hex_digit d)) && ltb (lowercase (hex_digit d)) 97))
        ≡ false)
      × ((if ltb 57 (lowercase (hex_digit d))
            then lowercase (hex_digit d) - (97 - 10)
            else lowercase (hex_digit d) - 48)
          ≡ d)
unfolding lowercase hex_digit
digit_back d h = (ground arith, ground arith)

pow_step : (l : ℕ) → 2 ^ (suc l * 4) ≡ 2 ^ (l * 4) * 16
pow_step l =
    let four : suc l * 4 ≡ suc (suc (suc (suc (l * 4)))) = omega arith in
    rw
      (
        four,
        pow-suc 2 (suc (suc (suc (l * 4)))),
        pow-suc 2 (suc (suc (l * 4))),
        pow-suc 2 (suc (l * 4)),
        pow-suc 2 (l * 4),
      )
      (times (2 ^ (l * 4)))
  where
    times : (x : ℕ) → x * 2 * 2 * 2 * 2 ≡ x * 16
    times x = omega arith

-- The digits that were read, and one more.
next_value :
    (num l : ℕ)
    → num < 2 ^ 32
    → u32 (u32 ((num / 2 ^ (suc l * 4)) <<< 4) + num / 2 ^ (l * 4) % 16) ≡ num / 2 ^ (l * 4)
next_value num l h =
    rw (pow_step l, sym (div-div-eq-div-mul num (2 ^ (l * 4)) 16))
      (shift (num / 2 ^ (l * 4)) (small (2 ^ (l * 4))))
  where
    shift : (q : ℕ) → q < 2 ^ 32 → u32 (u32 ((q / 16) <<< 4) + q % 16) ≡ q
    shift q k = omega arith

    small : (x : ℕ) → num / x < 2 ^ 32
    small x = omega (arith, h, div-le_self num x)

module _ (ports : Ports) (line : Wire ports) where
  open ports use {Controller, inb}
  open line use {IsOpen, incoming, patience, arrived, gives}

  getcc-arrived :
      (fuel v : ℕ) (vs : List ℕ) (c : Controller)
      → 0 < fuel
      → IsOpen c
      → incoming c ≡ v ∷ vs
      → (c' : Controller) × (getcc ports fuel 0 c ≡ some (v, c')) × IsOpen c' × (incoming c' ≡ vs)
  unfolding getcc wait_status
  getcc-arrived zero v vs c positive o i = absurd (omega arith)
  getcc-arrived (suc fuel) v vs c positive o i =
      let (e, o₁, i₁) = arrived o i in
      let (e₂, o₂, i₂) = gives o₁ i₁ in
      (
        (inb tty (inb line_status c).1).1,
        rw (getcc, e) (ap (λ x. some (x, (inb tty (inb line_status c).1).1)) e₂),
        o₂,
        i₂,
      )

  loop_step :
      (fuel left num v : ℕ) (c c' : Controller)
      → getcc ports fuel 0 c ≡ some (v, c')
      → (ltb (lowercase v) 48
          || ltb 102 (lowercase v)
          || (ltb 57 (lowercase v) && ltb (lowercase v) 97))
        ≡ false
      → gethex_loop ports fuel (suc left) 0 num c
        ≡ gethex_loop ports fuel left 0
            (u32 (
              u32 (num <<< 4)
              + (if ltb 57 (lowercase v) then lowercase v - (97 - 10) else lowercase v - 48)))
            c'
  unfolding gethex_loop
  loop_step fuel left num v c c' e q = rw (gethex_loop, e, q) refl

  end_lem :
      (fuel num : ℕ) (c : Controller)
      → gethex_loop ports fuel 0 0 (num / 2 ^ (0 * 4)) c ≡ some (0, num, c)
  unfolding gethex_loop
  end_lem fuel num c = let whole : num / 1 ≡ num = omega arith in ap (λ x. some (0, x, c)) whole

  gethex_loop-digits :
      (fuel num left : ℕ) (rest : List ℕ) (c : Controller)
      → num < 2 ^ 32
      → 0 < fuel
      → IsOpen c
      → incoming c ≡ hex_digits num left ++ rest
      → (c' : Controller) × (gethex_loop ports fuel left 0 (num / 2 ^ (left * 4)) c
          ≡ some (0, num, c'))
        × IsOpen c'
        × (incoming c' ≡ rest)
  gethex_loop-digits fuel num zero rest c h positive o i = (c, end_lem fuel num c, o, i)
  gethex_loop-digits fuel num (suc left) rest c h positive o i =
      let d = num / 2 ^ (left * 4) % 16 in
      let (c₁, e₁, o₁, i₁) =
        getcc-arrived fuel (hex_digit d) (hex_digits num left ++ rest) c positive o i in
      let (fine, back) = digit_back d (omega arith) in
      let value : u32 (
            u32 ((num / 2 ^ (suc left * 4)) <<< 4)
            + (if ltb 57 (lowercase (hex_digit d))
                then lowercase (hex_digit d) - (97 - 10)
                else lowercase (hex_digit d) - 48))
          ≡ num / 2 ^ (left * 4) =
        ap (λ x. u32 (u32 ((num / 2 ^ (suc left * 4)) <<< 4) + x)) back ∙ next_value num left h in
      let (c₂, e₂, o₂, i₂) = gethex_loop-digits fuel num left rest c₁ h positive o₁ i₁ in
      (
        c₂,
        loop_step fuel left (num / 2 ^ (suc left * 4)) (hex_digit d) c c₁ e₁ fine
            ∙ ap (λ x. gethex_loop ports fuel left 0 x c₁) value
            ∙ e₂,
        o₂,
        i₂,
      )

  -- printhex with as many digits as the number needs, at most 8, returns and has sent its digits, and
  -- gethex without echo of as many digits, where those have arrived, returns 0 and the number, with
  -- what arrived behind them still to be read.
  pub gethex-printhex :
      (fuel num digits : ℕ) (rest : List ℕ) (c d : Controller)
      → digits ≤ 8
      → num < 2 ^ (digits * 4)
      → patience ≤ fuel
      → 0 < fuel
      → IsOpen c
      → IsOpen d
      → incoming d ≡ hex_digits num digits ++ rest
      → ((c' : Controller) × (printhex ports fuel num digits c ≡ some c')
          × IsSent ports line c (hex_digits num digits) c')
        × ((d' : Controller) × (gethex ports fuel digits 0 d ≡ some (0, num, d'))
            × IsOpen d'
            × (incoming d' ≡ rest))
  unfolding gethex
  gethex-printhex fuel num digits rest c d few small enough positive o o' i =
      let none_before : num / 2 ^ (digits * 4) ≡ 0 = div-eq_of_lt small in
      let wide : 2 ^ (digits * 4) ≤ 2 ^ 32 =
        pow-le-pow_right {n = 2} (omega arith) {i = digits * 4} {j = 32} (omega arith) in
      let word : num < 2 ^ 32 = omega (arith, small, wide) in
      (
        printhex-IsSent ports line fuel num digits c enough o,
        subst
            (λ x.
              (d' : Controller) × (gethex_loop ports fuel digits 0 x d ≡ some (0, num, d'))
              × IsOpen d'
              × (incoming d' ≡ rest))
            none_before (gethex_loop-digits fuel num digits rest d word positive o' i),
      )
