-- ===== src/Serial/Ints.antt =====
-- The decimal numbers of _printInt of kernel/arch/i386/lib_c.c.
use potato_os.Base.{
  ℕ, zero, suc, ◌+◌, ◌*◌, ◌-◌, ◌/◌, ◌%◌, ◌^◌, ◌≤◌, ◌<◌, ◌≡◌, ◌≢◌, refl, ap, sym, ◌∙◌, List, [], ◌∷◌,
  some, ◌==◌, lt→ltb, false, Bool-cases, inl, inr, ==→eq, ==→ne, arith,
}
use mathlib.Core.Path.{subst}
use native.Mathlib.Nat.{pow-suc}
use potato_os.Ata.{Ports}
use potato_os.Serial.{hex_digit, int_digits, print_int}
use potato_os.Serial.Wire.{Wire, IsSent, all_on_wire, printss-IsSent}

-- The number that a text of decimal digits stands for, behind the number `acc`.
abbrev pub decimal : (acc : ℕ) → List ℕ → ℕ
decimal acc [] = acc
decimal acc (c ∷ cs) = decimal (10 * acc + (c - 48)) cs

abbrev pub IsDecimal : List ℕ → Type 0
IsDecimal [] = Unit {0}
IsDecimal (c ∷ cs) = (48 ≤ c) × (c ≤ 57) × IsDecimal cs

digit_step :
    (left val : ℕ) (text : List ℕ)
    → 0 < val
    → val < 2 ^ 31
    → int_digits (suc left) val 10 text ≡ int_digits left (val / 10) 10 ((val % 10 + 48) ∷ text)
unfolding int_digits
digit_step left val text some_left h =
    let nonzero : (val == 0) ≡ false = ground arith in
    let digit : hex_digit (val % 10) ≡ val % 10 + 48 = unfold hex_digit in ground arith in
    rw (int_digits, nonzero, lt→ltb val (2 ^ 31) h, digit) refl

no_digits : (left : ℕ) (text : List ℕ) → int_digits left 0 10 text ≡ text
unfolding int_digits
no_digits zero text = refl
no_digits (suc left) text = refl

halved : (left val : ℕ) → val < 2 ^ suc left → val / 10 < 2 ^ left
halved left val h = omega (arith, h, pow-suc 2 left)

int_digits-IsDecimal :
    (left val : ℕ) (text : List ℕ)
    → val < 2 ^ left
    → val < 2 ^ 31
    → IsDecimal text
    → IsDecimal (int_digits left val 10 text)
      × (decimal 0 (int_digits left val 10 text) ≡ decimal val text)
int_digits-IsDecimal zero val text h k t =
    let none_left : 0 ≡ val = omega arith in
    subst
      (λ v.
        IsDecimal (int_digits 0 v 10 text) × (decimal 0 (int_digits 0 v 10 text) ≡ decimal v text))
      none_left (rw (no_digits 0 text) (t, refl))
int_digits-IsDecimal (suc left) val text h k t = elim (Bool-cases (val == 0)) [
  | inl e ↦
      subst
        (λ v.
          IsDecimal (int_digits (suc left) v 10 text)
          × (decimal 0 (int_digits (suc left) v 10 text) ≡ decimal v text))
        (sym (==→eq val 0 e)) (rw (no_digits (suc left) text) (t, refl))
  | inr e ↦
      let positive : 0 < val = omega (arith, ==→ne val 0 e) in
      let (d, s) =
        int_digits-IsDecimal left (val / 10) ((val % 10 + 48) ∷ text) (halved left val h)
          (omega arith) (omega arith, omega arith, t) in
      let whole : 10 * (val / 10) + (val % 10 + 48 - 48) ≡ val = omega arith in
      rw (digit_step left val text positive k) (d, s ∙ ap (λ x. decimal x text) whole)
]

module _ (ports : Ports) (line : Wire ports) where
  open ports use {Controller}
  open line use {IsOpen, patience}

  -- _printInt of a positive number, in base 10, sends a text of at least one byte, all of them decimal
  -- digits, that stands for the number.
  pub print_int-decimal :
      (fuel val : ℕ) (c : Controller)
      → 0 < val
      → val < 2 ^ 31
      → patience ≤ fuel
      → IsOpen c
      → (c' : Controller) × (text : List ℕ) × (print_int ports fuel val 10 c ≡ some c')
        × IsSent ports line c (all_on_wire text) c'
        × (text ≢ [])
        × IsDecimal text
        × (decimal 0 text ≡ val)
  unfolding print_int
  print_int-decimal fuel val c positive h enough o =
      let text = int_digits 31 val 10 [] in
      let (d, s) = int_digits-IsDecimal 31 val [] h h tt in
      let (c', e, sent) = printss-IsSent ports line fuel text c enough o in
      (c', text, e, sent, (λ z. absurd (omega (arith, ap (decimal 0) z, s))), d, s)
