-- ===== src/Serial/Digits.antt =====
-- The hexadecimal digits of printhex of kernel/arch/i386/lib_c.c on the wire.
use potato_os.Base.{
  ℕ, zero, suc, ◌*◌, ◌/◌, ◌%◌, ◌^◌, ◌≤◌, ◌<◌, ◌≡◌, refl, List, [], ◌∷◌, some, bit_and, ◌>>>◌, arith,
}
use mathlib.Core.Path.{subst}
use potato_os.Base.Bits.{bit_and_mask}
use potato_os.Ata.{Ports}
use potato_os.Serial.{hex_digit, printhex}
use potato_os.Serial.Wire.{Wire, on_wire, IsSent, IsSent-join, putcc-IsSent, ++-nil}

-- The digits of `num`, the first of `digits` first.
abbrev pub hex_digits : (num digits : ℕ) → List ℕ
hex_digits num zero = []
hex_digits num (suc digits) = hex_digit (num / 2 ^ (digits * 4) % 16) ∷ hex_digits num digits

no_line_feed : (d : ℕ) → d < 16 → on_wire (hex_digit d) ≡ hex_digit d ∷ []
unfolding hex_digit
no_line_feed d h = ground arith

module _ (ports : Ports) (line : Wire ports) where
  open ports use {Controller}
  open line use {IsOpen, patience}

  -- printhex sends the digits.
  pub printhex-IsSent :
      (fuel num digits : ℕ) (c : Controller)
      → patience ≤ fuel
      → IsOpen c
      → (c' : Controller) × (printhex ports fuel num digits c ≡ some c')
        × IsSent ports line c (hex_digits num digits) c'
  unfolding printhex
  printhex-IsSent fuel num zero c enough o = (c, refl, (o, ++-nil _, refl))
  printhex-IsSent fuel num (suc digits) c enough o =
      let d = num / 2 ^ (digits * 4) % 16 in
      let (c₁, e₁, s₁) = putcc-IsSent ports line fuel (hex_digit d) c enough o in
      let (c₂, e₂, s₂) = printhex-IsSent fuel num digits c₁ enough s₁.0 in
      let masked : bit_and (num >>> (digits * 4)) 0xF ≡ d =
        bit_and_mask 4 (num / 2 ^ (digits * 4)) in
      (
        c₂,
        rw (printhex, masked, e₁) e₂,
        IsSent-join ports line (hex_digit d ∷ []) (hex_digits num digits)
            (subst (λ l. IsSent ports line c l c₁) (no_line_feed d (omega arith)) s₁) s₂,
      )
