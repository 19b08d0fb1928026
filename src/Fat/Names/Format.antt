-- ===== src/Fat/Names/Format.antt =====
-- testIfFATFormat answers 0 exactly on the names that may stand in a directory entry.
use potato_os.Base.{
  leb, ◌||◌, ℕ, zero, suc, ◌+◌, ◌≤◌, ◌<◌, ◌≡◌, ◌≢◌, ◌↔◌, Bool, true, false, Mem, arith, bit_or, ltb,
  ◌==◌, ◌/=◌, ◌&&◌, if◌then◌else◌, Bool-cases, inl, inr, ==→eq, ==→ne, ne→==, refl, holds_from,
  holds_from_lem,
}
use mathlib.Core.Path.{subst}
use potato_os.Fat.Names.{
  is_control, is_forbidden, is_lower, mark_dot, test_step, test_loop, test_if_fat_format,
  bad_character, lowercase_issue,
}

-- 0x05, or a byte of ASCII from the blank on that is no small letter and none of "*+,./:;<=>?[\\]|
-- and the double quote.
abbrev pub is_name_byte : ℕ → Bool
is_name_byte c =
    (c == 0x05)
    || ((leb 0x20 c && leb c 0x21)
        || ((leb 0x23 c && leb c 0x29)
            || ((c == 0x2D)
                || ((leb 0x30 c && leb c 0x39)
                    || ((leb 0x40 c && leb c 0x5A)
                        || ((leb 0x5E c && leb c 0x60)
                            || ((c == 0x7B) || (leb 0x7D c && leb c 0x7F))))))))

abbrev pub IsNameByte : ℕ → Type 0
IsNameByte c = is_name_byte c ≡ true

-- The same by the tests of a round.
abbrev pub Passes : ℕ → Type 0
Passes c = (is_control c ≡ false) × (is_forbidden c ≡ false) × (is_lower c ≡ false) × (c ≢ 0x2E)

pub Passes-IsNameByte : (c : ℕ) → Passes c ↔ IsNameByte c
Passes-IsNameByte c = (
  (λ (a, b, d, n). ground (arith, a, b, d, n)),
  λ e. (
    ground (arith, e),
    ground (arith, e),
    ground (arith, e),
    λ z. let w : is_name_byte 0x2E ≡ true = subst IsNameByte z e in cc,
  ),
)

-- Over the 32 values of the flags: a mark gives a value that is not 0.
abbrev marked : ℕ → Bool
marked r = (r /= 0) && ltb r 32

abbrev every_mark : ℕ → Bool
every_mark r =
    marked (bit_or r bad_character) && (marked (bit_or r lowercase_issue) && marked (mark_dot r))

flags_run : holds_from every_mark 0 32 ≡ true
unfolding holds_from mark_dot
flags_run = refl

marks :
    (r : ℕ)
    → r < 32
    → (marked (bit_or r bad_character) ≡ true)
      × (marked (bit_or r lowercase_issue) ≡ true)
      × (marked (mark_dot r) ≡ true)
marks r h = ground (arith, holds_from_lem every_mark 0 32 r flags_run (omega arith) (omega arith))

-- A round over the outcomes of its tests.
abbrev after_control : (control : Bool) → ℕ → ℕ
after_control control r = if control then bit_or r bad_character else r

abbrev after_switch : (dot forbidden : Bool) → ℕ → ℕ
after_switch dot forbidden r =
    if dot then mark_dot r else if forbidden then bit_or r bad_character else r

abbrev after_lower : (lower : Bool) → ℕ → ℕ
after_lower lower r = if lower then bit_or r lowercase_issue else r

control_lem :
    (b : Bool) (r : ℕ)
    → r < 32
    → (after_control b r < 32) × ((after_control b r ≡ 0) ↔ ((r ≡ 0) × (b ≡ false)))
control_lem b r h = ground (arith, marks r h)

switch_lem :
    (d f : Bool) (r : ℕ)
    → r < 32
    → (after_switch d f r < 32) × ((after_switch d f r ≡ 0) ↔ ((r ≡ 0) × (d ≡ false) × (f ≡ false)))
switch_lem d f r h = ground (arith, marks r h)

lower_lem :
    (b : Bool) (r : ℕ)
    → r < 32
    → (after_lower b r < 32) × ((after_lower b r ≡ 0) ↔ ((r ≡ 0) × (b ≡ false)))
lower_lem b r h = ground (arith, marks r h)

-- The flags stay 0 exactly on a byte that a stored name may hold.
test_step-zero :
    (c r : ℕ) → r < 32 → (test_step c r < 32) × ((test_step c r ≡ 0) ↔ ((r ≡ 0) × Passes c))
unfolding test_step
test_step-zero c r h =
    let control = is_control c in
    let r₁ = after_control control r in
    let dot = c == 0x2E in
    let forbidden = is_forbidden c in
    let r₂ = after_switch dot forbidden r₁ in
    let (b₁, i₁) = control_lem control r h in
    let (b₂, i₂) = switch_lem dot forbidden r₁ b₁ in
    let (b₃, i₃) = lower_lem (is_lower c) r₂ b₂ in
    (
      b₃,
      (
        (λ e.
            let (e₂, low) = i₃.0 e in
            let (e₁, no_dot, no_bad) = i₂.0 e₂ in
            let (e₀, no_control) = i₁.0 e₁ in (e₀, (no_control, no_bad, low, ==→ne _ _ no_dot))),
        (λ (e₀, (no_control, no_bad, low, no_dot)).
            i₃.1 (i₂.1 (i₁.1 (e₀, no_control), ne→== _ _ no_dot, no_bad), low)),
      ),
    )

test_loop-zero :
    (left i r p : ℕ) (m : Mem)
    → r < 32
    → (test_loop left i r p m ≡ 0)
      ↔ ((r ≡ 0) × ((j : ℕ) → i ≤ j → j < i + left → Passes (m (p + j))))
unfolding test_loop
test_loop-zero zero i r p m h = ((λ e. (e, λ j a b. absurd (omega arith))), λ (e, all). e)
test_loop-zero (suc left) i r p m h =
    let (b, step) = test_step-zero (m (p + i)) r h in
    let rest = test_loop-zero left (i + 1) (test_step (m (p + i)) r) p m b in
    (
      (λ e.
          let (e₁, later) = rest.0 e in
          let (e₀, here) = step.0 e₁ in
          (
            e₀,
            λ j a c. elim (Bool-cases (j == i)) [
              | inl at ↦ rw (==→eq _ _ at) here
              | inr other ↦ later j (ground arith) (omega arith)
            ],
          )),
      λ (e₀, all). rest.1 (
        step.1 (e₀, all i (omega arith) (omega arith)),
        λ j a c. all j (omega arith) (omega arith),
      ),
    )

pub test_if_fat_format-zero_iff :
    (p : ℕ) (m : Mem) → (test_if_fat_format p m ≡ 0) ↔ ((j : ℕ) → j < 11 → IsNameByte (m (p + j)))
unfolding test_if_fat_format
test_if_fat_format-zero_iff p m =
    let whole = test_loop-zero 11 0 0 p m (omega arith) in
    (
      (λ e j h. (Passes-IsNameByte (m (p + j))).0 ((whole.0 e).1 j (omega arith) (omega arith))),
      λ all. whole.1 (refl, λ j a b. (Passes-IsNameByte (m (p + j))).1 (all j (omega arith))),
    )
