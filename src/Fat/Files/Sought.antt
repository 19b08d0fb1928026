-- ===== src/Fat/Files/Sought.antt =====
-- How putFile of kernel/arch/i386/FAT.c makes the name that it looks for of a text.
use potato_os.Base.{
  true, ◌/=◌, ℕ, ◌≤◌, ◌<◌, ◌≡◌, ◌≢◌, some, Mem, arith, ltb, if◌then◌else◌, ap, sym, ◌∙◌,
}
use mathlib.Core.Path.{subst}
use native.Mathlib.Nat.{zero-add}
use potato_os.Fat.Table.{zeroed}
use potato_os.Fat.Names.{uppercase, test_if_fat_format, fat_name, convert_to_fat_format, copy_name}
use potato_os.Fat.Names.Format.{Passes-IsNameByte, IsNameByte, test_if_fat_format-zero_iff}
use potato_os.Fat.Names.Copies.{IsText, copy_name_lem, uppercase_str_lem}
use potato_os.Fat.Directory.{search_name}

-- A text with a dot among its first eleven bytes is converted.
pub converted :
    (fuel size dot : ℕ) (text : Mem)
    → IsText size text
    → size < fuel
    → size ≤ 12
    → dot < 11
    → dot < size
    → text dot ≡ b'.'
    → (u : Mem) × ((a : ℕ) → u a ≡ (if ltb a size then uppercase (text a) else 0))
      × ((r : Mem) → copy_name fuel 0 0 (fat_name 0 u) u ≡ some r → search_name fuel text ≡ some r)
unfolding search_name convert_to_fat_format
converted fuel size dot text t enough small low inside at =
    let (n, e, same) = copy_name_lem 13 size text zeroed t (omega arith) in
    let n-text : IsText size n = (
      (λ j h. subst (λ x. x ≢ 0) (sym (same j ∙ ground arith)) (t.0 j h)),
      same size ∙ ground (arith, t.1),
    ) in
    let (u, f, upper) = uppercase_str_lem fuel size n n-text enough in
    let marked : test_if_fat_format 0 n ≢ 0 = λ z.
      ((Passes-IsNameByte _).1 ((test_if_fat_format-zero_iff 0 n).0 z dot low)).3
        (ap n (zero-add dot) ∙ same dot ∙ ground (arith, at)) in
    let not_zero : (test_if_fat_format 0 n /= 0) ≡ true = ground (arith, marked) in
    (
      u,
      λ a. ground (arith, upper a, same a),
      λ r g. rw (search_name, e, not_zero, convert_to_fat_format, f) g,
    )

-- A text whose first eleven bytes may stand in an entry is taken as it is.
pub taken :
    (fuel size : ℕ) (text : Mem)
    → IsText size text
    → size < fuel
    → 11 ≤ size
    → size ≤ 12
    → ((j : ℕ) → j < 11 → IsNameByte (text j))
    → (r : Mem) × (search_name fuel text ≡ some r) × ((i : ℕ) → i < 11 → r i ≡ text i)
unfolding search_name
taken fuel size text t enough long short bytes =
    let (n, e, same) = copy_name_lem 13 size text zeroed t (omega arith) in
    let copied : (i : ℕ) → i < 11 → n i ≡ text i = λ i h. same i ∙ ground arith in
    let clean : test_if_fat_format 0 n ≡ 0 =
      (test_if_fat_format-zero_iff 0 n).1
        (λ j h. subst IsNameByte (sym (ap n (zero-add j) ∙ copied j h)) (bytes j h)) in
    (n, ground (arith, e, clean), copied)
