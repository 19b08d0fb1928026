-- ===== src/Strings/Compare.antt =====
-- `strcmp` and the two `strncmp`.
use potato_os.Base.{
  ℕ, ◌^◌, zero, suc, ◌+◌, ◌≤◌, ◌<◌, ◌≡◌, ◌↔◌, ◌==◌, Bool-cases, inl, inr, some, Mem, arith, sub32,
  List, [], ◌∷◌, length,
}
use potato_os.Strings.{Reads, strcmp, strncmp, strncmp_libc}

abbrev pub IsBytes : Mem → Type 0
IsBytes m = (a : ℕ) → m a < 256

-- On two strings `strcmp` ends, with any fuel above the first one's length, and answers 0 exactly
-- when the strings are equal.
strcmp-eq_iff :
    (fuel p q : ℕ) (xs ys : List ℕ) (m : Mem)
    → IsBytes m
    → Reads m p xs
    → Reads m q ys
    → length xs < fuel
    → (w : ℕ) × (strcmp fuel p q m ≡ some w) × ((w ≡ 0) ↔ (xs ≡ ys))
unfolding strcmp
strcmp-eq_iff zero p q xs ys m b s t enough = absurd (omega arith)
strcmp-eq_iff (suc fuel) p q [] [] m b s t enough = (0, ground arith, ground arith)
strcmp-eq_iff (suc fuel) p q [] (y ∷ ys) m b s t enough =
    (sub32 (m p) (m q), ground arith, ground (arith, b q))
strcmp-eq_iff (suc fuel) p q (x ∷ xs) [] m b s t enough =
    (sub32 (m p) (m q), ground arith, ground (arith, b p))
strcmp-eq_iff (suc fuel) p q (x ∷ xs) (y ∷ ys) m b s t enough = elim (Bool-cases (x == y)) [
  | inl e ↦
      let (w, r, i) = strcmp-eq_iff fuel (p + 1) (q + 1) xs ys m b s.2 t.2 (omega arith) in
      (w, ground arith, ground arith)
  | inr e ↦ (sub32 (m p) (m q), ground arith, ground (arith, b p, b q))
]

-- The two versions of `strncmp` agree on whether the result is 0 and on whether it is negative.
strncmp-strncmp_libc :
    (p q n : ℕ) (m : Mem)
    → IsBytes m
    → ((strncmp p q n m ≡ 0) ↔ (strncmp_libc p q n m ≡ 0))
      × ((2 ^ 31 ≤ strncmp p q n m) ↔ (2 ^ 31 ≤ strncmp_libc p q n m))
unfolding strncmp strncmp_libc
strncmp-strncmp_libc p q zero m b = ground arith
strncmp-strncmp_libc p q (suc n) m b =
    ground (arith, b p, b q, strncmp-strncmp_libc (p + 1) (q + 1) n m b)
