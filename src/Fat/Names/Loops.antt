-- ===== src/Fat/Names/Loops.antt =====
-- The loops of convertFromFATFormat of kernel/arch/i386/FAT.c.
use potato_os.Base.{
  ℕ, zero, suc, ◌+◌, ◌-◌, ◌≤◌, ◌<◌, ◌≡◌, ◌≢◌, inl, inr, Mem, upd, arith, ltb, leb, ◌==◌, ◌&&◌,
  if◌then◌else◌, ◌∙◌, Bool-cases, ==→eq, ==→ne, sym,
}
use mathlib.Core.Path.{subst}
use potato_os.Fat.Names.{base_loop, suffix_loop, blank_loop}

upd_other : (m : Mem) (q a v : ℕ) → a ≢ q → upd m q v a ≡ m a
unfolding upd
upd_other m q a v h = ground arith

pub base_loop_lem :
    (left counter k p q : ℕ) (m : Mem)
    → p + 11 ≤ q
    → counter + left ≡ 8
    → counter ≤ k
    → k ≤ 8
    → ((i : ℕ) → counter ≤ i → i < k → m (p + i) ≢ 0x20)
    → ((i : ℕ) → k ≤ i → i < 8 → m (p + i) ≡ 0x20)
    → ((base_loop left counter p q m).0 ≡ k)
      × ((j : ℕ)
          → (base_loop left counter p q m).1 j ≡ (
              if leb (q + counter) j && ltb j (q + k)
              then m (p + (j - q))
              else if j == q + k
              then b'.'
              else m j))
unfolding base_loop upd
base_loop_lem zero counter k p q m apart eight lo hi base blank = (omega arith, λ j. ground arith)
base_loop_lem (suc left) counter k p q m apart eight lo hi base blank =
    elim (Bool-cases (counter == k)) [
      | inl e ↦
          let at = ==→eq counter k e in
          let here : m (p + counter) ≡ 0x20 = blank counter (omega (arith, at)) (omega arith) in
          (ground (arith, here, at), λ j. ground (arith, here, at))
      | inr e ↦
          let before = ==→ne counter k e in
          let here : m (p + counter) ≢ 0x20 = base counter (omega arith) (omega (arith, before)) in
          let m' = upd m (q + counter) (m (p + counter)) in
          let (c, bytes) =
            base_loop_lem left (counter + 1) k p q m' apart (omega arith) (omega (arith, before)) hi
              (λ i u v.
                subst (λ x. x ≢ 0x20) (sym (upd_other m (q + counter) (p + i) _ (omega arith)))
                  (base i (omega arith) v))
              (λ i u v. upd_other m (q + counter) (p + i) _ (omega arith) ∙ blank i u v) in
          (ground (arith, here, c), λ j. ground (arith, here, bytes j))
    ]

-- An extension that ends at `k` is copied; the counter is one further where a blank ends it.
pub suffix_loop_lem :
    (left counter2 counter k p q : ℕ) (m : Mem)
    → p + 11 ≤ q
    → counter2 + left ≡ 11
    → counter2 ≤ k
    → 8 < k
    → k ≤ 11
    → ((i : ℕ) → counter2 ≤ i → i < k → m (p + i) ≢ 0x20)
    → ((i : ℕ) → k ≤ i → i < 11 → m (p + i) ≡ 0x20)
    → ((suffix_loop left counter2 counter p q m).0
        ≡ counter + (k - counter2) + (if ltb k 11 then 1 else 0))
      × ((j : ℕ)
          → (suffix_loop left counter2 counter p q m).1 j ≡ (
              if leb (q + counter + 1) j && ltb j (q + counter + 1 + (k - counter2))
              then m (p + (counter2 + (j - (q + counter + 1))))
              else m j))
unfolding suffix_loop upd
suffix_loop_lem zero counter2 counter k p q m apart eleven lo up hi suffix blank =
    (ground arith, λ j. ground arith)
suffix_loop_lem (suc left) counter2 counter k p q m apart eleven lo up hi suffix blank =
    elim (Bool-cases (counter2 == k)) [
      | inl e ↦
          let at = ==→eq counter2 k e in
          let here : m (p + counter2) ≡ 0x20 = blank counter2 (omega (arith, at)) (omega arith) in
          (ground (arith, here, at), λ j. ground (arith, here, at))
      | inr e ↦
          let before = ==→ne counter2 k e in
          let here : m (p + counter2) ≢ 0x20 =
            suffix counter2 (omega arith) (omega (arith, before)) in
          let m' = upd m (q + (counter + 1)) (m (p + counter2)) in
          let (c, bytes) =
            suffix_loop_lem left (counter2 + 1) (counter + 1) k p q m' apart (omega arith)
              (omega (arith, before)) up hi
              (λ i u v.
                subst (λ x. x ≢ 0x20)
                  (sym (upd_other m (q + (counter + 1)) (p + i) _ (omega arith)))
                  (suffix i (omega arith) v))
              (λ i u v. upd_other m (q + (counter + 1)) (p + i) _ (omega arith) ∙ blank i u v) in
          (ground (arith, here, c), λ j. ground (arith, here, bytes j))
    ]

pub blank_loop_byte :
    (left counter q : ℕ) (m : Mem) (j : ℕ)
    → blank_loop left counter q m j
      ≡ (if leb (q + counter) j && ltb j (q + counter + left) then 0x20 else m j)
unfolding blank_loop upd
blank_loop_byte zero counter q m j = ground arith
blank_loop_byte (suc left) counter q m j =
    ground (arith, blank_loop_byte left (counter + 1) q (upd m (q + counter) 0x20) j)
