-- ===== src/Fat/Names/Convert.antt =====
-- convertToFATFormat: where the bytes of a file name go in the eleven bytes of an entry.
use potato_os.Base.{
  ℕ, zero, suc, ◌+◌, ◌-◌, ◌≤◌, ◌<◌, ◌≡◌, ◌≢◌, ◌⊎◌, Mem, upd, arith, ltb, leb, ◌==◌, ◌/=◌, ◌&&◌,
  if◌then◌else◌, Bool-cases, inl, inr, refl, ◌∙◌,
}
use potato_os.Fat.Names.{Scan, name_loop, sanity_check, ext_loop, pad_loop, fat_name}

-- The byte ends the name part: a dot or NUL.
abbrev EndsBase : ℕ → Type 0
EndsBase c = (c ≡ b'.') ⊎ (c ≡ 0)

abbrev IsBaseByte : ℕ → Type 0
IsBaseByte c = (c ≢ b'.') × (c ≢ 0)

name_loop_end :
    (left counter p k : ℕ) (m name : Mem)
    → counter ≤ k
    → k < counter + left
    → ((i : ℕ) → counter ≤ i → i < k → IsBaseByte (m (p + i)))
    → EndsBase (m (p + k))
    → let s = name_loop left counter p m name in
      (s.counter ≡ k + 1)
      × (s.dot_pos ≡ k)
      × ((i : ℕ) → s.search_name i ≡ (if leb counter i && ltb i k then m (p + i) else name i))
unfolding name_loop upd
name_loop_end zero counter p k m name lo hi base end = absurd (omega arith)
name_loop_end (suc left) counter p k m name lo hi base end = elim (Bool-cases (counter == k)) [
  | inl at ↦ (ground arith, ground arith, λ i. ground arith)
  | inr other ↦
      let (c, d, n) =
        name_loop_end left (counter + 1) p k m (upd name counter (m (p + counter))) (ground arith)
          (omega arith) (λ i a b. base i (omega arith) b) end in
      (
        ground (arith, base counter, c),
        ground (arith, base counter, d),
        λ i. ground (arith, base counter, n i),
      )
]

name_loop_none :
    (left counter p : ℕ) (m name : Mem)
    → ((i : ℕ) → counter ≤ i → i < counter + left → IsBaseByte (m (p + i)))
    → let s = name_loop left counter p m name in
      (s.counter ≡ counter + left)
      × (s.dot_pos ≡ 0)
      × ((i : ℕ)
          → s.search_name i
            ≡ (if leb counter i && ltb i (counter + left) then m (p + i) else name i))
unfolding name_loop upd
name_loop_none zero counter p m name base = (omega arith, refl, λ i. ground arith)
name_loop_none (suc left) counter p m name base =
    let (c, d, n) =
      name_loop_none left (counter + 1) p m (upd name counter (m (p + counter)))
        (λ i a b. base i (omega arith) (omega arith)) in
    (
      ground (arith, base counter, c),
      ground (arith, base counter, d),
      λ i. ground (arith, base counter, n i),
    )

ext_loop_byte :
    (left counter e p : ℕ) (m name : Mem) (i : ℕ)
    → ext_loop left counter e p m name i ≡ (
        if leb e i && ltb i (e + left)
        then (if m (p + (counter + (i - e))) /= 0 then m (p + (counter + (i - e))) else 0x20)
        else name i)
unfolding ext_loop upd
ext_loop_byte zero counter e p m name i = ground arith
ext_loop_byte (suc left) counter e p m name i = ground (
  arith,
  ext_loop_byte left (counter + 1) (e + 1) p m
      (upd name e (if m (p + counter) /= 0 then m (p + counter) else 0x20)) i,
)

pad_loop_byte :
    (left counter : ℕ) (name : Mem) (i : ℕ)
    → pad_loop left counter name i
      ≡ (if leb counter i && ltb i (counter + left) then 0x20 else name i)
unfolding pad_loop upd
pad_loop_byte zero counter name i = ground arith
pad_loop_byte (suc left) counter name i =
    ground (arith, pad_loop_byte left (counter + 1) (upd name counter 0x20) i)

-- A blank in place of NUL.
abbrev pub or_blank : ℕ → ℕ
or_blank c = if c /= 0 then c else 0x20

finish_byte :
    (s : Scan) (k p : ℕ) (m : Mem) (i : ℕ)
    → s.counter ≡ k + 1
    → s.dot_pos ≡ k
    → k ≤ 8
    → let s' = sanity_check s in
      pad_loop (8 - s'.dot_pos) s'.dot_pos (ext_loop 3 s'.counter 8 p m s'.search_name) i ≡ (
        if leb k i && ltb i 8
        then 0x20
        else if leb 8 i && ltb i 11
        then or_blank (m (p + (k + 1 + (i - 8))))
        else s.search_name i)
unfolding sanity_check
finish_byte s k p m i c d small =
    let same : sanity_check s ≡ s = ground arith in
    rw (same, d, c)
      (ground (
        arith,
        pad_loop_byte (8 - k) k (ext_loop 3 (k + 1) 8 p m s.search_name) i,
        ext_loop_byte 3 (k + 1) 8 p m s.search_name i,
      ))

select_byte :
    (k i x y w : ℕ)
    → w ≡ (if leb 0 i && ltb i k then x else 0)
    → k ≤ 8
    → i < 11
    → (if leb k i && ltb i 8 then 0x20 else if leb 8 i && ltb i 11 then y else w)
      ≡ (if ltb i k then x else if ltb i 8 then 0x20 else y)
select_byte k i x y w e small below = ground arith

-- A name part of `k` bytes, at most 8, that a dot or NUL ends: it stands in the first `k` bytes,
-- blanks follow up to byte 8, and the three bytes behind the dot (blanks for NUL) come last.
pub fat_name_base :
    (p k : ℕ) (m : Mem) (i : ℕ)
    → k ≤ 8
    → ((j : ℕ) → j < k → IsBaseByte (m (p + j)))
    → EndsBase (m (p + k))
    → i < 11
    → fat_name p m i ≡ (
        if ltb i k
        then m (p + i)
        else if ltb i 8
        then 0x20
        else or_blank (m (p + (k + 1 + (i - 8)))))
unfolding fat_name sanity_check
fat_name_base p k m i small base end below =
    let s = name_loop 9 0 p m (λ j. 0) in
    let (c, d, n) =
      name_loop_end 9 0 p k m (λ j. 0) (omega arith) (omega arith) (λ j a b. base j b) end in
    finish_byte s k p m i c d small
    ∙ select_byte k i (m (p + i)) (or_blank (m (p + (k + 1 + (i - 8))))) (s.search_name i) (n i)
        small below

-- A NUL stands behind the eleven bytes.
pub fat_name_end :
    (p k : ℕ) (m : Mem)
    → k ≤ 8
    → ((j : ℕ) → j < k → IsBaseByte (m (p + j)))
    → EndsBase (m (p + k))
    → fat_name p m 11 ≡ 0
unfolding fat_name sanity_check
fat_name_end p k m small base end =
    let s = name_loop 9 0 p m (λ j. 0) in
    let (c, d, n) =
      name_loop_end 9 0 p k m (λ j. 0) (omega arith) (omega arith) (λ j a b. base j b) end in
    finish_byte s k p m 11 c d small ∙ ground (arith, n 11)

-- Without a dot or NUL among the first nine bytes the name part is lost: the entry begins with
-- eight blanks, and bytes 9 to 11 become its extension.
fat_name_dotless :
    (p : ℕ) (m : Mem) (i : ℕ)
    → ((j : ℕ) → j < 9 → IsBaseByte (m (p + j)))
    → i < 11
    → fat_name p m i ≡ (if ltb i 8 then 0x20 else or_blank (m (p + (i + 1))))
unfolding fat_name sanity_check
fat_name_dotless p m i base below =
    let s = name_loop 9 0 p m (λ j. 0) in
    let (c, d, n) = name_loop_none 9 0 p m (λ j. 0) (λ j a b. base j b) in
    ground (
      arith,
      c,
      d,
      pad_loop_byte 8 0 (ext_loop 3 9 8 p m s.search_name) i,
      ext_loop_byte 3 9 8 p m s.search_name i,
    )
