-- ===== src/Fat/Names/Printed.antt =====
-- What convertFromFATFormat of kernel/arch/i386/FAT.c leaves in the output.
use potato_os.Base.{
  ℕ, ◌+◌, ◌-◌, ◌≤◌, ◌<◌, ◌≡◌, ◌≢◌, Mem, upd, arith, ltb, leb, ◌==◌, ◌&&◌, if◌then◌else◌, u16, refl,
  ◌∙◌, ne→==, sym,
}
use mathlib.Core.Path.{subst, ap}
use potato_os.Fat.Names.{base_loop, suffix_loop, finish_name, convert_from_fat_format}
use potato_os.Fat.Names.Loops.{base_loop_lem, suffix_loop_lem, blank_loop_byte}

-- The eleven bytes at `p` are a base of `a` bytes and an extension of `b` bytes, with blanks behind
-- either, and do not begin with a dot.
pub record IsEntryName (p a b : ℕ) (m : Mem) : Type 0 where
  pub base_fits : a ≤ 8
  pub not_empty : 0 < a
  pub suffix_fits : b ≤ 3
  pub base : (i : ℕ) → i < a → m (p + i) ≢ 0x20
  pub base_end : (i : ℕ) → a ≤ i → i < 8 → m (p + i) ≡ 0x20
  pub suffix : (i : ℕ) → i < b → m (p + (8 + i)) ≢ 0x20
  pub suffix_end : (i : ℕ) → b ≤ i → i < 3 → m (p + (8 + i)) ≡ 0x20
  pub no_dot : m p ≢ b'.'

module _ (p q a b : ℕ) (m : Mem) (n : IsEntryName p a b m) (apart : p + 11 ≤ q) where
  base_part :
      ((base_loop 8 0 p q m).0 ≡ a)
      × ((j : ℕ)
          → (base_loop 8 0 p q m).1 j ≡ (
              if leb (q + 0) j && ltb j (q + a)
              then m (p + (j - q))
              else if j == q + a
              then b'.'
              else m j))
  base_part =
      base_loop_lem 8 0 a p q m apart (omega arith) (omega arith) n.base_fits (λ i u v. n.base i v)
        n.base_end

  stages :
      let m' = (base_loop 8 0 p q m).1 in
      convert_from_fat_format p q m
      ≡ finish_name (u16 ((suffix_loop 3 8 a p q m').0 + 1)) q (suffix_loop 3 8 a p q m').1
  unfolding convert_from_fat_format
  stages = rw (convert_from_fat_format, ne→== (m p) b'.' n.no_dot, base_part.0) refl

  -- The bytes of the extension are as before when they are copied.
  suffix_unchanged : (i : ℕ) → i < 11 → (base_loop 8 0 p q m).1 (p + i) ≡ m (p + i)
  suffix_unchanged i h = ground (arith, base_part.1 (p + i))

  from_suffix : (i : ℕ) → 8 ≤ i → i < 11 → (base_loop 8 0 p q m).1 (p + i) ≡ m (p + (8 + (i - 8)))
  from_suffix i lo hi =
      let back : i ≡ 8 + (i - 8) = omega arith in suffix_unchanged i hi ∙ ap (λ k. m (p + k)) back

  -- The end of the name, from what the loop over the extension leaves.
  finished :
      (k j : ℕ) (m' : Mem)
      → j < 13
      → finish_name k q m' (q + j)
        ≡ (if j == 12 then 0 else if leb k j && ltb j 12 then 0x20 else m' (q + j))
  unfolding finish_name upd
  finished k j m' within = ground (arith, blank_loop_byte (12 - k) k q m' (q + j))

  pick :
      (k j : ℕ) (m' m'' : Mem)
      → 0 < b
      → j < 13
      → k ≡ a + b + 1 + (if ltb b 3 then 1 else 0)
      → m'' (q + j) ≡ (
          if leb (q + a + 1) (q + j) && ltb (q + j) (q + a + 1 + b)
          then m (p + (8 + (j - (a + 1))))
          else m' (q + j))
      → m' (q + j) ≡ (
          if leb (q + 0) (q + j) && ltb (q + j) (q + a)
          then m (p + j)
          else if q + j == q + a
          then b'.'
          else m (q + j))
      → (if j == 12 then 0 else if leb k j && ltb j 12 then 0x20 else m'' (q + j)) ≡ (
          if ltb j a
          then m (p + j)
          else if j == a
          then b'.'
          else if leb j (a + b)
          then m (p + (8 + (j - (a + 1))))
          else if (j == a + b + 1) && ltb b 3
          then m (q + j)
          else if ltb j 12
          then 0x20
          else 0)
  pick k j m' m'' longer within e suffix base =
      let f = n.base_fits in let s = n.suffix_fits in ground arith

  -- A name with an extension: its base, a dot, the extension and blanks up to the NUL at byte 12.
  -- Behind an extension of one or two bytes, one byte keeps what the output held.
  pub printed_suffix :
      0 < b
      → (j : ℕ) → j < 13
      → convert_from_fat_format p q m (q + j) ≡ (
          if ltb j a
          then m (p + j)
          else if j == a
          then b'.'
          else if leb j (a + b)
          then m (p + (8 + (j - (a + 1))))
          else if (j == a + b + 1) && ltb b 3
          then m (q + j)
          else if ltb j 12
          then 0x20
          else 0)
  printed_suffix longer j within =
      let m' = (base_loop 8 0 p q m).1 in
      let m'' = (suffix_loop 3 8 a p q m').1 in
      let s = n.suffix_fits in
      let f = n.base_fits in
      let (c, bytes) =
        suffix_loop_lem 3 8 a (8 + b) p q m' apart (omega arith) (omega arith) (omega arith)
          (omega arith)
          (λ i u v.
            subst (λ x. x ≢ 0x20) (sym (from_suffix i u (omega arith)))
              (n.suffix (i - 8) (omega arith)))
          (λ i u v.
            from_suffix i (omega arith) v ∙ n.suffix_end (i - 8) (omega arith) (omega arith)) in
      let k = u16 ((suffix_loop 3 8 a p q m').0 + 1) in
      let k_eq : k ≡ a + b + 1 + (if ltb b 3 then 1 else 0) = ground (arith, c) in
      let base_at : q + j - q ≡ j = omega arith in
      let suffix_at : q + j - (q + a + 1) ≡ j - (a + 1) = omega arith in
      let length_at : 8 + b - 8 ≡ b = omega arith in
      ap (λ (r : Mem). r (q + j)) stages
      ∙ finished k j m'' within
      ∙ pick k j m' m'' longer within k_eq
          (ground (
            arith,
            bytes (q + j),
            suffix_at,
            length_at,
            suffix_unchanged (8 + (q + j - (q + a + 1))),
          ))
          (ground (arith, base_part.1 (q + j), base_at))

  -- A name without an extension: its base, and blanks up to the NUL.
  pub printed_plain :
      b ≡ 0
      → (j : ℕ) → j < 13
      → convert_from_fat_format p q m (q + j)
        ≡ (if ltb j a then m (p + j) else if ltb j 12 then 0x20 else 0)
  unfolding suffix_loop
  printed_plain plain j within =
      let m' = (base_loop 8 0 p q m).1 in
      let f = n.base_fits in
      let up = n.not_empty in
      let blank : m' (p + 8) ≡ 0x20 =
        suffix_unchanged 8 (omega arith) ∙ n.suffix_end 0 (omega arith) (omega arith) in
      let ended : suffix_loop 3 8 a p q m' ≡ (u16 (a + 1 + 65536 - 2), m') =
        rw (suffix_loop, blank) refl in
      let k_eq : u16 (u16 (a + 1 + 65536 - 2) + 1) ≡ a = omega arith in
      let base_at : q + j - q ≡ j = omega arith in
      ap (λ (r : Mem). r (q + j)) stages
      ∙ ap (λ (r : ℕ × Mem). finish_name (u16 (r.0 + 1)) q r.1 (q + j)) ended
      ∙ ap (λ k. finish_name k q m' (q + j)) k_eq
      ∙ finished a j m' within
      ∙ ground (arith, base_part.1 (q + j), base_at)
