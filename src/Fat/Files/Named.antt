-- ===== src/Fat/Files/Named.antt =====
-- putFile of kernel/arch/i386/FAT.c looks for a file by the name that convertFromFATFormat makes of its
-- entry: which entry directorySearch then looks for.
use potato_os.Base.{
  ℕ, ◌+◌, ◌-◌, ◌≤◌, ◌<◌, ◌≡◌, ◌≢◌, inl, inr, some, Mem, arith, ltb, leb, ◌==◌, ◌&&◌, if◌then◌else◌,
  Bool-cases, ==→eq, ==→ne, ap, sym, ◌∙◌,
}
use mathlib.Core.Path.{subst}
use native.Mathlib.Nat.{zero-add}
use potato_os.Fat.Names.{uppercase, fat_name, copy_name}
use potato_os.Fat.Names.Format.{Passes-IsNameByte, IsNameByte}
use potato_os.Fat.Names.Printed.{IsEntryName, printed_suffix, printed_plain}
use potato_os.Fat.Names.Copies.{IsText, copy_name_lem}
use potato_os.Fat.Names.Convert.{or_blank, fat_name_base, fat_name_end}
use potato_os.Fat.Directory.{search_name}
use potato_os.Fat.Files.{output_name}
use potato_os.Fat.Files.Sought.{converted, taken}

module _ (a b : ℕ) (m : Mem) (n : IsEntryName 0 a b m)
    (bytes : (j : ℕ) → j < 11 → IsNameByte (m j)) where
  -- The size of the name that is made of the entry: 12, or less where a byte that is not set is NUL.
  text_size : ℕ
  text_size = if (ltb 0 b && ltb b 3) && (m (64 + (a + b + 1)) == 0) then a + b + 1 else 12

  long_name :
      0 < b
      → (j : ℕ) → j < 13
      → output_name m j ≡ (
          if ltb j a
          then m j
          else if j == a
          then b'.'
          else if leb j (a + b)
          then m (8 + (j - (a + 1)))
          else if (j == a + b + 1) && ltb b 3
          then m (64 + j)
          else if ltb j 12
          then 0x20
          else 0)
  unfolding output_name
  long_name longer j h =
      printed_suffix 0 64 a b m n (omega arith) longer j h
      ∙ ground (arith, zero-add j, zero-add (8 + (j - (a + 1))))

  plain_name :
      b ≡ 0
      → (j : ℕ) → j < 13
      → output_name m j ≡ (if ltb j a then m j else if ltb j 12 then 0x20 else 0)
  unfolding output_name
  plain_name plain j h =
      printed_plain 0 64 a b m n (omega arith) plain j h ∙ ground (arith, zero-add j)

  name_byte : (j : ℕ) → j < 11 → m j ≢ 0
  name_byte j h = ground (arith, bytes j h)

  text_size_bounds : 0 < b → (a + b < text_size) × (text_size ≤ 12)
  unfolding text_size
  text_size_bounds longer =
      let f = n.base_fits in let s = n.suffix_fits in (ground arith, ground arith)

  long_name-IsText : 0 < b → IsText text_size (output_name m)
  unfolding text_size
  long_name-IsText longer =
      let f = n.base_fits in
      let s = n.suffix_fits in
      let (low, high) = text_size_bounds longer in
      (
        (λ j below.
            let here = long_name longer j (omega arith) in
            ground (arith, here, name_byte j, name_byte (8 + (j - (a + 1))))),
        long_name longer text_size (omega arith) ∙ ground arith,
      )

  plain_name-IsText : b ≡ 0 → IsText 12 (output_name m)
  plain_name-IsText plain =
      let f = n.base_fits in
      (
        (λ j below.
            let here = plain_name plain j (omega arith) in ground (arith, here, name_byte j)),
        plain_name plain 12 (omega arith) ∙ ground arith,
      )

  below_eleven : (j : ℕ) → j < a → j < 11
  below_eleven j h = omega (arith, h, n.base_fits)

  no_lower : (j : ℕ) → j < 11 → uppercase (m j) ≡ m j
  unfolding uppercase
  no_lower j h = ground (arith, bytes j h)

  -- The byte of the entry behind the extension, as the search takes it from the output.
  left_over : ℕ
  left_over = or_blank (uppercase (m (64 + (a + b + 1))))

  left_over-ne : left_over ≢ 0
  unfolding left_over
  left_over-ne = ground arith

  plain_same : b ≡ 0 → (j : ℕ) → j < 11 → output_name m j ≡ m j
  plain_same plain j h =
      let f = n.base_fits in
      let back : 0 + (8 + (j - 8)) ≡ 8 + (j - 8) = omega arith in
      plain_name plain j (omega arith)
      ∙ ground (arith, n.base_end j, n.suffix_end (j - 8), zero-add j, zero-add (8 + (j - 8)))

  module _ (longer : 0 < b) (u : Mem)
      (upper : (j : ℕ) → u j ≡ (if ltb j text_size then uppercase (output_name m j) else 0)) where
    upper_base : (j : ℕ) → j < a → u (0 + j) ≡ m j
    upper_base j h =
        let f = n.base_fits in
        let (low, high) = text_size_bounds longer in
        ap u (zero-add j)
        ∙ upper j
        ∙ ground (arith, long_name longer j (omega arith), no_lower j (omega arith))

    upper_dot : u (0 + a) ≡ b'.'
    unfolding uppercase
    upper_dot =
        let f = n.base_fits in
        let (low, high) = text_size_bounds longer in
        ap u (zero-add a) ∙ upper a ∙ ground (arith, long_name longer a (omega arith))

    upper_suffix :
        (x : ℕ) → x < 3 → or_blank (u (0 + (a + 1 + x))) ≡ (if x == b then left_over else m (8 + x))
    unfolding uppercase text_size left_over
    upper_suffix x h =
        let f = n.base_fits in
        let s = n.suffix_fits in
        let j = a + 1 + x in
        let at : j - (a + 1) ≡ x = omega arith in
        ap (λ k. or_blank (u k)) (zero-add j)
        ∙ ap or_blank (upper j)
        ∙ ground (
          arith,
          at,
          long_name longer j (omega arith),
          no_lower (8 + x) (omega arith),
          name_byte (8 + x) (omega arith),
          n.suffix_end x,
          zero-add (8 + x),
        )

    upper_name : (i : ℕ) → i < 11 → fat_name 0 u i ≡ (if i == 8 + b then left_over else m i)
    upper_name i h =
        let back : 8 + (i - 8) ≡ (if leb 8 i then i else 8) = ground arith in
        fat_name_base 0 a u i n.base_fits
          (λ j k.
            subst (λ x. (x ≢ b'.') × (x ≢ 0)) (sym (upper_base j k))
              (
                ((Passes-IsNameByte _).1 (bytes j (below_eleven j k))).3,
                name_byte j (below_eleven j k),
              ))
          (inl upper_dot) h
        ∙ ground (arith, upper_base i, n.base_end i, upper_suffix (i - 8), back, zero-add i)

    name_kept :
        (fuel : ℕ)
        → 12 < fuel
        → (r : Mem) × (copy_name fuel 0 0 (fat_name 0 u) u ≡ some r)
          × ((i : ℕ) → i < 11 → r i ≡ fat_name 0 u i)
    name_kept fuel enough =
        let whole : IsText 11 (fat_name 0 u) = (
          (λ i h. let here = upper_name i h in ground (arith, here, name_byte i h, left_over-ne)),
          fat_name_end 0 a u n.base_fits
              (λ j k.
                subst (λ x. (x ≢ b'.') × (x ≢ 0)) (sym (upper_base j k))
                  (
                    ((Passes-IsNameByte _).1 (bytes j (below_eleven j k))).3,
                    name_byte j (below_eleven j k),
                  ))
              (inl upper_dot),
        ) in
        let (r, e, same) = copy_name_lem fuel 11 (fat_name 0 u) u whole (omega arith) in
        (r, e, λ i h. same i ∙ ground arith)

  -- Take an entry whose eleven bytes may stand in a name: a base of one to eight bytes, an extension of
  -- at most three, and blanks behind either. Whoever searches for the name that convertFromFATFormat
  -- makes of it searches for the same eleven bytes if the entry has no extension or one of three bytes.
  -- Behind an extension of one or two bytes, though, the byte of the output that was never set is
  -- searched for in place of a blank, in upper case; NUL stands for a blank.
  pub search_name-output_name :
      (fuel : ℕ)
      → 12 < fuel
      → (name : Mem) × (search_name fuel (output_name m) ≡ some name)
        × ((i : ℕ)
            → i < 11
            → name i ≡ (
                if ltb 0 b && (i == 8 + b)
                then or_blank (uppercase (m (64 + (a + b + 1))))
                else m i))
  unfolding left_over
  search_name-output_name fuel enough = elim (Bool-cases (b == 0)) [
    | inl e ↦
        let plain = ==→eq b 0 e in
        let (r, found, same) =
          taken fuel 12 (output_name m) (plain_name-IsText plain) enough (omega arith) (omega arith)
            (λ j h. subst IsNameByte (sym (plain_same plain j h)) (bytes j h)) in
        (r, found, λ i h. same i h ∙ plain_same plain i h ∙ ground (arith, plain))
    | inr e ↦
        let ne = ==→ne b 0 e in
        let longer : 0 < b = omega (arith, ne) in
        let (low, high) = text_size_bounds longer in
        let f = n.base_fits in
        let (u, upper, found) =
          converted fuel text_size a (output_name m) (long_name-IsText longer) (omega arith) high
            (omega arith) (omega arith) (long_name longer a (omega arith) ∙ ground arith) in
        let (r, kept, same) = name_kept longer u upper fuel enough in
        (r, found r kept, λ i h. same i h ∙ upper_name longer u upper i h ∙ ground arith)
  ]
