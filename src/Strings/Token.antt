-- ===== src/Strings/Token.antt =====
-- `strtok` splits a string at the bytes of a delimiter string.
use native.Mathlib.Nat.{add-zero}
use potato_os.Base.{
  ℕ, zero, suc, ◌+◌, ◌<◌, ◌≡◌, ◌≢◌, ◌==◌, ◌||◌, inl, inr, some, Mem, upd, arith, refl,
  if◌then◌else◌, List, [], ◌∷◌, ◌++◌, length, Bool, true, false, not, Bool-cases, sym, upd_ne,
  ==→eq,
}
use mathlib.Core.Path.{subst}
use potato_os.Strings.{Reads, strchr, is_delim, skip_while, Strtok, strtok_from, strtok}

abbrev contains : ℕ → List ℕ → Bool
contains c [] = false
contains c (d ∷ ds) = (d == c) || contains c ds

-- `strchr` finds a byte exactly when the string holds it.
is_delim_lem :
    (fuel delim c : ℕ) (ds : List ℕ) (m : Mem)
    → Reads m delim ds
    → 0 < delim
    → length ds < fuel
    → is_delim fuel delim c m ≡ some (contains c ds)
unfolding strchr
is_delim_lem zero delim c ds m s pos enough = absurd (omega arith)
is_delim_lem (suc fuel) delim c [] m s pos enough = ground arith
is_delim_lem (suc fuel) delim c (d ∷ ds) m s pos enough =
    ground (arith, is_delim_lem fuel (delim + 1) c ds m s.2)

-- Each byte of `cs` is a delimiter (`want` true), or none is.
abbrev AllDelims : Bool → List ℕ → List ℕ → Type 0
AllDelims want ds [] = Unit
AllDelims want ds (c ∷ cs) = (contains c ds ≡ want) × AllDelims want ds cs

-- `cs` is empty or begins with a byte of the other kind.
abbrev Stops : Bool → List ℕ → List ℕ → Type 0
Stops want ds [] = Unit
Stops want ds (c ∷ cs) = contains c ds ≡ not want

Reads-drop : (p : ℕ) (xs ys : List ℕ) (m : Mem) → Reads m p (xs ++ ys) → Reads m (p + length xs) ys
Reads-drop p [] ys m s = rw (add-zero p) s
Reads-drop p (x ∷ xs) ys m s =
    let e : p + suc (length xs) ≡ p + 1 + length xs = omega arith in
    rw e (Reads-drop (p + 1) xs ys m s.2)

-- Writing NUL behind `xs` cuts the string there.
Reads-cut :
    (p : ℕ) (xs ys : List ℕ) (m : Mem) → Reads m p (xs ++ ys) → Reads (upd m (p + length xs) 0) p xs
unfolding upd
Reads-cut p [] ys m s = ground arith
Reads-cut p (x ∷ xs) ys m s =
    let e : p + suc (length xs) ≡ p + 1 + length xs = omega arith in
    (
      ground arith,
      s.1,
      subst (λ q. Reads (upd m q 0) (p + 1) xs) (sym e) (Reads-cut (p + 1) xs ys m s.2),
    )

Reads-take :
    (p : ℕ) (xs ys : List ℕ) (m : Mem) → Reads m p (xs ++ ys) → m (p + length xs) ≡ 0 → Reads m p xs
Reads-take p [] ys m s z = rw (← add-zero p) z
Reads-take p (x ∷ xs) ys m s z =
    let e : p + suc (length xs) ≡ p + 1 + length xs = omega arith in
    (s.0, s.1, Reads-take (p + 1) xs ys m s.2 (subst (λ q. m q ≡ 0) e z))

module _ (delim : ℕ) (ds : List ℕ) (m : Mem) (d : Reads m delim ds) (pos : 0 < delim) where
  skip_while_lem :
      (want : Bool) (fuel p : ℕ) (xs ys : List ℕ)
      → Reads m p (xs ++ ys)
      → AllDelims want ds xs
      → Stops want ds ys
      → length xs + length ds < fuel
      → skip_while want fuel p delim m ≡ some (p + length xs)
  unfolding skip_while
  skip_while_lem want zero p xs ys s all stop enough = absurd (omega arith)
  skip_while_lem want (suc fuel) p [] [] s all stop enough = ground arith
  skip_while_lem true (suc fuel) p [] (y ∷ ys) s all stop enough =
      ground (arith, is_delim_lem (suc fuel) delim (m p) ds m d)
  skip_while_lem false (suc fuel) p [] (y ∷ ys) s all stop enough =
      ground (arith, is_delim_lem (suc fuel) delim (m p) ds m d)
  skip_while_lem true (suc fuel) p (x ∷ xs) ys s all stop enough = ground (
    arith,
    is_delim_lem (suc fuel) delim (m p) ds m d,
    skip_while_lem true fuel (p + 1) xs ys s.2 all.1,
  )
  skip_while_lem false (suc fuel) p (x ∷ xs) ys s all stop enough = ground (
    arith,
    is_delim_lem (suc fuel) delim (m p) ds m d,
    skip_while_lem false fuel (p + 1) xs ys s.2 all.1,
  )

  strtok_from_lem :
      (fuel p : ℕ) (xs rest : List ℕ)
      → Reads m p (xs ++ rest)
      → AllDelims false ds xs
      → Stops false ds rest
      → length xs + length ds < fuel
      → let end = p + length xs in
        (r : Strtok) × (strtok_from fuel p delim m ≡ some r)
        × (r.token ≡ p)
        × Reads r.memory p xs
        × (r.last ≡ (if m end == 0 then 0 else end + 1))
        × ((a : ℕ) → a ≢ end → r.memory a ≡ m a)
  unfolding strtok_from
  strtok_from_lem fuel p xs rest s none_in stop enough =
      let end = p + length xs in
      let found = skip_while_lem false fuel p xs rest s none_in stop enough in
      elim (Bool-cases (m end == 0)) [
        | inl z ↦ (
          record { token = p; memory = m; last = 0 },
          ground (arith, found),
          refl,
          Reads-take p xs rest m s (==→eq _ _ z),
          rw z,
          λ a ne. refl,
        )
        | inr nz ↦ (
          record { token = p; memory = upd m end 0; last = end + 1 },
          ground (arith, found),
          refl,
          Reads-cut p xs rest m s,
          rw nz,
          λ a ne. upd_ne m end 0 a ne,
        )
      ]

  -- A string of delimiters `pre`, a token, and a rest that is empty or begins with a delimiter:
  -- `strtok` ends and returns the token's address, the token is a string there, `last` is NULL if
  -- nothing follows and else the byte behind the delimiter, and only that delimiter is overwritten.
  pub strtok_token :
      (fuel last p : ℕ) (pre : List ℕ) (t : ℕ) (token rest : List ℕ)
      → p ≢ 0
      → Reads m p (pre ++ (t ∷ token ++ rest))
      → AllDelims true ds pre
      → AllDelims false ds (t ∷ token)
      → Stops false ds rest
      → length pre + length token + length ds + 1 < fuel
      → let start = p + length pre in
        let end = start + suc (length token) in
        (r : Strtok) × (strtok fuel last p delim m ≡ some r)
        × (r.token ≡ start)
        × Reads r.memory start (t ∷ token)
        × (r.last ≡ (if m end == 0 then 0 else end + 1))
        × ((a : ℕ) → a ≢ end → r.memory a ≡ m a)
  unfolding strtok
  strtok_token fuel last p pre t token rest ne s all none_in stop enough =
      let start = p + length pre in
      let body = Reads-drop p pre (t ∷ token ++ rest) m s in
      let found =
        skip_while_lem true fuel p pre (t ∷ token ++ rest) s all none_in.0 (omega arith) in
      let (r, e, p1, p2, p3, p4) =
        strtok_from_lem fuel start (t ∷ token) rest body none_in stop (omega arith) in
      (r, ground (arith, found), p1, p2, p3, p4)
