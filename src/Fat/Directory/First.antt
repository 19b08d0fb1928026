-- ===== src/Fat/Directory/First.antt =====
-- The loop of directorySearch of kernel/arch/i386/FAT.c over the entries of one cluster.
use potato_os.Base.{
  ℕ, zero, suc, ◌+◌, ◌*◌, ◌≤◌, ◌<◌, ◌≡◌, ◌≢◌, ◌↔◌, ◌⊎◌, inl, inr, refl, ==→ne, ne→==, Mem, arith,
  Bool, true, false, ◌==◌, if◌then◌else◌,
}
use mathlib.Core.Path.{subst, sym}
use potato_os.Fat.Directory.{Scanned, at_end, exhausted, found, scan, matches}

-- Entry `k` is the searched one, and neither a match nor the end mark comes before it.
pub record IsFirst (left count : ℕ) (name transfer : Mem) (k : ℕ) : Type 0 where
  pub from : count ≤ k
  pub upto : k ≤ count + left
  pub used : transfer (32 * k) ≢ 0
  pub matched : matches k name transfer ≡ true
  pub used_before : (j : ℕ) → count ≤ j → j < k → transfer (32 * j) ≢ 0
  pub other_before : (j : ℕ) → count ≤ j → j < k → matches j name transfer ≡ false

at_or_after : (j count : ℕ) → count ≤ j → (j ≡ count) ⊎ (count + 1 ≤ j)
at_or_after j count h = ground arith

exhausted-found : (k : ℕ) → exhausted ≢ found k
exhausted-found k e = ground arith

-- The tests of a round, by their outcomes.
abbrev round : (is_end is_match : Bool) (count : ℕ) (next : Scanned) → Scanned
round is_end is_match count next = if is_end then at_end else if is_match then found count else next

round-found :
    (is_end is_match : Bool) (count k : ℕ) (next : Scanned)
    → round is_end is_match count next ≡ found k
    → (is_end ≡ false)
      × (((is_match ≡ true) × (count ≡ k)) ⊎ ((is_match ≡ false) × (next ≡ found k)))
round-found is_end is_match count k next e = ground arith

IsFirst-here :
    (left count : ℕ) (name m : Mem)
    → m (32 * count) ≢ 0
    → matches count name m ≡ true
    → IsFirst left count name m count
IsFirst-here left count name m used matched = record {
  from = omega arith;
  upto = omega arith;
  used = used;
  matched = matched;
  used_before = λ j p q. absurd (omega arith);
  other_before = λ j p q. absurd (omega arith);
}

IsFirst-later :
    (left count : ℕ) (name m : Mem) (k : ℕ)
    → m (32 * count) ≢ 0
    → matches count name m ≡ false
    → IsFirst left (count + 1) name m k
    → IsFirst (suc left) count name m k
IsFirst-later left count name m k used other f = record {
  from = omega (arith, f.from);
  upto = omega (arith, f.upto);
  used = f.used;
  matched = f.matched;
  used_before =
      λ j p q. elim (at_or_after j count p) [ inl e ↦ rw e used | inr h ↦ f.used_before j h q ];
  other_before =
      λ j p q. elim (at_or_after j count p) [ inl e ↦ rw e other | inr h ↦ f.other_before j h q ];
}

found-IsFirst :
    (left count : ℕ) (name m : Mem) (k : ℕ)
    → scan left count name m ≡ found k
    → IsFirst left count name m k
unfolding scan
found-IsFirst zero count name m k e =
    let (goes, which) =
      round-found (m (32 * count) == 0) (matches count name m) count k exhausted e in
    elim which [
      | inl (matched, here) ↦
          subst (IsFirst 0 count name m) here (IsFirst-here 0 count name m (==→ne _ _ goes) matched)
      | inr (_, none) ↦ absurd (exhausted-found k none)
    ]
found-IsFirst (suc left) count name m k e =
    let (goes, which) =
      round-found (m (32 * count) == 0) (matches count name m) count k
        (scan left (count + 1) name m) e in
    elim which [
      | inl (matched, here) ↦
          subst (IsFirst (suc left) count name m) here
            (IsFirst-here (suc left) count name m (==→ne _ _ goes) matched)
      | inr (other, later) ↦
          IsFirst-later left count name m k (==→ne _ _ goes) other
            (found-IsFirst left (count + 1) name m k later)
    ]

-- The first entry of the range, or one behind it.
IsFirst-found :
    (left count : ℕ) (name m : Mem) (k : ℕ)
    → IsFirst left count name m k
    → scan left count name m ≡ found k
unfolding scan
IsFirst-found zero count name m k f =
    let here : count ≡ k = omega (arith, f.from, f.upto) in
    rw (here, ne→== _ _ f.used, f.matched) refl
IsFirst-found (suc left) count name m k f = elim (at_or_after k count f.from) [
  | inl here ↦ rw (sym here, ne→== _ _ f.used, f.matched) refl
  | inr h ↦
      rw
        (
          ne→== _ _ (f.used_before count (omega arith) (omega arith)),
          f.other_before count (omega arith) (omega arith),
        )
        (IsFirst-found left (count + 1) name m k (record {
          from = h;
          upto = omega (arith, f.upto);
          used = f.used;
          matched = f.matched;
          used_before = λ j p q. f.used_before j (omega arith) q;
          other_before = λ j p q. f.other_before j (omega arith) q;
        }))
]

-- The loop finds entry `k` exactly if it is the searched one and neither a match nor the end mark
-- comes before it.
scan-found_iff :
    (left count : ℕ) (name m : Mem) (k : ℕ)
    → (scan left count name m ≡ found k) ↔ IsFirst left count name m k
scan-found_iff left count name m k =
    (λ e. found-IsFirst left count name m k e, λ f. IsFirst-found left count name m k f)
