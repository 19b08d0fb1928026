-- ===== src/Stdio/Returns.antt =====
-- The loop of printf of libc/stdio ends.
use potato_os.Base.{
  ℕ, zero, suc, ◌<◌, ◌≤◌, ◌≡◌, refl, ◌⊎◌, inl, inr, Bool, true, false, List, [], ◌∷◌, length, some,
  u8, sub32, ltb, ◌==◌, ◌/=◌, ◌||◌, Bool-cases, if◌then◌else◌, arith,
}
use mathlib.Core.Path.{subst}
use potato_os.Terminal.{Terminal}
use potato_os.Stdio.{
  Arg, char_arg, string_arg, Outcome, undefined, Round, done, more, first, rest_of, run, print,
  emit, directive, printf_round, printf_loop, printf, int_max, percent, letter_c, letter_n,
  letter_s,
}

-- A round that goes on has fewer than `n` bytes of the format left.
abbrev pub IsShorter : ℕ → Round → Type 0
IsShorter n (done o) = Unit {0}
IsShorter n (more format parameters written t) = length format < n

if-IsShorter :
    (n : ℕ) (b : Bool) (x y : Round)
    → IsShorter n x
    → IsShorter n y
    → IsShorter n (if b then x else y)
if-IsShorter n true x y p q = p
if-IsShorter n false x y p q = q

run_rest : (cs : List ℕ) → length (run cs).1 ≤ length cs
unfolding run
run_rest [] = omega arith
run_rest (c ∷ cs) = ground (arith, run_rest cs)

length-rest_of : (cs : List ℕ) → length (rest_of cs) ≤ length cs
unfolding rest_of
length-rest_of [] = omega arith
length-rest_of (c ∷ cs) = omega arith

after_first :
    (c : ℕ) (cs : List ℕ) → length (rest_of (if c == percent then cs else c ∷ cs)) ≤ length cs
unfolding rest_of
after_first c cs = elim (Bool-cases (c == percent)) [
  | inl e ↦ rw e (length-rest_of cs)
  | inr e ↦ rw e (omega arith)
]

emit-IsShorter :
    (n : ℕ) (text format : List ℕ) (parameters : List Arg) (written : ℕ) (t : Terminal)
    → length format < n
    → IsShorter n (emit text format parameters written t)
unfolding emit
emit-IsShorter n text format parameters written t h =
    if-IsShorter n (ltb (sub32 int_max written) (length text)) _ _ tt
      (if-IsShorter n (print text t).0 (more format parameters _ _) _ h tt)

directive-IsShorter :
    (format : List ℕ) (parameters : List Arg) (written : ℕ) (t : Terminal)
    → IsShorter (suc (length format)) (directive format parameters written t)
unfolding directive
directive-IsShorter format parameters written t =
    if-IsShorter (suc (length format)) (first format == letter_c) _ _ (of_char parameters) (
      if-IsShorter (suc (length format)) (first format == letter_n)
        (more (rest_of format) parameters _ _) _ (omega (arith, length-rest_of format))
        (if-IsShorter (suc (length format)) (first format == letter_s) _ _ (of_string parameters) (
          emit-IsShorter (suc (length format)) (percent ∷ format) [] parameters written t
            (omega arith))))
  where
    of_char :
        (args : List Arg)
        → IsShorter (suc (length format)) (elim args [
          | char_arg c ∷ others ↦ emit (u8 c ∷ []) (rest_of format) others written t
          | _ ↦ done undefined
        ])
    of_char [] = tt
    of_char (string_arg s ∷ others) = tt
    of_char (char_arg c ∷ others) =
        emit-IsShorter (suc (length format)) (u8 c ∷ []) (rest_of format) others written t
          (omega (arith, length-rest_of format))

    of_string :
        (args : List Arg)
        → IsShorter (suc (length format)) (elim args [
          | string_arg s ∷ others ↦ emit s (rest_of format) others written t
          | _ ↦ done undefined
        ])
    of_string [] = tt
    of_string (char_arg c ∷ others) = tt
    of_string (string_arg s ∷ others) =
        emit-IsShorter (suc (length format)) s (rest_of format) others written t
          (omega (arith, length-rest_of format))

pub printf_round-IsShorter :
    (format : List ℕ) (parameters : List Arg) (written : ℕ) (t : Terminal)
    → IsShorter (length format) (printf_round format parameters written t)
unfolding printf_round
printf_round-IsShorter [] parameters written t = tt
printf_round-IsShorter (c ∷ cs) parameters written t =
    let format = if c == percent then cs else c ∷ cs in
    if-IsShorter (suc (length cs)) ((c /= percent) || (first cs == percent)) _ _
      (emit-IsShorter (suc (length cs)) (first format ∷ (run (rest_of format)).0)
        (run (rest_of format)).1 parameters written t
        (omega (arith, run_rest (rest_of format), after_first c cs)))
      (directive-IsShorter cs parameters written t)

Round-cases :
    (r : Round)
    → ((o : Outcome) × (r ≡ done o))
      ⊎ ((format : List ℕ) × (parameters : List Arg) × (written : ℕ) × (t : Terminal) × (r
            ≡ more format parameters written t))
Round-cases (done o) = inl (o, refl)
Round-cases (more format parameters written t) = inr (format, parameters, written, t, refl)

printf_loop-returns :
    (fuel : ℕ) (format : List ℕ) (parameters : List Arg) (written : ℕ) (t : Terminal)
    → length format < fuel
    → (o : Outcome) × (printf_loop fuel format parameters written t ≡ some o)
unfolding printf_loop
printf_loop-returns zero format parameters written t h = absurd (omega arith)
printf_loop-returns (suc fuel) format parameters written t h =
    elim (Round-cases (printf_round format parameters written t)) [
      | inl (o, e) ↦ (o, rw (printf_loop, e) refl)
      | inr (format', parameters', written', t', e) ↦
          let shorter : IsShorter (length format) (more format' parameters' written' t') =
            subst (IsShorter (length format)) e
              (printf_round-IsShorter format parameters written t) in
          let (o, e') =
            printf_loop-returns fuel format' parameters' written' t' (omega (arith, shorter)) in
          (o, rw (printf_loop, e) e')
    ]

-- The loop of printf ends within one round more than the format has bytes, whatever the format and the
-- arguments: the call returns, or it stops at a directive whose argument is missing or of the other
-- kind, which C leaves undefined.
pub printf-returns :
    (format : List ℕ) (parameters : List Arg) (t : Terminal)
    → (o : Outcome) × (printf format parameters t ≡ some o)
unfolding printf
printf-returns format parameters t =
    printf_loop-returns (suc (length format)) format parameters 0 t (omega arith)
