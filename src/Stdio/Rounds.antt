-- ===== src/Stdio/Rounds.antt =====
-- A round of the loop of printf of libc/stdio prints the next pieces of its format.
use potato_os.Base.{
  ℕ, suc, ◌+◌, ◌≤◌, ◌≡◌, refl, ap, sym, ◌∙◌, inl, inr, false, List, [], ◌∷◌, ◌++◌, length, some, u8,
  u32, ◌==◌, Bool-cases, ==→eq, arith,
}
use mathlib.Core.Path.{subst}
use potato_os.Terminal.{Terminal, terminal_newline}
use potato_os.Stdio.{
  Arg, char_arg, string_arg, more, first, rest_of, run, emit, directive, printf_round, int_max,
  percent, letter_c, letter_n, letter_s,
}
use potato_os.Stdio.Pieces.{Piece, byte, newline, bytes, pieces, before-some}
use potato_os.Stdio.Emitted.{IsRound, plain, plain_piece, emitted, run-IsRound}

nothing_more : (ps : List Piece) → ps ≡ ps ++ []
nothing_more [] = refl
nothing_more (p ∷ ps) = ap (λ x. p ∷ x) (nothing_more ps)

char-IsRound :
    (cs : List ℕ) (args : List Arg) (written : ℕ) (t : Terminal) (ps : List Piece)
    → pieces (percent ∷ letter_c ∷ cs) args ≡ some ps
    → written + length ps ≤ int_max
    → IsRound ps written t (directive (letter_c ∷ cs) args written t)
unfolding directive first rest_of
char-IsRound cs [] written t ps e h = cc
char-IsRound cs (string_arg s ∷ args) written t ps e h = cc
char-IsRound cs (char_arg v ∷ args) written t ps e h =
    let (others, k, l) = before-some (byte (u8 v) ∷ []) (pieces cs args) ps e in
    emitted (u8 v ∷ []) cs args written t ps others k l h

string-IsRound :
    (cs : List ℕ) (args : List Arg) (written : ℕ) (t : Terminal) (ps : List Piece)
    → pieces (percent ∷ letter_s ∷ cs) args ≡ some ps
    → written + length ps ≤ int_max
    → IsRound ps written t (directive (letter_s ∷ cs) args written t)
unfolding directive first rest_of
string-IsRound cs [] written t ps e h = cc
string-IsRound cs (char_arg v ∷ args) written t ps e h = cc
string-IsRound cs (string_arg s ∷ args) written t ps e h =
    let (others, k, l) = before-some (bytes s) (pieces cs args) ps e in
    emitted s cs args written t ps others k l h

newline-IsRound :
    (cs : List ℕ) (args : List Arg) (written : ℕ) (t : Terminal) (ps : List Piece)
    → pieces (percent ∷ letter_n ∷ cs) args ≡ some ps
    → written + length ps ≤ int_max
    → IsRound ps written t (directive (letter_n ∷ cs) args written t)
unfolding directive first rest_of
newline-IsRound cs args written t ps e h =
    let (others, k, l) = before-some (newline ∷ []) (pieces cs args) ps e in
    let total : length ps ≡ suc (length others) = ap length l in
    let sum : u32 (written + 1) ≡ written + 1 = omega arith in
    (cs, args, newline ∷ [], others, ap (λ k. more cs args k (terminal_newline t)) sum, k, l)

-- Any other byte.
other-IsRound :
    (d : ℕ) (cs : List ℕ) (args : List Arg) (written : ℕ) (t : Terminal) (ps : List Piece)
    → (d == percent) ≡ false
    → (d == letter_c) ≡ false
    → (d == letter_n) ≡ false
    → (d == letter_s) ≡ false
    → pieces (percent ∷ d ∷ cs) args ≡ some ps
    → written + length ps ≤ int_max
    → IsRound ps written t (directive (d ∷ cs) args written t)
unfolding directive first rest_of
other-IsRound d cs args written t ps q not_c not_n not_s e h =
    let all : pieces (percent ∷ d ∷ cs) args ≡ some (bytes (percent ∷ d ∷ cs)) =
      rw (q, not_c, not_n, not_s) refl in
    let same : ps ≡ bytes (percent ∷ d ∷ cs) = cc in
    rw (not_c, not_n, not_s)
      (emitted (percent ∷ d ∷ cs) [] args written t ps [] refl (same ∙ nothing_more _) h)

-- A '%' and a byte that is not one.
directive-IsRound :
    (d : ℕ) (cs : List ℕ) (args : List Arg) (written : ℕ) (t : Terminal) (ps : List Piece)
    → (d == percent) ≡ false
    → pieces (percent ∷ d ∷ cs) args ≡ some ps
    → written + length ps ≤ int_max
    → IsRound ps written t (directive (d ∷ cs) args written t)
directive-IsRound d cs args written t ps q e h = elim (Bool-cases (d == letter_c)) [
  | inl is_c ↦
      subst RoundOf (sym (==→eq d letter_c is_c)) (λ f. char-IsRound cs args written t ps f h) e
  | inr not_c ↦ elim (Bool-cases (d == letter_n)) [
    | inl is_n ↦
        subst RoundOf (sym (==→eq d letter_n is_n)) (λ f. newline-IsRound cs args written t ps f h)
          e
    | inr not_n ↦ elim (Bool-cases (d == letter_s)) [
      | inl is_s ↦
          subst RoundOf (sym (==→eq d letter_s is_s)) (λ f. string-IsRound cs args written t ps f h)
            e
      | inr not_s ↦ other-IsRound d cs args written t ps q not_c not_n not_s e h
    ]
  ]
]
  where
    RoundOf : ℕ → Type 0
    RoundOf x =
        pieces (percent ∷ x ∷ cs) args ≡ some ps
        → IsRound ps written t (directive (x ∷ cs) args written t)

round_plain :
    (c : ℕ) (cs : List ℕ) (args : List Arg) (written : ℕ) (t : Terminal)
    → (c == percent) ≡ false
    → printf_round (c ∷ cs) args written t ≡ emit (c ∷ (run cs).0) (run cs).1 args written t
unfolding printf_round first rest_of
round_plain c cs args written t q = rw (plain c q, q) refl

round_double :
    (cs : List ℕ) (args : List Arg) (written : ℕ) (t : Terminal)
    → printf_round (percent ∷ percent ∷ cs) args written t
      ≡ emit (percent ∷ (run cs).0) (run cs).1 args written t
unfolding printf_round first rest_of
round_double cs args written t = refl

round_lone :
    (args : List Arg) (written : ℕ) (t : Terminal)
    → printf_round (percent ∷ []) args written t ≡ emit (percent ∷ []) [] args written t
unfolding printf_round first rest_of directive
round_lone args written t = refl

round_directive :
    (d : ℕ) (cs : List ℕ) (args : List Arg) (written : ℕ) (t : Terminal)
    → (d == percent) ≡ false
    → printf_round (percent ∷ d ∷ cs) args written t ≡ directive (d ∷ cs) args written t
unfolding printf_round first
round_directive d cs args written t q = rw q refl

lone_piece :
    (c : ℕ) (args : List Arg) (ps : List Piece) → pieces (c ∷ []) args ≡ some ps → ps ≡ byte c ∷ []
lone_piece c args ps e = cc

-- A round on a format that begins with '%'.
percent-IsRound :
    (cs : List ℕ) (args : List Arg) (written : ℕ) (t : Terminal) (ps : List Piece)
    → pieces (percent ∷ cs) args ≡ some ps
    → written + length ps ≤ int_max
    → IsRound ps written t (printf_round (percent ∷ cs) args written t)
percent-IsRound [] args written t ps e h =
    subst (IsRound ps written t) (sym (round_lone args written t))
      (emitted (percent ∷ []) [] args written t ps [] refl (lone_piece percent args ps e) h)
percent-IsRound (d ∷ cs) args written t ps e h = elim (Bool-cases (d == percent)) [
  | inl p ↦ subst Round_of (sym (==→eq d percent p)) double e
  | inr p ↦
      subst (IsRound ps written t) (sym (round_directive d cs args written t p))
        (directive-IsRound d cs args written t ps p e h)
]
  where
    Round_of : ℕ → Type 0
    Round_of x =
        pieces (percent ∷ x ∷ cs) args ≡ some ps
        → IsRound ps written t (printf_round (percent ∷ x ∷ cs) args written t)

    double : Round_of percent
    double f =
        let (qs, k, l) = before-some (byte percent ∷ []) (pieces cs args) ps f in
        subst (IsRound ps written t) (sym (round_double cs args written t))
          (run-IsRound percent cs args written t ps qs k l h)

tail_pieces :
    (c : ℕ) (cs : List ℕ) (args : List Arg) (ps : List Piece)
    → (c == percent) ≡ false
    → pieces (c ∷ cs) args ≡ some ps
    → (qs : List Piece) × (pieces cs args ≡ some qs) × (ps ≡ byte c ∷ qs)
tail_pieces c [] args ps q e = ([], refl, lone_piece c args ps e)
tail_pieces c (d ∷ cs) args ps q e =
    before-some (byte c ∷ []) (pieces (d ∷ cs) args) ps (sym (plain_piece c d cs args q) ∙ e)

pub printf_round-IsRound :
    (c : ℕ) (cs : List ℕ) (args : List Arg) (written : ℕ) (t : Terminal) (ps : List Piece)
    → pieces (c ∷ cs) args ≡ some ps
    → written + length ps ≤ int_max
    → IsRound ps written t (printf_round (c ∷ cs) args written t)
printf_round-IsRound c cs args written t ps e h = elim (Bool-cases (c == percent)) [
  | inl q ↦
      subst
        (λ x.
          pieces (x ∷ cs) args ≡ some ps
          → IsRound ps written t (printf_round (x ∷ cs) args written t))
        (sym (==→eq c percent q)) (λ f. percent-IsRound cs args written t ps f h) e
  | inr q ↦
      let (qs, k, l) = tail_pieces c cs args ps q e in
      subst (IsRound ps written t) (sym (round_plain c cs args written t q))
        (run-IsRound c cs args written t ps qs k l h)
]
