-- ===== src/Stdio/Format.antt =====
-- What printf of libc/stdio prints.
use potato_os.Base.{
  ℕ, zero, suc, ◌+◌, ◌<◌, ◌≤◌, ◌≡◌, refl, ap, sym, ◌∙◌, List, [], ◌∷◌, length, some, arith,
}
use mathlib.Core.Path.{subst}
use native.Mathlib.Nat.{add-zero, zero-add}
use potato_os.Terminal.{Terminal}
use potato_os.Stdio.{Arg, returned, more, printf_round, printf_loop, printf, int_max}
use potato_os.Stdio.Returns.{IsShorter, printf_round-IsShorter}
use potato_os.Stdio.Pieces.{Piece, write_pieces, pieces, length-++, write_pieces-++}
use potato_os.Stdio.Rounds.{printf_round-IsRound}

nil_pieces : (args : List Arg) (ps : List Piece) → pieces [] args ≡ some ps → [] ≡ ps
nil_pieces args ps e = cc

loop_more :
    (fuel : ℕ) (format : List ℕ) (args : List Arg) (written : ℕ) (t : Terminal) (format' : List ℕ)
    (args' : List Arg) (written' : ℕ) (t' : Terminal)
    → printf_round format args written t ≡ more format' args' written' t'
    → printf_loop (suc fuel) format args written t ≡ printf_loop fuel format' args' written' t'
unfolding printf_loop
loop_more fuel format args written t format' args' written' t' e = rw (printf_loop, e) refl

loop_end :
    (fuel : ℕ) (args : List Arg) (written : ℕ) (t : Terminal)
    → printf_loop (suc fuel) [] args written t ≡ some (returned written t)
unfolding printf_loop printf_round
loop_end fuel args written t = refl

printf_loop_lem :
    (fuel : ℕ) (format : List ℕ) (args : List Arg) (written : ℕ) (t : Terminal) (ps : List Piece)
    → length format < fuel
    → pieces format args ≡ some ps
    → written + length ps ≤ int_max
    → printf_loop fuel format args written t
      ≡ some (returned (written + length ps) (write_pieces ps t))
printf_loop_lem zero format args written t ps enough e h = absurd (omega arith)
printf_loop_lem (suc fuel) [] args written t ps enough e h =
    subst
      (λ x.
        printf_loop (suc fuel) [] args written t
        ≡ some (returned (written + length x) (write_pieces x t)))
      (nil_pieces args ps e)
      (loop_end fuel args written t ∙ ap (λ n. some (returned n t)) (sym (add-zero written)))
printf_loop_lem (suc fuel) (c ∷ cs) args written t ps enough e h =
    let (format', args', printed, others, step, left, split) =
      printf_round-IsRound c cs args written t ps e h in
    let shorter : IsShorter (suc (length cs))
        (more format' args' (written + length printed) (write_pieces printed t)) =
      subst (IsShorter (suc (length cs))) step (printf_round-IsShorter (c ∷ cs) args written t) in
    let total : length ps ≡ length printed + length others =
      ap length split ∙ length-++ printed others in
    let sums : written + length printed + length others ≡ written + length ps = omega arith in
    let texts : write_pieces others (write_pieces printed t) ≡ write_pieces ps t =
      sym (write_pieces-++ printed others t) ∙ ap (λ x. write_pieces x t) (sym split) in
    let rest =
      printf_loop_lem fuel format' args' (written + length printed) (write_pieces printed t) others
        (omega (arith, shorter)) left (omega arith) in
    loop_more fuel (c ∷ cs) args written t format' args' (written + length printed)
      (write_pieces printed t) step
    ∙ rest
    ∙ (λ i. some (returned (sums i) (texts i)))

-- printf returns the number of pieces that its format and arguments ask for and has printed them in
-- order, where these are no more than INT_MAX and no argument is missing.
pub printf-pieces :
    (format : List ℕ) (args : List Arg) (t : Terminal) (ps : List Piece)
    → pieces format args ≡ some ps
    → length ps ≤ int_max
    → printf format args t ≡ some (returned (length ps) (write_pieces ps t))
unfolding printf
printf-pieces format args t ps e h =
    printf_loop_lem (suc (length format)) format args 0 t ps (omega arith) e (omega (arith, h))
    ∙ ap (λ n. some (returned n (write_pieces ps t))) (zero-add (length ps))
