-- ===== src/Stdio/Emitted.antt =====
-- What the loop of printf of libc/stdio/printf.c prints in one round: a run of bytes, or the text of an
-- argument.
use potato_os.Base.{
  ℕ, ◌+◌, ◌≤◌, ◌≡◌, refl, ap, sym, ◌∙◌, inl, inr, true, false, List, [], ◌∷◌, ◌++◌, length, some,
  u8, u32, sub32, minus_one, ltb, ◌==◌, ◌/=◌, Bool-cases, le→ltb, arith,
}
use potato_os.Terminal.{Terminal, terminal_putchar, terminal_write}
use potato_os.Stdio.{Arg, Round, more, run, putchar, print, emit, int_max, percent}
use potato_os.Stdio.Pieces.{
  Piece, byte, bytes, write_pieces, before, pieces, before-some, length-bytes, length-++,
}

byte_ne : (c : ℕ) → (u8 c == minus_one) ≡ false
byte_ne c = ground arith

twice : (c : ℕ) → u8 (u8 c) ≡ u8 c
twice c = omega arith

print_lem : (cs : List ℕ) (t : Terminal) → print cs t ≡ (true, write_pieces (bytes cs) t)
unfolding print putchar terminal_write
print_lem [] t = refl
print_lem (c ∷ cs) t = rw (byte_ne c, twice c) (print_lem cs (terminal_putchar (u8 c) t))

emit_lem :
    (text format : List ℕ) (args : List Arg) (written : ℕ) (t : Terminal)
    → written + length text ≤ int_max
    → emit text format args written t
      ≡ more format args (written + length text) (write_pieces (bytes text) t)
unfolding emit
emit_lem text format args written t h =
    let room : ltb (sub32 int_max written) (length text) ≡ false = le→ltb _ _ (omega arith) in
    let sum : u32 (written + length text) ≡ written + length text = omega arith in
    rw (emit, print_lem text t, room, sum) refl

-- A round of the loop prints the first pieces, and leaves a format that asks for the others.
abbrev pub IsRound : (ps : List Piece) (written : ℕ) → Terminal → Round → Type 0
IsRound ps written t r =
    (format : List ℕ) × (args : List Arg) × (printed : List Piece) × (others : List Piece) × (r
      ≡ more format args (written + length printed) (write_pieces printed t))
    × (pieces format args ≡ some others)
    × (ps ≡ printed ++ others)

pub plain : (c : ℕ) → (c == percent) ≡ false → (c /= percent) ≡ true
plain c q = ground arith

pub marked : (c : ℕ) → (c == percent) ≡ true → (c /= percent) ≡ false
marked c q = ground arith

pub plain_piece :
    (c d : ℕ) (cs : List ℕ) (args : List Arg)
    → (c == percent) ≡ false
    → pieces (c ∷ d ∷ cs) args ≡ before (byte c ∷ []) (pieces (d ∷ cs) args)
plain_piece c d cs args q = rw (plain c q) refl

-- The bytes before the next '%' are pieces of their own.
run-pieces :
    (cs : List ℕ) (args : List Arg) (ps : List Piece)
    → pieces cs args ≡ some ps
    → (others : List Piece) × (pieces (run cs).1 args ≡ some others)
      × (ps ≡ bytes (run cs).0 ++ others)
unfolding run
run-pieces [] args ps e = (ps, e, refl)
run-pieces (c ∷ []) args ps e = elim (Bool-cases (c == percent)) [
  | inl q ↦ rw q (ps, e, refl)
  | inr q ↦ rw q ([], refl, cc)
]
run-pieces (c ∷ d ∷ cs) args ps e = elim (Bool-cases (c == percent)) [
  | inl q ↦ rw q (ps, e, refl)
  | inr q ↦
      let e' : before (byte c ∷ []) (pieces (d ∷ cs) args) ≡ some ps =
        sym (plain_piece c d cs args q) ∙ e in
      let (rest, f, g) = before-some (byte c ∷ []) (pieces (d ∷ cs) args) ps e' in
      let (others, k, l) = run-pieces (d ∷ cs) args rest f in
      rw q (others, k, g ∙ ap (λ x. byte c ∷ x) l)
]

pub emitted :
    (text format : List ℕ) (args : List Arg) (written : ℕ) (t : Terminal) (ps others : List Piece)
    → pieces format args ≡ some others
    → ps ≡ bytes text ++ others
    → written + length ps ≤ int_max
    → IsRound ps written t (emit text format args written t)
emitted text format args written t ps others e f h =
    let total : length ps ≡ length text + length others =
      ap length f ∙ omega (arith, length-++ (bytes text) others, length-bytes text) in
    (
      format,
      args,
      bytes text,
      others,
      emit_lem text format args written t (omega arith)
          ∙ ap (λ k. more format args (written + k) (write_pieces (bytes text) t))
              (sym (length-bytes text)),
      e,
      f,
    )

-- A byte that is printed as it is, with the run after it.
pub run-IsRound :
    (c : ℕ) (cs : List ℕ) (args : List Arg) (written : ℕ) (t : Terminal) (ps qs : List Piece)
    → pieces cs args ≡ some qs
    → ps ≡ byte c ∷ qs
    → written + length ps ≤ int_max
    → IsRound ps written t (emit (c ∷ (run cs).0) (run cs).1 args written t)
run-IsRound c cs args written t ps qs e f h =
    let (others, k, l) = run-pieces cs args qs e in
    emitted (c ∷ (run cs).0) (run cs).1 args written t ps others k (f ∙ ap (λ x. byte c ∷ x) l) h
