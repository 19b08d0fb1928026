-- ===== src/Stdio/Pieces.antt =====
-- What a format of printf of libc/stdio and its arguments ask for, read from left to right.
use potato_os.Base.{
  ℕ, suc, ◌+◌, ◌≡◌, refl, ap, List, [], ◌∷◌, ◌++◌, length, Option, none, some, u8, ◌==◌, ◌/=◌,
  if◌then◌else◌, arith,
}
use potato_os.Terminal.{Terminal, terminal_putchar, terminal_newline}
use potato_os.Stdio.{Arg, char_arg, string_arg, percent, letter_c, letter_n, letter_s}

-- What is to be printed: a byte, or a new line of the console.
pub data Piece : Type 0 where
  byte : ℕ → Piece
  newline : Piece

abbrev pub bytes : List ℕ → List Piece
bytes [] = []
bytes (c ∷ cs) = byte c ∷ bytes cs

abbrev write_piece : Piece → Terminal → Terminal
write_piece (byte c) t = terminal_putchar (u8 c) t
write_piece newline t = terminal_newline t

abbrev pub write_pieces : List Piece → Terminal → Terminal
write_pieces [] t = t
write_pieces (p ∷ ps) t = write_pieces ps (write_piece p t)

abbrev pub before : List Piece → Option (List Piece) → Option (List Piece)
before ps none = none
before ps (some qs) = some (ps ++ qs)

-- The pieces that a format and its arguments ask for; none where an argument is missing or of the
-- other kind. A '%' before any other byte asks for the rest of the format as it stands.
abbrev pub pieces : List ℕ → List Arg → Option (List Piece)
pieces [] args = some []
pieces (c ∷ []) args = some (byte c ∷ [])
pieces (c ∷ d ∷ cs) args =
    if c /= percent
    then before (byte c ∷ []) (pieces (d ∷ cs) args)
    else if d == percent
    then before (byte percent ∷ []) (pieces cs args)
    else if d == letter_c
    then elim args [ char_arg v ∷ others ↦ before (byte (u8 v) ∷ []) (pieces cs others) | _ ↦ none ]
    else if d == letter_n
    then before (newline ∷ []) (pieces cs args)
    else if d == letter_s
    then elim args [ string_arg s ∷ others ↦ before (bytes s) (pieces cs others) | _ ↦ none ]
    else some (bytes (c ∷ d ∷ cs))

pub before-some :
    (ps : List Piece) (o : Option (List Piece)) (qs : List Piece)
    → before ps o ≡ some qs
    → (rs : List Piece) × (o ≡ some rs) × (qs ≡ ps ++ rs)
before-some ps none qs e = cc
before-some ps (some rs) qs e = (rs, refl, cc)

pub length-bytes : (cs : List ℕ) → length (bytes cs) ≡ length cs
length-bytes [] = refl
length-bytes (c ∷ cs) = ap suc (length-bytes cs)

pub length-++ : (ps qs : List Piece) → length (ps ++ qs) ≡ length ps + length qs
length-++ [] qs = omega arith
length-++ (p ∷ ps) qs = omega (arith, length-++ ps qs)

pub write_pieces-++ :
    (ps qs : List Piece) (t : Terminal)
    → write_pieces (ps ++ qs) t ≡ write_pieces qs (write_pieces ps t)
write_pieces-++ [] qs t = refl
write_pieces-++ (p ∷ ps) qs t = write_pieces-++ ps qs (write_piece p t)
