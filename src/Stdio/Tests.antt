-- ===== src/Stdio/Tests.antt =====
-- printf of libc/stdio on small formats.
use potato_os.Base.{◌≡◌, refl, [], ◌∷◌, some, false, arith}
use potato_os.Terminal.{Terminal}
use potato_os.Stdio.{char_arg, string_arg, Outcome, returned, undefined, printf}
use potato_os.Stdio.Pieces.{byte, newline, pieces, write_pieces}
use potato_os.Stdio.Returns.{printf-returns}
use potato_os.Stdio.Format.{printf-pieces}

abbrev blank_console : Terminal
blank_console = record {
  row = 1;
  column = 0;
  color = 15;
  buffer = 0xB8000;
  initialized = false;
  cells = λ _. 0;
  outs = [];
}

-- "%s=%c%%" with "ab" and 'x'.
pieces_example :
    pieces (37 ∷ 115 ∷ 61 ∷ 37 ∷ 99 ∷ 37 ∷ 37 ∷ []) (string_arg (97 ∷ 98 ∷ []) ∷ char_arg 120 ∷ [])
    ≡ some (byte 97 ∷ byte 98 ∷ byte 61 ∷ byte 120 ∷ byte 37 ∷ [])
pieces_example = refl

-- A name that is typed as "%s" is a format without an argument.
missing_argument : printf (37 ∷ 115 ∷ []) [] blank_console ≡ some undefined
unfolding printf
missing_argument = refl

printf-pieces_example :
    printf (37 ∷ 115 ∷ 61 ∷ 37 ∷ 110 ∷ []) (string_arg (97 ∷ 98 ∷ []) ∷ []) blank_console
    ≡ some (returned 4 (write_pieces (byte 97 ∷ byte 98 ∷ byte 61 ∷ newline ∷ []) blank_console))
printf-pieces_example =
    printf-pieces (37 ∷ 115 ∷ 61 ∷ 37 ∷ 110 ∷ []) (string_arg (97 ∷ 98 ∷ []) ∷ []) blank_console
      (byte 97 ∷ byte 98 ∷ byte 61 ∷ newline ∷ []) refl (omega arith)

printf-returns_example : (o : Outcome) × (printf (37 ∷ 100 ∷ []) [] blank_console ≡ some o)
printf-returns_example = printf-returns (37 ∷ 100 ∷ []) [] blank_console
