-- ===== src/Stdio.antt =====
-- printf, putchar and puts of libc/stdio, as they are built into the kernel: what they print goes to
-- the console. A text is the list of its bytes before the NUL.
pub mod Pieces
mod Emitted
mod Rounds
pub mod Format
pub mod Plain
pub mod Returns
mod Tests
use potato_os.Base.{
  ℕ, zero, suc, ◌+◌, ◌<◌, Bool, true, false, List, [], ◌∷◌, ◌++◌, length, Option, none, some, u8,
  u32, sub32, minus_one, ltb, ◌==◌, ◌/=◌, ◌||◌, ◌&&◌, if◌then◌else◌,
}
use potato_os.Terminal.{Terminal, terminal_write, terminal_newline}

abbrev pub int_max : ℕ
int_max = 0x7fff_ffff

-- '%', 'c', 'n' and 's'.
abbrev pub percent : ℕ
percent = 37

abbrev pub letter_c : ℕ
letter_c = 99

abbrev pub letter_n : ℕ
letter_n = 110

abbrev pub letter_s : ℕ
letter_s = 115

-- `putchar`; it returns its argument, which is never EOF for a byte.
unfoldable pub putchar : (ic : ℕ) → Terminal → ℕ × Terminal
unfolding terminal_write
putchar ic t = (ic, terminal_write (u8 ic ∷ []) t)

-- `print`: false at a character that is EOF.
unfoldable pub print : List ℕ → Terminal → Bool × Terminal
unfolding putchar
print [] t = (true, t)
print (c ∷ cs) t =
    let (result, t') = putchar (u8 c) t in
    let next = print cs t' in if result == minus_one then (false, t') else next

-- What is passed for `...`: an `int` or a text.
pub data Arg : Type 0 where
  char_arg : ℕ → Arg
  string_arg : List ℕ → Arg

-- `undefined` is a `va_arg` that meets no argument, or one of the other kind.
pub data Outcome : Type 0 where
  returned : (result : ℕ) → Terminal → Outcome
  undefined : Outcome

-- The end of a round of the loop: the call is over, or it goes on with the rest.
pub data Round : Type 0 where
  done : Outcome → Round
  more : (format : List ℕ) (parameters : List Arg) (written : ℕ) → Terminal → Round

-- `*s`, which is NUL at the end, and the text after it.
unfoldable pub first : List ℕ → ℕ
first [] = 0
first (c ∷ cs) = c

unfoldable pub rest_of : List ℕ → List ℕ
rest_of [] = []
rest_of (c ∷ cs) = cs

-- The bytes up to the next '%', and what follows.
unfoldable pub run : List ℕ → List ℕ × List ℕ
run [] = ([], [])
run (c ∷ cs) = let (text, rest) = run cs in if c == percent then ([], c ∷ cs) else (c ∷ text, rest)

-- A piece of output, its check against `maxrem`, and the rest of the format.
unfoldable pub emit :
    (text format : List ℕ) (parameters : List Arg) (written : ℕ) → Terminal → Round
unfolding print
emit text format parameters written t =
    let (ok, t') = print text t in
    if ltb (sub32 int_max written) (length text)
    then done (returned minus_one t)
    else if ok
    then more format parameters (u32 (written + length text)) t'
    else done (returned minus_one t')

-- The directives, after the '%'.
unfoldable pub directive :
    (format : List ℕ) (parameters : List Arg) (written : ℕ) → Terminal → Round
unfolding emit first rest_of
directive format parameters written t =
    if first format == letter_c
    then elim parameters [
      | char_arg c ∷ others ↦ emit (u8 c ∷ []) (rest_of format) others written t
      | _ ↦ done undefined
    ]
    else if first format == letter_n
    then more (rest_of format) parameters (u32 (written + 1)) (terminal_newline t)
    else if first format == letter_s
    then elim parameters [
      | string_arg s ∷ others ↦ emit s (rest_of format) others written t
      | _ ↦ done undefined
    ]
    else emit (percent ∷ format) [] parameters written t

-- A round of `while (*format != '\0')`.
unfoldable pub printf_round :
    (format : List ℕ) (parameters : List Arg) (written : ℕ) → Terminal → Round
unfolding first run emit directive
printf_round [] parameters written t = done (returned written t)
printf_round (c ∷ cs) parameters written t =
    if (c /= percent) || (first cs == percent)
    then (let format = if c == percent then cs else c ∷ cs in
        let (text, rest) = run (rest_of format) in
        emit (first format ∷ text) rest parameters written t)
    else directive cs parameters written t

-- The loop, on the rounds that are left.
unfoldable pub printf_loop :
    (fuel : ℕ) (format : List ℕ) (parameters : List Arg) (written : ℕ) → Terminal → Option Outcome
unfolding printf_round
printf_loop zero format parameters written t = none
printf_loop (suc fuel) format parameters written t =
    elim (printf_round format parameters written t) [
      | done o ↦ some o
      | more format' parameters' written' t' ↦ printf_loop fuel format' parameters' written' t'
    ]

unfoldable pub printf : (format : List ℕ) (parameters : List Arg) → Terminal → Option Outcome
unfolding printf_loop
printf format parameters t = printf_loop (suc (length format)) format parameters 0 t

-- `puts`, which is `printf("%s\n", string)`.
unfoldable puts : List ℕ → Terminal → Option Outcome
unfolding printf
puts string t = printf (percent ∷ letter_s ∷ 10 ∷ []) (string_arg string ∷ []) t
