-- ===== src/Stdio/Plain.antt =====
-- printf of libc/stdio on a format without '%'.
use potato_os.Base.{
  ℕ, ◌≤◌, ◌<◌, ◌≡◌, ◌≢◌, refl, ap, ◌∙◌, List, [], ◌∷◌, length, some, u8, true, ◌/=◌, arith,
}
use potato_os.Terminal.{Terminal, terminal_putchar, terminal_write}
use potato_os.Stdio.{returned, printf, int_max, percent}
use potato_os.Stdio.Pieces.{bytes, write_pieces, pieces, byte, before, length-bytes}
use potato_os.Stdio.Format.{printf-pieces}

abbrev pub IsPlain : List ℕ → Type 0
IsPlain [] = Unit {0}
IsPlain (c ∷ cs) = (c ≢ percent) × (c < 256) × IsPlain cs

no_percent : (c : ℕ) → c ≢ percent → (c /= percent) ≡ true
no_percent c h = ground arith

plain_pieces : (cs : List ℕ) → IsPlain cs → pieces cs [] ≡ some (bytes cs)
plain_pieces [] p = refl
plain_pieces (c ∷ []) p = refl
plain_pieces (c ∷ d ∷ cs) (h, k, p) =
    rw (no_percent c h) (ap (before (byte c ∷ [])) (plain_pieces (d ∷ cs) p))

plain_text :
    (cs : List ℕ) (t : Terminal) → IsPlain cs → write_pieces (bytes cs) t ≡ terminal_write cs t
unfolding terminal_write
plain_text [] t p = refl
plain_text (c ∷ cs) t (h, k, p) =
    let small : u8 c ≡ c = omega arith in
    ap (λ x. write_pieces (bytes cs) (terminal_putchar x t)) small
    ∙ plain_text cs (terminal_putchar c t) p

-- A format without '%' is printed as it stands.
pub printf-plain :
    (cs : List ℕ) (t : Terminal)
    → IsPlain cs
    → length cs ≤ int_max
    → printf cs [] t ≡ some (returned (length cs) (terminal_write cs t))
printf-plain cs t p h =
    printf-pieces cs [] t (bytes cs) (plain_pieces cs p) (omega (arith, length-bytes cs)) ∙ λ i.
    some (returned (length-bytes cs i) (plain_text cs t p i))
