-- ===== src/Graphics/Glyphs.antt =====
-- What draw_char of kernel/arch/i386/tty.c draws.
use potato_os.Base.{
  none, some, ℕ, zero, suc, ◌+◌, ◌^◌, ◌≤◌, ◌<◌, ◌≡◌, refl, ap, ◌∙◌, true, Bool-cases, inl, inr,
  ltb→lt, ltb→le, List, [], ◌∷◌, length, Mem, upd, u32, ◌==◌, ◌/=◌, leb, ltb, ◌&&◌, holds_from,
  holds_from_lem, if◌then◌else◌, arith,
}
use potato_os.Graphics.Font.{font}
use potato_os.Graphics.{glyph, row_of, glyph_row, glyph_rows, draw_char}

-- The bytes from `from` on, `count` of them, are white.
abbrev pub white : (from count : ℕ) → Mem → Mem
white from count m a = if leb from a && ltb a (from + count) then 0x30 else m a

glyph_row-white :
    (left j row place a : ℕ) (m : Mem)
    → (row /= 0) ≡ true
    → place + j + left ≤ 2 ^ 32
    → glyph_row left j row place m a ≡ white (place + j) left m a
unfolding glyph_row
glyph_row-white zero j row place a m e h = ground arith
glyph_row-white (suc left) j row place a m e h =
    rw (glyph_row, e)
      (ground (
        arith,
        upd_lem,
        glyph_row-white left (suc j) row place a (upd m (u32 (place + j)) 0x30) e (omega arith),
      ))
  where
    upd_lem : upd m (u32 (place + j)) 0x30 a ≡ (if a == place + j then 0x30 else m a)
    upd_lem = unfold upd in ground arith

glyph_rows-white :
    (left i x y framebuffer a : ℕ) (rows : List ℕ) (m : Mem)
    → ((k : ℕ) → i ≤ k → k < i + suc left → (row_of k rows /= 0) ≡ true)
    → framebuffer + y + x + i + left + 8 ≤ 2 ^ 32
    → glyph_rows (suc left) i x y framebuffer rows m a
      ≡ white (framebuffer + (y + i) + x) (left + 8) m a
unfolding glyph_rows
glyph_rows-white zero i x y framebuffer a rows m e h = ground (
  arith,
  glyph_row-white 8 0 (row_of i rows) (framebuffer + (y + i) + x) a m
      (e i (omega arith) (omega arith)) (omega arith),
)
glyph_rows-white (suc left) i x y framebuffer a rows m e h =
    let m₁ = glyph_row 8 0 (row_of i rows) (framebuffer + (y + i) + x) m in
    ground (
      arith,
      glyph_rows-white left (suc i) x y framebuffer a rows m₁
          (λ k p q. e k (omega arith) (omega arith)) (omega arith),
      glyph_row-white 8 0 (row_of i rows) (framebuffer + (y + i) + x) a m
          (e i (omega arith) (omega arith)) (omega arith),
    )

-- Every row of every character of the font has a bit set.
full_row : (c i : ℕ) → c < 62 → i < 8 → (row_of i (glyph c font) /= 0) ≡ true
unfolding holds_from
full_row c i h k =
    holds_from_lem (λ n. row_of n (glyph c font) /= 0) 0 8 i
      (holds_from_lem (λ d. holds_from (λ n. row_of n (glyph d font) /= 0) 0 8) 0 62 c refl
        (omega arith) (omega arith))
      (omega arith) (omega arith)

no_glyph : (gs : List (List ℕ)) (c : ℕ) → length gs ≤ c → glyph c gs ≡ []
no_glyph [] c h = refl
no_glyph (g ∷ gs) zero h = absurd (omega arith)
no_glyph (g ∷ gs) (suc c) h = no_glyph gs c (omega arith)

glyph_row-blank : (left j place : ℕ) (m : Mem) → glyph_row left j 0 place m ≡ m
unfolding glyph_row
glyph_row-blank zero j place m = refl
glyph_row-blank (suc left) j place m = glyph_row-blank left (suc j) place m

glyph_rows-blank :
    (left i x y framebuffer : ℕ) (m : Mem) → glyph_rows left i x y framebuffer [] m ≡ m
unfolding glyph_rows
glyph_rows-blank zero i x y framebuffer m = refl
glyph_rows-blank (suc left) i x y framebuffer m =
    ap (glyph_rows left (suc i) x y framebuffer [])
      (glyph_row-blank 8 0 (framebuffer + (y + i) + x) m)
    ∙ glyph_rows-blank left (suc i) x y framebuffer m

-- The drawing of the rows, at one byte.
glyph-white :
    (framebuffer x y c a : ℕ) (m : Mem)
    → framebuffer + y + x + 15 ≤ 2 ^ 32
    → glyph_rows 8 0 x y framebuffer (glyph c font) m a
      ≡ (if ltb c 62 then white (framebuffer + (y + x)) 15 m a else m a)
glyph-white framebuffer x y c a m h = elim (Bool-cases (ltb c 62)) [
  | inl e ↦
      let place : framebuffer + (y + 0) + x ≡ framebuffer + (y + x) = omega arith in
      rw e (
        glyph_rows-white 7 0 x y framebuffer a (glyph c font) m
          (λ k p q. full_row c k (ltb→lt c 62 e) (omega arith)) (omega arith)
        ∙ ap (λ p. white p 15 m a) place)
  | inr e ↦
      rw (e, no_glyph font c (ltb→le c 62 e))
        (ap (λ n. n a) (glyph_rows-blank 8 0 x y framebuffer m))
]

of_ascii : (c : ℕ) (m : Mem) → c < 128 → (if ltb c 128 then some m else none) ≡ some m
of_ascii c m h = ground (arith, h)

-- draw_char of a character below 128 draws the same for every one below 62, the fifteen bytes from
-- place `x + y` on, and nothing for any other.
pub draw_char-white :
    (framebuffer x y c : ℕ) (m : Mem)
    → c < 128
    → framebuffer + y + x + 15 ≤ 2 ^ 32
    → (m' : Mem) × (draw_char framebuffer x y c m ≡ some m')
      × ((a : ℕ) → m' a ≡ (if ltb c 62 then white (framebuffer + (y + x)) 15 m a else m a))
unfolding draw_char
draw_char-white framebuffer x y c m ascii h = (
  glyph_rows 8 0 x y framebuffer (glyph c font) m,
  of_ascii c (glyph_rows 8 0 x y framebuffer (glyph c font) m) ascii,
  λ a. glyph-white framebuffer x y c a m h,
)
