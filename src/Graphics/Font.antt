-- ===== src/Graphics/Font.antt =====
-- The font of draw_char of kernel/arch/i386/tty.c: eight rows for each character, in the order in which
-- the source writes them.
use potato_os.Base.{ℕ, List, [], ◌∷◌}

abbrev pub font : List (List ℕ)
font =
    (0x1F ∷ 0x11 ∷ 0x11 ∷ 0x11 ∷ 0x11 ∷ 0x11 ∷ 0x11 ∷ 0x1F ∷ [])
    ∷ (0x1F ∷ 0x11 ∷ 0x11 ∷ 0x1F ∷ 0x11 ∷ 0x11 ∷ 0x11 ∷ 0x1F ∷ [])
    ∷ (0x1F ∷ 0x01 ∷ 0x01 ∷ 0x01 ∷ 0x01 ∷ 0x01 ∷ 0x01 ∷ 0x1F ∷ [])
    ∷ (0x1F ∷ 0x11 ∷ 0x11 ∷ 0x1F ∷ 0x11 ∷ 0x11 ∷ 0x11 ∷ 0x1F ∷ [])
    ∷ (0x1F ∷ 0x01 ∷ 0x01 ∷ 0x1F ∷ 0x01 ∷ 0x01 ∷ 0x01 ∷ 0x1F ∷ [])
    ∷ (0x1F ∷ 0x01 ∷ 0x01 ∷ 0x1F ∷ 0x01 ∷ 0x01 ∷ 0x01 ∷ 0x01 ∷ [])
    ∷ (0x1F ∷ 0x01 ∷ 0x01 ∷ 0x1F ∷ 0x11 ∷ 0x11 ∷ 0x11 ∷ 0x1F ∷ [])
    ∷ (0x11 ∷ 0x11 ∷ 0x11 ∷ 0x1F ∷ 0x11 ∷ 0x11 ∷ 0x11 ∷ 0x11 ∷ [])
    ∷ (0x1F ∷ 0x01 ∷ 0x01 ∷ 0x01 ∷ 0x01 ∷ 0x01 ∷ 0x01 ∷ 0x1F ∷ [])
    ∷ (0x01 ∷ 0x01 ∷ 0x01 ∷ 0x01 ∷ 0x01 ∷ 0x01 ∷ 0x11 ∷ 0x1F ∷ [])
    ∷ (0x11 ∷ 0x11 ∷ 0x11 ∷ 0x1F ∷ 0x01 ∷ 0x01 ∷ 0x01 ∷ 0x11 ∷ [])
    ∷ (0x11 ∷ 0x01 ∷ 0x01 ∷ 0x01 ∷ 0x01 ∷ 0x01 ∷ 0x01 ∷ 0x1F ∷ [])
    ∷ (0x11 ∷ 0x11 ∷ 0x11 ∷ 0x1F ∷ 0x11 ∷ 0x11 ∷ 0x11 ∷ 0x11 ∷ [])
    ∷ (0x11 ∷ 0x11 ∷ 0x11 ∷ 0x1F ∷ 0x11 ∷ 0x11 ∷ 0x11 ∷ 0x11 ∷ [])
    ∷ (0x1F ∷ 0x11 ∷ 0x11 ∷ 0x11 ∷ 0x11 ∷ 0x11 ∷ 0x11 ∷ 0x1F ∷ [])
    ∷ (0x1F ∷ 0x11 ∷ 0x11 ∷ 0x1F ∷ 0x01 ∷ 0x01 ∷ 0x01 ∷ 0x01 ∷ [])
    ∷ (0x1F ∷ 0x11 ∷ 0x11 ∷ 0x11 ∷ 0x11 ∷ 0x11 ∷ 0x11 ∷ 0x1F ∷ [])
    ∷ (0x1F ∷ 0x11 ∷ 0x11 ∷ 0x1F ∷ 0x01 ∷ 0x01 ∷ 0x01 ∷ 0x11 ∷ [])
    ∷ (0x1F ∷ 0x01 ∷ 0x01 ∷ 0x1F ∷ 0x11 ∷ 0x11 ∷ 0x11 ∷ 0x1F ∷ [])
    ∷ (0x1F ∷ 0x01 ∷ 0x01 ∷ 0x01 ∷ 0x01 ∷ 0x01 ∷ 0x01 ∷ 0x01 ∷ [])
    ∷ (0x11 ∷ 0x11 ∷ 0x11 ∷ 0x11 ∷ 0x11 ∷ 0x11 ∷ 0x11 ∷ 0x1F ∷ [])
    ∷ (0x11 ∷ 0x11 ∷ 0x11 ∷ 0x11 ∷ 0x11 ∷ 0x11 ∷ 0x01 ∷ 0x01 ∷ [])
    ∷ (0x11 ∷ 0x11 ∷ 0x11 ∷ 0x11 ∷ 0x11 ∷ 0x11 ∷ 0x11 ∷ 0x11 ∷ [])
    ∷ (0x11 ∷ 0x01 ∷ 0x01 ∷ 0x11 ∷ 0x11 ∷ 0x01 ∷ 0x01 ∷ 0x11 ∷ [])
    ∷ (0x11 ∷ 0x11 ∷ 0x11 ∷ 0x01 ∷ 0x01 ∷ 0x01 ∷ 0x01 ∷ 0x01 ∷ [])
    ∷ (0x1F ∷ 0x01 ∷ 0x01 ∷ 0x11 ∷ 0x11 ∷ 0x11 ∷ 0x01 ∷ 0x1F ∷ [])
    ∷ (0x11 ∷ 0x11 ∷ 0x11 ∷ 0x11 ∷ 0x11 ∷ 0x11 ∷ 0x11 ∷ 0x11 ∷ [])
    ∷ (0x01 ∷ 0x01 ∷ 0x01 ∷ 0x01 ∷ 0x01 ∷ 0x01 ∷ 0x01 ∷ 0x01 ∷ [])
    ∷ (0x11 ∷ 0x11 ∷ 0x11 ∷ 0x11 ∷ 0x11 ∷ 0x11 ∷ 0x11 ∷ 0x11 ∷ [])
    ∷ (0x01 ∷ 0x01 ∷ 0x01 ∷ 0x01 ∷ 0x01 ∷ 0x01 ∷ 0x01 ∷ 0x01 ∷ [])
    ∷ (0x11 ∷ 0x11 ∷ 0x11 ∷ 0x11 ∷ 0x11 ∷ 0x11 ∷ 0x11 ∷ 0x11 ∷ [])
    ∷ (0x01 ∷ 0x01 ∷ 0x01 ∷ 0x01 ∷ 0x01 ∷ 0x01 ∷ 0x01 ∷ 0x01 ∷ [])
    ∷ (0x11 ∷ 0x11 ∷ 0x11 ∷ 0x11 ∷ 0x11 ∷ 0x11 ∷ 0x11 ∷ 0x1F ∷ [])
    ∷ (0x1F ∷ 0x11 ∷ 0x11 ∷ 0x1F ∷ 0x11 ∷ 0x11 ∷ 0x11 ∷ 0x1F ∷ [])
    ∷ (0x1F ∷ 0x01 ∷ 0x01 ∷ 0x01 ∷ 0x01 ∷ 0x01 ∷ 0x01 ∷ 0x1F ∷ [])
    ∷ (0x1F ∷ 0x11 ∷ 0x11 ∷ 0x1F ∷ 0x11 ∷ 0x11 ∷ 0x11 ∷ 0x1F ∷ [])
    ∷ (0x1F ∷ 0x01 ∷ 0x01 ∷ 0x1F ∷ 0x01 ∷ 0x01 ∷ 0x01 ∷ 0x1F ∷ [])
    ∷ (0x1F ∷ 0x01 ∷ 0x01 ∷ 0x1F ∷ 0x01 ∷ 0x01 ∷ 0x01 ∷ 0x01 ∷ [])
    ∷ (0x1F ∷ 0x01 ∷ 0x01 ∷ 0x1F ∷ 0x11 ∷ 0x11 ∷ 0x11 ∷ 0x1F ∷ [])
    ∷ (0x11 ∷ 0x11 ∷ 0x11 ∷ 0x1F ∷ 0x11 ∷ 0x11 ∷ 0x11 ∷ 0x11 ∷ [])
    ∷ (0x1F ∷ 0x01 ∷ 0x01 ∷ 0x01 ∷ 0x01 ∷ 0x01 ∷ 0x01 ∷ 0x1F ∷ [])
    ∷ (0x01 ∷ 0x01 ∷ 0x01 ∷ 0x01 ∷ 0x01 ∷ 0x01 ∷ 0x11 ∷ 0x1F ∷ [])
    ∷ (0x11 ∷ 0x11 ∷ 0x11 ∷ 0x1F ∷ 0x01 ∷ 0x01 ∷ 0x01 ∷ 0x11 ∷ [])
    ∷ (0x11 ∷ 0x01 ∷ 0x01 ∷ 0x01 ∷ 0x01 ∷ 0x01 ∷ 0x01 ∷ 0x1F ∷ [])
    ∷ (0x11 ∷ 0x11 ∷ 0x11 ∷ 0x1F ∷ 0x11 ∷ 0x11 ∷ 0x11 ∷ 0x11 ∷ [])
    ∷ (0x11 ∷ 0x11 ∷ 0x11 ∷ 0x1F ∷ 0x11 ∷ 0x11 ∷ 0x11 ∷ 0x11 ∷ [])
    ∷ (0x1F ∷ 0x11 ∷ 0x11 ∷ 0x11 ∷ 0x11 ∷ 0x11 ∷ 0x11 ∷ 0x1F ∷ [])
    ∷ (0x1F ∷ 0x11 ∷ 0x11 ∷ 0x1F ∷ 0x01 ∷ 0x01 ∷ 0x01 ∷ 0x01 ∷ [])
    ∷ (0x1F ∷ 0x11 ∷ 0x11 ∷ 0x11 ∷ 0x11 ∷ 0x11 ∷ 0x11 ∷ 0x1F ∷ [])
    ∷ (0x1F ∷ 0x11 ∷ 0x11 ∷ 0x1F ∷ 0x01 ∷ 0x01 ∷ 0x01 ∷ 0x11 ∷ [])
    ∷ (0x1F ∷ 0x01 ∷ 0x01 ∷ 0x1F ∷ 0x11 ∷ 0x11 ∷ 0x11 ∷ 0x1F ∷ [])
    ∷ (0x1F ∷ 0x01 ∷ 0x01 ∷ 0x01 ∷ 0x01 ∷ 0x01 ∷ 0x01 ∷ 0x01 ∷ [])
    ∷ (0x11 ∷ 0x11 ∷ 0x11 ∷ 0x11 ∷ 0x11 ∷ 0x11 ∷ 0x11 ∷ 0x1F ∷ [])
    ∷ (0x11 ∷ 0x11 ∷ 0x11 ∷ 0x11 ∷ 0x11 ∷ 0x11 ∷ 0x01 ∷ 0x01 ∷ [])
    ∷ (0x11 ∷ 0x11 ∷ 0x11 ∷ 0x11 ∷ 0x11 ∷ 0x11 ∷ 0x11 ∷ 0x11 ∷ [])
    ∷ (0x11 ∷ 0x01 ∷ 0x01 ∷ 0x11 ∷ 0x11 ∷ 0x01 ∷ 0x01 ∷ 0x11 ∷ [])
    ∷ (0x11 ∷ 0x11 ∷ 0x11 ∷ 0x01 ∷ 0x01 ∷ 0x01 ∷ 0x01 ∷ 0x01 ∷ [])
    ∷ (0x1F ∷ 0x01 ∷ 0x01 ∷ 0x11 ∷ 0x11 ∷ 0x11 ∷ 0x01 ∷ 0x1F ∷ [])
    ∷ (0x11 ∷ 0x11 ∷ 0x11 ∷ 0x11 ∷ 0x11 ∷ 0x11 ∷ 0x11 ∷ 0x11 ∷ [])
    ∷ (0x01 ∷ 0x01 ∷ 0x01 ∷ 0x01 ∷ 0x01 ∷ 0x01 ∷ 0x01 ∷ 0x01 ∷ [])
    ∷ (0x11 ∷ 0x11 ∷ 0x11 ∷ 0x11 ∷ 0x11 ∷ 0x11 ∷ 0x11 ∷ 0x11 ∷ [])
    ∷ (0x01 ∷ 0x01 ∷ 0x01 ∷ 0x01 ∷ 0x01 ∷ 0x01 ∷ 0x01 ∷ 0x01 ∷ [])
    ∷ []
