-- ===== src/Terminal/Shape.antt =====
-- The cursor's shape in the display controller: enable_cursor of kernel/arch/i386/tty.c.
use potato_os.Base.{
  ℕ, ◌+◌, ◌*◌, ◌/◌, ◌^◌, ◌<◌, ◌≡◌, ◌≢◌, refl, ◌∙◌, List, ◌∷◌, Bool, true, bit_and, bit_or, u8, ◌==◌,
  ==→eq, holds_from, holds_from_lem, arith,
}
use potato_os.Base.Bits.{bit_or_fields}
use potato_os.Terminal.{Terminal, Out, out}
use potato_os.Terminal.Cursor.{Controller}

-- An index write, and a write of the register's high bits with new low ones.
unfoldable set_low : Controller → (index mask low : ℕ) → List Out → List Out
set_low c index mask low outs =
    let selected = out 0x3D4 index ∷ outs in
    out 0x3D5 (u8 (bit_or (bit_and (c.data_port selected) mask) low)) ∷ selected

unfoldable enable_cursor : Controller → (cursor_start cursor_end : ℕ) → Terminal → Terminal
unfolding set_low
enable_cursor c cursor_start cursor_end t = record t {
  outs = set_low c 0x0B 0xE0 cursor_end (set_low c 0x0A 0xC0 cursor_start t.outs);
}

abbrev keeps_two_test : ℕ → Bool
keeps_two_test x = bit_and x 0xC0 == x / 2 ^ 6 * 2 ^ 6

keeps_two_run : holds_from keeps_two_test 0 256 ≡ true
unfolding holds_from
keeps_two_run = refl

keeps_two : (v : ℕ) → v < 256 → bit_and v 0xC0 ≡ v / 2 ^ 6 * 2 ^ 6
keeps_two v h =
    ==→eq _ _ (holds_from_lem keeps_two_test 0 256 v keeps_two_run (omega arith) (omega arith))

abbrev keeps_three_test : ℕ → Bool
keeps_three_test x = bit_and x 0xE0 == x / 2 ^ 5 * 2 ^ 5

keeps_three_run : holds_from keeps_three_test 0 256 ≡ true
unfolding holds_from
keeps_three_run = refl

keeps_three : (v : ℕ) → v < 256 → bit_and v 0xE0 ≡ v / 2 ^ 5 * 2 ^ 5
keeps_three v h =
    ==→eq _ _ (holds_from_lem keeps_three_test 0 256 v keeps_three_run (omega arith) (omega arith))

two_value :
    (v low : ℕ) → v < 256 → low < 2 ^ 6 → u8 (bit_or (bit_and v 0xC0) low) ≡ v / 2 ^ 6 * 2 ^ 6 + low
two_value v low h k = rw (keeps_two v h, bit_or_fields 6 (v / 2 ^ 6) low k) (omega arith)

three_value :
    (v low : ℕ) → v < 256 → low < 2 ^ 5 → u8 (bit_or (bit_and v 0xE0) low) ≡ v / 2 ^ 5 * 2 ^ 5 + low
three_value v low h k = rw (keeps_three v h, bit_or_fields 5 (v / 2 ^ 5) low k) (omega arith)

module _ (c : Controller) where
  set_start :
      (outs : List Out) (low : ℕ)
      → c.register outs 0x0A < 256
      → low < 2 ^ 6
      → c.register (set_low c 0x0A 0xC0 low outs) 0x0A ≡ c.register outs 0x0A / 2 ^ 6 * 2 ^ 6 + low
  unfolding set_low
  set_start outs low h k =
      c.register_data outs 0x0A _ (omega arith)
      ∙ rw (c.data_port-register outs 0x0A) (two_value (c.register outs 0x0A) low h k)

  set_end :
      (outs : List Out) (low : ℕ)
      → c.register outs 0x0B < 256
      → low < 2 ^ 5
      → c.register (set_low c 0x0B 0xE0 low outs) 0x0B ≡ c.register outs 0x0B / 2 ^ 5 * 2 ^ 5 + low
  unfolding set_low
  set_end outs low h k =
      c.register_data outs 0x0B _ (omega arith)
      ∙ rw (c.data_port-register outs 0x0B) (three_value (c.register outs 0x0B) low h k)

  others_kept :
      (outs : List Out) (index mask low q : ℕ)
      → q ≢ index
      → c.register (set_low c index mask low outs) q ≡ c.register outs q
  unfolding set_low
  others_kept outs index mask low q h = c.register_other outs index q _ h

  -- enable_cursor puts the first scan line, below 64, into the low six bits of register 0x0A and the
  -- last one, below 32, into the low five of register 0x0B, and keeps the bits above them.
  enable_cursor-register :
      (cursor_start cursor_end : ℕ) (t : Terminal)
      → c.register t.outs 0x0A < 256
      → c.register t.outs 0x0B < 256
      → cursor_start < 2 ^ 6
      → cursor_end < 2 ^ 5
      → let outs = (enable_cursor c cursor_start cursor_end t).outs in
        (c.register outs 0x0A ≡ c.register t.outs 0x0A / 2 ^ 6 * 2 ^ 6 + cursor_start)
        × (c.register outs 0x0B ≡ c.register t.outs 0x0B / 2 ^ 5 * 2 ^ 5 + cursor_end)
  unfolding enable_cursor
  enable_cursor-register cursor_start cursor_end t a b p q =
      let started = set_low c 0x0A 0xC0 cursor_start t.outs in
      let kept = others_kept t.outs 0x0A 0xC0 cursor_start 0x0B (omega arith) in
      (
        others_kept started 0x0B 0xE0 cursor_end 0x0A (omega arith)
            ∙ set_start t.outs cursor_start a p,
        set_end started cursor_end (rw kept b) q ∙ rw kept refl,
      )
