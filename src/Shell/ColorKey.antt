-- ===== src/Shell/ColorKey.antt =====
-- The key 'U' in handle_keyboard_input of kernel/arch/i386/tty.c, and backspaces after it.
use potato_os.Base.{
  ℕ, suc, ◌+◌, ◌-◌, ◌*◌, ◌%◌, ◌≤◌, ◌<◌, ◌≡◌, ◌≢◌, refl, ap, sym, ◌∙◌, true, false, List, [], ◌∷◌,
  length, codes, some, upd, upd_self, u32, sub32, ltb, lt→ltb, le→ltb, ne→==, arith,
}
use mathlib.Core.Path.{subst}
use potato_os.Vga.{vga_entry_color}
use potato_os.Terminal.{
  Terminal, video_memory, blank_screen, terminal_writestring, terminal_putchar,
}
use potato_os.Terminal.Frame.{IsOnScreen, write-IsOnScreen, putchar-IsOnScreen}
use potato_os.Terminal.Place.{write_column, putchar_column}
use potato_os.Shell.{Layout, Shell, back, buffer_size, write, on_terminal}
use potato_os.Shell.Line.{prompt_width, IsPlaced, IsLine}
use potato_os.Shell.Handler.{slot, end_line, erase, select_color, store, handle_key}
use potato_os.Shell.Editing.{set_byte, set_byte-IsPlaced, erase-IsOnScreen, backspace_lem}
use potato_os.Shell.Keys.{handle_keys, key_backspace, key_other}

-- The console after 'U', before the NUL that goes into the line.
abbrev colored : (color : ℕ) → Terminal → Terminal
colored color t = record t {
  color = color;
  buffer = video_memory;
  cells = blank_screen color video_memory t.cells;
  row = 6;
  column = 6;
}

colored-IsOnScreen : (color : ℕ) (t : Terminal) → IsOnScreen (colored color t)
colored-IsOnScreen color t = record { row = omega arith; column = omega arith; buffer = refl }

key_u :
    (fuel : ℕ) (layout : Layout) (s : Shell)
    → handle_key fuel 85 layout s ≡ some (back (store 0 layout (select_color (end_line layout s))))
unfolding handle_key
key_u fuel layout s = refl

module _ (layout : Layout) (name : List ℕ) where
  -- The index is `i`, the column `x`, and the name can be read.
  record IsAt (i x : ℕ) (s : Shell) : Type 0 where
    placed : IsPlaced layout name s
    on_screen : IsOnScreen s.terminal
    index : s.input_buffer_index ≡ i
    column : s.terminal.column ≡ x

  end_line-IsAt :
      (i x : ℕ) (s : Shell) → i < buffer_size → IsAt i x s → IsAt i x (end_line layout s)
  unfolding end_line
  end_line-IsAt i x s h v =
      let fits = v.placed.fits in
      let at : slot layout s.input_buffer_index ≡ layout.input_buffer + i =
        rw v.index (omega arith) in
      let p = set_byte-IsPlaced layout name i 0 s h v.placed in
      subst (IsAt i x) (ap (λ a. record s { memory = upd s.memory a 0 }) (sym at))
        (record { placed = p; on_screen = v.on_screen; index = v.index; column = v.column })

  erase-IsAt : (i x : ℕ) (s : Shell) → IsAt i (suc x) s → IsAt (sub32 i 1) x (erase s)
  erase-IsAt i x s v =
      let (shown, at) = erase-IsOnScreen layout name s v.on_screen (omega (arith, v.column)) in
      let p = v.placed in
      record {
        placed =
            unfold erase in
            record { fits = p.fits; apart = p.apart; named = p.named; short = p.short };
        on_screen = shown;
        index = unfold erase in ap (λ n. sub32 n 1) v.index;
        column = at ∙ omega (arith, v.column);
      }

  -- A backspace right of the prompt's column lowers the index, whatever it is.
  backspace-IsAt :
      (fuel i x : ℕ) (s : Shell)
      → i < buffer_size
      → prompt_width name ≤ x
      → length name < fuel
      → IsAt i (suc x) s
      → (s' : Shell) × (handle_key fuel 8 layout s ≡ some (back s')) × IsAt (sub32 i 1) x s'
  backspace-IsAt fuel i x s h wide enough v =
      let v' = end_line-IsAt i (suc x) s h v in
      let s₁ = end_line layout s in
      let right : ltb (prompt_width name) s₁.terminal.column ≡ true =
        lt→ltb (prompt_width name) s₁.terminal.column (omega (arith, v'.column)) in
      (
        erase s₁,
        key_backspace fuel layout s
            ∙ backspace_lem layout name fuel s₁ v'.placed enough
            ∙ rw right refl,
        erase-IsAt i x s₁ v',
      )

  select_color-IsAt : (i x : ℕ) (s : Shell) → IsAt i x s → IsAt i 20 (select_color s)
  unfolding select_color write on_terminal terminal_writestring
  select_color-IsAt i x s v =
      let color =
        vga_entry_color (u32 (s.terminal.row * s.input_buffer_index)) s.input_buffer_index in
      let shown = colored-IsOnScreen color s.terminal in
      let p = v.placed in
      record {
        placed = record { fits = p.fits; apart = p.apart; named = p.named; short = p.short };
        on_screen = write-IsOnScreen (codes "Select a color") shown;
        index = v.index;
        column = write_column (codes "Select a color") (colored color s.terminal) shown;
      }

  store-IsAt : (s : Shell) → IsAt 0 20 s → IsAt 1 21 (store 0 layout s)
  unfolding store
  store-IsAt s v =
      let fits = v.placed.fits in
      let at : slot layout s.input_buffer_index ≡ layout.input_buffer + 0 =
        rw v.index (omega arith) in
      let p = set_byte-IsPlaced layout name 0 0 s (omega arith) v.placed in
      let room : ltb s.input_buffer_index (buffer_size - 1) ≡ true =
        lt→ltb s.input_buffer_index (buffer_size - 1) (omega (arith, v.index)) in
      let next : u32 (s.input_buffer_index + 1) ≡ 1 = omega (arith, v.index) in
      let stored : Shell = record (set_byte layout 0 0 s) {
        input_buffer_index = 1;
        terminal = terminal_putchar 0 s.terminal;
      } in
      let same : store 0 layout s ≡ stored = rw room (λ i. record s {
        memory = upd s.memory (at i) 0;
        input_buffer_index = next i;
        terminal = terminal_putchar 0 s.terminal;
      }) in
      subst (IsAt 1 21) (sym same) (record {
        placed = record { fits = p.fits; apart = p.apart; named = p.named; short = p.short };
        on_screen = putchar-IsOnScreen 0 v.on_screen;
        index = refl;
        column = putchar_column 0 s.terminal v.on_screen ∙ omega (arith, v.column);
      })

  -- The index is below the buffer: the next key puts its NUL in front of it, and nothing else.
  below_buffer :
      (fuel c x : ℕ) (s : Shell)
      → 0 < layout.input_buffer
      → c ≢ 0
      → c ≢ 8
      → c ≢ 85
      → c ≢ 10
      → IsAt 0xffff_ffff x s
      → (s' : Shell) × (handle_key fuel c layout s ≡ some (back s'))
        × (s'.memory ≡ upd s.memory (layout.input_buffer - 1) 0)
  unfolding end_line store
  below_buffer fuel c x s h p q r t v =
      let fits = v.placed.fits in
      let at : slot layout s.input_buffer_index ≡ layout.input_buffer - 1 =
        rw v.index (omega arith) in
      let full : ltb s.input_buffer_index (buffer_size - 1) ≡ false =
        le→ltb s.input_buffer_index (buffer_size - 1) (omega (arith, v.index)) in
      (
        end_line layout s,
        key_other fuel c layout s (ne→== c 0 p) (ne→== c 8 q) (ne→== c 85 r) (ne→== c 10 t)
            ∙ rw full refl,
        ap (λ a. upd s.memory a 0) at,
      )

  -- On an empty line, 'U', two backspaces and one more key return with the byte in front of the line
  -- buffer overwritten by NUL.
  pub handle_keys-below :
      (fuel c : ℕ) (s : Shell)
      → IsLine layout name s []
      → prompt_width name < 20
      → length name < fuel
      → 0 < layout.input_buffer
      → c ≢ 0
      → c ≢ 8
      → c ≢ 85
      → c ≢ 10
      → (s' : Shell) × (handle_keys fuel (85 ∷ 8 ∷ 8 ∷ c ∷ []) layout s ≡ some (back s'))
        × (s'.memory (layout.input_buffer - 1) ≡ 0)
  unfolding handle_keys
  handle_keys-below fuel c s l narrow enough h p q r t =
      let v₀ : IsAt 0 (prompt_width name % 80) s = record {
        placed = l.placed;
        on_screen = l.on_screen;
        index = l.index;
        column = l.column ∙ omega arith;
      } in
      let v₁ = end_line-IsAt 0 _ s (omega arith) v₀ in
      let v₂ =
        store-IsAt (select_color (end_line layout s))
          (select_color-IsAt 0 _ (end_line layout s) v₁) in
      let s₁ = store 0 layout (select_color (end_line layout s)) in
      let (s₂, e₂, v₃) = backspace-IsAt fuel 1 20 s₁ (omega arith) (omega arith) enough v₂ in
      let (s₃, e₃, v₄) = backspace-IsAt fuel 0 19 s₂ (omega arith) (omega arith) enough v₃ in
      let (s₄, e₄, kept) = below_buffer fuel c 19 s₃ h p q r t v₄ in
      (
        s₄,
        rw (handle_keys, key_u fuel layout s, e₂, e₃, e₄) refl,
        ap (λ m. m (layout.input_buffer - 1)) kept ∙ upd_self s₃.memory (layout.input_buffer - 1) 0,
      )
