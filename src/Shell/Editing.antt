-- ===== src/Shell/Editing.antt =====
-- What handle_keyboard_input of kernel/arch/i386/tty.c does to the line for a key that is neither
-- Enter nor 'U'.
use potato_os.Base.{
  ℕ, suc, ◌+◌, ◌-◌, ◌≤◌, ◌<◌, ◌≡◌, refl, ap, sym, ◌∙◌, true, List, [], ◌∷◌, ◌++◌, length, some, upd,
  upd_self, upd_ne, u32, sub32, SameOutside, ltb, lt→ltb, le→ltb, if◌then◌else◌, arith,
}
use mathlib.Core.Path.{subst}
use potato_os.Terminal.{terminal_putchar, terminal_putentryat, update_cursor}
use potato_os.Terminal.Frame.{IsOnScreen, putchar-IsOnScreen}
use potato_os.Terminal.Place.{putchar_column}
use potato_os.Strings.Length.{strlen_lem}
use potato_os.Strings.Copying.{Reads-upd}
use potato_os.Shell.{Layout, Shell, back, buffer_size}
use potato_os.Shell.Line.{
  Holds-upd, Holds-append, drop_last, Holds-drop_last, length-drop_last, length-append,
  prompt_width, IsPlaced, IsLine,
}
use potato_os.Shell.Handler.{slot, end_line, erase, backspace, store}

-- A byte is set in the buffer, at an index below its size.
abbrev pub set_byte : Layout → (i v : ℕ) → Shell → Shell
set_byte layout i v s = record s { memory = upd s.memory (layout.input_buffer + i) v }

module _ (layout : Layout) (name : List ℕ) where
  pub set_byte-IsPlaced :
      (i v : ℕ) (s : Shell)
      → i < buffer_size
      → IsPlaced layout name s
      → IsPlaced layout name (set_byte layout i v s)
  set_byte-IsPlaced i v s h p = record {
    fits = p.fits;
    apart = p.apart;
    named =
        Reads-upd s.memory s.username (layout.input_buffer + i) v name p.named
          (omega (arith, p.apart));
    short = p.short;
  }

  set_byte-SameOutside :
      (i v : ℕ) (s : Shell)
      → i < buffer_size
      → SameOutside layout.input_buffer buffer_size s.memory (set_byte layout i v s).memory
  set_byte-SameOutside i v s h a k = upd_ne s.memory (layout.input_buffer + i) v a (omega arith)

  pub slot_lem :
      (s : Shell) (cs : List ℕ)
      → IsLine layout name s cs
      → slot layout s.input_buffer_index ≡ layout.input_buffer + length cs
  slot_lem s cs l = let fits = l.placed.fits in let bound = l.bound in rw l.index (omega arith)

  -- The NUL behind the line changes nothing of it.
  pub end_line-IsLine :
      (s : Shell) (cs : List ℕ)
      → IsLine layout name s cs
      → IsLine layout name (end_line layout s) cs
        × SameOutside layout.input_buffer buffer_size s.memory (end_line layout s).memory
  unfolding end_line
  end_line-IsLine s cs l =
      let same : end_line layout s ≡ set_byte layout (length cs) 0 s =
        ap (λ a. record s { memory = upd s.memory a 0 }) (slot_lem s cs l) in
      subst
        (λ x.
          IsLine layout name x cs × SameOutside layout.input_buffer buffer_size s.memory x.memory)
        (sym same)
        (
          record {
            placed = set_byte-IsPlaced (length cs) 0 s l.bound l.placed;
            on_screen = l.on_screen;
            index = l.index;
            bound = l.bound;
            holds =
                Holds-upd s.memory layout.input_buffer (layout.input_buffer + length cs) 0 cs
                  l.holds (omega arith);
            column = l.column;
          },
          set_byte-SameOutside (length cs) 0 s l.bound,
        )

  -- The console after a character was erased.
  pub erase-IsOnScreen :
      (s : Shell)
      → IsOnScreen s.terminal
      → 0 < s.terminal.column
      → IsOnScreen (erase s).terminal × ((erase s).terminal.column ≡ s.terminal.column - 1)
  unfolding erase terminal_putentryat update_cursor
  erase-IsOnScreen s v h =
      let below = v.column in
      let one : sub32 s.terminal.column 1 ≡ s.terminal.column - 1 = omega arith in
      (record { row = v.row; column = rw one (omega arith); buffer = v.buffer }, one)

  pub erase-IsLine :
      (s : Shell) (cs : List ℕ)
      → IsLine layout name s cs
      → prompt_width name < s.terminal.column
      → IsLine layout name (erase s) (drop_last cs) × ((erase s).memory ≡ s.memory)
  erase-IsLine s cs l h =
      let (shown, at) = erase-IsOnScreen s l.on_screen (omega arith) in
      let short = l.placed.short in
      let column = l.column in
      let bound = l.bound in
      let left = length-drop_last cs in
      let same : (erase s).memory ≡ s.memory = unfold erase in refl in
      (
        record {
          placed = record {
            fits = l.placed.fits;
            apart = unfold erase in l.placed.apart;
            named = unfold erase in l.placed.named;
            short = short;
          };
          on_screen = shown;
          index = unfold erase in rw (left, l.index) (omega arith);
          bound = omega arith;
          holds = rw same (Holds-drop_last s.memory layout.input_buffer cs l.holds);
          column = rw (left, at) (omega arith);
        },
        same,
      )

  pub store-IsLine :
      (c : ℕ) (s : Shell) (cs : List ℕ)
      → IsLine layout name s cs
      → length cs < buffer_size - 1
      → IsLine layout name (store c layout s) (cs ++ (c ∷ []))
        × SameOutside layout.input_buffer buffer_size s.memory (store c layout s).memory
  unfolding store
  store-IsLine c s cs l room =
      let bound = l.bound in
      let one_more = length-append c cs in
      let stored : Shell = record (set_byte layout (length cs) c s) {
        input_buffer_index = suc (length cs);
        terminal = terminal_putchar c s.terminal;
      } in
      let p = set_byte-IsPlaced (length cs) c s bound l.placed in
      let free : ltb s.input_buffer_index (buffer_size - 1) ≡ true =
        lt→ltb s.input_buffer_index (buffer_size - 1) (omega (arith, l.index)) in
      let next : u32 (s.input_buffer_index + 1) ≡ suc (length cs) = omega (arith, l.index) in
      let column = l.column in
      let same : store c layout s ≡ stored = rw free (λ i. record s {
        memory = upd s.memory (slot_lem s cs l i) c;
        input_buffer_index = next i;
        terminal = terminal_putchar c s.terminal;
      }) in
      subst
        (λ x.
          IsLine layout name x (cs ++ (c ∷ []))
          × SameOutside layout.input_buffer buffer_size s.memory x.memory)
        (sym same)
        (
          record {
            placed = record { fits = p.fits; apart = p.apart; named = p.named; short = p.short };
            on_screen = putchar-IsOnScreen c l.on_screen;
            index = omega (arith, one_more);
            bound = omega (arith, one_more);
            holds =
                Holds-append (set_byte layout (length cs) c s).memory layout.input_buffer c cs
                  (Holds-upd s.memory layout.input_buffer (layout.input_buffer + length cs) c cs
                    l.holds (omega arith))
                  (upd_self s.memory (layout.input_buffer + length cs) c);
            column = putchar_column c s.terminal l.on_screen ∙ omega (arith, one_more);
          },
          set_byte-SameOutside (length cs) c s bound,
        )

  pub full_store :
      (c : ℕ) (s : Shell) (cs : List ℕ)
      → IsLine layout name s cs
      → buffer_size - 1 ≤ length cs
      → store c layout s ≡ s
  unfolding store
  full_store c s cs l full =
      rw (le→ltb s.input_buffer_index (buffer_size - 1) (omega (arith, l.index))) refl

  pub backspace_lem :
      (fuel : ℕ) (s : Shell)
      → IsPlaced layout name s
      → length name < fuel
      → backspace fuel s
        ≡ some (back (if ltb (prompt_width name) s.terminal.column then erase s else s))
  unfolding backspace
  backspace_lem fuel s p enough =
      let short = p.short in
      let sum : u32 (length name + 4 + 5) ≡ prompt_width name = omega arith in
      rw (backspace, strlen_lem fuel s.username name s.memory p.named enough, sum) refl
