-- ===== src/Shell/Line.antt =====
-- The line buffer of kernel/arch/i386/tty.c against a line of text.
use potato_os.Base.{
  ℕ, suc, ◌+◌, ◌-◌, ◌%◌, ◌^◌, ◌≤◌, ◌<◌, ◌≡◌, ◌⊎◌, refl, ap, sym, ◌∙◌, List, [], ◌∷◌, ◌++◌, length,
  Mem, upd, ltb, ◌==◌, if◌then◌else◌, arith,
}
use native.Mathlib.Nat.{add-zero}
use potato_os.Strings.{Reads}
use potato_os.Terminal.Frame.{IsOnScreen}
use potato_os.Shell.{Layout, Shell, buffer_size}

-- The bytes `cs` stand at `p`.
abbrev pub Holds : Mem → (p : ℕ) → List ℕ → Type 0
Holds m p [] = Unit {0}
Holds m p (c ∷ cs) = (m p ≡ c) × Holds m (p + 1) cs

pub Holds-upd :
    (m : Mem) (p a v : ℕ) (cs : List ℕ)
    → Holds m p cs
    → (a < p) ⊎ (p + length cs ≤ a)
    → Holds (upd m a v) p cs
unfolding upd
Holds-upd m p a v [] h k = tt
Holds-upd m p a v (c ∷ cs) h k = (ground (arith, h.0), Holds-upd m (p + 1) a v cs h.1 (omega arith))

pub Holds-append :
    (m : Mem) (p c : ℕ) (cs : List ℕ)
    → Holds m p cs
    → m (p + length cs) ≡ c
    → Holds m p (cs ++ (c ∷ []))
Holds-append m p c [] h k = (rw (sym (add-zero p)) k, tt)
Holds-append m p c (d ∷ cs) h k =
    let at : p + suc (length cs) ≡ p + 1 + length cs = omega arith in
    (h.0, Holds-append m (p + 1) c cs h.1 (ap m (sym at) ∙ k))

-- The line without its last byte.
abbrev pub drop_last : List ℕ → List ℕ
drop_last [] = []
drop_last (c ∷ []) = []
drop_last (c ∷ d ∷ cs) = c ∷ drop_last (d ∷ cs)

pub Holds-drop_last : (m : Mem) (p : ℕ) (cs : List ℕ) → Holds m p cs → Holds m p (drop_last cs)
Holds-drop_last m p [] h = tt
Holds-drop_last m p (c ∷ []) h = tt
Holds-drop_last m p (c ∷ d ∷ cs) h = (h.0, Holds-drop_last m (p + 1) (d ∷ cs) h.1)

pub length-drop_last : (cs : List ℕ) → length (drop_last cs) ≡ length cs - 1
length-drop_last [] = refl
length-drop_last (c ∷ []) = refl
length-drop_last (c ∷ d ∷ cs) = omega (arith, length-drop_last (d ∷ cs))

pub length-append : (c : ℕ) (cs : List ℕ) → length (cs ++ (c ∷ [])) ≡ length cs + 1
length-append c [] = refl
length-append c (d ∷ cs) = omega (arith, length-append c cs)

-- The columns of the prompt: the name, "@", "live" and " /> ".
abbrev pub prompt_width : List ℕ → ℕ
prompt_width name = length name + 9

-- The line buffer lies in memory, apart from the user's name.
pub record IsPlaced (layout : Layout) (name : List ℕ) (s : Shell) : Type 0 where
  pub fits : layout.input_buffer + buffer_size ≤ 2 ^ 32
  pub apart :
      (s.username + length name < layout.input_buffer)
      ⊎ (layout.input_buffer + buffer_size ≤ s.username)
  pub named : Reads s.memory s.username name
  pub short : prompt_width name < 80

-- The buffer holds `cs`, which the screen shows behind the prompt.
pub record IsLine (layout : Layout) (name : List ℕ) (s : Shell) (cs : List ℕ) : Type 0 where
  pub placed : IsPlaced layout name s
  pub on_screen : IsOnScreen s.terminal
  pub index : s.input_buffer_index ≡ length cs
  pub bound : length cs < buffer_size
  pub holds : Holds s.memory layout.input_buffer cs
  pub column : s.terminal.column ≡ (prompt_width name + length cs) % 80

-- What a key does to the line: a backspace takes the last byte unless the cursor is at or before the
-- prompt's column, and any other key appends its character if there is room.
abbrev pub edit : (width c : ℕ) → List ℕ → List ℕ
edit width c cs =
    if c == 0
    then cs
    else if c == 8
    then if ltb width ((width + length cs) % 80) then drop_last cs else cs
    else if ltb (length cs) (buffer_size - 1)
    then cs ++ (c ∷ [])
    else cs
