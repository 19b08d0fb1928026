-- ===== src/Shell/Keys.antt =====
-- A run of keys in the loop of shell of kernel/arch/i386/tty.c.
use potato_os.Base.{
  ℕ, ◌+◌, ◌-◌, ◌%◌, ◌<◌, ◌≡◌, ◌≢◌, refl, ap, sym, ◌∙◌, false, List, [], ◌∷◌, length, Option, some,
  SameOutside, ltb, ◌==◌, ne→==, ==→eq, ltb→lt, ltb→le, Bool-cases, inl, inr, if◌then◌else◌,
}
use mathlib.Core.Path.{subst}
use potato_os.Shell.{Layout, Shell, Result, back, and_then, buffer_size}
use potato_os.Shell.Line.{prompt_width, IsLine, edit}
use potato_os.Shell.Handler.{end_line, erase, backspace, store, handle_key}
use potato_os.Shell.Editing.{end_line-IsLine, erase-IsLine, store-IsLine, full_store, backspace_lem}

-- The keys that the loop reads, one after another.
unfoldable pub handle_keys : (fuel : ℕ) → List ℕ → Layout → Shell → Option Result
handle_keys fuel [] layout s = some (back s)
handle_keys fuel (c ∷ cs) layout s =
    and_then (handle_key fuel c layout s) (λ s'. handle_keys fuel cs layout s')

-- No key is 'U' or Enter.
abbrev IsEditing : List ℕ → Type 0
IsEditing [] = Unit {0}
IsEditing (c ∷ cs) = (c ≢ 85) × (c ≢ 10) × IsEditing cs

abbrev edits : (width : ℕ) → List ℕ → (line : List ℕ) → List ℕ
edits width [] line = line
edits width (c ∷ cs) line = edits width cs (edit width c line)

key_none : (fuel : ℕ) (layout : Layout) (s : Shell) → handle_key fuel 0 layout s ≡ some (back s)
unfolding handle_key
key_none fuel layout s = refl

pub key_backspace :
    (fuel : ℕ) (layout : Layout) (s : Shell)
    → handle_key fuel 8 layout s ≡ backspace fuel (end_line layout s)
unfolding handle_key
key_backspace fuel layout s = refl

pub key_other :
    (fuel c : ℕ) (layout : Layout) (s : Shell)
    → (c == 0) ≡ false
    → (c == 8) ≡ false
    → (c == 85) ≡ false
    → (c == 10) ≡ false
    → handle_key fuel c layout s ≡ some (back (store c layout (end_line layout s)))
unfolding handle_key
key_other fuel c layout s p q r t = rw (handle_key, p, q, r, t) refl

module _ (layout : Layout) (name : List ℕ) where
  -- The result is a shell whose line is `cs`, with no byte changed but of the buffer.
  abbrev IsLineAfter : Shell → List ℕ → Option Result → Type 0
  IsLineAfter s cs r =
      (s' : Shell) × (r ≡ some (back s'))
      × IsLine layout name s' cs
      × SameOutside layout.input_buffer buffer_size s.memory s'.memory

  backspace-edit :
      (fuel : ℕ) (s : Shell) (cs : List ℕ)
      → IsLine layout name s cs
      → length name < fuel
      → IsLineAfter s (edit (prompt_width name) 8 cs) (handle_key fuel 8 layout s)
  backspace-edit fuel s cs l enough =
      let (l', same) = end_line-IsLine layout name s cs l in
      let s₁ = end_line layout s in
      let column : s₁.terminal.column ≡ (prompt_width name + length cs) % 80 = l'.column in
      let step : handle_key fuel 8 layout s
          ≡ some (back (if ltb (prompt_width name) s₁.terminal.column then erase s₁ else s₁)) =
        key_backspace fuel layout s ∙ backspace_lem layout name fuel s₁ l'.placed enough in
      elim (Bool-cases (ltb (prompt_width name) s₁.terminal.column)) [
        | inl e ↦
            let (l'', kept) =
              erase-IsLine layout name s₁ cs l' (ltb→lt (prompt_width name) s₁.terminal.column e) in
            (
              erase s₁,
              step ∙ rw e refl,
              rw (sym column, e) l'',
              λ a h. ap (λ m. m a) kept ∙ same a h,
            )
        | inr e ↦ (s₁, step ∙ rw e refl, rw (sym column, e) l', same)
      ]

  store-edit :
      (fuel c : ℕ) (s : Shell) (cs : List ℕ)
      → (c == 0) ≡ false
      → (c == 8) ≡ false
      → c ≢ 85
      → c ≢ 10
      → IsLine layout name s cs
      → IsLineAfter s (edit (prompt_width name) c cs) (handle_key fuel c layout s)
  store-edit fuel c s cs p q r t l =
      let (l', same) = end_line-IsLine layout name s cs l in
      let s₁ = end_line layout s in
      let step = key_other fuel c layout s p q (ne→== c 85 r) (ne→== c 10 t) in
      elim (Bool-cases (ltb (length cs) (buffer_size - 1))) [
        | inl e ↦
            let (l'', same') =
              store-IsLine layout name c s₁ cs l' (ltb→lt (length cs) (buffer_size - 1) e) in
            (store c layout s₁, step, rw (p, q, e) l'', λ a h. same' a h ∙ same a h)
        | inr e ↦ (
          s₁,
          step
              ∙ ap (λ x. some (back x))
                  (full_store layout name c s₁ cs l' (ltb→le (length cs) (buffer_size - 1) e)),
          rw (p, q, e) l',
          same,
        )
      ]

  -- A key other than 'U' and Enter edits the line, changes no byte of memory outside the buffer, and
  -- returns.
  handle_key-edit :
      (fuel c : ℕ) (s : Shell) (cs : List ℕ)
      → IsLine layout name s cs
      → length name < fuel
      → c ≢ 85
      → c ≢ 10
      → IsLineAfter s (edit (prompt_width name) c cs) (handle_key fuel c layout s)
  handle_key-edit fuel c s cs l enough r t = elim (Bool-cases (c == 0)) [
    | inl e ↦
        subst (λ x. IsLineAfter s (edit (prompt_width name) x cs) (handle_key fuel x layout s))
          (sym (==→eq c 0 e)) (s, key_none fuel layout s, l, λ a h. refl)
    | inr p ↦ elim (Bool-cases (c == 8)) [
      | inl e ↦
          subst (λ x. IsLineAfter s (edit (prompt_width name) x cs) (handle_key fuel x layout s))
            (sym (==→eq c 8 e)) (backspace-edit fuel s cs l enough)
      | inr q ↦ store-edit fuel c s cs p q r t l
    ]
  ]

  -- A run of keys without 'U' and Enter returns, with the line that the edits of the keys make of the
  -- line before, in the buffer and behind the prompt, and no byte of memory outside the buffer
  -- changed.
  pub handle_keys-edits :
      (fuel : ℕ) (keys : List ℕ) (s : Shell) (cs : List ℕ)
      → IsLine layout name s cs
      → length name < fuel
      → IsEditing keys
      → IsLineAfter s (edits (prompt_width name) keys cs) (handle_keys fuel keys layout s)
  unfolding handle_keys
  handle_keys-edits fuel [] s cs l enough safe = (s, refl, l, λ a h. refl)
  handle_keys-edits fuel (c ∷ keys) s cs l enough (r, t, safe) =
      let (s₁, e, l₁, same) = handle_key-edit fuel c s cs l enough r t in
      let (s₂, e', l₂, same') =
        handle_keys-edits fuel keys s₁ (edit (prompt_width name) c cs) l₁ enough safe in
      (s₂, rw (handle_keys, e) e', l₂, λ a h. same' a h ∙ same a h)
