-- ===== src/Ata/Reading.antt =====
-- int13h_read_o of kernel/arch/i386/FAT.c on a disk that follows the protocol.
use potato_os.Base.{
  ℕ, zero, suc, ◌+◌, ◌*◌, ◌≤◌, ◌<◌, ◌≡◌, refl, true, Mem, upd, SameOutside, ◌⊎◌, inl, arith,
}
use native.Mathlib.Nat.{add-zero}
use mathlib.Core.Path.{subst, sym, ◌∙◌}
use potato_os.Terminal.{Terminal, terminal_writestring, terminal_newline}
use potato_os.Fat.{store16}
use potato_os.Ata.{waiting_text, dot_text, Ports, wait_data, read_words, read_blocks}
use potato_os.Ata.Device.{Content, Disk}

store16-SameOutside : (m : Mem) (a v : ℕ) → SameOutside a 2 m (store16 m a v)
unfolding store16 upd
store16-SameOutside m a v i h = ground arith

store16_bytes :
    (m : Mem) (a low high : ℕ)
    → low < 256
    → high < 256
    → (store16 m a (low + 256 * high) a ≡ low) × (store16 m a (low + 256 * high) (a + 1) ≡ high)
unfolding store16 upd
store16_bytes m a low high p q = (ground arith, ground arith)

-- A word and the words after it.
next_word :
    (sector : ℕ → ℕ) (m m' : Mem) (base idx left i : ℕ)
    → sector (2 * idx) < 256
    → sector (2 * idx + 1) < 256
    → (2 * suc idx ≤ i → m' (base + i) ≡ sector i)
    → ((base + i < base + 2 * suc idx) ⊎ (base + 2 * suc idx + 2 * left ≤ base + i)
        → m' (base + i)
          ≡ store16 m (base + 2 * idx) (sector (2 * idx) + 256 * sector (2 * idx + 1)) (base + i))
    → 2 * idx ≤ i
    → m' (base + i) ≡ sector i
unfolding store16 upd
next_word sector m m' base idx left i p q filled outside h = ground arith

after_next :
    (a base idx left : ℕ)
    → (a < base + 2 * idx) ⊎ (base + 2 * idx + 2 * suc left ≤ a)
    → (a < base + 2 * suc idx) ⊎ (base + 2 * suc idx + 2 * left ≤ a)
after_next a base idx left h = ground arith

before_next : (a p left : ℕ) → (a < p) ⊎ (p + 2 * suc left ≤ a) → (a < p) ⊎ (p + 2 ≤ a)
before_next a p left h = ground arith

block_zero :
    (sectors : ℕ → ℕ → ℕ) (m : Mem) (base lba j i : ℕ)
    → j ≡ 0
    → m (base + i) ≡ sectors lba i
    → m (base + 512 * j + i) ≡ sectors (lba + j) i
block_zero sectors m base lba j i at_first filled =
    rw (at_first, add-zero lba, add-zero base) filled

-- The blocks after the first, counted from it.
block_join :
    (sectors : ℕ → ℕ → ℕ) (m₁ m' : Mem) (base lba left j i : ℕ)
    → m₁ (base + i) ≡ sectors lba i
    → ((k : ℕ) → k < suc left → m' (base + 512 + 512 * k + i) ≡ sectors (suc lba + k) i)
    → ((base + i < base + 512) ⊎ (base + 512 + 512 * suc left ≤ base + i)
        → m' (base + i) ≡ m₁ (base + i))
    → j < suc (suc left)
    → i < 512
    → m' (base + 512 * j + i) ≡ sectors (lba + j) i
block_join sectors m₁ m' base lba left zero i first others kept p q =
    block_zero sectors m' base lba 0 i refl (kept (inl (omega arith)) ∙ first)
block_join sectors m₁ m' base lba left (suc j) i first others kept p q =
    let place : base + 512 * suc j + i ≡ base + 512 + 512 * j + i = omega arith in
    let block : lba + suc j ≡ suc lba + j = omega arith in
    rw (place, block) (others j (omega arith))

after_block :
    (a base left : ℕ)
    → (a < base) ⊎ (base + 512 * suc (suc left) ≤ a)
    → (a < base + 512) ⊎ (base + 512 + 512 * suc left ≤ a)
after_block a base left h = ground arith

before_block :
    (a base left : ℕ)
    → (a < base) ⊎ (base + 512 * suc (suc left) ≤ a)
    → (a < base) ⊎ (base + 512 ≤ a)
before_block a base left h = ground arith

module _ (ports : Ports) (disk : Disk ports) (σ : Content) (byte : (n i : ℕ) → σ n i < 256) where
  open ports use {Controller, inb, inw, outb}
  open disk use {sectors, IsIdle, Waiting, Transfer, polled, arrives, gives, goes_on, ends}

  wait_data-Waiting :
      (left wait n lba : ℕ) (t : Terminal) (c : Controller)
      → wait < left
      → Waiting σ wait n lba c
      → (t' : Terminal) × (c' : Controller) × (wait_data ports left t c ≡ (true, t', c'))
        × Transfer σ n lba 0 c'
  unfolding wait_data
  wait_data-Waiting zero wait n lba t c below w = absurd (omega arith)
  wait_data-Waiting (suc left) zero n lba t c below w =
      let (e, next) = arrives w in (t, (inb 0x1F7 c).1, rw e refl, next)
  wait_data-Waiting (suc left) (suc wait) n lba t c below w =
      let (e, next) = polled w in
      let (t', c', e', done) =
        wait_data-Waiting left wait n lba (terminal_writestring dot_text t) (inb 0x1F7 c).1
          (omega arith) next in
      (t', c', rw e e', done)

  read_words-Transfer :
      (left base idx n lba : ℕ) (m : Mem) (c : Controller)
      → idx + left ≡ 256
      → Transfer σ n lba idx c
      → (m' : Mem) × (c' : Controller) × (read_words ports left base idx m c ≡ (m', c'))
        × Transfer σ n lba 256 c'
        × ((i : ℕ) → 2 * idx ≤ i → i < 512 → m' (base + i) ≡ σ lba i)
        × SameOutside (base + 2 * idx) (2 * left) m m'
  unfolding read_words
  read_words-Transfer zero base idx n lba m c total t = (
    m,
    c,
    refl,
    subst (λ k. Transfer σ n lba k c) (omega arith) t,
    (λ i h k. absurd (omega arith)),
    λ a h. refl,
  )
  read_words-Transfer (suc left) base idx n lba m c total t =
      let (e, next) = gives t (omega arith) in
      let m₁ = store16 m (base + 2 * idx) (inw 0x1F0 c).0 in
      let (m', c', e', done, filled, outside) =
        read_words-Transfer left base (suc idx) n lba m₁ (inw 0x1F0 c).1 (omega arith) next in
      (
        m',
        c',
        e',
        done,
        λ i h k.
            next_word (σ lba) m m' base idx left i (byte lba (2 * idx)) (byte lba (2 * idx + 1))
              (λ h'. filled i h' k) (λ q. rw (sym e) (outside (base + i) q)) h,
        λ a h.
            outside a (after_next a base idx left h)
            ∙ store16-SameOutside m (base + 2 * idx) _ a (before_next a (base + 2 * idx) left h),
      )

  block_step :
      (left base : ℕ) (m m' : Mem) (t t' : Terminal) (c c' c'' : Controller)
      → wait_data ports 100 (terminal_writestring waiting_text (terminal_newline t)) c
        ≡ (true, t', c')
      → read_words ports 256 base 0 m c' ≡ (m', c'')
      → read_blocks ports (suc left) base m t c ≡ read_blocks ports left (base + 512) m' t' c''
  unfolding read_blocks
  block_step left base m m' t t' c c' c'' e₁ e₂ = rw (e₁, e₂) refl

  -- The first block of a read.
  first_block :
      (left base lba wait : ℕ) (m : Mem) (t : Terminal) (c : Controller)
      → wait < 100
      → Waiting σ wait (suc left) lba c
      → (m' : Mem) × (t' : Terminal) × (c' : Controller) × (read_blocks ports (suc left) base m t c
          ≡ read_blocks ports left (base + 512) m' t' c')
        × Transfer σ (suc left) lba 256 c'
        × ((i : ℕ) → i < 512 → m' (base + i) ≡ σ lba i)
        × SameOutside base 512 m m'
  first_block left base lba wait m t c below w =
      let (t', c₁, e₁, ready) =
        wait_data-Waiting 100 wait (suc left) lba
          (terminal_writestring waiting_text (terminal_newline t)) c below w in
      let (m', c', e₂, done, filled, outside) =
        read_words-Transfer 256 base 0 (suc left) lba m c₁ refl ready in
      (
        m',
        t',
        c',
        block_step left base m m' t t' c c₁ c' e₁ e₂,
        done,
        (λ i h. filled i (omega arith) h),
        λ a h. outside a (rw (add-zero base) h),
      )

  no_blocks :
      (base : ℕ) (m : Mem) (t : Terminal) (c : Controller)
      → read_blocks ports 0 base m t c ≡ (0, m, t, c)
  unfolding read_blocks
  no_blocks base m t c = refl

  pub read_blocks-Waiting :
      (left base lba wait : ℕ) (m : Mem) (t : Terminal) (c : Controller)
      → wait < 100
      → Waiting σ wait (suc left) lba c
      → (m' : Mem) × (t' : Terminal) × (c' : Controller) × (read_blocks ports (suc left) base m t c
          ≡ (0, m', t', c'))
        × IsIdle c'
        × (sectors c' ≡ σ)
        × ((j i : ℕ) → j < suc left → i < 512 → m' (base + 512 * j + i) ≡ σ (lba + j) i)
        × SameOutside base (512 * suc left) m m'
  read_blocks-Waiting zero base lba wait m t c below w =
      let (m', t', c', e, done, filled, outside) = first_block 0 base lba wait m t c below w in
      (
        m',
        t',
        c',
        e ∙ no_blocks (base + 512) m' t' c',
        (ends done).0,
        (ends done).1,
        (λ j i p q. block_zero σ m' base lba j i (omega arith) (filled i q)),
        outside,
      )
  read_blocks-Waiting (suc left) base lba wait m t c below w =
      let (m₁, t₁, c₁, e₁, going, first, around) =
        first_block (suc left) base lba wait m t c below w in
      let (next_wait, within, again) = goes_on going in
      let (m', t', c', e, idle, same, filled, outside) =
        read_blocks-Waiting left (base + 512) (suc lba) next_wait m₁ t₁ c₁ within again in
      (
        m',
        t',
        c',
        e₁ ∙ e,
        idle,
        same,
        (λ j i p q.
            block_join σ m₁ m' base lba left j i (first i q) (λ k x. filled k i x q)
              (outside (base + i)) p q),
        λ a h. outside a (after_block a base left h) ∙ around a (before_block a base left h),
      )
