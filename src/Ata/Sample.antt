-- ===== src/Ata/Sample.antt =====
-- A disk that follows the protocol, busy for one poll where it may be.
use potato_os.Base.{
  ℕ, zero, suc, ◌+◌, ◌*◌, ◌-◌, ◌%◌, ◌<◌, ◌≡◌, refl, bit_and, ◌==◌, u8, if◌then◌else◌, arith, inl,
  inr, ne→==, Bool-cases, ==→eq, ==→ne,
}
use mathlib.Core.Path.{subst, ap, fun_ext, ◌∙◌}
use potato_os.Ata.{Ports}
use potato_os.Ata.Device.{Content, set_word, Disk}

-- The registers of the disk, the transfer under way, and what is stored.
pub record Registers : Type 0 where
  pub count : ℕ
  pub low : ℕ
  pub middle : ℕ
  pub high : ℕ
  pub drive : ℕ
  pub left : ℕ
  pub lba : ℕ
  pub word : ℕ
  pub wait : ℕ
  pub content : ℕ → ℕ → ℕ

abbrev pub bytes_of : Registers → Content
bytes_of c n i = u8 (c.content n i)

abbrev status_port : (port : ℕ) → Registers → ℕ × Registers
status_port port c =
    if port == 0x1F7
    then elim c.wait [ zero ↦ (0x48, c) | suc wait ↦ (0xC0, record c { wait = wait }) ]
    else (0, c)

-- The place after a word.
abbrev pub moved : Registers → Registers
moved c =
    if c.word == 255
    then record c { left = c.left - 1; lba = suc c.lba; word = 0; wait = 1 }
    else record c { word = suc c.word }

abbrev pub data_port : (port : ℕ) → Registers → ℕ × Registers
data_port port c =
    (bytes_of c c.lba (2 * c.word) + 256 * bytes_of c c.lba (2 * c.word + 1), moved c)

abbrev store_word : (port value : ℕ) → Registers → Registers
store_word port v c = moved (record c { content = set_word c.lba c.word v (bytes_of c) })

abbrev pub start : (command : ℕ) → Registers → Registers
start command c = if command == 0xE7 then record c { wait = 1 } else record c {
  left = c.count;
  lba = c.low + 256 * c.middle + 65536 * c.high + 16777216 * (c.drive % 16);
  word = 0;
  wait = 1;
}

abbrev set_register : (port value : ℕ) → Registers → Registers
set_register port v c =
    if port == 0x1F2
    then record c { count = v }
    else if port == 0x1F3
    then record c { low = v }
    else if port == 0x1F4
    then record c { middle = v }
    else if port == 0x1F5
    then record c { high = v }
    else if port == 0x1F6
    then record c { drive = v }
    else if port == 0x1F7
    then start v c
    else c

abbrev pub good_ports : Ports
good_ports = record {
  Controller = Registers;
  inb = status_port;
  inw = data_port;
  outb = set_register;
  outw = store_word;
}

abbrev pub IsAt : Content → (wait left lba word : ℕ) → Registers → Type 0
IsAt σ wait left lba word c =
    (c.wait ≡ wait) × (c.left ≡ left) × (c.lba ≡ lba) × (c.word ≡ word) × (bytes_of c ≡ σ)

-- The transfer goes on with word `word` of sector `lba`; at 256 it is at the next sector.
abbrev InBlock : Content → (left lba word : ℕ) → Registers → Type 0
InBlock σ left lba word c =
    if word == 256 then IsAt σ 1 (left - 1) (suc lba) 0 c else IsAt σ 0 left lba word c

pub polled_lem :
    (σ : Content) (wait left lba : ℕ) (c : Registers)
    → IsAt σ (suc wait) left lba 0 c
    → ((status_port 0x1F7 c).0 ≡ 0xC0) × IsAt σ wait left lba 0 (status_port 0x1F7 c).1
polled_lem σ wait left lba c (a, b, d, e, s) = rw a (refl, (refl, b, d, e, s))

pub arrives_lem :
    (σ : Content) (left lba : ℕ) (c : Registers)
    → IsAt σ 0 left lba 0 c
    → ((status_port 0x1F7 c).0 ≡ 0x48) × IsAt σ 0 left lba 0 (status_port 0x1F7 c).1
arrives_lem σ left lba c (a, b, d, e, s) = rw a (refl, (a, b, d, e, s))

in_block :
    (σ : Content) (left lba word : ℕ) (c : Registers)
    → InBlock σ left lba word c
    → word < 256
    → IsAt σ 0 left lba word c
in_block σ left lba word c at h =
    subst (λ b. if b then IsAt σ 1 (left - 1) (suc lba) 0 c else IsAt σ 0 left lba word c)
      (ne→== word 256 (omega arith)) at

next_word :
    (σ : Content) (left lba word : ℕ) (c : Registers)
    → IsAt σ 0 left lba word c
    → InBlock σ left lba (suc word) (moved c)
next_word σ left lba word c (a, b, d, e, s) = elim (Bool-cases (word == 255)) [
  | inl last ↦ rw (e, ==→eq word 255 last) (refl, ap (λ n. n - 1) b, ap suc d, refl, s)
  | inr more ↦
      rw (e, more, ne→== (suc word) 256 (omega (arith, ==→ne word 255 more))) (a, b, d, refl, s)
]

pub gives_lem :
    (σ : Content) (left lba word : ℕ) (c : Registers)
    → InBlock σ left lba word c
    → word < 256
    → ((data_port 0x1F0 c).0 ≡ σ lba (2 * word) + 256 * σ lba (2 * word + 1))
      × InBlock σ left lba (suc word) (data_port 0x1F0 c).1
gives_lem σ left lba word c at h =
    let (a, b, d, e, s) = in_block σ left lba word c at h in
    (
      simp (d, e) (λ p. s p lba (2 * word) + 256 * s p lba (2 * word + 1)),
      next_word σ left lba word c (a, b, d, e, s),
    )

settled :
    (lba word v : ℕ) (content : Content)
    → (λ n i. u8 (set_word lba word v (λ k j. u8 (content k j)) n i))
      ≡ set_word lba word v (λ k j. u8 (content k j))
settled lba word v content = fun_ext (λ n. fun_ext (λ i. ground arith))

pub takes_lem :
    (σ : Content) (left lba word v : ℕ) (c : Registers)
    → InBlock σ left lba word c
    → word < 256
    → InBlock (set_word lba word v σ) left lba (suc word) (store_word 0x1F0 v c)
takes_lem σ left lba word v c at h =
    let (a, b, d, e, s) = in_block σ left lba word c at h in
    next_word (set_word lba word v σ) left lba word
      (record c { content = set_word c.lba c.word v (bytes_of c) })
      (a, b, d, e, settled c.lba c.word v c.content ∙ λ p. set_word (d p) (e p) v (s p))

pub block_over :
    (σ : Content) (left lba : ℕ) (c : Registers)
    → InBlock σ (suc left) lba 256 c
    → IsAt σ 1 left (suc lba) 0 c
block_over σ left lba c (a, b, d, e, s) = (a, omega (arith, b), d, e, s)

-- Each result of a poll, by the bit that is tested.
pub bit_of :
    (mask : ℕ) {status value : ℕ} → status ≡ value → bit_and status mask ≡ bit_and value mask
bit_of mask e = ap (λ x. bit_and x mask) e

abbrev pub good_disk : Disk good_ports
good_disk = record {
  sectors = bytes_of;
  IsIdle = λ c. Unit {0};
  patience = 2;
  Waiting = λ σ wait left lba c. IsAt σ wait left lba 0 c;
  Transfer = InBlock;
  Pending = λ σ wait left lba c. IsAt σ wait left lba 0 c;
  Accepting = InBlock;
  Flushing = λ σ wait c. (c.wait ≡ wait) × (bytes_of c ≡ σ);
  byte = λ c n i _. omega arith;
  accepts_read = λ b₀ b₁ b₂ b₃ num_blocks c _ _ _ _ h _ _.
      (1, omega arith, (refl, refl, omega arith, refl, refl));
  polled = λ w. let (e, at) = polled_lem _ _ _ _ _ w in (bit_of 0x08 e, at);
  arrives = λ w. let (e, at) = arrives_lem _ _ _ _ w in (bit_of 0x08 e, at);
  gives = λ t h. gives_lem _ _ _ _ _ t h;
  goes_on = λ {σ} {left} {lba} {c} t. (1, omega arith, block_over σ (suc left) lba c t);
  ends = λ t. (tt, t.4);
  accepts_write = λ b₀ b₁ b₂ b₃ num_blocks c _ _ _ _ h _ _.
      (1, omega arith, (refl, refl, omega arith, refl, refl));
  busy = λ w.
      let (e, at) = polled_lem _ _ _ _ _ w in (bit_of 0x01 e, bit_of 0x40 e, bit_of 0x80 e, at);
  requests = λ w.
      let (e, at) = arrives_lem _ _ _ _ w in
      (bit_of 0x01 e, bit_of 0x40 e, bit_of 0x80 e, bit_of 0x08 e, at);
  begins = λ w. w;
  takes = λ v t h. takes_lem _ _ _ _ v _ t h;
  elsewhere = λ t. t;
  continues = λ {σ} {left} {lba} {c} t. (1, omega arith, block_over σ (suc left) lba c t);
  flushes = λ t. (1, omega arith, (refl, t.4));
  still_busy = λ f. let (e, s) = f in rw e (refl, (refl, s));
  flushed = λ f. let (e, s) = f in rw e (refl, tt, s);
}

abbrev pub fresh : Registers
fresh = record {
  count = 0;
  low = 0;
  middle = 0;
  high = 0;
  drive = 0;
  left = 0;
  lba = 0;
  word = 0;
  wait = 0;
  content = λ n i. n + i;
}
