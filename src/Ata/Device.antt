-- ===== src/Ata/Device.antt =====
-- What a disk on the controller promises to int13h_read_o and int13h_write_o of
-- kernel/arch/i386/FAT.c: the ATA protocol for 28-bit sectors by programmed input and output.
-- A state of a transfer carries the content of the disk, `σ`: byte `i` of sector `n` is `σ n i`.
use potato_os.Base.{ℕ, suc, ◌+◌, ◌*◌, ◌/◌, ◌<◌, ◌≡◌, bit_and, u8, ◌==◌, ◌&&◌, if◌then◌else◌}
use potato_os.Ata.{Ports, read_sectors, write_sectors}

abbrev pub Content : Type 0
Content = ℕ → ℕ → ℕ

-- Word `word` of sector `lba` is set to `v`, its low byte first.
abbrev pub set_word : (lba word v : ℕ) → Content → Content
set_word lba word v σ n i =
    if (n == lba) && (i == 2 * word)
    then u8 v
    else if (n == lba) && (i == 2 * word + 1)
    then u8 (v / 256)
    else σ n i

module _ (ports : Ports) where
  open ports use {Controller, inb, inw, outb, outw}

  -- The command, the count and the sector number as the driver's seven writes give them.
  abbrev pub commanded : (command b₀ b₁ b₂ b₃ num_blocks : ℕ) → Controller → Controller
  commanded command b₀ b₁ b₂ b₃ num_blocks c = outb 0x1F7 command (
      outb 0x1F6 (0xE0 + b₃)
        (outb 0x1F5 b₂ (outb 0x1F4 b₁ (outb 0x1F3 b₀ (outb 0x1F2 num_blocks (outb 0x1F1 0 c))))))

  -- In the status, bit 0 is an error, bit 3 asks for data or offers it, bit 6 is ready, bit 7 busy.
  pub record Disk : Type 1 where
    pub sectors : Controller → Content
    pub IsIdle : Controller → Type 0
    -- After so many polls at most a write goes on.
    pub patience : ℕ
    -- `left` blocks are to be read, from sector `lba`; the first is there after `wait` more polls.
    pub Waiting : Content → (wait left lba : ℕ) → Controller → Type 0
    -- `left` blocks are to be read; the first `word` words of sector `lba` are.
    pub Transfer : Content → (left lba word : ℕ) → Controller → Type 0
    -- `left` blocks are to be written, from sector `lba`; the disk takes the first after `wait` polls.
    pub Pending : Content → (wait left lba : ℕ) → Controller → Type 0
    -- `left` blocks are to be written; the first `word` words of sector `lba` are.
    pub Accepting : Content → (left lba word : ℕ) → Controller → Type 0
    -- The cache is empty after `wait` more polls.
    pub Flushing : Content → (wait : ℕ) → Controller → Type 0
    pub byte : (c : Controller) (n i : ℕ) → IsIdle c → sectors c n i < 256
    pub accepts_read :
        (b₀ b₁ b₂ b₃ num_blocks : ℕ) (c : Controller)
        → IsIdle c
        → b₀ < 256
        → b₁ < 256
        → b₂ < 256
        → b₃ < 16
        → 0 < num_blocks
        → num_blocks < 256
        → (wait : ℕ) × (wait < 100)
          × Waiting
              (sectors c)
              wait
              num_blocks
              (b₀ + 256 * b₁ + 65536 * b₂ + 16777216 * b₃)
              (commanded read_sectors b₀ b₁ b₂ b₃ num_blocks c)
    pub polled :
        {σ : Content} {wait left lba : ℕ} {c : Controller}
        → Waiting σ (suc wait) left lba c
        → (bit_and (inb 0x1F7 c).0 0x08 ≡ 0) × Waiting σ wait left lba (inb 0x1F7 c).1
    pub arrives :
        {σ : Content} {left lba : ℕ} {c : Controller}
        → Waiting σ 0 left lba c
        → (bit_and (inb 0x1F7 c).0 0x08 ≡ 0x08) × Transfer σ left lba 0 (inb 0x1F7 c).1
    pub gives :
        {σ : Content} {left lba word : ℕ} {c : Controller}
        → Transfer σ left lba word c
        → word < 256
        → ((inw 0x1F0 c).0 ≡ σ lba (2 * word) + 256 * σ lba (2 * word + 1))
          × Transfer σ left lba (suc word) (inw 0x1F0 c).1
    pub goes_on :
        {σ : Content} {left lba : ℕ} {c : Controller}
        → Transfer σ (suc (suc left)) lba 256 c
        → (wait : ℕ) × (wait < 100) × Waiting σ wait (suc left) (suc lba) c
    pub ends :
        {σ : Content} {lba : ℕ} {c : Controller}
        → Transfer σ 1 lba 256 c
        → IsIdle c × (sectors c ≡ σ)
    pub accepts_write :
        (b₀ b₁ b₂ b₃ num_blocks : ℕ) (c : Controller)
        → IsIdle c
        → b₀ < 256
        → b₁ < 256
        → b₂ < 256
        → b₃ < 16
        → 0 < num_blocks
        → num_blocks < 256
        → (wait : ℕ) × (wait < patience)
          × Pending
              (sectors c)
              wait
              num_blocks
              (b₀ + 256 * b₁ + 65536 * b₂ + 16777216 * b₃)
              (commanded write_sectors b₀ b₁ b₂ b₃ num_blocks c)
    pub busy :
        {σ : Content} {wait left lba : ℕ} {c : Controller}
        → Pending σ (suc wait) left lba c
        → (bit_and (inb 0x1F7 c).0 0x01 ≡ 0)
          × (bit_and (inb 0x1F7 c).0 0x40 ≡ 0x40)
          × (bit_and (inb 0x1F7 c).0 0x80 ≡ 0x80)
          × Pending σ wait left lba (inb 0x1F7 c).1
    pub requests :
        {σ : Content} {left lba : ℕ} {c : Controller}
        → Pending σ 0 left lba c
        → (bit_and (inb 0x1F7 c).0 0x01 ≡ 0)
          × (bit_and (inb 0x1F7 c).0 0x40 ≡ 0x40)
          × (bit_and (inb 0x1F7 c).0 0x80 ≡ 0)
          × (bit_and (inb 0x1F7 c).0 0x08 ≡ 0x08)
          × Pending σ 0 left lba (inb 0x1F7 c).1
    pub begins :
        {σ : Content} {left lba : ℕ} {c : Controller}
        → Pending σ 0 left lba c
        → Accepting σ left lba 0 c
    pub takes :
        {σ : Content} {left lba word : ℕ} {c : Controller} (v : ℕ)
        → Accepting σ left lba word c
        → word < 256
        → Accepting (set_word lba word v σ) left lba (suc word) (outw 0x1F0 v c)
    -- Port 0x323 is another device's.
    pub elsewhere :
        {σ : Content} {left lba word : ℕ} {c : Controller}
        → Accepting σ left lba word c
        → Accepting σ left lba word (inb 0x323 c).1
    pub continues :
        {σ : Content} {left lba : ℕ} {c : Controller}
        → Accepting σ (suc (suc left)) lba 256 c
        → (wait : ℕ) × (wait < patience) × Pending σ wait (suc left) (suc lba) c
    pub flushes :
        {σ : Content} {lba : ℕ} {c : Controller}
        → Accepting σ 1 lba 256 c
        → (wait : ℕ) × (wait < patience) × Flushing σ wait (outb 0x1F7 0xE7 c)
    pub still_busy :
        {σ : Content} {wait : ℕ} {c : Controller}
        → Flushing σ (suc wait) c
        → (bit_and (inb 0x1F7 c).0 0x80 ≡ 0x80) × Flushing σ wait (inb 0x1F7 c).1
    pub flushed :
        {σ : Content} {c : Controller}
        → Flushing σ 0 c
        → (bit_and (inb 0x1F7 c).0 0x80 ≡ 0)
          × IsIdle (inb 0x1F7 c).1
          × (sectors (inb 0x1F7 c).1 ≡ σ)
