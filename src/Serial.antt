-- ===== src/Serial.antt =====
-- The serial console of kernel/arch/i386/lib_c.c over the ports of a UART. A loop that polls takes
-- fuel and answers `none` when it runs out. A text is the list of its bytes before the NUL.
pub mod Wire
pub mod Digits
pub mod Received
pub mod Ints
mod Tests
use potato_os.Base.{
  ℕ, zero, suc, ◌+◌, ◌-◌, ◌*◌, ◌/◌, ◌%◌, ◌^◌, Bool, true, false, List, [], ◌∷◌, Option, none, some,
  u8, u32, bit_and, minus_one, ◌<<<◌, ◌>>>◌, ltb, leb, ◌==◌, ◌/=◌, ◌&&◌, ◌||◌, if◌then◌else◌,
}
use potato_os.Ata.{Ports}
use potato_os.Fat.Names.{lowercase}

-- `TTY`, and `TTY + LSR`.
abbrev pub tty : ℕ
tty = 0x3F8

abbrev pub line_status : ℕ
line_status = 0x3FD

abbrev pub and_then {ℓ} : {A B : Type ℓ} → Option A → (A → Option B) → Option B
and_then none next = none
and_then (some a) next = next a

-- A digit of `printhex`, and of `_printInt`.
unfoldable pub hex_digit : ℕ → ℕ
hex_digit buf = if ltb buf 10 then buf + 48 else buf + (65 - 10)

-- `_printInt` of `val` in `base`, from the last digit on: the bytes that it puts before `ptr`, of the
-- `left` that are free. `val` is a 32-bit pattern, and the remainder of a negative one is negative.
unfoldable pub int_digits : (left val base : ℕ) → List ℕ → List ℕ
unfolding hex_digit
int_digits zero val base text = text
int_digits (suc left) val base text =
    let next =
      if ltb val (2 ^ 31)
      then int_digits left (val / base) base (hex_digit (val % base) ∷ text)
      else int_digits left ((2 ^ 32 - (2 ^ 32 - val) / base) % 2 ^ 32) base
          (u8 (48 + 256 - (2 ^ 32 - val) % base) ∷ text) in
    if val == 0 then text else next

-- What is passed for `...`.
pub data Arg : Type 0 where
  word : ℕ → Arg
  text : List ℕ → Arg

module _ (ports : Ports) where
  open ports use {Controller, inb, outb}

  -- The poll for a bit of the line status.
  unfoldable pub wait_status : (fuel mask : ℕ) → Controller → Option Controller
  wait_status zero mask c = none
  wait_status (suc fuel) mask c =
      let (status, c') = inb line_status c in
      let next = wait_status fuel mask c' in if bit_and status mask == 0 then next else some c'

  unfoldable pub send : (fuel c : ℕ) → Controller → Option Controller
  send fuel c s = and_then (wait_status fuel 0x20 s) (λ s'. some (outb tty c s'))

  -- `putcc`: a line feed is sent behind a carriage return.
  unfoldable pub putcc : (fuel c : ℕ) → Controller → Option Controller
  putcc fuel c s =
      if c == 0x0A then and_then (send fuel 0x0D s) (λ s'. send fuel c s') else send fuel c s

  unfoldable pub getcc : (fuel echo : ℕ) → Controller → Option (ℕ × Controller)
  getcc fuel echo s = and_then (wait_status fuel 0x01 s) (λ s₁.
      let (c, s₂) = inb tty s₁ in
      if echo == 0 then some (c, s₂) else and_then (putcc fuel c s₂) (λ s₃. some (c, s₃)))

  -- `printss` and `putstring`
  unfoldable pub printss : (fuel : ℕ) → List ℕ → Controller → Option Controller
  printss fuel [] s = some s
  printss fuel (c ∷ cs) s = and_then (putcc fuel c s) (λ s'. printss fuel cs s')

  -- `printsss` of the bytes given; a byte from 128 on is a negative `char`.
  unfoldable printsss : (fuel : ℕ) → List ℕ → Controller → Option Controller
  printsss fuel [] s = some s
  printsss fuel (c ∷ cs) s =
      and_then (putcc fuel (if ltb 0x20 c && ltb c 0x80 then c else 46) s)
        (λ s'. printsss fuel cs s')

  -- The loop of `printhex`, with `left` digits to go; `left` is at most 8.
  unfoldable pub printhex : (fuel num left : ℕ) → Controller → Option Controller
  printhex fuel num zero s = some s
  printhex fuel num (suc left) s =
      and_then (putcc fuel (hex_digit (bit_and (num >>> (left * 4)) 0xF)) s)
        (λ s'. printhex fuel num left s')

  -- The loop of `gethex`, with `left` digits to go: the result, `*num` and the controller.
  unfoldable pub gethex_loop : (fuel left echo num : ℕ) → Controller → Option (ℕ × ℕ × Controller)
  gethex_loop fuel zero echo num s = some (0, num, s)
  gethex_loop fuel (suc left) echo num s = and_then (getcc fuel echo s) (λ r.
      let (c, s') = r in
      let buf = lowercase c in
      if ltb buf 48 || ltb 102 buf || (ltb 57 buf && ltb buf 97)
      then some (minus_one, num, s')
      else gethex_loop fuel left echo
          (u32 (u32 (num <<< 4) + (if ltb 57 buf then buf - (97 - 10) else buf - 48))) s')

  unfoldable pub gethex : (fuel digits echo : ℕ) → Controller → Option (ℕ × ℕ × Controller)
  gethex fuel digits echo s =
      if echo == 0
      then gethex_loop fuel digits echo 0 s
      else and_then (printss fuel (32 ∷ []) s) (λ s'. gethex_loop fuel digits echo 0 s')

  -- `_printInt`, whose buffer has 31 bytes before the NUL.
  unfoldable pub print_int : (fuel val base : ℕ) → Controller → Option Controller
  print_int fuel val base s = printss fuel (int_digits 31 val base []) s

  -- `_printf`. A directive that meets no argument, or one of the other kind, is `none`.
  unfoldable serial_printf :
      (fuel : ℕ) → (fmt : List ℕ) (args : List Arg) → Controller → Option Controller
  serial_printf fuel [] args s = some s
  serial_printf fuel (c ∷ []) args s = putcc fuel c s
  serial_printf fuel (c ∷ d ∷ cs) args s =
      if c /= 37
      then and_then (putcc fuel c s) (λ s'. serial_printf fuel (d ∷ cs) args s')
      else if d == 100
      then elim args [
        | word i ∷ others ↦ and_then (print_int fuel i 10 s) (λ s'. serial_printf fuel cs others s')
        | _ ↦ none
      ]
      else if d == 115
      then elim args [
        | text t ∷ others ↦ and_then (printss fuel t s) (λ s'. serial_printf fuel cs others s')
        | _ ↦ none
      ]
      else if d == 120
      then elim args [
        | word i ∷ others ↦ and_then (print_int fuel i 16 s) (λ s'. serial_printf fuel cs others s')
        | _ ↦ none
      ]
      else and_then (putcc fuel c s) (λ s'. serial_printf fuel (d ∷ cs) args s')
