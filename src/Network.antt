-- ===== src/Network.antt =====
-- The network code of kernel/arch/i386/tty.c: byte order, the checksum of IP and ICMP headers, and the
-- transfer of packets through the ports of a card. The dots that the loops print are left out.
pub mod ByteOrder
pub mod Checksum
pub mod Ping
pub mod Verified
mod Tests
use potato_os.Base.{
  ℕ, zero, suc, ◌+◌, ◌*◌, ◌-◌, ◌/◌, ◌%◌, ◌^◌, Option, none, some, Mem, upd, u8, u16, u32, bit_and,
  bit_or, ◌<<<◌, ◌>>>◌, ltb, ◌==◌, ◌/=◌, if◌then◌else◌,
}
use potato_os.Ata.{Ports}
use potato_os.Fat.{load16}

unfoldable pub htonl : (hostlong : ℕ) → ℕ
htonl hostlong =
    bit_or
      (bit_or (bit_or (bit_and hostlong 0xFF00_0000 >>> 24) (bit_and hostlong 0x00FF_0000 >>> 8))
        (u32 (bit_and hostlong 0x0000_FF00 <<< 8)))
      (u32 (bit_and hostlong 0x0000_00FF <<< 24))

unfoldable pub htons : (hostshort : ℕ) → ℕ
htons hostshort = u16 (bit_or (hostshort >>> 8) (hostshort <<< 8))

-- The first loop of `checksum`, with `left` words to go.
pub sum_words : (left sum ptr : ℕ) → Mem → ℕ
sum_words zero sum ptr m = sum
sum_words (suc left) sum ptr m = sum_words left (u32 (sum + load16 m ptr)) (ptr + 2) m

-- `while (sum >> 16) sum = (sum & 0xFFFF) + (sum >> 16);`
pub fold_carries : (fuel sum : ℕ) → Option ℕ
fold_carries zero sum = none
fold_carries (suc fuel) sum =
    let next = fold_carries fuel (u32 (bit_and sum 0xFFFF + (sum >>> 16))) in
    if sum >>> 16 == 0 then some sum else next

-- `~sum` as a uint16_t, of a sum that fits 16 bits.
abbrev pub complement16 : ℕ → ℕ
complement16 sum = u16 (2 ^ 32 - 1 - sum)

unfoldable pub checksum : (fuel address len : ℕ) → Mem → Option ℕ
checksum fuel address len m =
    let words = sum_words (len / 2) 0 address m in
    let sum = if len % 2 == 0 then words else u32 (words + m (address + len / 2 * 2)) in
    elim (fold_carries fuel sum) [ none ↦ none | some s ↦ some (complement16 s) ]

module _ (ports : Ports) where
  open ports use {Controller, inb, outb}

  -- The loop of network_send; a port number is 16 bits.
  send_bytes : (left i io_base packet : ℕ) → Mem → Controller → Controller
  send_bytes zero i io_base packet m c = c
  send_bytes (suc left) i io_base packet m c =
      send_bytes left (i + 1) io_base packet m (outb (u16 (io_base + i)) (m (packet + i)) c)

  -- `io_base` is a uint16_t, and 0xB8000 does not fit it.
  unfoldable pub network_send : (packet length : ℕ) → Mem → Controller → Controller
  unfolding send_bytes
  network_send packet length m c =
      let io_base : ℕ = u16 0xB8000 in
      outb (u16 (io_base + 0x10)) 0x01 (send_bytes length 0 io_base packet m c)

  receive_bytes : (left i io_base buffer : ℕ) → Mem → Controller → Mem × Controller
  receive_bytes zero i io_base buffer m c = (m, c)
  receive_bytes (suc left) i io_base buffer m c =
      let (v, c') = inb (u16 (io_base + i)) c in
      receive_bytes left (i + 1) io_base buffer (upd m (buffer + i) v) c'

  -- The number of bytes received.
  unfoldable pub network_receive : (buffer max_length : ℕ) → Mem → Controller → ℕ × Mem × Controller
  unfolding receive_bytes
  network_receive buffer max_length m c =
      let io_base : ℕ = 0x1500 in
      let (status, c₁) = inb (io_base + 0x20) c in
      let (length, c₂) = inb (io_base + 0x24) c₁ in
      let length' = if ltb max_length length then max_length else length in
      let (m', c₃) = receive_bytes length' 0 io_base buffer m c₂ in
      if bit_and status 0x01 /= 0 then (length', m', c₃) else (0, m, c₁)
