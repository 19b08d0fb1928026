-- ===== src/Network/Ping.antt =====
-- send_ping and receive_ping of kernel/arch/i386/tty.c. The headers and packets are local arrays, whose
-- addresses are given. What send_ping prints is left out.
use potato_os.Base.{ℕ, ◌+◌, Bool, true, false, codes, Option, none, some, Mem, upd, ◌==◌, ◌&&◌}
use potato_os.Ata.{Ports}
use potato_os.Memory.{memcpy}
use potato_os.Fat.{store16, store32}
use potato_os.Terminal.{Terminal, terminal_newline, terminal_putchar, terminal_writestring}
use potato_os.Network.{htonl, htons, checksum, network_send, network_receive}

-- `sizeof(struct ip_header)` and `sizeof(struct icmp_header)`.
abbrev pub ip_size : ℕ
ip_size = 20

abbrev pub icmp_size : ℕ
icmp_size = 8

-- The fields of the IP header, from its address on; the checksum is 0.
unfoldable pub fill_ip : (ip dest_ip : ℕ) → Mem → Mem
fill_ip ip dest_ip m =
    store32
      (store32
        (store16
          (upd
            (upd
              (store16
                (store16
                  (store16 (upd (upd m ip 0x45) (ip + 1) 0) (ip + 2) (htons (ip_size + icmp_size)))
                  (ip + 4) 0)
                (ip + 6) 0)
              (ip + 8) 64)
            (ip + 9) 0)
          (ip + 10) 0)
        (ip + 12) (htonl 0xC0A80001))
      (ip + 16) (htonl dest_ip)

unfoldable pub fill_icmp : (icmp : ℕ) → Mem → Mem
fill_icmp icmp m =
    store16 (store16 (store16 (upd (upd m icmp 8) (icmp + 1) 0) (icmp + 2) 0) (icmp + 4) (htons 1))
      (icmp + 6) (htons 1)

-- `header.checksum = checksum(&header, sizeof(header))`
unfoldable pub set_checksum : (fuel header len field : ℕ) → Mem → Option Mem
set_checksum fuel header len field m = elim (checksum fuel header len m) [
  | none ↦ none
  | some c ↦ some (store16 m (header + field) c)
]

-- Both headers, with their checksums.
unfoldable pub fill_headers : (fuel ip icmp dest_ip : ℕ) → Mem → Option Mem
fill_headers fuel ip icmp dest_ip m =
    elim (set_checksum fuel ip ip_size 10 (fill_ip ip dest_ip m)) [
      | none ↦ none
      | some m₁ ↦ set_checksum fuel icmp icmp_size 2 (fill_icmp icmp m₁)
    ]

unfoldable join_packet : (ip icmp packet : ℕ) → Mem → Mem
join_packet ip icmp packet m = memcpy (packet + ip_size) icmp icmp_size (memcpy packet ip ip_size m)

module _ (ports : Ports) where
  open ports use {Controller}

  unfoldable send_ping :
      (fuel ip icmp packet dest_ip : ℕ) → Mem → Controller → Option (Mem × Controller)
  send_ping fuel ip icmp packet dest_ip m c = elim (fill_headers fuel ip icmp dest_ip m) [
    | none ↦ none
    | some m₁ ↦
        (let m₂ = join_packet ip icmp packet m₁ in
          some (m₂, network_send ports packet (ip_size + icmp_size) m₂ c))
  ]

  -- The message of receive_ping, and `networkinit`.
  unfoldable report : (is_reply : Bool) → Terminal → Bool × Terminal
  report true t = (
    true,
    terminal_writestring (codes "[  OK  ] Attempting to ping 192.168.0.2...") (terminal_newline t),
  )
  report false t = (
    false,
    terminal_newline (
        terminal_writestring (codes "[ FAIL ] Attempting to ping 192.168.0.2...")
          (terminal_newline t)),
  )

  -- `buffer` is not cleared: when nothing was received the answer is read from what stood there.
  unfoldable receive_ping :
      (buffer : ℕ) → Mem → Terminal → Controller → Bool × Mem × Terminal × Controller
  receive_ping buffer m t c =
      let (_, m', c') = network_receive ports buffer 1500 m c in
      let type = m' (buffer + ip_size) in
      let code = m' (buffer + ip_size + 1) in
      let (networkinit, t') = report ((type == 0) && (code == 0)) t in
      (
        networkinit,
        m',
        terminal_putchar type (terminal_newline (terminal_putchar code (terminal_newline t'))),
        c',
      )
