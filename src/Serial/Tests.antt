-- ===== src/Serial/Tests.antt =====
-- The serial console of kernel/arch/i386/lib_c.c on a UART that is never busy.
use potato_os.Base.{◌≢◌, ℕ, ◌≡◌, refl, List, [], ◌∷◌, ◌++◌, codes, some, ◌==◌, if◌then◌else◌, arith}
use potato_os.Ata.{Ports}
use potato_os.Serial.{line_status, int_digits, printhex, gethex, print_int}
use potato_os.Serial.Wire.{Wire, IsSent, all_on_wire}
use potato_os.Serial.Digits.{hex_digits}
use potato_os.Serial.Ints.{IsDecimal, decimal, print_int-decimal}
use potato_os.Serial.Received.{gethex-printhex}

record Uart : Type 0 where
  sent : List ℕ
  incoming : List ℕ

abbrev take_byte : Uart → ℕ × Uart
take_byte u = elim u.incoming [ [] ↦ (0, u) | v ∷ vs ↦ (v, record u { incoming = vs }) ]

abbrev read_port : (port : ℕ) → Uart → ℕ × Uart
read_port port u = if port == line_status then (0x21, u) else take_byte u

abbrev uart_ports : Ports
uart_ports = record {
  Controller = Uart;
  inb = read_port;
  inw = λ _ u. (0, u);
  outb = λ _ v u. record u { sent = u.sent ++ (v ∷ []) };
  outw = λ _ _ u. u;
}

take_byte_lem :
    (u : Uart) (v : ℕ) (vs : List ℕ)
    → u.incoming ≡ v ∷ vs
    → ((take_byte u).0 ≡ v) × ((take_byte u).1.incoming ≡ vs)
take_byte_lem u v vs e = rw e (refl, refl)

abbrev open_wire : Wire uart_ports
open_wire = record {
  IsOpen = λ _. Unit {0};
  sent = λ u. u.sent;
  incoming = λ u. u.incoming;
  patience = 1;
  busy = λ _. 0;
  patient = λ _. omega arith;
  polled = λ o e. absurd (omega (arith, e));
  free = λ o e. (refl, tt, refl, refl, refl);
  takes = λ v o e. (tt, refl, refl);
  arrived = λ o e. (refl, tt, e);
  gives = λ o e. let (v, vs) = take_byte_lem _ _ _ e in (v, tt, vs);
}

abbrev fresh : List ℕ → Uart
fresh bytes = record { sent = []; incoming = bytes }

-- "2A" is 42; 0 prints nothing, and -42 prints bytes below '0'.
ints :
    (int_digits 31 42 16 [] ≡ codes "2A")
    × (int_digits 31 0 10 [] ≡ [])
    × (int_digits 31 4294967254 10 [] ≡ 44 ∷ 46 ∷ [])
unfolding int_digits
ints = (refl, refl, refl)

gethex-printhex_example :
    ((c' : Uart) × (printhex uart_ports 1 0xBEEF 4 (fresh []) ≡ some c')
      × IsSent uart_ports open_wire (fresh []) (hex_digits 0xBEEF 4) c')
    × ((d' : Uart) × (gethex uart_ports 1 4 0 (fresh (hex_digits 0xBEEF 4 ++ (33 ∷ [])))
          ≡ some (0, 0xBEEF, d'))
        × Unit {0}
        × (d'.incoming ≡ 33 ∷ []))
gethex-printhex_example =
    gethex-printhex uart_ports open_wire 1 0xBEEF 4 (33 ∷ []) (fresh [])
      (fresh (hex_digits 0xBEEF 4 ++ (33 ∷ []))) (omega arith) (omega arith) (omega arith)
      (omega arith) tt tt refl

print_int-decimal_example :
    (c' : Uart) × (text : List ℕ) × (print_int uart_ports 1 2026 10 (fresh []) ≡ some c')
    × IsSent uart_ports open_wire (fresh []) (all_on_wire text) c'
    × (text ≢ [])
    × IsDecimal text
    × (decimal 0 text ≡ 2026)
print_int-decimal_example =
    print_int-decimal uart_ports open_wire 1 2026 (fresh []) (omega arith) (omega arith)
      (omega arith) tt
