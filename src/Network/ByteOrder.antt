-- ===== src/Network/ByteOrder.antt =====
-- htonl and htons of kernel/arch/i386/tty.c reverse the bytes of a number.
use potato_os.Base.{ℕ, ◌+◌, ◌*◌, ◌/◌, ◌%◌, ◌^◌, ◌<◌, ◌≡◌, ◌∙◌, arith}
use mathlib.Core.Path.{ap, sym}
use potato_os.Base.Bits.{bit_or_fields, bit_or_comm}
use potato_os.Network.{htons}

htons_bytes : (low high : ℕ) → low < 256 → high < 256 → htons (low + 256 * high) ≡ high + 256 * low
unfolding htons
htons_bytes low high p q =
    let h : (low + 256 * high) / 2 ^ 8 ≡ high = omega arith in
    rw (h, bit_or_comm high ((low + 256 * high) * 256), bit_or_fields 8 (low + 256 * high) high q)
      (omega arith)

-- htons is its own inverse on 16-bit numbers.
htons-htons : (x : ℕ) → x < 65536 → htons (htons x) ≡ x
htons-htons x h =
    let low = x % 256 in
    let high = x / 256 in
    let split : x ≡ low + 256 * high = omega arith in
    let once : htons x ≡ high + 256 * low =
      ap htons split ∙ htons_bytes low high (omega arith) (omega arith) in
    ap htons once ∙ htons_bytes high low (omega arith) (omega arith) ∙ sym split
