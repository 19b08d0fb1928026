-- ===== src/Clock.antt =====
-- The real-time clock of kernel/arch/i386/tty.c: read_rtc over the ports of the CMOS. The messages of
-- `task` around it are left out. A loop takes fuel, and `none` is a loop that goes on for longer.
pub mod Decode
pub mod Stable
mod Tests
use potato_os.Base.{
  ℕ, zero, suc, ◌+◌, ◌*◌, ◌/◌, ◌%◌, ◌^◌, Bool, true, false, Option, none, some, u8, u32, bit_and,
  bit_or, ltb, ◌==◌, ◌/=◌, ◌&&◌, if◌then◌else◌,
}
use potato_os.Ata.{Ports}

abbrev pub current_year : ℕ
current_year = 2023

abbrev pub cmos_address : ℕ
cmos_address = 0x70

abbrev pub cmos_data : ℕ
cmos_data = 0x71

-- The variables `second` to `year`.
pub record Time : Type 0 where
  pub second : ℕ
  pub minute : ℕ
  pub hour : ℕ
  pub day : ℕ
  pub month : ℕ
  pub year : ℕ

-- `(x & 0x0F) + ((x / 16) * 10)`
unfoldable from_bcd : ℕ → ℕ
from_bcd x = u8 (bit_and x 0x0F + x / 16 * 10)

-- The hour keeps its mark of the afternoon in bit 7.
unfoldable pub hour_from_bcd : ℕ → ℕ
hour_from_bcd hour =
    u8 (bit_or (bit_and hour 0x0F + bit_and hour 0x70 / 16 * 10) (bit_and hour 0x80))

-- Bit 2 of register B: the values are binary.
unfoldable pub decode : (register_b : ℕ) → Time → Time
unfolding from_bcd hour_from_bcd
decode register_b t =
    if bit_and register_b 0x04 == 0
    then record {
      second = from_bcd t.second;
      minute = from_bcd t.minute;
      hour = hour_from_bcd t.hour;
      day = from_bcd t.day;
      month = from_bcd t.month;
      year = bit_and t.year 0x0F + t.year / 16 * 10;
    }
    else t

-- Bit 1 of register B: the clock counts 24 hours.
unfoldable pub to_24_hours : (register_b hour : ℕ) → ℕ
to_24_hours register_b hour =
    if (bit_and register_b 0x02 == 0) && (bit_and hour 0x80 /= 0)
    then (bit_and hour 0x7F + 12) % 24
    else hour

unfoldable pub full_year : ℕ → ℕ
full_year year =
    let year' = u32 (year + current_year / 100 * 100) in
    if ltb year' current_year then u32 (year' + 100) else year'

-- What read_rtc makes of the registers.
unfoldable pub convert : (register_b : ℕ) → Time → Time
unfolding decode to_24_hours full_year
convert register_b t =
    let t' = decode register_b t in
    record t' { hour = to_24_hours register_b t'.hour; year = full_year t'.year }

unfoldable pub same_time : Time → Time → Bool
same_time s t =
    (s.second == t.second)
    && ((s.minute == t.minute)
        && ((s.hour == t.hour)
            && ((s.day == t.day) && ((s.month == t.month) && (s.year == t.year)))))

module _ (ports : Ports) where
  open ports use {Controller, inb, outb}

  unfoldable pub get_update_in_progress_flag : Controller → ℕ × Controller
  get_update_in_progress_flag c =
      let (v, c') = inb cmos_data (outb cmos_address 0x0A c) in (bit_and v 0x80, c')

  unfoldable pub get_rtc_register : (reg : ℕ) → Controller → ℕ × Controller
  get_rtc_register reg c = inb cmos_data (outb cmos_address reg c)

  -- `while (get_update_in_progress_flag());`
  unfoldable pub wait_update : (fuel : ℕ) → Controller → Option Controller
  unfolding get_update_in_progress_flag
  wait_update zero c = none
  wait_update (suc fuel) c =
      let (flag, c') = get_update_in_progress_flag c in
      let next = wait_update fuel c' in if flag /= 0 then next else some c'

  -- The six registers, once no update is under way.
  unfoldable pub read_registers : (fuel : ℕ) → Controller → Option (Time × Controller)
  unfolding wait_update get_rtc_register
  read_registers fuel c = elim (wait_update fuel c) [
    | none ↦ none
    | some c₀ ↦
        let (s, c₁) = get_rtc_register 0x00 c₀ in
        let (m, c₂) = get_rtc_register 0x02 c₁ in
        let (h, c₃) = get_rtc_register 0x04 c₂ in
        let (d, c₄) = get_rtc_register 0x07 c₃ in
        let (mo, c₅) = get_rtc_register 0x08 c₄ in
        let (y, c₆) = get_rtc_register 0x09 c₅ in
        some (record { second = s; minute = m; hour = h; day = d; month = mo; year = y }, c₆)
  ]

  -- The do-while loop; `last` is what was read before. No century register is set.
  unfoldable pub read_again :
      (rounds fuel : ℕ) (last : Time) → Controller → Option (Time × Controller)
  unfolding read_registers same_time
  read_again zero fuel last c = none
  read_again (suc rounds) fuel last c = elim (read_registers fuel c) [
    | none ↦ none
    | some (t, c') ↦ elim (same_time last t) [
      | true ↦ some (t, c')
      | false ↦ read_again rounds fuel t c'
    ]
  ]

  unfoldable pub read_rtc : (rounds fuel : ℕ) → Controller → Option (Time × Controller)
  unfolding read_again convert
  read_rtc rounds fuel c = elim (read_registers fuel c) [
    | none ↦ none
    | some (first, c₁) ↦ elim (read_again rounds fuel first c₁) [
      | none ↦ none
      | some (t, c₂) ↦
          let (register_b, c₃) = get_rtc_register 0x0B c₂ in some (convert register_b t, c₃)
    ]
  ]
