-- ===== src/Clock/Tests.antt =====
-- A clock that stands at 14:30:15 on 7 May 2024, in BCD and 24 hours.
use potato_os.Base.{ℕ, ◌≡◌, ◌≢◌, ◌↔◌, refl, true, some, ◌==◌, if◌then◌else◌, arith}
use potato_os.Ata.{Ports}
use potato_os.Clock.{Time, convert, read_rtc, to_24_hours, hour_from_bcd}
use potato_os.Clock.Decode.{to_24_hours_iff, twelve_hours, hour_of_day}
use potato_os.Clock.Stable.{IsStill, read_rtc-IsStill}

abbrev cmos : ℕ → ℕ
cmos reg =
    if reg == 0x00
    then 0x15
    else if reg == 0x02
    then 0x30
    else if reg == 0x04
    then 0x14
    else if reg == 0x07
    then 0x07
    else if reg == 0x08
    then 0x05
    else if reg == 0x09
    then 0x24
    else if reg == 0x0B
    then 0x02
    else 0

-- The controller is the register that was selected last.
abbrev cmos_ports : Ports
cmos_ports = record {
  Controller = ℕ;
  inb = λ _ c. (cmos c, c);
  inw = λ _ c. (0, c);
  outb = λ _ value _. value;
  outw = λ _ value _. value;
}

abbrev chip_time : Time
chip_time = record {
  second = 0x15;
  minute = 0x30;
  hour = 0x14;
  day = 0x07;
  month = 0x05;
  year = 0x24;
}

cmos-IsStill : IsStill cmos_ports chip_time 0x02
cmos-IsStill = record {
  idle = λ _. refl;
  second = λ _. refl;
  minute = λ _. refl;
  hour = λ _. refl;
  day = λ _. refl;
  month = λ _. refl;
  year = λ _. refl;
  mode = λ _. refl;
}

read_rtc-IsStill_example : read_rtc cmos_ports 1 1 0 ≡ some (convert 0x02 chip_time, 0x0B)
read_rtc-IsStill_example = read_rtc-IsStill cmos_ports chip_time 0x02 cmos-IsStill 0 0 0

chip_time_converted :
    convert 0x02 chip_time
    ≡ record { second = 15; minute = 30; hour = 14; day = 7; month = 5; year = 2024 }
unfolding convert
chip_time_converted = refl

to_24_hours_iff_example :
    (to_24_hours 0 (hour_from_bcd (twelve_hours true 3)) ≡ hour_of_day true 3)
    ↔ ((let h : ℕ = 3 in h) ≢ 12)
to_24_hours_iff_example = to_24_hours_iff true 3 (omega arith) (omega arith)
