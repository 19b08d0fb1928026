-- ===== src/Clock/Decode.antt =====
-- The conversions of read_rtc of kernel/arch/i386/tty.c against the hour and the year they stand for.
use potato_os.Base.{
  ℕ, ◌+◌, ◌*◌, ◌/◌, ◌%◌, ◌≤◌, ◌<◌, ◌≡◌, ◌↔◌, ◌≢◌, refl, Bool, true, false, ◌==◌, ◌/=◌,
  if◌then◌else◌, arith, holds_from, holds_from_lem,
}
use potato_os.Base.Bits.{bit_and_mask}
use potato_os.Clock.{Time, current_year, decode, hour_from_bcd, to_24_hours, full_year}

-- Two decimal digits below 100.
abbrev to_bcd : ℕ → ℕ
to_bcd n = n / 10 * 16 + n % 10

-- An hour of the 12-hour clock as the chip gives it.
abbrev pub twelve_hours : (afternoon : Bool) (hour : ℕ) → ℕ
twelve_hours afternoon hour = (if afternoon then 0x80 else 0) + to_bcd hour

-- The hour of the day that it means.
abbrev pub hour_of_day : (afternoon : Bool) (hour : ℕ) → ℕ
hour_of_day afternoon hour = hour % 12 + (if afternoon then 12 else 0)

-- The conversion is right, and the hour is not 12; or neither.
abbrev agrees : (afternoon : Bool) (hour : ℕ) → Bool
agrees afternoon hour =
    if to_24_hours 0 (hour_from_bcd (twelve_hours afternoon hour)) == hour_of_day afternoon hour
    then hour /= 12
    else hour == 12

agrees_run : (afternoon : Bool) → holds_from (agrees afternoon) 1 12 ≡ true
unfolding holds_from to_24_hours hour_from_bcd
agrees_run true = refl
agrees_run false = refl

agrees_iff :
    (made meant hour : ℕ)
    → (if made == meant then hour /= 12 else hour == 12) ≡ true
    → (made ≡ meant) ↔ (hour ≢ 12)
agrees_iff made meant hour e = ground arith

-- On a clock that counts 12 hours in BCD (register B is 0), an hour from 1 to 12 becomes the hour of
-- the day exactly if it is not 12: noon becomes 0, and midnight 12.
pub to_24_hours_iff :
    (afternoon : Bool) (hour : ℕ)
    → 1 ≤ hour
    → hour ≤ 12
    → (to_24_hours 0 (hour_from_bcd (twelve_hours afternoon hour)) ≡ hour_of_day afternoon hour)
      ↔ (hour ≢ 12)
to_24_hours_iff afternoon hour low high =
    agrees_iff _ _ hour
      (holds_from_lem (agrees afternoon) 1 12 hour (agrees_run afternoon) low (omega arith))

full_year_lem :
    (year : ℕ)
    → year < 100
    → (current_year ≤ full_year year)
      × (full_year year < current_year + 100)
      × (full_year year % 100 ≡ year)
unfolding full_year
full_year_lem year h = (ground arith, ground arith, ground arith)

decode_year : (t : Time) (n : ℕ) → n < 100 → (decode 0 (record t { year = to_bcd n })).year ≡ n
unfolding decode
decode_year t n h = rw (bit_and_mask 4 (to_bcd n)) (omega arith)

-- The two BCD digits of a year become the one year from CURRENT_YEAR on, and less than a century
-- later, that ends in them.
full_year-decode :
    (t : Time) (year : ℕ)
    → year < 100
    → let made = full_year (decode 0 (record t { year = to_bcd year })).year in
      (current_year ≤ made) × (made < current_year + 100) × (made % 100 ≡ year)
full_year-decode t year h = rw (decode_year t year h) (full_year_lem year h)
