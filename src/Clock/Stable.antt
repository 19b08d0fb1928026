-- ===== src/Clock/Stable.antt =====
-- read_rtc of kernel/arch/i386/tty.c on a clock that stands still while it is read.
use potato_os.Base.{ℕ, suc, ◌≡◌, refl, true, some, bit_and, arith}
use potato_os.Ata.{Ports}
use potato_os.Clock.{
  wait_update, Time, cmos_address, cmos_data, convert, same_time, get_rtc_register,
  get_update_in_progress_flag, read_registers, read_again, read_rtc,
}

same_time_self : (t : Time) → same_time t t ≡ true
unfolding same_time
same_time_self t = ground arith

module _ (ports : Ports) where
  open ports use {Controller, inb, outb}

  -- The registers of a CMOS whose clock does not move.
  pub record IsStill (t : Time) (register_b : ℕ) : Type 0 where
    pub idle : (c : Controller) → bit_and (inb cmos_data (outb cmos_address 0x0A c)).0 0x80 ≡ 0
    pub second : (c : Controller) → (inb cmos_data (outb cmos_address 0x00 c)).0 ≡ t.second
    pub minute : (c : Controller) → (inb cmos_data (outb cmos_address 0x02 c)).0 ≡ t.minute
    pub hour : (c : Controller) → (inb cmos_data (outb cmos_address 0x04 c)).0 ≡ t.hour
    pub day : (c : Controller) → (inb cmos_data (outb cmos_address 0x07 c)).0 ≡ t.day
    pub month : (c : Controller) → (inb cmos_data (outb cmos_address 0x08 c)).0 ≡ t.month
    pub year : (c : Controller) → (inb cmos_data (outb cmos_address 0x09 c)).0 ≡ t.year
    pub mode : (c : Controller) → (inb cmos_data (outb cmos_address 0x0B c)).0 ≡ register_b

  -- Register `reg` is selected and read.
  abbrev pub after_register : (reg : ℕ) → Controller → Controller
  after_register reg c = (inb cmos_data (outb cmos_address reg c)).1

  -- The ports after one reading: register A, which tells of no update, and the six of the time.
  abbrev pub after_reading : Controller → Controller
  after_reading c = after_register 0x09 (
      after_register 0x08 (
        after_register 0x07 (
          after_register 0x04 (after_register 0x02 (after_register 0x00 (after_register 0x0A c))))))

  module _ (t : Time) (register_b : ℕ) (still : IsStill t register_b) where
    wait_update-IsStill :
        (fuel : ℕ) (c : Controller)
        → wait_update ports (suc fuel) c ≡ some (inb cmos_data (outb cmos_address 0x0A c)).1
    unfolding wait_update get_update_in_progress_flag
    wait_update-IsStill fuel c = ground (arith, still.idle c)

    register :
        (r : ℕ) (c : Controller)
        → get_rtc_register ports r c ≡ inb cmos_data (outb cmos_address r c)
    unfolding get_rtc_register
    register r c = refl

    read_registers-IsStill :
        (fuel : ℕ) (c : Controller) → read_registers ports (suc fuel) c ≡ some (t, after_reading c)
    unfolding read_registers get_rtc_register
    read_registers-IsStill fuel c =
        let c₀ = (inb cmos_data (outb cmos_address 0x0A c)).1 in
        let c₁ = (inb cmos_data (outb cmos_address 0x00 c₀)).1 in
        let c₂ = (inb cmos_data (outb cmos_address 0x02 c₁)).1 in
        let c₃ = (inb cmos_data (outb cmos_address 0x04 c₂)).1 in
        let c₄ = (inb cmos_data (outb cmos_address 0x07 c₃)).1 in
        let c₅ = (inb cmos_data (outb cmos_address 0x08 c₄)).1 in
        let c₆ = (inb cmos_data (outb cmos_address 0x09 c₅)).1 in
        rw (read_registers, wait_update-IsStill fuel c)
          (λ i. some (
            record {
              second = still.second c₀ i;
              minute = still.minute c₁ i;
              hour = still.hour c₂ i;
              day = still.day c₃ i;
              month = still.month c₄ i;
              year = still.year c₅ i;
            },
            c₆,
          ))

    again :
        (rounds fuel : ℕ) (c c' : Controller)
        → read_registers ports fuel c ≡ some (t, c')
        → read_again ports (suc rounds) fuel t c ≡ some (t, c')
    unfolding read_again
    again rounds fuel c c' e = rw (read_again, e, same_time_self t) refl

    -- On a CMOS that is not updating its clock and whose registers keep the time `t` and the mode,
    -- read_rtc returns after two readings and a look at the mode, neither fewer nor more, with `t`
    -- converted by the mode.
    pub read_rtc-IsStill :
        (rounds fuel : ℕ) (c : Controller)
        → read_rtc ports (suc rounds) (suc fuel) c
          ≡ some (convert register_b t, after_register 0x0B (after_reading (after_reading c)))
    unfolding read_rtc get_rtc_register
    read_rtc-IsStill rounds fuel c =
        let c₁ = after_reading c in
        let c₂ = after_reading c₁ in
        rw
          (
            read_rtc,
            read_registers-IsStill fuel c,
            again rounds (suc fuel) c₁ c₂ (read_registers-IsStill fuel c₁),
          )
          (λ i. some (convert (still.mode c₂ i) t, after_register 0x0B c₂))
