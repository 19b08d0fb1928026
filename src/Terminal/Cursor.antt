-- ===== src/Terminal/Cursor.antt =====
-- The cursor's position in the display controller.
use potato_os.Base.{
  ℕ, ◌+◌, ◌*◌, ◌/◌, ◌%◌, ◌^◌, ◌<◌, ◌≡◌, ◌≢◌, List, ◌∷◌, bit_or, u8, u16, ◌<<<◌, ◌>>>◌, arith,
}
use potato_os.Base.Bits.{bit_or_fields, bit_or_comm}
use potato_os.Terminal.{Terminal, Out, out, vga_width, update_cursor}

-- The controller at ports 0x3D4 and 0x3D5, seen through what was written to the ports, newest
-- first: the index port selects a register, and the data port writes and reads that register.
pub record Controller : Type 0 where
  pub register : List Out → ℕ → ℕ
  -- what `inb(0x3D5)` returns
  pub data_port : List Out → ℕ
  pub register_data :
      (h : List Out) (r v : ℕ) → v < 256 → register (out 0x3D5 v ∷ out 0x3D4 r ∷ h) r ≡ v
  pub register_other :
      (h : List Out) (r q v : ℕ) → q ≢ r → register (out 0x3D5 v ∷ out 0x3D4 r ∷ h) q ≡ register h q
  pub register_index : (h : List Out) (r q : ℕ) → register (out 0x3D4 r ∷ h) q ≡ register h q
  pub data_port-register : (h : List Out) (r : ℕ) → data_port (out 0x3D4 r ∷ h) ≡ register h r

-- `get_cursor_position`: the two index writes, and the word put together from the two reads.
unfoldable get_cursor_position : Controller → Terminal → ℕ × Terminal
get_cursor_position c t =
    let low = out 0x3D4 0x0F ∷ t.outs in
    let pos = u16 (bit_or 0 (c.data_port low)) in
    let high = out 0x3D4 0x0E ∷ low in
    (u16 (bit_or pos (u16 (c.data_port high) <<< 8)), record t { outs = high })

module _ (c : Controller) (x y : ℕ) (t : Terminal) where
  abbrev set : List Out
  unfolding update_cursor
  set = (update_cursor x y t).outs

  low_byte : c.data_port (out 0x3D4 0x0F ∷ set) ≡ (y * vga_width + x) % 256
  unfolding set
  low_byte = ground (
    arith,
    c.data_port-register set 0x0F,
    c.register_other (out 0x3D5 (u8 (u16 (y * vga_width + x))) ∷ out 0x3D4 0x0F ∷ t.outs) 0x0E 0x0F
        (u8 (u16 (y * vga_width + x) >>> 8)),
    c.register_data t.outs 0x0F (u8 (u16 (y * vga_width + x))),
  )

  high_byte : c.data_port (out 0x3D4 0x0E ∷ out 0x3D4 0x0F ∷ set) ≡ (y * vga_width + x) / 256 % 256
  unfolding set
  high_byte = ground (
    arith,
    c.data_port-register (out 0x3D4 0x0F ∷ set) 0x0E,
    c.register_index set 0x0F 0x0E,
    c.register_data (out 0x3D5 (u8 (u16 (y * vga_width + x))) ∷ out 0x3D4 0x0F ∷ t.outs) 0x0E
        (u8 (u16 (y * vga_width + x) >>> 8)),
  )

  -- The position that `update_cursor` sets is the one that `get_cursor_position` reads, for every
  -- position that fits 16 bits.
  get_cursor_position-update_cursor :
      y * vga_width + x < 2 ^ 16
      → (get_cursor_position c (update_cursor x y t)).0 ≡ y * vga_width + x
  unfolding get_cursor_position set
  get_cursor_position-update_cursor h =
      let p = y * vga_width + x in
      rw (low_byte, high_byte)
        (ground (
          arith,
          bit_or_comm 0 (p % 256),
          bit_or_fields 8 0 (p % 256),
          bit_or_comm (u16 (bit_or 0 (p % 256))) (u16 (p / 256 % 256) * 2 ^ 8),
          bit_or_fields 8 (p / 256 % 256) (p % 256),
        ))
