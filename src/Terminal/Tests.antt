-- ===== src/Terminal/Tests.antt =====
-- The console's theorems at concrete inputs, and a controller that keeps its registers.
use potato_os.Base.{
  ℕ, ◌/◌, ◌%◌, ◌<◌, ◌≡◌, ◌≢◌, refl, arith, List, [], ◌∷◌, if◌then◌else◌, ◌==◌, true,
}
use potato_os.Vga.{white, blue, vga_entry_color}
use potato_os.Vga.Fields.{vga_entry_color_fields}
use potato_os.Terminal.{Terminal, Out, out, video_memory, terminal_write}
use potato_os.Terminal.Frame.{IsOnScreen, SameOffScreen, write-SameOffScreen}
use potato_os.Terminal.Cursor.{Controller}

abbrev at : (row column : ℕ) → Terminal
at row column = record {
  row = row;
  column = column;
  color = 7;
  buffer = video_memory;
  initialized = true;
  cells = λ a. 0;
  outs = [];
}

at-IsOnScreen : (row column : ℕ) → row < 25 → column < 80 → IsOnScreen (at row column)
at-IsOnScreen row column h k = record { row = h; column = k; buffer = refl }

vga_entry_color_fields_example : (vga_entry_color 15 1 % 16 ≡ 15) × (vga_entry_color 15 1 / 16 ≡ 1)
vga_entry_color_fields_example = vga_entry_color_fields white blue

write-SameOffScreen_example :
    IsOnScreen (terminal_write (0x41 ∷ 0x42 ∷ []) (at 24 79))
    × SameOffScreen (at 24 79) (terminal_write (0x41 ∷ 0x42 ∷ []) (at 24 79))
write-SameOffScreen_example =
    write-SameOffScreen (0x41 ∷ 0x42 ∷ []) (at 24 79)
      (at-IsOnScreen 24 79 (omega arith) (omega arith))

-- The register that the index port last named, and the byte last written to a register.
selected : List Out → ℕ
selected [] = 0
selected (o ∷ h) = if o.port == 0x3D4 then o.value else selected h

held : List Out → ℕ → ℕ
unfolding selected
held [] r = 0
held (o ∷ h) r =
    if o.port == 0x3D5 then (if selected h == r then o.value else held h r) else held h r

held_data : (h : List Out) (r v : ℕ) → v < 256 → held (out 0x3D5 v ∷ out 0x3D4 r ∷ h) r ≡ v
unfolding held
held_data h r v small = ground arith

held_other : (h : List Out) (r q v : ℕ) → q ≢ r → held (out 0x3D5 v ∷ out 0x3D4 r ∷ h) q ≡ held h q
unfolding held
held_other h r q v ne = ground arith

held_index : (h : List Out) (r q : ℕ) → held (out 0x3D4 r ∷ h) q ≡ held h q
unfolding held
held_index h r q = refl

data_register :
    (h : List Out) (r : ℕ) → held (out 0x3D4 r ∷ h) (selected (out 0x3D4 r ∷ h)) ≡ held h r
unfolding held
data_register h r = refl

abbrev registers : Controller
registers = record {
  register = held;
  data_port = λ h. held h (selected h);
  register_data = held_data;
  register_other = held_other;
  register_index = held_index;
  data_port-register = data_register;
}

held_blank : (held (at 0 0).outs 0x0A < 256) × (held (at 0 0).outs 0x0B < 256)
unfolding held
held_blank = (omega arith, omega arith)
