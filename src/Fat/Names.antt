-- ===== src/Fat/Names.antt =====
-- The 8.3 names of kernel/arch/i386/FAT.c: ChkSum, testIfFATFormat, convertToFATFormat and
-- convertFromFATFormat, with uppercase_str and lowercase_str of lib_c.c. A `char` is a byte; where
-- the code compares it as a signed number, a byte from 0x80 on is negative.
pub mod Format
mod Loops
pub mod Printed
pub mod Copies
pub mod Checksum
pub mod Convert
use potato_os.Base.{
  ℕ, zero, suc, ◌+◌, ◌-◌, ◌*◌, ◌/◌, ◌%◌, ◌^◌, Option, none, some, Bool, true, false, Mem, upd, u8,
  u16, bit_or, bit_and, bit_xor, ◌<<<◌, ◌>>>◌, ltb, leb, ◌==◌, ◌/=◌, ◌&&◌, ◌||◌, if◌then◌else◌,
}
use potato_os.Strings.{strlen, strcpy}

abbrev pub lowercase_issue : ℕ
lowercase_issue = 0x01

abbrev pub bad_character : ℕ
bad_character = 0x02

abbrev not_converted_yet : ℕ
not_converted_yet = 0x08

abbrev too_many_dots : ℕ
too_many_dots = 0x10

-- `c < 0x20 && c != 0x05` on a signed char.
abbrev pub is_control : ℕ → Bool
is_control c = (ltb c 0x20 || leb 0x80 c) && (c /= 0x05)

-- The cases of the switch that share `BAD_CHARACTER`.
abbrev pub is_forbidden : ℕ → Bool
is_forbidden c =
    (c == 0x22)
    || ((c == 0x2A)
        || ((c == 0x2B)
            || ((c == 0x2C)
                || ((c == 0x2F)
                    || ((leb 0x3A c && leb c 0x3F)
                        || ((leb 0x5B c && leb c 0x5D) || (c == 0x7C)))))))

abbrev pub is_lower : ℕ → Bool
is_lower c = leb b'a' c && leb c b'z'

-- The case of the dot.
pub mark_dot : ℕ → ℕ
mark_dot r =
    bit_xor (if bit_and r not_converted_yet == not_converted_yet then bit_or r too_many_dots else r)
      not_converted_yet

-- One round of the loop of testIfFATFormat.
pub test_step : (c retVal : ℕ) → ℕ
unfolding mark_dot
test_step c r =
    let r₁ = if is_control c then bit_or r bad_character else r in
    let r₂ =
      if c == 0x2E then mark_dot r₁ else if is_forbidden c then bit_or r₁ bad_character else r₁ in
    if is_lower c then bit_or r₂ lowercase_issue else r₂

pub test_loop : (left i retVal input : ℕ) → Mem → ℕ
test_loop zero i r input m = r
test_loop (suc left) i r input m = test_loop left (i + 1) (test_step (m (input + i)) r) input m

unfoldable pub test_if_fat_format : (input : ℕ) → Mem → ℕ
unfolding test_loop test_step
test_if_fat_format input m = test_loop 11 0 0 input m

-- One round of ChkSum: rotate right and add, as an `unsigned char`.
unfoldable pub chk_step : (sum c : ℕ) → ℕ
chk_step sum c = u8 ((if bit_and sum 1 == 0 then 0 else 0x80) + (sum >>> 1) + c)

pub chk_loop : (left sum name : ℕ) → Mem → ℕ
chk_loop zero sum name m = sum
chk_loop (suc left) sum name m = chk_loop left (chk_step sum (m name)) (name + 1) m

unfoldable pub chk_sum : (name : ℕ) → Mem → ℕ
unfolding chk_loop
chk_sum name m = chk_loop 11 0 name m

-- `lowercase` and `uppercase` of one character, and the loops over a string.
unfoldable pub lowercase : ℕ → ℕ
lowercase c = if leb b'A' c && leb c b'Z' then c + 32 else c

unfoldable pub uppercase : ℕ → ℕ
uppercase c = if leb b'a' c && leb c b'z' then c - 32 else c

pub map_loop : (ℕ → ℕ) → (left counter input : ℕ) → Mem → Mem
map_loop f zero counter input m = m
map_loop f (suc left) counter input m =
    map_loop f left (counter + 1) input (upd m (input + counter) (f (m (input + counter))))

unfoldable pub uppercase_str : (fuel input : ℕ) → Mem → Option Mem
unfolding map_loop uppercase
uppercase_str fuel input m = elim (strlen fuel input m) [
  | none ↦ none
  | some n ↦ some (map_loop uppercase n 0 input m)
]

unfoldable lowercase_str : (fuel input : ℕ) → Mem → Option Mem
unfolding map_loop lowercase
lowercase_str fuel input m = elim (strlen fuel input m) [
  | none ↦ none
  | some n ↦ some (map_loop lowercase n 0 input m)
]

-- The variables of convertToFATFormat after its first loop.
pub record Scan : Type 0 where
  pub counter : ℕ
  pub dot_pos : ℕ
  pub search_name : Mem

-- `while (counter <= 8)`, with `left` rounds to go.
pub name_loop : (left counter input : ℕ) → Mem → Mem → Scan
name_loop zero counter input m name = record { counter = counter; dot_pos = 0; search_name = name }
name_loop (suc left) counter input m name =
    let c = m (input + counter) in
    let next = name_loop left (counter + 1) input m (upd name counter c) in
    if (c == b'.') || (c == 0)
    then record { counter = counter + 1; dot_pos = counter; search_name = name }
    else next

-- `if (counter > 9)`.
pub sanity_check : Scan → Scan
sanity_check s = if ltb 9 s.counter then record s { counter = 8; dot_pos = 8 } else s

-- `while (extCount < 11)`.
pub ext_loop : (left counter ext_count input : ℕ) → Mem → Mem → Mem
ext_loop zero counter ext_count input m name = name
ext_loop (suc left) counter ext_count input m name =
    let c = m (input + counter) in
    ext_loop left (counter + 1) (ext_count + 1) input m
      (upd name ext_count (if c /= 0 then c else 0x20))

-- `while (counter < 8) searchName[counter++] = ' ';`
pub pad_loop : (left counter : ℕ) → Mem → Mem
pad_loop zero counter name = name
pad_loop (suc left) counter name = pad_loop left (counter + 1) (upd name counter 0x20)

-- `searchName` when it is copied back; `input` is upper case by then.
unfoldable pub fat_name : (input : ℕ) → Mem → Mem
unfolding name_loop sanity_check ext_loop pad_loop
fat_name input m =
    let s = sanity_check (name_loop 9 0 input m (λ i. 0)) in
    pad_loop (8 - s.dot_pos) s.dot_pos (ext_loop 3 s.counter 8 input m s.search_name)

-- `strcpy(input, searchName)`, from an array of its own.
pub copy_name : (fuel i input : ℕ) (name : Mem) → Mem → Option Mem
copy_name zero i input name m = none
copy_name (suc fuel) i input name m =
    let m' = upd m (input + i) (name i) in
    let rest = copy_name fuel (i + 1) input name m' in if name i == 0 then some m' else rest

unfoldable pub convert_to_fat_format : (fuel input : ℕ) → Mem → Option Mem
unfolding uppercase_str fat_name copy_name
convert_to_fat_format fuel input m = elim (uppercase_str fuel input m) [
  | none ↦ none
  | some m' ↦ copy_name fuel 0 input (fat_name input m') m'
]

-- The first loop of convertFromFATFormat with the line behind it: the name up to a blank, and a dot.
pub base_loop : (left counter input output : ℕ) → Mem → ℕ × Mem
base_loop zero counter input output m = (counter, upd m (output + counter) b'.')
base_loop (suc left) counter input output m =
    let c = m (input + counter) in
    let next = base_loop left (counter + 1) input output (upd m (output + counter) c) in
    if c == 0x20 then (counter, upd m (output + counter) b'.') else next

-- The loop over the extension, from `counter2` on.
pub suffix_loop : (left counter2 counter input output : ℕ) → Mem → ℕ × Mem
suffix_loop zero counter2 counter input output m = (counter, m)
suffix_loop (suc left) counter2 counter input output m =
    let c = m (input + counter2) in
    let next =
      suffix_loop left (counter2 + 1) (counter + 1) input output
        (upd m (output + (counter + 1)) c) in
    if c == 0x20
    then ((if counter2 == 8 then u16 (counter + 1 + 65536 - 2) else counter + 1), m)
    else next

pub blank_loop : (left counter output : ℕ) → Mem → Mem
blank_loop zero counter output m = m
blank_loop (suc left) counter output m =
    blank_loop left (counter + 1) output (upd m (output + counter) 0x20)

-- The part behind the extension: blanks up to byte 12, and NUL.
pub finish_name : (counter output : ℕ) → Mem → Mem
unfolding blank_loop
finish_name counter output m = upd (blank_loop (12 - counter) counter output m) (output + 12) 0

unfoldable pub convert_from_fat_format : (input output : ℕ) → Mem → Mem
unfolding base_loop suffix_loop finish_name
convert_from_fat_format input output m =
    if m input == b'.'
    then if m (input + 1) == b'.'
      then upd (upd (upd m output b'.') (output + 1) b'.') (output + 2) 0
      else upd (upd m output b'.') (output + 1) 0
    else let (counter, m') = base_loop 8 0 input output m in
      let (counter', m'') = suffix_loop 3 8 counter input output m' in
      finish_name (u16 (counter' + 1)) output m''
