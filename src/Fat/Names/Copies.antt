-- ===== src/Fat/Names/Copies.antt =====
-- The string loops around the conversions of names in kernel/arch/i386/FAT.c.
use potato_os.Base.{
  ℕ, zero, suc, ◌+◌, ◌≤◌, ◌<◌, ◌≡◌, ◌≢◌, some, Mem, upd, arith, ltb, leb, ◌&&◌, if◌then◌else◌,
}
use potato_os.Strings.{strlen_loop, strlen}
use potato_os.Fat.Names.{copy_name, map_loop, uppercase, uppercase_str}

-- A string of `size` bytes before its NUL at the start of a memory.
abbrev pub IsText : (size : ℕ) → Mem → Type 0
IsText size m = ((j : ℕ) → j < size → m j ≢ 0) × (m size ≡ 0)

copy_loop_lem :
    (left fuel i : ℕ) (name m : Mem)
    → left < fuel
    → ((j : ℕ) → i ≤ j → j < i + left → name j ≢ 0)
    → name (i + left) ≡ 0
    → (r : Mem) × (copy_name fuel i 0 name m ≡ some r)
      × ((a : ℕ) → r a ≡ (if leb i a && leb a (i + left) then name a else m a))
unfolding copy_name upd
copy_loop_lem left zero i name m enough bytes end = absurd (omega arith)
copy_loop_lem zero (suc fuel) i name m enough bytes end =
    (upd m (0 + i) (name i), ground (arith, end), λ a. ground arith)
copy_loop_lem (suc left) (suc fuel) i name m enough bytes end =
    let (r, e, same) =
      copy_loop_lem left fuel (i + 1) name (upd m (0 + i) (name i)) (omega arith)
        (λ j p q. bytes j (omega arith) (omega arith)) (ground (arith, end)) in
    (r, ground (arith, bytes i, e), λ a. ground (arith, same a))

pub copy_name_lem :
    (fuel size : ℕ) (name m : Mem)
    → IsText size name
    → size < fuel
    → (r : Mem) × (copy_name fuel 0 0 name m ≡ some r)
      × ((a : ℕ) → r a ≡ (if leb a size then name a else m a))
copy_name_lem fuel size name m (bytes, end) enough =
    let (r, e, same) =
      copy_loop_lem size fuel 0 name m enough (λ j p q. bytes j (omega arith))
        (ground (arith, end)) in
    (r, e, λ a. ground (arith, same a))

strlen_loop_at :
    (left fuel i : ℕ) (m : Mem)
    → left < fuel
    → ((j : ℕ) → i ≤ j → j < i + left → m j ≢ 0)
    → m (i + left) ≡ 0
    → strlen_loop fuel i 0 m ≡ some (i + left)
unfolding strlen_loop
strlen_loop_at left zero i m enough bytes end = absurd (omega arith)
strlen_loop_at zero (suc fuel) i m enough bytes end = ground (arith, end)
strlen_loop_at (suc left) (suc fuel) i m enough bytes end = ground (
  arith,
  bytes i,
  strlen_loop_at left fuel (i + 1) m (omega arith) (λ j p q. bytes j (omega arith) (omega arith))
      (ground (arith, end)),
)

map_loop_byte :
    (f : ℕ → ℕ) (left i : ℕ) (m : Mem) (a : ℕ)
    → map_loop f left i 0 m a ≡ (if leb i a && ltb a (i + left) then f (m a) else m a)
unfolding map_loop upd
map_loop_byte f zero i m a = ground arith
map_loop_byte f (suc left) i m a =
    ground (arith, map_loop_byte f left (i + 1) (upd m (0 + i) (f (m (0 + i)))) a)

pub uppercase_str_lem :
    (fuel size : ℕ) (m : Mem)
    → IsText size m
    → size < fuel
    → (r : Mem) × (uppercase_str fuel 0 m ≡ some r)
      × ((a : ℕ) → r a ≡ (if ltb a size then uppercase (m a) else m a))
unfolding uppercase_str strlen
uppercase_str_lem fuel size m (bytes, end) enough = (
  map_loop uppercase size 0 0 m,
  ground (
    arith,
    strlen_loop_at size fuel 0 m enough (λ j p q. bytes j (omega arith)) (ground (arith, end)),
  ),
  λ a. ground (arith, map_loop_byte uppercase size 0 m a),
)
