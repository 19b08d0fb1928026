-- ===== src/Strings.antt =====
-- The string functions of kernel/arch/i386/tty.c and libc/string over one byte memory.
-- A loop takes fuel and answers `none` when it runs out; 0 is the null pointer.
pub mod Length
pub mod Compare
pub mod Copying
pub mod Token
mod Tests
use potato_os.Base.{
  ℕ, zero, suc, ◌+◌, ◌-◌, ◌≤◌, ◌<◌, ◌≡◌, ◌≢◌, Bool, true, false, ◌&&◌, ◌||◌, Option, none, some,
  List, [], ◌∷◌, Mem, upd, ltb, ◌==◌, ◌/=◌, if◌then◌else◌, sub32, minus_one,
}

-- The bytes `cs`, none of them NUL, stand at `p`, and NUL behind them.
abbrev pub Reads : Mem → ℕ → List ℕ → Type 0
Reads m p [] = m p ≡ 0
Reads m p (c ∷ cs) = (m p ≡ c) × (c ≢ 0) × Reads m (p + 1) cs

-- `while (str[len]) len++;`
unfoldable pub strlen_loop : (fuel len str : ℕ) → Mem → Option ℕ
strlen_loop zero len str m = none
strlen_loop (suc fuel) len str m =
    let rest = strlen_loop fuel (len + 1) str m in if m (str + len) == 0 then some len else rest

unfoldable pub strlen : (fuel str : ℕ) → Mem → Option ℕ
unfolding strlen_loop
strlen fuel str m = strlen_loop fuel 0 str m

-- `while ((*dest++ = *src++));`
unfoldable pub strcpy : (fuel dest src : ℕ) → Mem → Option Mem
strcpy zero dest src m = none
strcpy (suc fuel) dest src m =
    let m' = upd m dest (m src) in
    let rest = strcpy fuel (dest + 1) (src + 1) m' in if m src == 0 then some m' else rest

-- `strcmp`: the difference of the first bytes that end the loop, as an `int`.
unfoldable pub strcmp : (fuel str1 str2 : ℕ) → Mem → Option ℕ
strcmp zero str1 str2 m = none
strcmp (suc fuel) str1 str2 m =
    let rest = strcmp fuel (str1 + 1) (str2 + 1) m in
    if (m str1 /= 0) && (m str1 == m str2) then rest else some (sub32 (m str1) (m str2))

-- The second loop of `strncpy`: `while (n--) *dest++ = '\0';`
pub strncpy_fill : (n dest : ℕ) → Mem → Mem
strncpy_fill zero dest m = m
strncpy_fill (suc n) dest m = strncpy_fill n (dest + 1) (upd m dest 0)

-- Both loops of `strncpy`. The byte that ends the first loop is stored, and `n` is not lowered.
unfoldable pub strncpy : (dest src n : ℕ) → Mem → Mem
unfolding strncpy_fill
strncpy dest src zero m = m
strncpy dest src (suc n) m =
    let m' = upd m dest (m src) in
    let rest = strncpy (dest + 1) (src + 1) n m' in
    if m src == 0 then strncpy_fill (suc n) (dest + 1) m' else rest

-- `strncmp` of tty.c.
unfoldable pub strncmp : (s1 s2 n : ℕ) → Mem → ℕ
strncmp s1 s2 zero m = 0
strncmp s1 s2 (suc n) m =
    let rest = strncmp (s1 + 1) (s2 + 1) n m in
    if (m s1 == 0) || (m s2 == 0)
    then sub32 (m s1) (m s2)
    else if m s1 /= m s2
    then sub32 (m s1) (m s2)
    else rest

-- `strncmp` of libc/string/strncmp.c.
unfoldable pub strncmp_libc : (s1 s2 n : ℕ) → Mem → ℕ
strncmp_libc s1 s2 zero m = 0
strncmp_libc s1 s2 (suc n) m =
    let rest = strncmp_libc (s1 + 1) (s2 + 1) n m in
    if m s1 /= m s2
    then if ltb (m s1) (m s2) then minus_one else 1
    else if m s1 == 0
    then 0
    else rest

-- `strchr`: NULL also for the terminating NUL.
unfoldable pub strchr : (fuel s c : ℕ) → Mem → Option ℕ
strchr zero s c m = none
strchr (suc fuel) s c m =
    let rest = strchr fuel (s + 1) c m in
    if m s == 0 then some 0 else if m s == c then some s else rest

-- `strchr(delim, c)` as the condition that `strtok` tests.
abbrev pub is_delim : (fuel delim c : ℕ) → Mem → Option Bool
is_delim fuel delim c m = elim (strchr fuel delim c m) [ none ↦ none | some q ↦ some (q /= 0) ]

-- `while (*str && strchr(delim, *str)) str++;` (with `want` true), and the loop to the end of the
-- token, `while (*str && !strchr(delim, *str)) str++;` (with `want` false).
pub skip_while : Bool → (fuel str delim : ℕ) → Mem → Option ℕ
skip_while want zero str delim m = none
skip_while want (suc fuel) str delim m =
    let rest = skip_while want fuel (str + 1) delim m in
    if m str == 0 then some str else elim (is_delim (suc fuel) delim (m str) m) [
      | none ↦ none
      | some true ↦ (if want then rest else some str)
      | some false ↦ (if want then some str else rest)
    ]

-- What `strtok` returns and leaves: the token or NULL, the memory, and the static `last`.
pub record Strtok : Type 0 where
  pub token : ℕ
  pub memory : Mem
  pub last : ℕ

-- From the token's first byte on.
pub strtok_from : (fuel token delim : ℕ) → Mem → Option Strtok
strtok_from fuel token delim m = elim (skip_while false fuel token delim m) [
  | none ↦ none
  | some end ↦ some (
      if m end == 0
      then record { token = token; memory = m; last = 0 }
      else record { token = token; memory = upd m end 0; last = end + 1 })
]

unfoldable pub strtok : (fuel last str delim : ℕ) → Mem → Option Strtok
unfolding skip_while strtok_from strchr
strtok fuel last str delim m =
    elim (skip_while true fuel (if str == 0 then last else str) delim m) [
      | none ↦ none
      | some p ↦
          (if m p == 0
            then some (record { token = 0; memory = m; last = 0 })
            else strtok_from fuel p delim m)
    ]
