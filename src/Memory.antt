-- ===== src/Memory.antt =====
-- libc/string: memcpy, memmove, memset, memcmp, over one memory in which the blocks may overlap.
pub mod Copy
use potato_os.Base.{ℕ, zero, suc, ◌+◌, Mem, upd, ltb, if◌then◌else◌, u8, minus_one}

-- `for (i = 0; i < size; i++) dst[i] = src[i];` at index `i` with `left` rounds to go.
pub copy_up : (left i dst src : ℕ) → Mem → Mem
copy_up zero i dst src m = m
copy_up (suc left) i dst src m = copy_up left (i + 1) dst src (upd m (dst + i) (m (src + i)))

-- `for (i = size; i != 0; i--) dst[i-1] = src[i-1];`
pub copy_down : (i dst src : ℕ) → Mem → Mem
copy_down zero dst src m = m
copy_down (suc i) dst src m = copy_down i dst src (upd m (dst + i) (m (src + i)))

unfoldable pub memcpy : (dst src size : ℕ) → Mem → Mem
unfolding copy_up
memcpy dst src size m = copy_up size 0 dst src m

unfoldable pub memmove : (dst src size : ℕ) → Mem → Mem
unfolding copy_up copy_down
memmove dst src size m = if ltb dst src then copy_up size 0 dst src m else copy_down size dst src m

pub memset_loop : (left i buf value : ℕ) → Mem → Mem
memset_loop zero i buf value m = m
memset_loop (suc left) i buf value m =
    memset_loop left (i + 1) buf value (upd m (buf + i) (u8 value))

unfoldable pub memset : (buf value size : ℕ) → Mem → Mem
unfolding memset_loop
memset buf value size m = memset_loop size 0 buf value m

pub memcmp_loop : (left i a b : ℕ) → Mem → ℕ
memcmp_loop zero i a b m = 0
memcmp_loop (suc left) i a b m =
    let rest = memcmp_loop left (i + 1) a b m in
    if ltb (m (a + i)) (m (b + i))
    then minus_one
    else if ltb (m (b + i)) (m (a + i))
    then 1
    else rest

unfoldable pub memcmp : (a b size : ℕ) → Mem → ℕ
unfolding memcmp_loop
memcmp a b size m = memcmp_loop size 0 a b m
