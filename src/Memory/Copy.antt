-- ===== src/Memory/Copy.antt =====
-- What the copy loops leave in memory.
use potato_os.Base.{
  ℕ, zero, suc, ◌+◌, ◌-◌, ◌≤◌, ◌<◌, ◌≡◌, refl, ◌⊎◌, inl, inr, Mem, upd, ltb, leb, ◌&&◌,
  if◌then◌else◌, arith, u8, minus_one, Bool-cases, ◌==◌, ltb→lt, ltb→le,
}
use potato_os.Memory.{copy_up, copy_down, memcpy, memmove, memset_loop, memset, memcmp_loop, memcmp}

-- Byte `a` after a block move of `n` bytes.
abbrev pub moved : (lo n dst src : ℕ) → Mem → ℕ → ℕ
moved lo n dst src m a = if leb (dst + lo) a && ltb a (dst + n) then m (src + (a - dst)) else m a

copy_up-moved :
    (left i dst src : ℕ) (m : Mem) (a : ℕ)
    → (dst ≤ src) ⊎ (src + (i + left) ≤ dst)
    → copy_up left i dst src m a ≡ moved i (i + left) dst src m a
unfolding copy_up upd
copy_up-moved zero i dst src m a h = ground arith
copy_up-moved (suc left) i dst src m a h =
    ground (arith, copy_up-moved left (i + 1) dst src (upd m (dst + i) (m (src + i))) a)

copy_down-moved :
    (i dst src : ℕ) (m : Mem) (a : ℕ) → src ≤ dst → copy_down i dst src m a ≡ moved 0 i dst src m a
unfolding copy_down upd
copy_down-moved zero dst src m a h = ground arith
copy_down-moved (suc i) dst src m a h =
    ground (arith, copy_down-moved i dst src (upd m (dst + i) (m (src + i))) a)

-- `memmove` moves the block whatever the overlap, and leaves every other byte as it was.
pub memmove-moved :
    (dst src size : ℕ) (m : Mem) (a : ℕ) → memmove dst src size m a ≡ moved 0 size dst src m a
unfolding memmove
memmove-moved dst src size m a =
    ground (arith, copy_up-moved size 0 dst src m a, copy_down-moved size dst src m a)

-- `memcpy` does so when the destination does not begin inside the source.
pub memcpy-moved :
    (dst src size : ℕ) (m : Mem) (a : ℕ)
    → (dst ≤ src) ⊎ (src + size ≤ dst)
    → memcpy dst src size m a ≡ moved 0 size dst src m a
unfolding memcpy
memcpy-moved dst src size m a h = ground (arith, copy_up-moved size 0 dst src m a)

memset_loop_lem :
    (left i buf value : ℕ) (m : Mem) (a : ℕ)
    → memset_loop left i buf value m a
      ≡ (if leb (buf + i) a && ltb a (buf + (i + left)) then u8 value else m a)
unfolding memset_loop upd
memset_loop_lem zero i buf value m a = ground arith
memset_loop_lem (suc left) i buf value m a =
    ground (arith, memset_loop_lem left (i + 1) buf value (upd m (buf + i) (u8 value)) a)

-- `memset` fills exactly its block with the low byte of `value`.
pub memset_lem :
    (buf value size : ℕ) (m : Mem) (a : ℕ)
    → memset buf value size m a ≡ (if leb buf a && ltb a (buf + size) then u8 value else m a)
unfolding memset
memset_lem buf value size m a = ground (arith, memset_loop_lem size 0 buf value m a)

-- The blocks agree from index `i` up to `j`.
abbrev AgreeOn : (a b i j : ℕ) → Mem → Type 0
AgreeOn a b i j m = (k : ℕ) → i ≤ k → k < j → m (a + k) ≡ m (b + k)

-- `result` orders the blocks by the first of their `left` bytes from `i` that differ.
abbrev Compared : (left i a b : ℕ) → Mem → ℕ → Type 0
Compared left i a b m result =
    (result ≡ 0) × AgreeOn a b i (i + left) m
    ⊎ ((j : ℕ) × (i ≤ j)
        × (j < i + left)
        × AgreeOn a b i j m
        × (((m (a + j) < m (b + j)) × (result ≡ minus_one))
            ⊎ ((m (b + j) < m (a + j)) × (result ≡ 1))))

Compared-suc :
    (left i a b : ℕ) (m : Mem) (result : ℕ)
    → m (a + i) ≡ m (b + i)
    → Compared left (i + 1) a b m result
    → Compared (suc left) i a b m result
Compared-suc left i a b m result e (inl (z, same)) = inl (
  z,
  λ k p q. elim (Bool-cases (k == i)) [
    | inl at ↦ ground arith
    | inr other ↦ same k (ground arith) (omega arith)
  ],
)
Compared-suc left i a b m result e (inr (j, p, q, same, w)) = inr (
  j,
  omega arith,
  omega arith,
  (λ k p' q'. elim (Bool-cases (k == i)) [
    | inl at ↦ ground arith
    | inr other ↦ same k (ground arith) (omega arith)
  ]),
  w,
)

memcmp_loop-Compared : (left i a b : ℕ) (m : Mem) → Compared left i a b m (memcmp_loop left i a b m)
unfolding memcmp_loop
memcmp_loop-Compared zero i a b m = inl (refl, λ k p q. absurd (omega arith))
memcmp_loop-Compared (suc left) i a b m = elim (Bool-cases (ltb (m (a + i)) (m (b + i)))) [
  | inl less ↦ rw less (
      inr
        (i, omega arith, omega arith, (λ k p q. absurd (omega arith)), inl (ltb→lt _ _ less, refl)))
  | inr ge ↦ elim (Bool-cases (ltb (m (b + i)) (m (a + i)))) [
    | inl more ↦
        rw (ge, more)
          (inr (
            i,
            omega arith,
            omega arith,
            (λ k p q. absurd (omega arith)),
            inr (ltb→lt _ _ more, refl),
          ))
    | inr le ↦
        rw (ge, le)
          (Compared-suc left i a b m (memcmp_loop left (i + 1) a b m)
            (omega (arith, ltb→le _ _ ge, ltb→le _ _ le)) (memcmp_loop-Compared left (i + 1) a b m))
  ]
]

-- `memcmp` is 0 exactly on equal blocks, and else has the sign of the first difference.
memcmp-Compared : (a b size : ℕ) (m : Mem) → Compared size 0 a b m (memcmp a b size m)
unfolding memcmp
memcmp-Compared a b size m = memcmp_loop-Compared size 0 a b m
