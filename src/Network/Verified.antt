-- ===== src/Network/Verified.antt =====
-- The headers that send_ping of kernel/arch/i386/tty.c sends verify.
use potato_os.Base.{
  ℕ, zero, suc, ◌+◌, ◌-◌, ◌*◌, ◌≤◌, ◌<◌, ◌≡◌, ◌⊎◌, inl, inr, refl, ap, sym, ◌∙◌, some, Mem, upd,
  arith,
}
use potato_os.Drive.{IsByteMem}
use potato_os.Fat.{load16, store16, store32}
use potato_os.Fat.Loads.{upd-IsByteMem, store16-IsByteMem, store32-IsByteMem}
use potato_os.Network.{checksum, htons, htonl}
use potato_os.Network.Checksum.{total, ones_complement, checksum-total, checksum_verifies}
use potato_os.Network.Ping.{ip_size, icmp_size, fill_ip, fill_icmp, set_checksum, fill_headers}

total_same :
    (n address : ℕ) (m m' : Mem)
    → ((a : ℕ) → address ≤ a → a < address + 2 * n → m' a ≡ m a)
    → total n address m' ≡ total n address m
unfolding total load16
total_same zero address m m' same = refl
total_same (suc n) address m m' same = ground (
  arith,
  same address (omega arith) (omega arith),
  same (address + 1) (omega arith) (omega arith),
  total_same n (address + 2) m m' (λ a h k. same a (omega arith) (omega arith)),
)

checksum_same :
    (n address : ℕ) (m m' : Mem)
    → IsByteMem m
    → IsByteMem m'
    → n < 65536
    → ((a : ℕ) → address ≤ a → a < address + 2 * n → m' a ≡ m a)
    → checksum 3 address (2 * n) m' ≡ checksum 3 address (2 * n) m
checksum_same n address m m' b b' few same =
    checksum-total n address m' b' few
    ∙ ap (λ t. some (65535 - ones_complement t)) (total_same n address m m' same)
    ∙ sym (checksum-total n address m b few)

fill_ip-IsByteMem : (ip dest_ip : ℕ) (m : Mem) → IsByteMem m → IsByteMem (fill_ip ip dest_ip m)
unfolding fill_ip
fill_ip-IsByteMem ip dest_ip m b =
    let b₁ = upd-IsByteMem _ (ip + 1) 0 (upd-IsByteMem m ip 0x45 b (omega arith)) (omega arith) in
    let b₂ =
      store16-IsByteMem _ (ip + 6) 0
        (store16-IsByteMem _ (ip + 4) 0 (store16-IsByteMem _ (ip + 2) (htons 28) b₁)) in
    let b₃ =
      upd-IsByteMem _ (ip + 9) 0 (upd-IsByteMem _ (ip + 8) 64 b₂ (omega arith)) (omega arith) in
    store32-IsByteMem _ (ip + 16) (htonl dest_ip)
      (store32-IsByteMem _ (ip + 12) (htonl 0xC0A80001) (store16-IsByteMem _ (ip + 10) 0 b₃))

fill_icmp-IsByteMem : (icmp : ℕ) (m : Mem) → IsByteMem m → IsByteMem (fill_icmp icmp m)
unfolding fill_icmp
fill_icmp-IsByteMem icmp m b = store16-IsByteMem _ (icmp + 6) (htons 1) (
    store16-IsByteMem _ (icmp + 4) (htons 1) (
      store16-IsByteMem _ (icmp + 2) 0
        (upd-IsByteMem _ (icmp + 1) 0 (upd-IsByteMem m icmp 8 b (omega arith)) (omega arith))))

fill_ip_blank : (ip dest_ip : ℕ) (m : Mem) → load16 (fill_ip ip dest_ip m) (ip + 10) ≡ 0
unfolding fill_ip load16 store16 store32 upd
fill_ip_blank ip dest_ip m = ground arith

fill_icmp_blank : (icmp : ℕ) (m : Mem) → load16 (fill_icmp icmp m) (icmp + 2) ≡ 0
unfolding fill_icmp load16 store16 upd
fill_icmp_blank icmp m = ground arith

fill_icmp_outside : (icmp a : ℕ) (m : Mem) → (a < icmp) ⊎ (icmp + 8 ≤ a) → fill_icmp icmp m a ≡ m a
unfolding fill_icmp store16 upd
fill_icmp_outside icmp a m h = ground arith

store16_outside : (m : Mem) (p v a : ℕ) → (a < p) ⊎ (p + 2 ≤ a) → store16 m p v a ≡ m a
unfolding store16 upd
store16_outside m p v a h = ground arith

-- A header of bytes whose checksum field is 0 verifies once it is set.
set_checksum-verifies :
    (n k header : ℕ) (m : Mem)
    → IsByteMem m
    → n < 65536
    → k < n
    → load16 m (header + 2 * k) ≡ 0
    → (m' : Mem) × (set_checksum 3 header (2 * n) (2 * k) m ≡ some m')
      × IsByteMem m'
      × (checksum 3 header (2 * n) m' ≡ some 0)
      × ((a : ℕ) → (a < header) ⊎ (header + 2 * n ≤ a) → m' a ≡ m a)
unfolding set_checksum
set_checksum-verifies n k header m b few here blank =
    let (c, e, verified) = checksum_verifies n k header m b few here blank in
    (
      store16 m (header + 2 * k) c,
      rw (set_checksum, e) refl,
      store16-IsByteMem m (header + 2 * k) c b,
      verified,
      λ a h. store16_outside m (header + 2 * k) c a (within a h),
    )
  where
    within :
        (a : ℕ)
        → (a < header) ⊎ (header + 2 * n ≤ a)
        → (a < header + 2 * k) ⊎ (header + 2 * k + 2 ≤ a)
    within a (inl h) = inl (omega (arith, h))
    within a (inr h) = inr (omega (arith, h, here))

-- In a memory of bytes and with the two headers apart, send_ping fills both, three rounds of carries
-- for each checksum being enough, and both verify: their checksums are 0.
pub fill_headers-verify :
    (ip icmp dest_ip : ℕ) (m : Mem)
    → IsByteMem m
    → (ip + ip_size ≤ icmp) ⊎ (icmp + icmp_size ≤ ip)
    → (m' : Mem) × (fill_headers 3 ip icmp dest_ip m ≡ some m')
      × (checksum 3 ip ip_size m' ≡ some 0)
      × (checksum 3 icmp icmp_size m' ≡ some 0)
      × IsByteMem m'
unfolding fill_headers
fill_headers-verify ip icmp dest_ip m b apart =
    let (m₁, e₁, b₁, v₁, _) =
      set_checksum-verifies 10 5 ip (fill_ip ip dest_ip m) (fill_ip-IsByteMem ip dest_ip m b)
        (omega arith) (omega arith) (fill_ip_blank ip dest_ip m) in
    let (m₂, e₂, b₂, v₂, outside) =
      set_checksum-verifies 4 1 icmp (fill_icmp icmp m₁) (fill_icmp-IsByteMem icmp m₁ b₁)
        (omega arith) (omega arith) (fill_icmp_blank icmp m₁) in
    (
      m₂,
      rw (fill_headers, e₁) e₂,
      checksum_same 10 ip m₁ m₂ b₁ b₂ (omega arith) (λ a h k.
            outside a (beside_icmp a h k) ∙ fill_icmp_outside icmp a m₁ (beside_icmp a h k))
          ∙ v₁,
      v₂,
      b₂,
    )
  where
    beside_icmp : (a : ℕ) → ip ≤ a → a < ip + 20 → (a < icmp) ⊎ (icmp + 8 ≤ a)
    beside_icmp a h k = elim apart [
      | inl p ↦ inl (omega (arith, h, k, p))
      | inr p ↦ inr (omega (arith, h, k, p))
    ]
