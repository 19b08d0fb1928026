-- ===== src/Network/Tests.antt =====
-- The checksum of a header of ten words, and a number in network order.
use potato_os.Base.{◌+◌, ◌*◌, ◌≡◌, refl, inl, some, Mem, upd, store_list, [], ◌∷◌, arith}
use potato_os.Drive.{IsByteMem}
use potato_os.Fat.{load16}
use potato_os.Network.{checksum}
use potato_os.Network.Ping.{ip_size, icmp_size, fill_headers}
use potato_os.Network.Verified.{fill_headers-verify}

-- The IP header of send_ping.
abbrev header : Mem
unfolding store_list upd
header =
    store_list (λ i. 0) 0
      (0x45 ∷ 0 ∷ 0 ∷ 28 ∷ 0 ∷ 0 ∷ 0 ∷ 0 ∷ 64 ∷ 0 ∷ 0 ∷ 0 ∷ 192 ∷ 168 ∷ 0 ∷ 1 ∷ 192 ∷ 168 ∷ 0 ∷ 2
        ∷ [])

header-IsByteMem : IsByteMem header
unfolding header store_list upd
header-IsByteMem i = ground arith

header_blank : load16 header (0 + 2 * 5) ≡ 0
unfolding load16 header store_list upd
header_blank = refl

abbrev cleared : Mem
cleared _ = 0

fill_headers-verify_example :
    (m' : Mem) × (fill_headers 3 0 20 0xC0A80002 cleared ≡ some m')
    × (checksum 3 0 ip_size m' ≡ some 0)
    × (checksum 3 20 icmp_size m' ≡ some 0)
    × IsByteMem m'
fill_headers-verify_example =
    fill_headers-verify 0 20 0xC0A80002 cleared (λ _. omega arith) (inl (omega arith))
