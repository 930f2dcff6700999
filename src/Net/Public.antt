-- ===== src/Net/Public.antt =====
-- pkg/protocol/protocol.go, isPublicIP.
use go_proxy.Base.{
  ℕ, ◌≤◌, ◌≡◌, ◌↔◌, ◌⊎◌, Bool, true, false, ◌||◌, Option, none, some, arith, if◌then◌else◌,
}
use go_proxy.Net.Ip.{
  Ip, v4, is_loopback, is_private, is_unspecified, is_multicast, is_link_local_unicast,
  is_link_local_multicast,
}

-- `isPublicIP`; `none` is the nil address.
unfoldable pub is_public_ip : Option Ip → Bool
unfolding is_loopback is_private is_unspecified is_multicast is_link_local_unicast
    is_link_local_multicast
is_public_ip none = false
is_public_ip (some ip) =
    if is_loopback ip
      || is_private ip
      || is_unspecified ip
      || is_multicast ip
      || is_link_local_unicast ip
      || is_link_local_multicast ip
    then false
    else true

-- The IPv4 addresses that are refused: 127/8, 10/8, 172.16/12, 192.168/16, 0.0.0.0, 224/4 and
-- 169.254/16.
abbrev pub IsReserved : ℕ → ℕ → ℕ → ℕ → Type 0
IsReserved a b c d =
    (a ≡ 127)
    ⊎ ((a ≡ 10)
        ⊎ (((a ≡ 172) × (16 ≤ b) × (b ≤ 31))
            ⊎ (((a ≡ 192) × (b ≡ 168))
                ⊎ (((a ≡ 0) × (b ≡ 0) × (c ≡ 0) × (d ≡ 0))
                    ⊎ (((224 ≤ a) × (a ≤ 239)) ⊎ ((a ≡ 169) × (b ≡ 254)))))))

-- isPublicIP refuses an IPv4 address exactly when it is one of these; 100.64/10 and 240/4 are
-- accepted.
pub is_public_ip-IsReserved :
    (a b c d : ℕ) → (is_public_ip (some (v4 a b c d)) ≡ false) ↔ IsReserved a b c d
unfolding is_public_ip
is_public_ip-IsReserved a b c d = ground arith
