-- ===== src/Protocol/Socks/Tests.antt =====
-- The theorems on proxies that pass the SOCKS checks, at concrete inputs.
use go_proxy.Base.{◌≡◌, refl, List, [], ◌∷◌, ◌++◌, arith}
use go_proxy.Base.Int.{pos}
use go_proxy.Base.Text.{Text, codes}
use go_proxy.Protocol.Conn.{Conn, done}
use go_proxy.Protocol.Socks.Defs.{check_socks5}
use go_proxy.Protocol.Socks.Sound.{name}
use go_proxy.Protocol.Socks.Complete.{Ready, IsSocks5Answer, check_socks5-IsSocks5Answer}

-- An answer that comes in odd pieces: the name of the bound address is "ab".
abbrev pieces : List Text
pieces = (5 ∷ []) ∷ (2 ∷ 5 ∷ 0 ∷ []) ∷ [] ∷ (0 ∷ 3 ∷ 2 ∷ b'a' ∷ []) ∷ (b'b' ∷ 31 ∷ 144 ∷ []) ∷ []

abbrev bytes5 : Text
bytes5 = 5 ∷ 2 ∷ 5 ∷ 0 ∷ 0 ∷ 3 ∷ 2 ∷ b'a' ∷ b'b' ∷ 31 ∷ 144 ∷ []

abbrev conn5 : Conn
conn5 = record {
  incoming = pieces ++ (codes "HTTP/1.1 400") ∷ [];
  writable = 3;
  sent = [];
  latency = pos 80;
}

conn5-Ready : Ready bytes5 (codes "HTTP/1.1 400" ∷ []) 3 (pos 80) conn5
conn5-Ready = record {
  segments = pieces;
  arrived = refl;
  bytes = refl;
  writes = omega arith;
  timed = refl;
}

answer5 : IsSocks5Answer (5 ∷ 2 ∷ []) (5 ∷ 0 ∷ 0 ∷ 3 ∷ []) (2 ∷ []) (b'a' ∷ b'b' ∷ 31 ∷ 144 ∷ [])
answer5 = record {
  auth_length = refl;
  auth_version = refl;
  method_offered = omega arith;
  header_length = refl;
  version = refl;
  granted = refl;
  size = 2;
  size_read = name (2 ∷ []) refl refl;
  bound_length = refl;
}

check_socks5-IsSocks5Answer_example :
    (c' : Conn) × (check_socks5 (codes "example.com") 80 conn5 ≡ done (pos 80) c')
check_socks5-IsSocks5Answer_example =
    check_socks5-IsSocks5Answer (codes "example.com") 80 (5 ∷ 2 ∷ []) (5 ∷ 0 ∷ 0 ∷ 3 ∷ []) (2 ∷ [])
      (b'a' ∷ b'b' ∷ 31 ∷ 144 ∷ []) (codes "1.1 400") [] (pos 80) conn5 answer5 conn5-Ready
