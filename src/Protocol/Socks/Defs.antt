-- ===== src/Protocol/Socks/Defs.antt =====
-- pkg/protocol/protocol.go, CheckSOCKS5 and CheckSOCKS4.
use go_proxy.Base.{
  ℕ, ◌+◌, ◌-◌, ◌/◌, ◌%◌, not, ◌||◌, Option, none, some, [], ◌∷◌, ◌++◌, ◌==◌, if◌then◌else◌, length,
  replicate,
}
use go_proxy.Base.Int.{ℤ}
use go_proxy.Base.Text.{Text, codes, is_empty, has_prefix}
use go_proxy.Net.Ip.{v4, parse_ip, byte_at}
use go_proxy.Protocol.Conn.{
  Conn, Run, failed, done, and_then, write, read, bad_version, no_method, refused, not_http,
}

abbrev pub crlf : Text
crlf = 13 ∷ 10 ∷ []

-- The request that is sent through the tunnel.
abbrev pub tunnel_probe : Text
tunnel_probe =
    codes "GET / HTTP/1.1"
    ++ crlf
    ++ codes "Host: 1.1.1.1"
    ++ crlf
    ++ codes "User-Agent: GoProxy/2.0"
    ++ crlf
    ++ codes "Connection: close"
    ++ crlf
    ++ crlf

-- The last step of both checks: 12 bytes, zero where nothing was read, of which 4 at least.
unfoldable pub probe_tunnel : Conn → Run ℤ
unfolding write read has_prefix
probe_tunnel c = and_then (write tunnel_probe c) (λ _ c1. and_then (read 12 4 c1) (λ answer c2.
    if has_prefix (answer ++ replicate (12 - length answer) 0) (codes "HTTP/")
    then done c2.latency c2
    else failed not_http c2))

-- `binary.BigEndian.PutUint16(buf, uint16(port))`
abbrev pub port_bytes : ℕ → Text
port_bytes port = port / 256 % 256 ∷ port % 256 ∷ []

-- `net.ParseIP(host).To4()`
unfoldable pub parse_to4 : Text → Option Text
unfolding parse_ip
parse_to4 host = elim (parse_ip host) [ some (v4 a b c d) ↦ some (a ∷ b ∷ c ∷ d ∷ []) | _ ↦ none ]

-- The connect request of SOCKS5, for an IPv4 address or a name.
unfoldable pub connect_request : Text → ℕ → Text
unfolding parse_to4
connect_request host port = elim (parse_to4 host) [
  | some ip ↦ 5 ∷ 1 ∷ 0 ∷ 1 ∷ (ip ++ port_bytes port)
  | none ↦ 5 ∷ 1 ∷ 0 ∷ 3 ∷ length host % 256 ∷ (host ++ port_bytes port)
]

abbrev pub greeting : Text
greeting = 5 ∷ 2 ∷ 0 ∷ 2 ∷ []

-- The length of the bound address, for which a name has a byte of its own.
unfoldable pub address_length : ℕ → Conn → Run ℕ
unfolding read
address_length type c =
    if type == 1
    then done 4 c
    else if type == 3
    then and_then (read 1 1 c) (λ l c1. done (byte_at 0 l) c1)
    else if type == 4
    then done 16 c
    else done 4 c

-- The reply to the connect request, and the probe.
unfoldable pub finish_socks5 : Conn → Run ℤ
unfolding read address_length probe_tunnel
finish_socks5 c = and_then (read 4 4 c) (λ header c1.
    if not (byte_at 0 header == 5) || not (byte_at 1 header == 0)
    then failed refused c1
    else and_then (address_length (byte_at 3 header) c1)
        (λ n c2. and_then (read (n + 2) (n + 2) c2) (λ _ c3. probe_tunnel c3)))

-- The target of an empty host is 1.1.1.1:80.
abbrev pub socks_target : Text → ℕ → Text × ℕ
socks_target host port = if is_empty host then (codes "1.1.1.1", 80) else (host, port)

-- `CheckSOCKS5` on a connection.
unfoldable pub check_socks5 : Text → ℕ → Conn → Run ℤ
unfolding write read connect_request finish_socks5
check_socks5 host port c = and_then (write greeting c) (λ _ c1. and_then (read 2 2 c1) (λ auth c2.
    if not (byte_at 0 auth == 5)
    then failed bad_version c2
    else if byte_at 1 auth == 255
    then failed no_method c2
    else let (h, p) = socks_target host port in
      and_then (write (connect_request h p) c2) (λ _ c3. finish_socks5 c3)))

-- The request of SOCKS4; a host that is no IPv4 address is replaced by 1.1.1.1:80.
unfoldable pub socks4_request : Text → ℕ → Text
unfolding parse_to4
socks4_request host port = elim (parse_to4 host) [
  | some ip ↦ 4 ∷ 1 ∷ (port_bytes port ++ ip ++ 0 ∷ [])
  | none ↦ 4 ∷ 1 ∷ 0 ∷ 80 ∷ 1 ∷ 1 ∷ 1 ∷ 1 ∷ 0 ∷ []
]

-- `CheckSOCKS4` on a connection.
unfoldable pub check_socks4 : Text → ℕ → Conn → Run ℤ
unfolding write read socks4_request probe_tunnel
check_socks4 host port c =
    let (h, p) = socks_target host port in
    and_then (write (socks4_request h p) c) (λ _ c1.
      and_then (read 8 8 c1)
        (λ reply c2. if not (byte_at 1 reply == 90) then failed refused c2 else probe_tunnel c2))
