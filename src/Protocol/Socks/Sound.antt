-- ===== src/Protocol/Socks/Sound.antt =====
-- pkg/protocol/protocol.go: what a proxy that passes the SOCKS checks has answered.
use mathlib.Core.Path.{subst}
use go_proxy.Base.{
  ℕ, ◌+◌, ◌≡◌, ◌≢◌, inl, inr, refl, sym, not, ◌||◌, [], ◌∷◌, ◌++◌, arith, ◌==◌, ==_iff, length,
  append-nil_right, or_false, not_elim,
}
use go_proxy.Base.Int.{ℤ}
use go_proxy.Base.Text.{Text}
use go_proxy.Net.Ip.{byte_at}
use go_proxy.Protocol.Conn.{Conn, done, and_then, write, read, refused, no_method, bad_version}
use go_proxy.Protocol.Socks.Defs.{
  tunnel_probe, connect_request, greeting, address_length, finish_socks5, check_socks5,
  socks4_request, check_socks4,
}
use go_proxy.Protocol.Socks.Exchange.{
  Exchanged, Exchanged-trans, and_then_done, done_value, done_conn, write_done, read_done,
  IsHttpAnswer, guard_done, if_split, probe_tunnel_done,
}

-- The bound address of a reply, after the type: 4 bytes for an IPv4 address, which any unknown
-- type stands for, 16 for an IPv6 address, and a name with its length in front.
pub data IsBound (type : ℕ) : Text → ℕ → Type 0 where
  ipv4 : type ≢ 3 → type ≢ 4 → IsBound type [] 4
  name : (l : Text) → type ≡ 3 → length l ≡ 1 → IsBound type l (byte_at 0 l)
  ipv6 : type ≡ 4 → IsBound type [] 16

Exchanged-refl : (c : Conn) → Exchanged c c [] []
Exchanged-refl c = record { was_read = refl; was_sent = sym (append-nil_right c.sent) }

-- What is read of a bound address before its bytes.
abbrev AddressRead : ℕ → Conn → Conn → ℕ → Type 0
AddressRead type c c1 n = (l : Text) × (IsBound type l n × Exchanged c c1 l [])

fixed_length :
    (type m n : ℕ) (c c1 : Conn)
    → IsBound type [] m
    → done m c ≡ done n c1
    → AddressRead type c c1 n
fixed_length type m n c c1 b h = (
  [],
  (
    subst (λ k. IsBound type [] k) (done_value h) b,
    subst (λ d. Exchanged c d [] []) (done_conn h) (Exchanged-refl c),
  ),
)

named_length :
    (type n : ℕ) (c c1 : Conn)
    → type ≡ 3
    → and_then (read 1 1 c) (λ l c2. done (byte_at 0 l) c2) ≡ done n c1
    → AddressRead type c c1 n
named_length type n c c1 e h =
    let (l, (c2, r, h1)) = and_then_done (read 1 1 c) _ n c1 h in
    let got = read_done 1 1 c c2 l (omega arith) r in
    (
      l,
      (
        subst (λ k. IsBound type l k) (done_value h1) (name l e (omega (arith, got.1, got.2))),
        subst (λ d. Exchanged c d l []) (done_conn h1) got.0,
      ),
    )

address_length_done :
    (type n : ℕ) (c c1 : Conn) → address_length type c ≡ done n c1 → AddressRead type c c1 n
unfolding address_length
address_length_done type n c c1 h = elim (if_split (type == 1) _ _ _ h) [
  | inl (e, h1) ↦ fixed_length type 4 n c c1 (ipv4 (ground (arith, e)) (ground (arith, e))) h1
  | inr (_, h1) ↦ elim (if_split (type == 3) _ _ _ h1) [
    | inl (e, h2) ↦ named_length type n c c1 ((==_iff type 3).0 e) h2
    | inr (e3, h2) ↦ elim (if_split (type == 4) _ _ _ h2) [
      | inl (e, h3) ↦ fixed_length type 16 n c c1 (ipv6 ((==_iff type 4).0 e)) h3
      | inr (e4, h3) ↦
          fixed_length type 4 n c c1 (ipv4 (ground (arith, e3)) (ground (arith, e4))) h3
    ]
  ]
]

-- The reply to a connect request and the answer through the tunnel, as their parts.
pub record IsReply (header l bound answer : Text) : Type 0 where
  pub header_length : length header ≡ 4
  pub version : byte_at 0 header ≡ 5
  pub granted : byte_at 1 header ≡ 0
  pub size : ℕ
  pub size_read : IsBound (byte_at 3 header) l size
  pub bound_length : length bound ≡ size + 2
  pub http : IsHttpAnswer answer

record Replied (c c' : Conn) : Type 0 where
  header : Text
  l : Text
  bound : Text
  answer : Text
  reply : IsReply header l bound answer
  exchanged : Exchanged c c' (header ++ (l ++ (bound ++ answer))) (tunnel_probe ∷ [])

finish_socks5_done : (c c' : Conn) (latency : ℤ) → finish_socks5 c ≡ done latency c' → Replied c c'
unfolding finish_socks5
finish_socks5_done c c' latency h =
    let (header, (c1, r1, h1)) = and_then_done (read 4 4 c) _ latency c' h in
    let got1 = read_done 4 4 c c1 header (omega arith) r1 in
    let (ok, h2) =
      guard_done (not (byte_at 0 header == 5) || not (byte_at 1 header == 0)) _ refused c1 c'
        latency h1 in
    let tests = or_false (not (byte_at 0 header == 5)) (not (byte_at 1 header == 0)) ok in
    let (n, (c2, r2, h3)) = and_then_done (address_length (byte_at 3 header) c1) _ latency c' h2 in
    let (l, (size, e2)) = address_length_done (byte_at 3 header) n c1 c2 r2 in
    let (bound, (c3, r3, h4)) = and_then_done (read (n + 2) (n + 2) c2) _ latency c' h3 in
    let got3 = read_done (n + 2) (n + 2) c2 c3 bound (omega arith) r3 in
    let (answer, (e4, http)) = probe_tunnel_done c3 c' latency h4 in
    record {
      header = header;
      l = l;
      bound = bound;
      answer = answer;
      reply = record {
        header_length = omega (arith, got1.1, got1.2);
        version = (==_iff (byte_at 0 header) 5).0 (not_elim _ tests.0);
        granted = (==_iff (byte_at 1 header) 0).0 (not_elim _ tests.1);
        size = n;
        size_read = size;
        bound_length = omega (arith, got3.1, got3.2);
        http = http;
      };
      exchanged = Exchanged-trans header (l ++ (bound ++ answer)) [] (tunnel_probe ∷ []) got1.0 (
          Exchanged-trans l (bound ++ answer) [] (tunnel_probe ∷ []) e2
            (Exchanged-trans bound answer [] (tunnel_probe ∷ []) got3.0 e4));
    }

-- A whole SOCKS5 dialogue for a target: the answer to the greeting, and the reply.
pub record IsSocks5Dialogue (host : Text) (port : ℕ) (c c' : Conn) : Type 0 where
  pub auth : Text
  pub header : Text
  pub l : Text
  pub bound : Text
  pub answer : Text
  pub auth_length : length auth ≡ 2
  pub auth_version : byte_at 0 auth ≡ 5
  pub method_offered : byte_at 1 auth ≢ 255
  pub reply : IsReply header l bound answer
  pub exchanged :
      Exchanged c c'
        (auth ++ (header ++ (l ++ (bound ++ answer))))
        (greeting ∷ connect_request host port ∷ tunnel_probe ∷ [])

-- When CheckSOCKS5 succeeds for a host that is not empty, it has written the greeting, the
-- connect request for this target and the probe, and has read exactly an answer to the greeting
-- of version 5 with a method other than 0xFF, a reply of version 5 and code 0 with a bound address of
-- the length that its type states, and 4 to 12 bytes that begin like an HTTP response.
pub check_socks5-IsSocks5Dialogue :
    (host : Text) (port : ℕ) (c c' : Conn) (latency : ℤ)
    → host ≢ []
    → check_socks5 host port c ≡ done latency c'
    → IsSocks5Dialogue host port c c'
unfolding check_socks5
check_socks5-IsSocks5Dialogue [] port c c' latency ne h = absurd (ne refl)
check_socks5-IsSocks5Dialogue (b ∷ host) port c c' latency ne h =
    let (u, (c1, w1, h1)) = and_then_done (write greeting c) _ latency c' h in
    let (auth, (c2, r2, h2)) = and_then_done (read 2 2 c1) _ latency c' h1 in
    let got = read_done 2 2 c1 c2 auth (omega arith) r2 in
    let (version, h3) = guard_done (not (byte_at 0 auth == 5)) _ bad_version c2 c' latency h2 in
    let (method, h4) = guard_done (byte_at 1 auth == 255) _ no_method c2 c' latency h3 in
    let (u2, (c3, w3, h5)) =
      and_then_done (write (connect_request (b ∷ host) port) c2) _ latency c' h4 in
    let rest = finish_socks5_done c3 c' latency h5 in
    let after = rest.header ++ (rest.l ++ (rest.bound ++ rest.answer)) in
    record {
      auth = auth;
      header = rest.header;
      l = rest.l;
      bound = rest.bound;
      answer = rest.answer;
      auth_length = omega (arith, got.1, got.2);
      auth_version = (==_iff (byte_at 0 auth) 5).0 (not_elim _ version);
      method_offered = ground (arith, method);
      reply = rest.reply;
      exchanged =
          Exchanged-trans [] (auth ++ after) (greeting ∷ []) _ (write_done greeting c c1 u w1) (
            Exchanged-trans auth after [] _ got.0 (
              Exchanged-trans [] after (connect_request (b ∷ host) port ∷ []) (tunnel_probe ∷ [])
                (write_done (connect_request (b ∷ host) port) c2 c3 u2 w3) rest.exchanged));
    }

-- When CheckSOCKS4 succeeds for a host that is not empty, it has written the request and the
-- probe, and has read exactly 8 bytes with the code 0x5A and 4 to 12 bytes that begin like an
-- HTTP response.
pub check_socks4_done :
    (host : Text) (port : ℕ) (c c' : Conn) (latency : ℤ)
    → host ≢ []
    → check_socks4 host port c ≡ done latency c'
    → (reply : Text) × ((answer : Text) × ((length reply ≡ 8)
          × (byte_at 1 reply ≡ 90)
          × IsHttpAnswer answer
          × Exchanged c c' (reply ++ answer) (socks4_request host port ∷ tunnel_probe ∷ [])))
unfolding check_socks4
check_socks4_done [] port c c' latency ne h = absurd (ne refl)
check_socks4_done (b ∷ host) port c c' latency ne h =
    let (u, (c1, w1, h1)) =
      and_then_done (write (socks4_request (b ∷ host) port) c) _ latency c' h in
    let (reply, (c2, r2, h2)) = and_then_done (read 8 8 c1) _ latency c' h1 in
    let got = read_done 8 8 c1 c2 reply (omega arith) r2 in
    let (code, h3) = guard_done (not (byte_at 1 reply == 90)) _ refused c2 c' latency h2 in
    let (answer, (e4, http)) = probe_tunnel_done c2 c' latency h3 in
    (
      reply,
      (
        answer,
        (
          omega (arith, got.1, got.2),
          (==_iff (byte_at 1 reply) 90).0 (not_elim _ code),
          http,
          Exchanged-trans [] (reply ++ answer) (socks4_request (b ∷ host) port ∷ []) _
              (write_done (socks4_request (b ∷ host) port) c c1 u w1)
              (Exchanged-trans reply answer [] _ got.0 e4),
        ),
      ),
    )
