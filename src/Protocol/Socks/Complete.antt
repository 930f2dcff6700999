-- ===== src/Protocol/Socks/Complete.antt =====
-- pkg/protocol/protocol.go: every proxy that answers in the form of SOCKS5 passes CheckSOCKS5.
use mathlib.Core.Path.{subst}
use go_proxy.Base.{
  ℕ, zero, suc, ◌+◌, ◌-◌, ◌≤◌, ◌<◌, ◌≡◌, ◌≢◌, refl, sym, ap, ◌∙◌, true, false, some, List, [], ◌∷◌,
  ◌++◌, arith, ◌==◌, length, take, drop, leb, append-nil_right,
}
use go_proxy.Base.Int.{ℤ}
use go_proxy.Base.Text.{Text, codes, has_prefix}
use go_proxy.Net.Ip.{byte_at}
use go_proxy.Protocol.Conn.{
  Conn, Run, done, and_then, write, write_with, read, read_to, read_at_least, in_front,
}
use go_proxy.Protocol.Socks.Defs.{
  tunnel_probe, probe_tunnel, connect_request, greeting, address_length, finish_socks5,
  socks_target, check_socks5, socks4_request, check_socks4,
}
use go_proxy.Protocol.Socks.Reading.{stream}
use go_proxy.Protocol.Socks.Whole.{ReadsWhole, read_at_least-ReadsWhole}
use go_proxy.Protocol.Socks.Sound.{IsBound, ipv4, name, ipv6}

-- The bytes `b` have arrived, however they are cut into segments; the segments `tail` come after
-- them, `w` writes succeed, and the latency is `l`.
pub record Ready (b : Text) (tail : List Text) (w : ℕ) (l : ℤ) (c : Conn) : Type 0 where
  pub segments : List Text
  pub arrived : c.incoming ≡ segments ++ tail
  pub bytes : stream segments ≡ b
  pub writes : w ≤ c.writable
  pub timed : c.latency ≡ l

-- A step succeeds with the value `a` in a connection that meets `P`.
abbrev Succeeds : {A : Type 0} → Run A → A → (Conn → Type 0) → Type 0
Succeeds r a P = (c1 : Conn) × (r ≡ done a c1) × P c1

-- The rest of a run follows on a step that succeeds.
continue_with :
    {A B : Type 0} {r : Run A} {a : A} {P Q : Conn → Type 0} (b : B) (k : A → Conn → Run B)
    → Succeeds r a P
    → ((c1 : Conn) → P c1 → Succeeds (k a c1) b Q)
    → Succeeds (and_then r k) b Q
continue_with b k (c1, ends, p) next =
    let (c2, again, q) = next c1 p in (c2, ap (λ t. and_then t k) ends ∙ again, q)

write_with-Ready :
    (b : Text) (tail : List Text) (w : ℕ) (l : ℤ) (n : ℕ) (bytes : Text) (c : Conn)
    → n ≡ c.writable
    → Ready b tail (suc w) l c
    → Succeeds (write_with n bytes c) tt (Ready b tail w l)
write_with-Ready b tail w l zero bytes c e r = absurd (omega (arith, e, r.writes))
write_with-Ready b tail w l (suc n) bytes c e r = (
  record c { writable = n; sent = c.sent ++ bytes ∷ [] },
  refl,
  record {
    segments = r.segments;
    arrived = r.arrived;
    bytes = r.bytes;
    writes = omega (arith, e, r.writes);
    timed = r.timed;
  },
)

write-Ready :
    (b : Text) (tail : List Text) (w : ℕ) (l : ℤ) (bytes : Text) (c : Conn)
    → Ready b tail (suc w) l c
    → Succeeds (write bytes c) tt (Ready b tail w l)
unfolding write
write-Ready b tail w l bytes c r = write_with-Ready b tail w l c.writable bytes c refl r

read-Ready :
    (a b : Text) (tail : List Text) (w : ℕ) (l : ℤ) (n : ℕ) (c : Conn)
    → 0 < n
    → length a ≡ n
    → Ready (a ++ b) tail w l c
    → Succeeds (read n n c) a (Ready b tail w l)
unfolding read
read-Ready a b tail w l n c h e r =
    let whole : ReadsWhole n a b r.segments tail =
      subst (λ m. ReadsWhole m a b r.segments tail) e
        (read_at_least-ReadsWhole a b r.segments tail (omega (arith, e, h)) r.bytes) in
    (
      record c { incoming = whole.rest ++ tail },
      ap (λ t. read_to (read_at_least n n t) c) r.arrived ∙ ap (λ t. read_to t c) whole.reads,
      record {
        segments = whole.rest;
        arrived = refl;
        bytes = whole.left;
        writes = r.writes;
        timed = r.timed;
      },
    )

-- Segments without bytes are passed over.
skip_empty :
    (room least : ℕ) (segments : List Text) (answer : Text) (more : List Text)
    → stream segments ≡ []
    → 0 < least
    → least ≤ length answer
    → read_at_least room least (segments ++ answer ∷ more)
      ≡ some (take room answer, drop room answer ∷ more)
unfolding read_at_least
skip_empty room least [] answer more e h k =
    let now : leb least (length answer) ≡ true = ground (arith, k) in rw now refl
skip_empty room least ((x ∷ s) ∷ segments) answer more e h k = cc
skip_empty room least ([] ∷ segments) answer more e h k =
    let later : leb least 0 ≡ false = ground (arith, h) in
    let full_room : room - 0 ≡ room = omega arith in
    let all_left : least - 0 ≡ least = omega arith in
    rw (later, full_room, all_left)
      (ap (in_front []) (skip_empty room least segments answer more e h k))

read_answer :
    (l : ℤ) (answer : Text) (more : List Text) (c : Conn)
    → 4 ≤ length answer
    → Ready [] (answer ∷ more) 0 l c
    → Succeeds (read 12 4 c) (take 12 answer) (λ c'. c'.latency ≡ l)
unfolding read
read_answer l answer more c k r = (
  record c { incoming = drop 12 answer ∷ more },
  ap (λ t. read_to (read_at_least 12 4 t) c) r.arrived
      ∙ ap (λ t. read_to t c) (skip_empty 12 4 r.segments answer more r.bytes (omega arith) k),
  r.timed,
)

-- The answer through the tunnel comes in a segment of its own that begins with HTTP/.
probe_tunnel-Ready :
    (l : ℤ) (text : Text) (more : List Text) (c : Conn)
    → Ready [] ((codes "HTTP/" ++ text) ∷ more) 1 l c
    → Succeeds (probe_tunnel c) l (λ c'. c'.latency ≡ l)
unfolding probe_tunnel has_prefix
probe_tunnel-Ready l text more c r =
    let answer = codes "HTTP/" ++ text in
    continue_with l _ (write-Ready [] (answer ∷ more) 0 l tunnel_probe c r) λ c1 r1.
      continue_with l _ (read_answer l answer more c1 (omega arith) r1)
        λ c2 timed. (c2, ap (λ t. done t c2) timed, timed)

-- The length of the bound address is read as the type of the reply states it.
address_length-Ready :
    (type : ℕ) (first : Text) (n : ℕ) (b : Text) (tail : List Text) (w : ℕ) (l : ℤ) (c : Conn)
    → IsBound type first n
    → Ready (first ++ b) tail w l c
    → Succeeds (address_length type c) n (Ready b tail w l)
unfolding address_length
address_length-Ready type first n b tail w l c (ipv4 ne3 ne4) r = (c, ground (arith, ne3, ne4), r)
address_length-Ready type first n b tail w l c (name long e one) r = rw e (
    continue_with (byte_at 0 first) _ (read-Ready first b tail w l 1 c (omega arith) one r)
      λ c1 r1. (c1, refl, r1))
address_length-Ready type first n b tail w l c (ipv6 e) r = rw e (c, refl, r)

-- The parts of a dialogue that a SOCKS5 proxy sends, before the answer through the tunnel.
pub record IsSocks5Answer (auth header first bound : Text) : Type 0 where
  pub auth_length : length auth ≡ 2
  pub auth_version : byte_at 0 auth ≡ 5
  pub method_offered : byte_at 1 auth ≢ 255
  pub header_length : length header ≡ 4
  pub version : byte_at 0 header ≡ 5
  pub granted : byte_at 1 header ≡ 0
  pub size : ℕ
  pub size_read : IsBound (byte_at 3 header) first size
  pub bound_length : length bound ≡ size + 2

finish_socks5-Ready :
    (auth header first bound text : Text) (more : List Text) (l : ℤ) (c : Conn)
    → IsSocks5Answer auth header first bound
    → Ready (header ++ (first ++ (bound ++ []))) ((codes "HTTP/" ++ text) ∷ more) 1 l c
    → Succeeds (finish_socks5 c) l (λ c'. c'.latency ≡ l)
unfolding finish_socks5
finish_socks5-Ready auth header first bound text more l c a r =
    let tail = (codes "HTTP/" ++ text) ∷ more in
    continue_with l _
      (read-Ready header (first ++ (bound ++ [])) tail 1 l 4 c (omega arith) a.header_length r)
      λ c1 r1.
        rw (a.version, a.granted)
          (continue_with l _
            (address_length-Ready (byte_at 3 header) first a.size (bound ++ []) tail 1 l c1
              a.size_read r1)
            λ c2 r2.
              continue_with l _
                (read-Ready bound [] tail 1 l (a.size + 2) c2 (omega arith) a.bound_length r2)
                λ c3 r3. probe_tunnel-Ready l text more c3 r3)

-- The converse of what a successful run has read. When at least three writes succeed, and the
-- proxy sends, cut into segments in any way, an answer to the greeting of version 5 with a method other
-- than 0xFF and a reply of version 5 and code 0 with a bound address of the length that its type
-- states, and then a segment that begins with HTTP/, CheckSOCKS5 succeeds for every target and
-- returns the latency of the connection.
pub check_socks5-IsSocks5Answer :
    (host : Text) (port : ℕ) (auth header first bound text : Text) (more : List Text) (l : ℤ)
    (c : Conn)
    → IsSocks5Answer auth header first bound
    → Ready (auth ++ (header ++ (first ++ bound))) ((codes "HTTP/" ++ text) ∷ more) 3 l c
    → (c' : Conn) × (check_socks5 host port c ≡ done l c')
unfolding check_socks5
check_socks5-IsSocks5Answer host port auth header first bound text more l c a r =
    let tail = (codes "HTTP/" ++ text) ∷ more in
    let reply = header ++ (first ++ (bound ++ [])) in
    let whole : Ready (auth ++ reply) tail 3 l c =
      subst (λ b. Ready (auth ++ (header ++ (first ++ b))) tail 3 l c)
        (sym (append-nil_right bound)) r in
    let (h, p) = socks_target host port in
    let method : (byte_at 1 auth == 255) ≡ false = ground (arith, a.method_offered) in
    let run : Succeeds (check_socks5 host port c) l (λ c'. c'.latency ≡ l) =
      continue_with l _ (write-Ready (auth ++ reply) tail 2 l greeting c whole) λ c1 r1.
        continue_with l _ (read-Ready auth reply tail 2 l 2 c1 (omega arith) a.auth_length r1)
          λ c2 r2.
            rw (a.auth_version, method)
              (continue_with l _ (write-Ready reply tail 1 l (connect_request h p) c2 r2)
                λ c3 r3. finish_socks5-Ready auth header first bound text more l c3 a r3) in
    (run.0, run.1)

-- When at least two writes succeed, and the proxy sends, cut into segments in any way, a reply of
-- 8 bytes with the code 0x5A, and then a segment that begins with HTTP/, CheckSOCKS4 succeeds for
-- every target and returns the latency of the connection.
check_socks4-Ready :
    (host : Text) (port : ℕ) (reply text : Text) (more : List Text) (l : ℤ) (c : Conn)
    → length reply ≡ 8
    → byte_at 1 reply ≡ 90
    → Ready reply ((codes "HTTP/" ++ text) ∷ more) 2 l c
    → (c' : Conn) × (check_socks4 host port c ≡ done l c')
unfolding check_socks4
check_socks4-Ready host port reply text more l c size granted r =
    let tail = (codes "HTTP/" ++ text) ∷ more in
    let (h, p) = socks_target host port in
    let whole : Ready (reply ++ []) tail 2 l c =
      subst (λ b. Ready b tail 2 l c) (sym (append-nil_right reply)) r in
    let run : Succeeds (check_socks4 host port c) l (λ c'. c'.latency ≡ l) =
      continue_with l _ (write-Ready (reply ++ []) tail 1 l (socks4_request h p) c whole) λ c1 r1.
        continue_with l _ (read-Ready reply [] tail 1 l 8 c1 (omega arith) size r1)
          λ c2 r2. rw granted (probe_tunnel-Ready l text more c2 r2) in
    (run.0, run.1)
