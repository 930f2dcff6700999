-- ===== src/Protocol/Detect/Defs.antt =====
-- pkg/protocol/protocol.go, thuTuProbeTheoPort, probeMotProtocol and DetectProtocol.
use go_proxy.Base.{ℕ, Bool, Option, none, some, List, [], ◌∷◌, any, if◌then◌else◌}
use go_proxy.Base.Int.{ℤ, pos, ltb_ℤ, eqb_ℤ}
use go_proxy.Base.Text.{Text, codes}
use go_proxy.Model.Proxy.{Protocol, http, https, socks4, socks4a, socks5, unknown, other}
use go_proxy.Net.Header.{Header}
use go_proxy.Protocol.Conn.{
  Conn, Run, failed, done, ProbeError, dial_failed, cancelled, unsupported,
}
use go_proxy.Protocol.Socks.Defs.{check_socks5, check_socks4}
use go_proxy.Protocol.Tunnel.Defs.{Packages, check_http, check_https}

pub data Result (A : Type 0) : Type 0 where
  ok : A → Result A
  err : ProbeError → Result A

-- `fastDial`, and the run on the connection; the connection is closed at the end.
abbrev pub on_connection : {A : Type 0} → Option Conn → (Conn → Run A) → Result A
on_connection none run = err dial_failed
on_connection (some c) run = elim (run c) [ failed e _ ↦ err e | done a _ ↦ ok a ]

-- What happens outside: whether the context is done when the code looks before a protocol and
-- within its probe, and what dialling an address for a protocol and a timeout gives.
pub record World : Type 0 where
  pub done_before : Protocol → Bool
  pub done_within : Protocol → Bool
  pub dial : Protocol → Text → ℤ → Option Conn

abbrev is_port : List ℕ → ℤ → Bool
is_port ports port = any (λ p. eqb_ℤ port (pos p)) ports

-- The four cases of `thuTuProbeTheoPort`.
pub data PortKind : Type 0 where
  socks_port tls_port http_port any_port : PortKind

unfoldable pub port_kind : ℤ → PortKind
port_kind port =
    if is_port (1080 ∷ 10808 ∷ 9050 ∷ 1081 ∷ 10809 ∷ []) port
    then socks_port
    else if is_port (443 ∷ 8443 ∷ 4443 ∷ []) port
    then tls_port
    else if is_port (3128 ∷ 8888 ∷ 8080 ∷ 80 ∷ []) port
    then http_port
    else any_port

abbrev pub order_for : PortKind → List Protocol
order_for socks_port = socks5 ∷ socks4 ∷ http ∷ https ∷ []
order_for tls_port = https ∷ http ∷ socks5 ∷ []
order_for http_port = http ∷ https ∷ socks5 ∷ socks4 ∷ []
order_for any_port = http ∷ https ∷ socks5 ∷ socks4 ∷ []

-- `thuTuProbeTheoPort`
unfoldable pub probe_order : ℤ → List Protocol
unfolding port_kind
probe_order port = order_for (port_kind port)

abbrev without_body : Result ℤ → Result (ℤ × Text)
without_body (ok latency) = ok (latency, [])
without_body (err e) = err e

abbrev without_header : Result (ℤ × Text × Header) → Result (ℤ × Text)
without_header (ok (latency, body, _)) = ok (latency, body)
without_header (err e) = err e

-- `probeMotProtocol`
unfoldable pub probe_protocol : World → Packages → Protocol → Text → Text → ℤ → Result (ℤ × Text)
unfolding check_http check_https check_socks5 check_socks4
probe_protocol w pkg p addr judge_url timeout =
    if w.done_within p then err cancelled else by_protocol p
  where
    by_protocol : Protocol → Result (ℤ × Text)
    by_protocol http =
        without_header (on_connection (w.dial p addr timeout) (check_http pkg judge_url))
    by_protocol https = without_body (on_connection (w.dial p addr timeout) (check_https pkg []))
    by_protocol socks5 =
        without_body (on_connection (w.dial p addr timeout) (check_socks5 (codes "1.1.1.1") 80))
    by_protocol socks4 =
        without_body (on_connection (w.dial p addr timeout) (check_socks4 (codes "1.1.1.1") 80))
    by_protocol socks4a = err unsupported
    by_protocol unknown = err unsupported
    by_protocol (other s) = err unsupported

-- The loop over the protocols, with the last error; nil is `none`.
unfoldable pub try_all :
    World
    → (Protocol → Result (ℤ × Text))
    → Option ProbeError
    → List Protocol
    → Result (Protocol × ℤ × Text)
try_all w probe none [] = ok (unknown, pos 0, [])
try_all w probe (some e) [] = err e
try_all w probe last (p ∷ ps) =
    let rest = λ (e : ProbeError). try_all w probe (some e) ps in
    if w.done_before p
    then err cancelled
    else elim (probe p) [ ok (latency, body) ↦ ok (p, latency, body) | err e ↦ rest e ]

-- At most 3.5 seconds for a probe.
unfoldable pub probe_timeout : ℤ → ℤ
probe_timeout timeout = if ltb_ℤ (pos 3_500_000_000) timeout then pos 3_500_000_000 else timeout

-- `DetectProtocol`; the address is that of `net.JoinHostPort`, which the caller passes.
unfoldable pub detect_protocol :
    World → Packages → Text → ℤ → Text → ℤ → Result (Protocol × ℤ × Text)
unfolding probe_order try_all probe_timeout probe_protocol
detect_protocol w pkg addr port judge_url timeout =
    try_all w (λ p. probe_protocol w pkg p addr judge_url (probe_timeout timeout)) none
      (probe_order port)
