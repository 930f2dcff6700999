-- ===== src/Protocol/Tunnel/Defs.antt =====
-- pkg/protocol/protocol.go, CheckHTTP and CheckHTTPS.
use go_proxy.Base.{not, ◌||◌, Option, none, some, List, ◌++◌, ◌==◌, if◌then◌else◌, any}
use go_proxy.Base.Int.{ℤ, pos, ltb_ℤ, leb_ℤ, eqb_ℤ}
use go_proxy.Base.Text.{Text, codes, is_empty}
use go_proxy.Net.Header.{Header}
use go_proxy.Protocol.Judge.Defs.{Json, Rejection, validate_judge_response}
use go_proxy.Protocol.Conn.{
  Conn, Run, failed, done, and_then, write, read_failed, bad_status, body_failed, handshake_failed,
  false_positive,
}
use go_proxy.Protocol.Socks.Defs.{crlf}

pub record Response : Type 0 where
  pub status : ℤ
  pub header : Header
  -- `io.ReadAll(io.LimitReader(resp.Body, 32768))`; `none` is an error
  pub body : Option Text

pub record Url : Type 0 where
  pub scheme : Text
  pub host : Text
  pub request_uri : Text

-- What the code uses of the packages net/http, crypto/tls, net/url and encoding/json: a response
-- read from the segments that arrive, with the segments after it; the handshake with a server of
-- the given name, with the segments that the tunnel then carries; and `none` for an error.
pub record Packages : Type 0 where
  pub read_response : Text → List Text → Option (Response × List Text)
  pub handshake : Text → List Text → Option (List Text)
  pub parse_url : Text → Option Url
  -- the host that `net.SplitHostPort` returns
  pub host_only : Text → Text
  pub json : Json

abbrev pub received : Option (Response × List Text) → Conn → Run Response
received none c = failed read_failed c
received (some (r, rest)) c = done r (record c { incoming = rest })

-- `http.ReadResponse`
unfoldable pub receive_response : Packages → Text → Conn → Run Response
receive_response pkg method c = received (pkg.read_response method c.incoming) c

abbrev pub user_agent : Text
user_agent =
    codes "User-Agent: Mozilla/5.0 (Windows NT 10.0; Win64; x64) AppleWebKit/537.36" ++ crlf

-- The address of the judge, or that of httpbin.
unfoldable pub judge_target : Packages → Text → Url
judge_target pkg judge_url = elim (pkg.parse_url judge_url) [
  | none ↦ fallback
  | some u ↦ if is_empty u.host then fallback else u
]
  where
    fallback : Url
    fallback = record {
      scheme = codes "http";
      host = codes "httpbin.org";
      request_uri = codes "/ip";
    }

unfoldable pub http_request : Url → Text
http_request u =
    codes "GET http://"
    ++ u.host
    ++ u.request_uri
    ++ codes " HTTP/1.1"
    ++ crlf
    ++ codes "Host: "
    ++ u.host
    ++ crlf
    ++ user_agent
    ++ codes "Accept: application/json, text/plain, */*"
    ++ crlf
    ++ codes "Connection: close"
    ++ crlf
    ++ crlf

abbrev pub judged : Option Rejection → Response → Text → Conn → Run (ℤ × Text × Header)
judged none r body c = done (c.latency, body, r.header) c
judged (some reason) r body c = failed (false_positive reason) c

abbrev pub judge_body : Packages → Response → Option Text → Conn → Run (ℤ × Text × Header)
judge_body pkg r none c = failed body_failed c
judge_body pkg r (some body) c = judged (validate_judge_response pkg.json r.header body) r body c

-- What `CheckHTTP` does with a response.
unfoldable pub judge_response : Packages → Response → Conn → Run (ℤ × Text × Header)
unfolding validate_judge_response
judge_response pkg r c =
    if not (eqb_ℤ r.status (pos 200))
    then failed (bad_status r.status) c
    else judge_body pkg r r.body c

-- `CheckHTTP` on a connection. What comes with an error is left out: no caller reads it.
unfoldable pub check_http : Packages → Text → Conn → Run (ℤ × Text × Header)
unfolding write receive_response judge_target http_request judge_response
check_http pkg judge_url c =
    and_then (write (http_request (judge_target pkg judge_url)) c)
      (λ _ c1. and_then (receive_response pkg (codes "GET") c1) (λ r c2. judge_response pkg r c2))

-- The target of the tunnel, with a port.
unfoldable pub tunnel_target : Text → Text
tunnel_target target =
    if is_empty target
    then codes "www.google.com:443"
    else if any (λ b. b == b':') target
    then target
    else target ++ codes ":443"

unfoldable pub tunnel_request : Text → Text
tunnel_request target =
    codes "CONNECT "
    ++ target
    ++ codes " HTTP/1.1"
    ++ crlf
    ++ codes "Host: "
    ++ target
    ++ crlf
    ++ user_agent
    ++ codes "Proxy-Connection: Keep-Alive"
    ++ crlf
    ++ crlf

unfoldable pub tunnel_get : Text → Text
tunnel_get host =
    codes "GET / HTTP/1.1"
    ++ crlf
    ++ codes "Host: "
    ++ host
    ++ crlf
    ++ user_agent
    ++ codes "Connection: close"
    ++ crlf
    ++ crlf

-- The handshake.
unfoldable pub shake_hands : Packages → Text → Conn → Run Unit
shake_hands pkg host c = elim (pkg.handshake host c.incoming) [
  | none ↦ failed handshake_failed c
  | some plain ↦ done tt (record c { incoming = plain })
]

-- The request through the tunnel; a redirection counts as an answer.
unfoldable pub try_tunnel : Packages → Text → Conn → Run ℤ
unfolding write receive_response tunnel_get shake_hands
try_tunnel pkg host c = and_then (shake_hands pkg host c) (λ _ c1.
    and_then (write (tunnel_get host) c1) (λ _ c2.
      and_then (receive_response pkg (codes "GET") c2) (λ r c3.
        if ltb_ℤ r.status (pos 200) || leb_ℤ (pos 400) r.status
        then failed (bad_status r.status) c3
        else done c3.latency c3)))

-- `CheckHTTPS` on a connection.
unfoldable pub check_https : Packages → Text → Conn → Run ℤ
unfolding write receive_response tunnel_target tunnel_request try_tunnel
check_https pkg target_host c =
    let target = tunnel_target target_host in
    and_then (write (tunnel_request target) c) (λ _ c1.
      and_then (receive_response pkg (codes "CONNECT") c1) (λ r c2.
        if not (eqb_ℤ r.status (pos 200))
        then failed (bad_status r.status) c2
        else try_tunnel pkg (pkg.host_only target) c2))
