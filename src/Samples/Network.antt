-- ===== src/Samples/Network.antt =====
-- A small network that the tests share.
use go_proxy.Base.{false, Option, none, some, List, [], ◌∷◌}
use go_proxy.Base.Int.{pos}
use go_proxy.Base.Text.{Text, codes}
use go_proxy.Model.Proxy.{Protocol, socks4}
use go_proxy.Protocol.Conn.{Conn}
use go_proxy.Protocol.Judge.Defs.{Json}
use go_proxy.Protocol.Tunnel.Defs.{Response, Packages}
use go_proxy.Protocol.Detect.Defs.{World}

-- A JSON package that reads no text as an object.
abbrev pub no_json : Json
no_json = record { unmarshal_judge = λ s. none; unmarshal_map = λ s. none }

-- Responses of status 200 whose segments are their bodies.
abbrev pub plain_packages : Packages
plain_packages = record {
  read_response = λ method segments. first segments;
  handshake = λ name segments. some segments;
  parse_url = λ s. none;
  host_only = λ s. codes "www.google.com";
  json = no_json;
}
  where
    first : List Text → Option (Response × List Text)
    first [] = none
    first (s ∷ rest) = some (record { status = pos 200; header = []; body = some s }, rest)

abbrev pub conn_with : List Text → Conn
conn_with segments = record { incoming = segments; writable = 9; sent = []; latency = pos 120 }

abbrev pub socks4_conn : Conn
socks4_conn = conn_with ((0 ∷ 90 ∷ 0 ∷ 80 ∷ 1 ∷ 1 ∷ 1 ∷ 1 ∷ []) ∷ codes "HTTP/1.1 200 OK" ∷ [])

-- A proxy that answers to SOCKS4 only.
abbrev pub socks4_world : World
socks4_world = record {
  done_before = λ p. false;
  done_within = λ p. false;
  dial = λ p addr timeout. by_protocol p;
}
  where
    by_protocol : Protocol → Option Conn
    by_protocol socks4 = some socks4_conn
    by_protocol _ = none
