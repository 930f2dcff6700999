-- ===== src/Model/Proxy.antt =====
-- pkg/model/proxy.go: protocols, anonymity levels, proxies and check results.
pub mod Names
use go_proxy.Base.{ℕ, ◌==◌, Bool, true, false, List, [], ◌∷◌, ◌++◌, if◌then◌else◌}
use go_proxy.Base.Int.{ℤ}
use go_proxy.Base.Text.{Text, codes, text_eq, itoa}
use go_proxy.Base.Float.{Float64}

-- A time in nanoseconds since the epoch; 0 is the zero time of Go.
abbrev pub Time : Type 0
Time = ℕ

abbrev pub is_zero_time : Time → Bool
is_zero_time t = t == 0

-- A protocol is a string; the constants have constructors, and `other` is any other string.
pub data Protocol : Type 0 where
  http https socks4 socks4a socks5 unknown : Protocol
  other : Text → Protocol

unfoldable pub protocol_text : Protocol → Text
protocol_text http = codes "http"
protocol_text https = codes "https"
protocol_text socks4 = codes "socks4"
protocol_text socks4a = codes "socks4a"
protocol_text socks5 = codes "socks5"
protocol_text unknown = codes "unknown"
protocol_text (other s) = s

-- `Protocol(s)`: the value that a string stands for.
unfoldable pub protocol_of_text : Text → Protocol
protocol_of_text s =
    if text_eq s (codes "http")
    then http
    else if text_eq s (codes "https")
    then https
    else if text_eq s (codes "socks4")
    then socks4
    else if text_eq s (codes "socks4a")
    then socks4a
    else if text_eq s (codes "socks5")
    then socks5
    else if text_eq s (codes "unknown")
    then unknown
    else other s

pub data Anonymity : Type 0 where
  transparent anonymous elite unknown_level : Anonymity

unfoldable pub anonymity_text : Anonymity → Text
anonymity_text transparent = codes "transparent"
anonymity_text anonymous = codes "anonymous"
anonymity_text elite = codes "elite"
anonymity_text unknown_level = codes "unknown"

pub record Proxy : Type 0 where
  pub id : ℤ
  pub ip : Text
  pub port : ℤ
  pub protocol : Protocol
  pub anonymity : Anonymity
  pub country : Text
  pub country_code : Text
  pub city : Text
  pub asn : Text
  pub org : Text
  pub latency : ℤ
  pub latency_ms : ℤ
  pub latency_p50 : ℤ
  pub latency_p95 : ℤ
  pub speed_kbps : Float64
  pub ssl : Bool
  pub target_ok : Bool
  pub score : ℤ
  pub uptime_percent : Float64
  pub success_checks : ℕ
  pub failed_checks : ℕ
  pub consecutive_fail : ℕ
  pub judge_count : ℕ
  pub ip_ver : ℕ
  pub last_alive : Time
  pub last_checked : Time
  pub first_seen : Time
  pub is_alive : Bool

-- `(*Proxy).Address`
unfoldable pub address : Proxy → Text
address p = p.ip ++ b':' ∷ itoa p.port

-- `(*Proxy).URLString`
unfoldable pub url_string : Proxy → Text
unfolding protocol_text
url_string p = protocol_text p.protocol ++ codes "://" ++ p.ip ++ b':' ∷ itoa p.port

-- The errors that a check ends with; the message of a network error is that of its cause.
pub data CheckError : Type 0 where
  tcp_timed_out : CheckError
  probe_failed : Text → CheckError
  unsupported_protocol : Protocol → CheckError

pub data Outcome : Type 0 where
  no_error : Outcome
  failed : CheckError → Outcome

pub record CheckResult : Type 0 where
  pub ip : Text
  pub port : ℤ
  pub protocol : Protocol
  pub anonymity : Anonymity
  pub latency : ℤ
  pub latency_ms : ℤ
  pub speed_kbps : Float64
  pub ssl : Bool
  pub target_ok : Bool
  pub country : Text
  pub country_code : Text
  pub city : Text
  pub asn : Text
  pub org : Text
  pub judge_count : ℕ
  pub error : Outcome
  pub error_msg : Text
  pub success : Bool
