-- ===== src/Checker/Defs.antt =====
-- pkg/checker/checker.go, CheckIPPort and getTargetHost.
use go_proxy.Base.{
  ℕ, zero, suc, ◌+◌, ◌/◌, Bool, true, false, not, ◌&&◌, Option, none, some, [], ◌∷◌, ◌++◌, ◌==◌,
  any, if◌then◌else◌,
}
use go_proxy.Base.Int.{ℤ, pos, negsuc, leb_ℤ}
use go_proxy.Base.Text.{Text, codes, text_eq, is_empty}
use go_proxy.Model.Proxy.{
  Protocol, http, https, socks4, socks4a, socks5, unknown, other, Anonymity, elite, transparent,
  anonymous, unknown_level, CheckError, tcp_timed_out, probe_failed, unsupported_protocol, no_error,
  failed, CheckResult,
}
use go_proxy.Model.Config.{Config}
use go_proxy.Net.Header.{Header}
use go_proxy.Judge.Defs.{evaluate_anonymity}
use go_proxy.Protocol.Conn.{ProbeError}
use go_proxy.Protocol.Socks.Defs.{check_socks5, check_socks4}
use go_proxy.Protocol.Tunnel.Defs.{Url, Packages, check_http, check_https}
use go_proxy.Protocol.Detect.Defs.{Result, ok, err, World, on_connection, detect_protocol}

pub record Location : Type 0 where
  pub country : Text
  pub country_code : Text
  pub city : Text
  pub asn : Text
  pub org : Text

-- What a check finds outside of this package: the place of the address, whether a TCP connection
-- is made in time, the network, the packages, the judge that is picked, the address of this
-- host, and the message of an error.
pub record Env : Type 0 where
  pub location : Location
  pub ping : Text → ℤ → Bool
  pub world : World
  pub packages : Packages
  pub judge_url : Text
  pub my_ip : Text
  pub message : ProbeError → Text

-- `d.Milliseconds()`, rounded towards 0
unfoldable pub whole_milliseconds : ℤ → ℤ
whole_milliseconds (pos n) = pos (n / 1_000_000)
whole_milliseconds (negsuc n) = opposite ((n + 1) / 1_000_000)
  where
    opposite : ℕ → ℤ
    opposite zero = pos 0
    opposite (suc q) = negsuc q

abbrev host_with_port : Url → Text
host_with_port u =
    if any (λ b. b == b':') u.host
    then u.host
    else if text_eq u.scheme (codes "http")
    then u.host ++ codes ":80"
    else u.host ++ codes ":443"

abbrev host_or_default : Option Url → Text
host_or_default none = codes "www.google.com:443"
host_or_default (some u) = if is_empty u.host then codes "www.google.com:443" else host_with_port u

-- `getTargetHost`
unfoldable pub get_target_host : Packages → Config → Text
unfolding text_eq
get_target_host pkg cfg =
    if is_empty cfg.target.url
    then codes "www.google.com:443"
    else host_or_default (pkg.parse_url cfg.target.url)

unfoldable pub initial_result : Location → Text → ℤ → Protocol → CheckResult
initial_result loc ip port proto = record {
  ip = ip;
  port = port;
  protocol = proto;
  anonymity = unknown_level;
  latency = pos 0;
  latency_ms = pos 0;
  speed_kbps = 0;
  ssl = false;
  target_ok = false;
  country = loc.country;
  country_code = loc.country_code;
  city = loc.city;
  asn = loc.asn;
  org = loc.org;
  judge_count = 0;
  error = no_error;
  error_msg = [];
  success = false;
}

abbrev pub is_https : Protocol → Bool
is_https https = true
is_https http = false
is_https socks4 = false
is_https socks4a = false
is_https socks5 = false
is_https unknown = false
is_https (other s) = false

abbrev pub known_level : Anonymity → Anonymity
known_level unknown_level = elite
known_level transparent = transparent
known_level anonymous = anonymous
known_level elite = elite

-- The end of a check that succeeds.
unfoldable pub finish : ℤ → CheckResult → CheckResult
unfolding whole_milliseconds
finish latency r = record r {
  ssl = if is_https r.protocol then true else r.ssl;
  anonymity = known_level r.anonymity;
  latency = latency;
  latency_ms = whole_milliseconds latency;
  success = true;
  judge_count = 1;
}

unfoldable pub fail : CheckError → CheckResult → CheckResult
fail e r = record r { error = failed e }

-- What a check for a given protocol makes of the probe: `level` and `ssl` stand for the
-- assignments before the end.
abbrev pub conclude : Env → CheckResult → Anonymity → Bool → Result ℤ → CheckResult
conclude env r level ssl (err e) = fail (probe_failed (env.message e)) r
conclude env r level ssl (ok latency) = finish latency (record r { anonymity = level; ssl = ssl })

abbrev pub conclude_http : Env → CheckResult → Result (ℤ × Text × Header) → CheckResult
conclude_http env r (err e) = fail (probe_failed (env.message e)) r
conclude_http env r (ok (latency, body, headers)) =
    finish latency (record r { anonymity = evaluate_anonymity env.my_ip headers body })

abbrev pub conclude_detected : Env → CheckResult → Result (Protocol × ℤ × Text) → CheckResult
conclude_detected env r (err e) = fail (probe_failed (env.message e)) r
conclude_detected env r (ok (p, latency, body)) =
    finish latency (record r { protocol = p; anonymity = elite })

-- Stage 2 of `CheckIPPort`; an empty protocol is one that is not known.
unfoldable pub check_protocol : Env → Config → Text → ℤ → Protocol → CheckResult → CheckResult
unfolding check_http check_https check_socks5 check_socks4 detect_protocol get_target_host finish
    fail evaluate_anonymity
check_protocol env cfg addr port p r = by_protocol p
  where
    timeout : ℤ
    timeout = cfg.engine.read_write_timeout

    detected : CheckResult
    detected =
        conclude_detected env r
          (detect_protocol env.world env.packages addr port env.judge_url timeout)

    by_protocol : Protocol → CheckResult
    by_protocol http =
        conclude_http env r
          (on_connection (env.world.dial p addr timeout) (check_http env.packages env.judge_url))
    by_protocol https = conclude env r elite true (
        on_connection (env.world.dial p addr timeout)
          (check_https env.packages (get_target_host env.packages cfg)))
    by_protocol socks5 =
        conclude env r elite r.ssl
          (on_connection (env.world.dial p addr timeout) (check_socks5 (codes "1.1.1.1") 80))
    by_protocol socks4 =
        conclude env r elite r.ssl
          (on_connection (env.world.dial p addr timeout) (check_socks4 (codes "1.1.1.1") 80))
    by_protocol socks4a =
        conclude env r elite r.ssl
          (on_connection (env.world.dial p addr timeout) (check_socks4 (codes "1.1.1.1") 80))
    by_protocol unknown = detected
    by_protocol (other []) = detected
    by_protocol (other (c ∷ s)) = fail (unsupported_protocol p) r

-- The timeout of stage 1.
unfoldable pub ping_timeout : Config → ℤ
ping_timeout cfg =
    if leb_ℤ cfg.engine.connect_timeout (pos 0)
    then pos 1_500_000_000
    else cfg.engine.connect_timeout

-- `CheckIPPort`; `addr` is the value of `net.JoinHostPort`.
unfoldable pub check_ip_port : Env → Config → Text → Text → ℤ → Protocol → CheckResult
unfolding ping_timeout initial_result check_protocol fail
check_ip_port env cfg addr ip port proto =
    let r = initial_result env.location ip port proto in
    if cfg.protocol.fast_fail_tcp && not (env.ping addr (ping_timeout cfg))
    then fail tcp_timed_out r
    else check_protocol env cfg addr port proto r
