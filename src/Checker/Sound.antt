-- ===== src/Checker/Sound.antt =====
-- pkg/checker/checker.go, CheckIPPort: what holds of every result.
use go_proxy.Base.{◌≡◌, ◌≢◌, ◌↔◌, refl, Bool, true, false, [], ◌∷◌, if◌then◌else◌}
use go_proxy.Base.Int.{ℤ, pos}
use go_proxy.Base.Text.{Text}
use go_proxy.Model.Proxy.{
  Protocol, http, https, socks4, socks4a, socks5, unknown, other, Anonymity, elite, transparent,
  anonymous, unknown_level, CheckError, tcp_timed_out, no_error, failed, CheckResult,
}
use go_proxy.Model.Config.{Config}
use go_proxy.Net.Header.{Header}
use go_proxy.Protocol.Detect.Defs.{Result, ok, err}
use go_proxy.Checker.Defs.{
  Env, whole_milliseconds, initial_result, is_https, known_level, finish, fail, conclude,
  conclude_http, conclude_detected, check_protocol, check_ip_port,
}

-- A result that can be saved.
pub record IsGood (r : CheckResult) : Type 0 where
  pub no_failure : r.error ≡ no_error
  pub level : r.anonymity ≢ unknown_level
  pub ssl_when : (r.ssl ≡ true) ↔ (r.protocol ≡ https)
  pub in_milliseconds : r.latency_ms ≡ whole_milliseconds r.latency
  pub counted : r.judge_count ≡ 1

-- A result that only reports its error.
pub record IsFailure (proto : Protocol) (r : CheckResult) : Type 0 where
  pub why : CheckError
  pub failure : r.error ≡ failed why
  pub same_protocol : r.protocol ≡ proto
  pub no_level : r.anonymity ≡ unknown_level
  pub no_ssl : r.ssl ≡ false
  pub no_latency : r.latency ≡ pos 0

pub record IsCheckOf (ip : Text) (port : ℤ) (proto : Protocol) (r : CheckResult) : Type 0 where
  pub same_ip : r.ip ≡ ip
  pub same_port : r.port ≡ port
  pub when_success : r.success ≡ true → IsGood r
  pub when_failure : r.success ≡ false → IsFailure proto r

known_level_lem : (level : Anonymity) → known_level level ≢ unknown_level
known_level_lem unknown_level = λ e. cc
known_level_lem transparent = λ e. cc
known_level_lem anonymous = λ e. cc
known_level_lem elite = λ e. cc

ssl_lem :
    (p : Protocol) (b : Bool)
    → (b ≡ true → p ≡ https)
    → ((if is_https p then true else b) ≡ true) ↔ (p ≡ https)
ssl_lem https b h = ((λ _. refl), λ _. refl)
ssl_lem http b h = (h, λ e. cc)
ssl_lem socks4 b h = (h, λ e. cc)
ssl_lem socks4a b h = (h, λ e. cc)
ssl_lem socks5 b h = (h, λ e. cc)
ssl_lem unknown b h = (h, λ e. cc)
ssl_lem (other s) b h = (h, λ e. cc)

module _ (env : Env) (ip : Text) (port : ℤ) (proto : Protocol) where
  start : CheckResult
  start = initial_result env.location ip port proto

  fail-IsCheckOf : (e : CheckError) → IsCheckOf ip port proto (fail e start)
  unfolding start fail initial_result
  fail-IsCheckOf e = record {
    same_ip = refl;
    same_port = refl;
    when_success = λ h. cc;
    when_failure = λ _. record {
      why = e;
      failure = refl;
      same_protocol = refl;
      no_level = refl;
      no_ssl = refl;
      no_latency = refl;
    };
  }

  finish-IsCheckOf :
      (latency : ℤ) (p : Protocol) (level : Anonymity) (ssl : Bool)
      → (ssl ≡ true → p ≡ https)
      → IsCheckOf ip port proto
          (finish latency (record start { protocol = p; anonymity = level; ssl = ssl }))
  unfolding start finish initial_result
  finish-IsCheckOf latency p level ssl h = record {
    same_ip = refl;
    same_port = refl;
    when_success = λ _. record {
      no_failure = refl;
      level = known_level_lem level;
      ssl_when = ssl_lem p ssl h;
      in_milliseconds = refl;
      counted = refl;
    };
    when_failure = λ h. cc;
  }

  conclude-IsCheckOf :
      (level : Anonymity) (ssl : Bool) (r : Result ℤ)
      → (ssl ≡ true → proto ≡ https)
      → IsCheckOf ip port proto (conclude env start level ssl r)
  unfolding start initial_result
  conclude-IsCheckOf level ssl (err e) h = fail-IsCheckOf _
  conclude-IsCheckOf level ssl (ok latency) h = finish-IsCheckOf latency proto level ssl h

  conclude_http-IsCheckOf :
      (r : Result (ℤ × Text × Header)) → IsCheckOf ip port proto (conclude_http env start r)
  unfolding start initial_result
  conclude_http-IsCheckOf (err e) = fail-IsCheckOf _
  conclude_http-IsCheckOf (ok (latency, body, headers)) =
      finish-IsCheckOf latency proto _ false (λ h. cc)

  conclude_detected-IsCheckOf :
      (r : Result (Protocol × ℤ × Text)) → IsCheckOf ip port proto (conclude_detected env start r)
  unfolding start initial_result
  conclude_detected-IsCheckOf (err e) = fail-IsCheckOf _
  conclude_detected-IsCheckOf (ok (p, latency, body)) =
      finish-IsCheckOf latency p elite false (λ h. cc)

module _ (env : Env) (cfg : Config) (addr ip : Text) (port : ℤ) where
  check_protocol-IsCheckOf :
      (proto : Protocol)
      → IsCheckOf ip port proto (check_protocol env cfg addr port proto (start env ip port proto))
  unfolding check_protocol start initial_result
  check_protocol-IsCheckOf http = conclude_http-IsCheckOf env ip port http _
  check_protocol-IsCheckOf https = conclude-IsCheckOf env ip port https elite true _ (λ _. refl)
  check_protocol-IsCheckOf socks5 = conclude-IsCheckOf env ip port socks5 elite false _ (λ h. cc)
  check_protocol-IsCheckOf socks4 = conclude-IsCheckOf env ip port socks4 elite false _ (λ h. cc)
  check_protocol-IsCheckOf socks4a = conclude-IsCheckOf env ip port socks4a elite false _ (λ h. cc)
  check_protocol-IsCheckOf unknown = conclude_detected-IsCheckOf env ip port unknown _
  check_protocol-IsCheckOf (other []) = conclude_detected-IsCheckOf env ip port (other []) _
  check_protocol-IsCheckOf (other (c ∷ s)) = fail-IsCheckOf env ip port (other (c ∷ s)) _

  if-IsCheckOf :
      (b : Bool) (proto : Protocol) (r s : CheckResult)
      → IsCheckOf ip port proto r
      → IsCheckOf ip port proto s
      → IsCheckOf ip port proto (if b then r else s)
  if-IsCheckOf true proto r s x y = x
  if-IsCheckOf false proto r s x y = y

  -- Every result of CheckIPPort is for the address that was asked for. A success has no error, a
  -- known level of anonymity, SSL exactly if the protocol is https, the latency in milliseconds,
  -- and one judge; otherwise there is an error, and protocol, level, SSL and latency are as at
  -- the start.
  pub check_ip_port-IsCheckOf :
      (proto : Protocol) → IsCheckOf ip port proto (check_ip_port env cfg addr ip port proto)
  unfolding check_ip_port start
  check_ip_port-IsCheckOf proto =
      if-IsCheckOf _ proto _ _ (fail-IsCheckOf env ip port proto tcp_timed_out)
        (check_protocol-IsCheckOf proto)
