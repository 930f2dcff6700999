-- ===== src/Samples.antt =====
-- Values that the tests share.
pub mod Network
use go_proxy.Base.{ℕ, ◌+◌, ◌-◌, ◌*◌, ◌/◌, Bool, true, false, List, [], ◌∷◌, ltb, min}
use go_proxy.Base.Int.{pos, pos_part}
use go_proxy.Base.Text.{Text, codes}
use go_proxy.Base.Float.{FloatOps}
use go_proxy.Storage.Exporter.{System}
use go_proxy.Model.Proxy.{Protocol, http, socks5, elite, Proxy, CheckResult, no_error}

-- Numbers without fractions, in the place of floating point numbers.
abbrev pub whole_numbers : FloatOps
whole_numbers = record {
  of_int = pos_part;
  add = λ a b. a + b;
  sub = λ a b. a - b;
  mul = λ a b. a * b;
  div = λ a b. a / b;
  lt = ltb;
  to_int = pos;
  seconds = λ d. pos_part d / 1_000_000_000;
  hours = λ d. pos_part d / 3_600_000_000_000;
  decimal = λ digits places. digits;
  log10 = λ a. a;
  exp = λ a. a;
  pow = λ a b. a * b;
  min_of = min;
  round = λ a. a;
  round2 = λ a. a;
}

abbrev pub proxy_of : Text → ℕ → Protocol → Bool → Proxy
proxy_of ip port protocol alive = record {
  id = pos 0;
  ip = ip;
  port = pos port;
  protocol = protocol;
  anonymity = elite;
  country = codes "Vietnam";
  country_code = codes "VN";
  city = [];
  asn = [];
  org = [];
  latency = pos 120_000_000;
  latency_ms = pos 120;
  latency_p50 = pos 0;
  latency_p95 = pos 0;
  speed_kbps = 0;
  ssl = false;
  target_ok = false;
  score = pos 90;
  uptime_percent = 0;
  success_checks = 1;
  failed_checks = 0;
  consecutive_fail = 0;
  judge_count = 1;
  ip_ver = 0;
  last_alive = 5;
  last_checked = 5;
  first_seen = 5;
  is_alive = alive;
}

abbrev pub live_proxy : Proxy
live_proxy = proxy_of (codes "1.2.3.4") 1080 socks5 true

abbrev pub dead_proxy : Proxy
dead_proxy = proxy_of (codes "5.6.7.8") 80 http false

abbrev pub result_of : Protocol → Bool → CheckResult
result_of protocol success = record {
  ip = codes "1.2.3.4";
  port = pos 80;
  protocol = protocol;
  anonymity = elite;
  latency = pos 120_000_000;
  latency_ms = pos 120;
  speed_kbps = 0;
  ssl = false;
  target_ok = false;
  country = codes "Vietnam";
  country_code = codes "VN";
  city = [];
  asn = [];
  org = [];
  judge_count = 1;
  error = no_error;
  error_msg = [];
  success = success;
}

abbrev pub results : List CheckResult
results = result_of http true ∷ result_of socks5 false ∷ result_of socks5 true ∷ []

abbrev pub machine : System
machine = record {
  opens = λ path. true;
  json = λ p. p.ip;
  csv_line = λ cells. [];
  rfc3339 = λ t. [];
}
