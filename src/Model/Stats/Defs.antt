-- ===== src/Model/Stats/Defs.antt =====
-- pkg/model/stats.go: the state of the collector and its operations.
use go_proxy.Base.{
  ℕ, zero, suc, ◌+◌, ◌-◌, ◌/◌, ◌%◌, ◌^◌, Option, none, some, List, [], ◌∷◌, ltb, ◌==◌,
  if◌then◌else◌, get_or, set,
}
use go_proxy.Base.Int.{ℤ, pos, ◌-ℤ◌}
use go_proxy.Base.Text.{Text, is_empty}
use go_proxy.Base.Assoc.{Map, lookup, insert}
use go_proxy.Base.Float.{Float64, FloatOps}
use go_proxy.Model.Proxy.{
  Time, Protocol, http, https, socks4, socks4a, socks5, Anonymity, elite, anonymous, transparent,
  CheckResult,
}

abbrev pub history_size : ℕ
history_size = 120

pub record HistoryPoint : Type 0 where
  pub timestamp : ℤ
  pub alive : ℕ
  pub scanned : ℕ
  pub speed_ips : Float64

pub record Stats : Type 0 where
  pub total_queued : ℕ
  pub total_scanned : ℕ
  pub total_alive : ℕ
  pub total_dead : ℕ
  pub total_timeout : ℕ
  pub total_error : ℕ
  pub http_alive : ℕ
  pub https_alive : ℕ
  pub socks4_alive : ℕ
  pub socks5_alive : ℕ
  pub elite_alive : ℕ
  pub anonymous_alive : ℕ
  pub transparent_alive : ℕ
  pub start_time : Time
  pub country_counts : Map ℕ
  pub history : List HistoryPoint
  pub history_idx : ℕ

-- `atomic.AddInt64(&x, 1)`
abbrev pub inc64 : ℕ → ℕ
inc64 x = (x + 1) % 2 ^ 64

-- The loop that fills the history, over the index and the rounds left.
prefill : ℕ → ℕ → ℕ → List HistoryPoint
prefill now i zero = []
prefill now i (suc n) =
    record { timestamp = pos now -ℤ pos (history_size - i); alive = 0; scanned = 0; speed_ips = 0 }
    ∷ prefill now (i + 1) n

-- `NewStats` at the time `now`
unfoldable pub new_stats : Time → Stats
unfolding prefill
new_stats now = record {
  total_queued = 0;
  total_scanned = 0;
  total_alive = 0;
  total_dead = 0;
  total_timeout = 0;
  total_error = 0;
  http_alive = 0;
  https_alive = 0;
  socks4_alive = 0;
  socks5_alive = 0;
  elite_alive = 0;
  anonymous_alive = 0;
  transparent_alive = 0;
  start_time = now;
  country_counts = [];
  history = prefill (now / 1_000_000_000) 0 history_size;
  history_idx = 0;
}

-- `IncQueued`
unfoldable pub inc_queued : Stats → Stats
inc_queued s = record s { total_queued = inc64 s.total_queued }

-- The switches of `RecordResult`.
unfoldable pub count_protocol : Protocol → Stats → Stats
count_protocol http s = record s { http_alive = inc64 s.http_alive }
count_protocol https s = record s { https_alive = inc64 s.https_alive }
count_protocol socks4 s = record s { socks4_alive = inc64 s.socks4_alive }
count_protocol socks4a s = record s { socks4_alive = inc64 s.socks4_alive }
count_protocol socks5 s = record s { socks5_alive = inc64 s.socks5_alive }
count_protocol _ s = s

unfoldable pub count_anonymity : Anonymity → Stats → Stats
count_anonymity elite s = record s { elite_alive = inc64 s.elite_alive }
count_anonymity anonymous s = record s { anonymous_alive = inc64 s.anonymous_alive }
count_anonymity transparent s = record s { transparent_alive = inc64 s.transparent_alive }
count_anonymity _ s = s

-- `m[k]` where a missing key reads as 0
abbrev pub count_of : Text → Map ℕ → ℕ
count_of k m = elim (lookup k m) [ none ↦ 0 | some n ↦ n ]

unfoldable pub count_country : Text → Stats → Stats
count_country code s = if is_empty code then s else record s {
  country_counts = insert code (inc64 (count_of code s.country_counts)) s.country_counts;
}

-- `RecordResult`
unfoldable pub record_result : CheckResult → Stats → Stats
unfolding count_protocol count_anonymity count_country
record_result r s =
    let s1 = record s { total_scanned = inc64 s.total_scanned } in
    if r.success
    then count_country r.country_code (
        count_anonymity r.anonymity
          (count_protocol r.protocol (record s1 { total_alive = inc64 s1.total_alive })))
    else record s1 { total_dead = inc64 s1.total_dead }

-- `Speed` at the time `now`
unfoldable pub speed : FloatOps → Time → Stats → Float64
speed f now s =
    let elapsed = f.seconds (pos now -ℤ pos s.start_time) in
    if f.lt (f.of_int (pos 0)) elapsed
    then f.div (f.of_int (pos s.total_scanned)) elapsed
    else f.of_int (pos 0)

-- `int(idx) % historySize` as an index, for the bit pattern of an int64: `none` is the panic on
-- a negative index.
unfoldable pub slot : ℕ → Option ℕ
slot idx =
    if ltb idx (2 ^ 63)
    then some (idx % history_size)
    else if (2 ^ 64 - idx) % history_size == 0
    then some 0
    else none

-- `PushHistoryPoint` at the time `now`
unfoldable pub push_history_point : FloatOps → Time → Stats → Option Stats
unfolding slot speed
push_history_point f now s =
    let idx = inc64 s.history_idx in
    elim (slot idx) [
      | none ↦ none
      | some i ↦ some (record s {
        history_idx = idx;
        history = set s.history i (record {
          timestamp = pos (now / 1_000_000_000);
          alive = s.total_alive;
          scanned = s.total_scanned;
          speed_ips = speed f now s;
        });
      })
    ]

abbrev pub no_point : HistoryPoint
no_point = record { timestamp = pos 0; alive = 0; scanned = 0; speed_ips = 0 }

-- The loop of `GetHistory`, over the index and the rounds left.
unfoldable pub collect : List HistoryPoint → ℕ → ℕ → ℕ → Option (List HistoryPoint)
unfolding slot
collect h idx i zero = some []
collect h idx i (suc n) =
    let rest = collect h idx (i + 1) n in
    elim (slot ((idx + i + 1) % 2 ^ 64)) [
      | none ↦ none
      | some k ↦ elim rest [ none ↦ none | some ps ↦ some (get_or h k no_point ∷ ps) ]
    ]

-- `GetHistory`
unfoldable pub get_history : Stats → Option (List HistoryPoint)
unfolding collect
get_history s = collect s.history s.history_idx 0 history_size

-- What `Snapshot` puts into its map.
pub record Snapshot : Type 0 where
  pub total_queued : ℕ
  pub total_scanned : ℕ
  pub total_alive : ℕ
  pub total_dead : ℕ
  pub speed_ips_sec : Float64
  pub uptime_seconds : ℤ
  pub http_alive : ℕ
  pub https_alive : ℕ
  pub socks4_alive : ℕ
  pub socks5_alive : ℕ
  pub elite_alive : ℕ
  pub anonymous_alive : ℕ
  pub transparent_alive : ℕ
  pub top_countries : Map ℕ

-- `Snapshot` at the time `now`
unfoldable pub snapshot : FloatOps → Time → Stats → Snapshot
snapshot f now s =
    let elapsed = f.seconds (pos now -ℤ pos s.start_time) in
    record {
      total_queued = s.total_queued;
      total_scanned = s.total_scanned;
      total_alive = s.total_alive;
      total_dead = s.total_dead;
      speed_ips_sec =
          if f.lt (f.of_int (pos 0)) elapsed
          then f.div (f.of_int (pos s.total_scanned)) elapsed
          else f.of_int (pos 0);
      uptime_seconds = f.to_int elapsed;
      http_alive = s.http_alive;
      https_alive = s.https_alive;
      socks4_alive = s.socks4_alive;
      socks5_alive = s.socks5_alive;
      elite_alive = s.elite_alive;
      anonymous_alive = s.anonymous_alive;
      transparent_alive = s.transparent_alive;
      top_countries = s.country_counts;
    }
