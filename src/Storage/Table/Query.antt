-- ===== src/Storage/Table/Query.antt =====
-- pkg/storage/sqlite.go: the statements that read the table. Rows that ORDER BY ranks alike stay
-- in the order of the table.
use go_proxy.Base.{
  ℕ, ◌+◌, ◌-◌, ◌*◌, ◌%◌, Bool, true, not, ◌&&◌, ◌||◌, Option, none, some, List, [], ◌∷◌, map, ltb,
  ◌==◌, if◌then◌else◌, filter, length, take, drop, get_elem?,
}
use go_proxy.Base.Int.{ℤ, pos, negsuc, pos_part, ltb_ℤ, leb_ℤ, eqb_ℤ}
use go_proxy.Base.Text.{Text, codes, text_eq, to_upper, is_empty}
use go_proxy.Base.Counts.{order_counts}
use go_proxy.Base.Assoc.{Map, lookup, insert}
use go_proxy.Model.Proxy.{
  Time, Proxy, protocol_of_text, Anonymity, elite, anonymous, transparent, unknown_level,
}
use go_proxy.Storage.Table.Defs.{Row, Table}

pub record ProxyFilter : Type 0 where
  pub protocol : Text
  pub country_code : Text
  pub anonymity : Text
  pub min_score : ℤ
  pub max_latency : ℤ
  pub only_alive : Bool
  pub limit : ℤ
  pub offset : ℤ

-- A text filter that is neither empty nor "all".
abbrev pub is_set : Text → Bool
is_set s = not (is_empty s) && not (text_eq s (codes "all"))

-- The WHERE clause that `QueryProxies` builds.
unfoldable pub matches : ProxyFilter → Row → Bool
matches q r =
    (not q.only_alive || r.is_alive == 1)
    && (not (is_set q.protocol) || text_eq r.protocol q.protocol)
    && (not (is_set q.country_code) || text_eq r.country_code (to_upper q.country_code))
    && (not (is_set q.anonymity) || text_eq r.anonymity q.anonymity)
    && (not (ltb_ℤ (pos 0) q.min_score) || leb_ℤ q.min_score r.score)
    && (not (ltb_ℤ (pos 0) q.max_latency) || leb_ℤ r.latency_ms q.max_latency)

-- ORDER BY score DESC, latency_ms ASC: `a` may stand before `b`.
unfoldable pub ranks_before : Row → Row → Bool
ranks_before a b =
    ltb_ℤ b.score a.score || (eqb_ℤ a.score b.score && leb_ℤ a.latency_ms b.latency_ms)

unfoldable pub insert_ranked : Row → List Row → List Row
insert_ranked x [] = x ∷ []
insert_ranked x (r ∷ rs) = if ranks_before x r then x ∷ r ∷ rs else r ∷ insert_ranked x rs

unfoldable pub order_rows : List Row → List Row
unfolding insert_ranked
order_rows [] = []
order_rows (r ∷ rs) = insert_ranked r (order_rows rs)

abbrev pub limit_of : ProxyFilter → ℕ
limit_of q = if ltb_ℤ (pos 0) q.limit then pos_part q.limit else 100

-- The rows that the SELECT returns.
unfoldable pub select_rows : ProxyFilter → Table → List Row
select_rows q t =
    take (limit_of q) (drop (pos_part q.offset) (order_rows (filter (matches q) t.rows)))

-- `model.Anonymity(anon)`, for the four values that the program stores
unfoldable pub anonymity_of_text : Text → Anonymity
anonymity_of_text s =
    if text_eq s (codes "transparent")
    then transparent
    else if text_eq s (codes "anonymous")
    then anonymous
    else if text_eq s (codes "elite")
    then elite
    else unknown_level

-- The proxy that `rows.Scan` and the lines after it build.
unfoldable pub proxy_of_row : Row → Proxy
unfolding anonymity_of_text
proxy_of_row r = record {
  id = pos r.id;
  ip = r.ip;
  port = r.port;
  protocol = protocol_of_text r.protocol;
  anonymity = anonymity_of_text r.anonymity;
  country = r.country;
  country_code = r.country_code;
  city = r.city;
  asn = r.asn;
  org = r.org;
  latency = scale r.latency_ms;
  latency_ms = r.latency_ms;
  latency_p50 = pos 0;
  latency_p95 = pos 0;
  speed_kbps = 0;
  ssl = r.ssl == 1;
  target_ok = r.target_ok == 1;
  score = r.score;
  uptime_percent = r.uptime_percent;
  success_checks = r.success_checks;
  failed_checks = r.failed_checks;
  consecutive_fail = r.consecutive_fail;
  judge_count = 0;
  ip_ver = 0;
  last_alive = r.last_alive;
  last_checked = r.last_checked;
  first_seen = r.first_seen;
  is_alive = r.is_alive == 1;
}
  where
    scale : ℤ → ℤ
    scale (pos n) = pos (n * 1_000_000)
    scale (negsuc n) = negsuc ((n + 1) * 1_000_000 - 1)

-- `QueryProxies`
unfoldable pub query_proxies : ProxyFilter → Table → List Proxy
unfolding select_rows proxy_of_row
query_proxies q t = map proxy_of_row (select_rows q t)

abbrev pub any_filter : ProxyFilter
any_filter = record {
  protocol = [];
  country_code = [];
  anonymity = [];
  min_score = pos 0;
  max_latency = pos 0;
  only_alive = true;
  limit = pos 10;
  offset = pos 0;
}

-- `GetRandomAliveProxy` at the time `now`; `none` is the error.
unfoldable pub get_random_alive_proxy : Text → Text → Time → Table → Option Proxy
unfolding query_proxies
get_random_alive_proxy proto country now t =
    let good =
      query_proxies
        (record any_filter {
          protocol = proto;
          country_code = country;
          min_score = pos 50;
          limit = pos 20;
        })
        t in
    let proxies = if length good == 0 then query_proxies any_filter t else good in
    if length proxies == 0 then none else get_elem? proxies (now % length proxies)

-- SELECT COUNT(*) FROM proxies WHERE is_alive = 1
unfoldable pub count_alive : Table → ℕ
count_alive t = length (filter (λ r. r.is_alive == 1) t.rows)

-- The cached count of `TotalAliveCount`.
pub record CountCache : Type 0 where
  pub count : ℕ
  pub time : Time

-- `TotalAliveCount` at the time `now`: the count and the new cache. Without a table the SELECT
-- fails, and the count that goes with the error is 0.
unfoldable pub total_alive_count : Time → CountCache → Option Table → ℕ × CountCache
unfolding count_alive
total_alive_count now c t =
    if ltb now (c.time + 500_000_000) && not (c.time == 0) then (c.count, c) else counted t
  where
    counted : Option Table → ℕ × CountCache
    counted none = (0, c)
    counted (some t) = (count_alive t, record { count = count_alive t; time = now })

-- SELECT column, COUNT(*) … GROUP BY column, over the values of the column in the chosen rows.
unfoldable pub group_counts : List Text → Map ℕ
group_counts [] = []
group_counts (k ∷ ks) =
    let m = group_counts ks in insert k (elim (lookup k m) [ none ↦ 1 | some n ↦ n + 1 ]) m

-- `CountByProtocol`, `CountByAnonymity`
unfoldable pub count_by_protocol : Table → Map ℕ
unfolding group_counts
count_by_protocol t = group_counts (map (λ r. r.protocol) (filter (λ r. r.is_alive == 1) t.rows))

unfoldable pub count_by_anonymity : Table → Map ℕ
unfolding group_counts
count_by_anonymity t = group_counts (map (λ r. r.anonymity) (filter (λ r. r.is_alive == 1) t.rows))

-- `CountByCountry`
unfoldable pub count_by_country : ℤ → Table → Map ℕ
unfolding group_counts order_counts text_eq
count_by_country limit t = take (if leb_ℤ limit (pos 0) then 10 else pos_part limit) (
    order_counts (
      group_counts (
        map (λ r. r.country_code)
          (filter
            (λ r.
              r.is_alive == 1
              && (not (is_empty r.country_code) && not (text_eq r.country_code (codes "XX"))))
            t.rows))))
