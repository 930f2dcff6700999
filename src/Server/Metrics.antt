-- ===== src/Server/Metrics.antt =====
-- pkg/server/server.go: the handlers about the scan and the server, and the routes.
use go_proxy.Base.{Option, none, some, [], ◌∷◌, ◌++◌, if◌then◌else◌}
use mathlib.Core.Option
use go_proxy.Base.Int.{pos}
use go_proxy.Base.Float.{Float64, FloatOps}
use go_proxy.Base.Text.{Text, codes, text_eq, format_nat}
use go_proxy.Base.Assoc.{Map}
use go_proxy.Model.Proxy.{Time}
use go_proxy.Model.Stats.{Stats, Snapshot, snapshot, get_history}
use go_proxy.Storage.Table.{
  Table, CountCache, total_alive_count, count_by_protocol, count_by_country, count_by_anonymity,
}
use go_proxy.Server.Pool.{Answer, found, failed_with}
use go_proxy.Server.Response.{
  Response, stats_of, history, breakdown, text, json_response, content_type, http_error,
}

-- The table, where its statements succeed.
abbrev pub table_of : Answer Table → Option Table
table_of (found t) = some t
table_of (failed_with message) = none

module _ (f : FloatOps) where
  abbrev pub live_stats : Time → Option Stats → Option Snapshot
  live_stats now none = none
  live_stats now (some s) = some (snapshot f now s)

  -- `handleStats` at the time `now`; an error of the query is ignored.
  unfoldable pub handle_stats :
      Time → Option Stats → CountCache → Answer Table → Response × CountCache
  unfolding total_alive_count snapshot
  handle_stats now stats cache t =
      let (n, c) = total_alive_count now cache (table_of t) in
      (json_response (stats_of n (live_stats now stats) now), c)

  -- What `handleMetrics` prints of numbers: %.0f and %.2f.
  pub record Decimals : Type 0 where
    pub whole_number : Float64 → Text
    pub two_decimals : Float64 → Text

  -- `writeMetric`, with the value in print
  unfoldable pub write_metric : Text → Text → Text → Text → Text
  write_metric help kind name value =
      codes "# HELP "
      ++ name
      ++ codes " "
      ++ help
      ++ codes "\n# TYPE "
      ++ name
      ++ codes " "
      ++ kind
      ++ codes "\n"
      ++ name
      ++ codes " "
      ++ value
      ++ codes "\n\n"

  abbrev pub metric_values : Time → Option Stats → Float64 × Float64 × Float64 × Float64
  metric_values now none = (f.decimal 0 0, f.decimal 0 0, f.decimal 0 0, f.decimal 0 0)
  metric_values now (some s) =
      let snap = snapshot f now s in
      (
        f.of_int (pos snap.total_scanned),
        f.of_int (pos snap.total_alive),
        f.of_int (pos snap.total_dead),
        snap.speed_ips_sec,
      )

  -- `handleMetrics` at the time `now`; an error of the query is ignored.
  unfoldable pub handle_metrics :
      Decimals → Time → Option Stats → CountCache → Answer Table → Response × CountCache
  unfolding total_alive_count snapshot write_metric format_nat
  handle_metrics d now stats cache t =
      let (n, c) = total_alive_count now cache (table_of t) in
      let (scanned, alive, dead, rate) = metric_values now stats in
      (
        record {
          status = 200;
          header = content_type (codes "text/plain; version=0.0.4");
          body = text (
              write_metric (codes "Total active proxies in SQLite pool") (codes "gauge")
                (codes "goproxy_pool_alive_total") (format_nat n)
              ++ write_metric (codes "Total targets scanned") (codes "counter")
                  (codes "goproxy_scanned_total") (d.whole_number scanned)
              ++ write_metric (codes "Total alive proxies found") (codes "counter")
                  (codes "goproxy_alive_total") (d.whole_number alive)
              ++ write_metric (codes "Total dead targets") (codes "counter")
                  (codes "goproxy_dead_total") (d.whole_number dead)
              ++ write_metric (codes "Current scan rate IPs/sec") (codes "gauge")
                  (codes "goproxy_scan_rate_ips_per_second") (d.two_decimals rate));
        },
        c,
      )

-- `handleStatsHistory`; `none` is the panic of GetHistory.
unfoldable pub handle_stats_history : Option Stats → Option Response
unfolding get_history
handle_stats_history none = some (json_response (history []))
handle_stats_history (some s) = Option.map (λ ps. json_response (history ps)) (get_history s)

-- `handleStatsBreakdown`: the first of the three queries that fails ends it.
unfoldable pub handle_stats_breakdown : Answer Table → Answer Table → Answer Table → Response
unfolding count_by_protocol count_by_country count_by_anonymity
handle_stats_breakdown (failed_with message) countries levels = http_error message 500
handle_stats_breakdown (found t) (failed_with message) levels = http_error message 500
handle_stats_breakdown (found t) (found u) (failed_with message) = http_error message 500
handle_stats_breakdown (found t) (found u) (found v) =
    json_response
      (breakdown (count_by_protocol t) (count_by_country (pos 10) u) (count_by_anonymity v))

-- `handleHealthz`
abbrev pub handle_healthz : Response
handle_healthz = record { status = 200; header = []; body = text (codes "OK") }

-- `handleDashboard`, with the embedded page
unfoldable pub handle_dashboard : Text → Text → Response
unfolding text_eq
handle_dashboard page path =
    if text_eq path (codes "/")
    then record {
      status = 200;
      header =
          (codes "Content-Type", codes "text/html; charset=utf-8")
          ∷ (codes "Cache-Control", codes "no-store")
          ∷ [];
      body = text page;
    }
    else http_error (codes "404 page not found") 404

abbrev pub cors_header : Map Text
cors_header =
    (codes "Access-Control-Allow-Origin", codes "*")
    ∷ (codes "Access-Control-Allow-Methods", codes "GET, POST, OPTIONS")
    ∷ (codes "Access-Control-Allow-Headers", codes "Content-Type, Authorization")
    ∷ []

-- `corsMiddleware`: the method of the request, and what the handler writes. No handler sets one
-- of the three fields.
unfoldable pub cors_middleware : Text → Response → Response
unfolding text_eq
cors_middleware method r =
    if text_eq method (codes "OPTIONS")
    then record { status = 200; header = cors_header; body = text [] }
    else record r { header = cors_header ++ r.header }
