-- ===== src/Server/Routes.antt =====
-- pkg/server/server.go, NewAPIServer: which handler answers a request. As net/http documents, the
-- pattern "/" takes every path that no other pattern is; the patterns have no other slash at
-- their end.
use go_proxy.Base.{Option, none, some, [], ◌∷◌, if◌then◌else◌}
use go_proxy.Base.Float.{FloatOps}
use go_proxy.Base.Text.{Text, codes, is_empty, text_eq}
use go_proxy.Base.Assoc.{Map, lookup}
use go_proxy.Model.Proxy.{Time}
use go_proxy.Model.Stats.{Stats}
use go_proxy.Net.Header.{Header}
use go_proxy.Checker.Defs.{Env}
use go_proxy.Storage.Table.{Table, CountCache}
use go_proxy.Server.Response.{Response, text_response}
use go_proxy.Server.Pool.{Formats, Answer, handle_proxies, handle_random, handle_top}
use go_proxy.Server.Check.{Target, handle_test}
use go_proxy.Server.Export.{handle_export}
use go_proxy.Server.Metrics.{
  Decimals, handle_stats, handle_stats_history, handle_stats_breakdown, handle_metrics,
  handle_healthz, handle_dashboard, cors_middleware,
}
use go_proxy.Server.Echo.{get_client_ip, handle_judge_json, handle_judge_ip, handle_judge_azenv}

-- The handlers.
pub data Route : Type 0 where
  judge_json judge_ip judge_azenv : Route
  proxies random stats stats_history stats_breakdown test stream export top : Route
  metrics healthz dashboard : Route

-- The patterns of the mux but "/"
abbrev pub patterns : Map Route
patterns =
    (codes "/json", judge_json)
    ∷ (codes "/ip", judge_ip)
    ∷ (codes "/judge", judge_json)
    ∷ (codes "/azenv", judge_azenv)
    ∷ (codes "/api/v1/proxies", proxies)
    ∷ (codes "/api/v1/random", random)
    ∷ (codes "/api/v1/stats", stats)
    ∷ (codes "/api/v1/stats/history", stats_history)
    ∷ (codes "/api/v1/stats/breakdown", stats_breakdown)
    ∷ (codes "/api/v1/test", test)
    ∷ (codes "/api/v1/stream", stream)
    ∷ (codes "/api/v1/export", export)
    ∷ (codes "/api/v1/top", top)
    ∷ (codes "/metrics", metrics)
    ∷ (codes "/healthz", healthz)
    ∷ []

unfoldable pub route_of : Text → Route
unfolding lookup
route_of path = elim (lookup path patterns) [ none ↦ dashboard | some r ↦ r ]

-- The address of `NewAPIServer`
unfoldable pub api_address : Text → Text
api_address addr = if is_empty addr then codes ":8080" else addr

pub record Request : Type 0 where
  pub method : Text
  pub path : Text
  pub get : Text → Text
  pub header : Header
  pub remote : Text

-- What the server holds, and what it asks of other packages.
pub record Backend : Type 0 where
  pub float_ops : FloatOps
  pub formats : Formats
  pub decimals : Decimals float_ops
  pub split_host_port : Text → Option (Text × Text)
  pub parse_url : Text → Option (Text × Text × Text)
  pub checks : Target → Env × Text
  pub page : Text
  pub counters : Option Stats
  pub cache : CountCache
  pub database : Answer Table

-- What comes of a request: a response, a stream of events, or a panic of the handler, which net/http
-- ends with the connection.
pub data Served : Type 0 where
  answered : Response → Served
  streaming panicked : Served

abbrev or_panic : Option Response → Served
or_panic none = panicked
or_panic (some r) = answered r

-- The handler of a route, at the time `now`; in a request the database answers or fails as a whole.
unfoldable pub handle : Route → Time → Request → Backend → Served × CountCache
unfolding handle_judge_json handle_judge_ip handle_judge_azenv handle_proxies handle_random
    handle_stats handle_stats_history handle_stats_breakdown handle_test handle_export handle_top
    handle_metrics handle_dashboard
handle judge_json now r b =
    (answered (handle_judge_json (get_client_ip b.split_host_port r.remote) r.header now), b.cache)
handle judge_ip now r b =
    (answered (handle_judge_ip (get_client_ip b.split_host_port r.remote)), b.cache)
handle judge_azenv now r b =
    (answered (handle_judge_azenv (get_client_ip b.split_host_port r.remote) r.header), b.cache)
handle proxies now r b = (answered (handle_proxies b.formats r.get b.database), b.cache)
handle random now r b = (answered (handle_random r.get now b.database), b.cache)
handle stats now r b =
    let (response, cache) = handle_stats b.float_ops now b.counters b.cache b.database in
    (answered response, cache)
handle stats_history now r b = (or_panic (handle_stats_history b.counters), b.cache)
handle stats_breakdown now r b =
    (answered (handle_stats_breakdown b.database b.database b.database), b.cache)
handle test now r b = (answered (handle_test b.parse_url b.checks r.get), b.cache)
handle stream now r b = (streaming, b.cache)
handle export now r b = (answered (handle_export b.formats r.get now b.database), b.cache)
handle top now r b = (answered (handle_top r.get b.database), b.cache)
handle metrics now r b =
    let (response, cache) =
      handle_metrics b.float_ops b.decimals now b.counters b.cache b.database in
    (answered response, cache)
handle healthz now r b = (answered handle_healthz, b.cache)
handle dashboard now r b = (answered (handle_dashboard b.page r.path), b.cache)

abbrev with_cors : Text → Served → Served
with_cors method (answered r) = answered (cors_middleware method r)
with_cors method streaming = streaming
with_cors method panicked = panicked

-- The handler of the server, `corsMiddleware(mux)`. The middleware answers an OPTIONS request
-- itself; what it is given in the place of the response of the mux has no effect.
unfoldable pub serve : Time → Request → Backend → Served × CountCache
unfolding cors_middleware route_of handle text_eq
serve now r b =
    let (served, cache) = handle (route_of r.path) now r b in
    if text_eq r.method (codes "OPTIONS")
    then (answered (cors_middleware r.method (text_response [])), b.cache)
    else (with_cors r.method served, cache)
