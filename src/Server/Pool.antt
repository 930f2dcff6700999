-- ===== src/Server/Pool.antt =====
-- pkg/server/server.go: the handlers that answer from the table. The parameter `get` is the method
-- Get of the query of the request, and `none` for the table an error of the database with its
-- message.
pub mod Random
use go_proxy.Base.{
  ℕ, Bool, true, false, not, ◌&&◌, ◌||◌, Option, none, some, List, [], ◌∷◌, ◌++◌, map, length,
  if◌then◌else◌,
}
use go_proxy.Base.Int.{ℤ, pos, ltb_ℤ, leb_ℤ}
use go_proxy.Base.Float.{Float64}
use go_proxy.Base.Text.{
  Text, codes, text_eq, is_empty, contains, trim_space, to_lower, cut, itoa, atoi,
}
use go_proxy.Base.Assoc.{Map}
use go_proxy.Model.Proxy.{
  Time, Protocol, unknown, protocol_text, protocol_of_text, anonymity_text, Proxy, CheckResult,
  url_string,
}
use go_proxy.Model.Config.{default_config}
use go_proxy.Storage.Table.{Table, ProxyFilter, query_proxies, get_random_alive_proxy}
use go_proxy.Checker.Defs.{Env, check_ip_port}
use go_proxy.Server.Response.{
  page, top_page, one_proxy, proxy_list, checked, text, json, Response, content_type, json_response,
  text_response, http_error, print_lines,
}

-- What the handlers use of fmt and time: %.1f, and the time in the layout 20060102_150405.
pub record Formats : Type 0 where
  pub one_decimal : Float64 → Text
  pub file_time : Time → Text

-- The answer to a query of the database, or its error.
pub data Answer (A : Type 0) : Type 0 where
  found : A → Answer A
  failed_with : Text → Answer A

abbrev pub comma : Text → Text → Text
comma a b = a ++ (b',' ∷ b)

-- `limit <= 0 || limit > most`
abbrev pub limit_or : ℤ → ℤ → ℤ → ℤ
limit_or default most limit = if leb_ℤ limit (pos 0) || ltb_ℤ most limit then default else limit

-- The filter of `handleProxies`.
unfoldable pub proxies_filter : (Text → Text) → ProxyFilter
unfolding atoi text_eq
proxies_filter get = record {
  protocol = get (codes "protocol");
  country_code = get (codes "country");
  anonymity = get (codes "anonymity");
  min_score = (atoi (get (codes "min_score"))).value;
  max_latency = (atoi (get (codes "max_latency"))).value;
  only_alive = not (text_eq (get (codes "alive")) (codes "false"));
  limit = limit_or (pos 100) (pos 5000) (atoi (get (codes "limit"))).value;
  offset = (atoi (get (codes "offset"))).value;
}

-- A line of the CSV of `handleProxies`.
unfoldable pub proxy_line : Formats → Proxy → Text
unfolding protocol_text anonymity_text itoa
proxy_line fmt p = comma (protocol_text p.protocol) (
    comma p.ip (
      comma (itoa p.port) (
        comma (anonymity_text p.anonymity) (
          comma p.country_code (
            comma (itoa p.latency_ms) (comma (itoa p.score) (fmt.one_decimal p.uptime_percent)))))))

-- The page in the format that the request asks for.
unfoldable pub proxies_page : Formats → Text → ℤ → List Proxy → Response
unfolding text_eq url_string proxy_line
proxies_page fmt format offset ps =
    if text_eq format (codes "txt") || text_eq format (codes "text")
    then text_response (print_lines (map url_string ps))
    else if text_eq format (codes "csv")
    then record {
      status = 200;
      header =
          (codes "Content-Type", codes "text/csv")
          ∷ (codes "Content-Disposition", codes "attachment; filename=\"proxies.csv\"")
          ∷ [];
      body = text (
          print_lines (
            codes "protocol,ip,port,anonymity,country_code,latency_ms,score,uptime_percent"
            ∷ map (proxy_line fmt) ps));
    }
    else json_response (page (length ps) offset ps)

-- `handleProxies`
unfoldable pub handle_proxies : Formats → (Text → Text) → Answer Table → Response
unfolding proxies_filter query_proxies proxies_page atoi
handle_proxies fmt get (failed_with message) = http_error message 500
handle_proxies fmt get (found t) =
    proxies_page fmt (get (codes "format")) (atoi (get (codes "offset"))).value
      (query_proxies (proxies_filter get) t)

-- The proxy in the format that the request asks for.
unfoldable pub random_page : Text → Proxy → Response
unfolding text_eq url_string
random_page format p =
    if text_eq format (codes "json")
    then json_response (one_proxy p)
    else text_response (url_string p)

abbrev pub random_answer : Text → Option Proxy → Response
random_answer format none = http_error (codes "no alive proxies available") 404
random_answer format (some p) = random_page format p

-- `handleRandom` at the time `now`; an error of the database gives the same message.
unfoldable pub handle_random : (Text → Text) → Time → Answer Table → Response
unfolding get_random_alive_proxy random_page
handle_random get now (failed_with message) = random_answer (get (codes "format")) none
handle_random get now (found t) =
    random_answer (get (codes "format"))
      (get_random_alive_proxy (get (codes "protocol")) (get (codes "country")) now t)

unfoldable pub top_filter : (Text → Text) → ProxyFilter
unfolding atoi
top_filter get = record {
  protocol = [];
  country_code = [];
  anonymity = [];
  min_score = pos 60;
  max_latency = pos 0;
  only_alive = true;
  limit = limit_or (pos 20) (pos 100) (atoi (get (codes "limit"))).value;
  offset = pos 0;
}

-- `handleTop`
unfoldable pub handle_top : (Text → Text) → Answer Table → Response
unfolding top_filter query_proxies
handle_top get (failed_with message) = http_error message 500
handle_top get (found t) =
    let ps = query_proxies (top_filter get) t in json_response (top_page (length ps) ps)
