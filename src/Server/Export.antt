-- ===== src/Server/Export.antt =====
-- pkg/server/server.go, handleExport: the pool as a file.
use go_proxy.Base.{true, [], ◌∷◌, ◌++◌, map, if◌then◌else◌}
use go_proxy.Base.Int.{pos}
use go_proxy.Base.Text.{Text, codes, text_eq, itoa}
use go_proxy.Base.Assoc.{Map}
use go_proxy.Model.Proxy.{Time, protocol_text, anonymity_text, Proxy, url_string}
use go_proxy.Storage.Table.{Table, ProxyFilter, query_proxies}
use go_proxy.Server.Response.{proxy_list, text, json, Response, http_error, print_lines}
use go_proxy.Server.Pool.{Formats, Answer, found, failed_with, comma}

unfoldable pub export_filter : (Text → Text) → ProxyFilter
export_filter get = record {
  protocol = get (codes "protocol");
  country_code = get (codes "country");
  anonymity = get (codes "anonymity");
  min_score = pos 0;
  max_latency = pos 0;
  only_alive = true;
  limit = pos 50000;
  offset = pos 0;
}

unfoldable pub export_line : Formats → Proxy → Text
unfolding protocol_text anonymity_text itoa
export_line fmt p = comma (protocol_text p.protocol) (
    comma p.ip (
      comma (itoa p.port) (
        comma (anonymity_text p.anonymity) (
          comma p.country_code (
            comma p.city (
              comma (itoa p.latency_ms) (
                comma (itoa p.score) (
                  comma (fmt.one_decimal p.uptime_percent)
                    (if p.ssl then codes "true" else codes "false")))))))))

-- The header of a file with the ending.
abbrev pub attachment : Formats → Time → Text → Text → Map Text
attachment fmt now ending kind =
    (
      codes "Content-Disposition",
      codes "attachment; filename=\"proxies_"
          ++ (fmt.file_time now ++ (b'.' ∷ (ending ++ codes "\""))),
    )
    ∷ (codes "Content-Type", kind)
    ∷ []

-- `handleExport` at the time `now`
unfoldable pub handle_export : Formats → (Text → Text) → Time → Answer Table → Response
unfolding export_filter query_proxies export_line url_string text_eq
handle_export fmt get now (failed_with message) = http_error message 500
handle_export fmt get now (found t) =
    let ps = query_proxies (export_filter get) t in
    let format = get (codes "format") in
    if text_eq format (codes "json")
    then record {
      status = 200;
      header = attachment fmt now (codes "json") (codes "application/json");
      body = json (proxy_list ps);
    }
    else if text_eq format (codes "csv")
    then record {
      status = 200;
      header = attachment fmt now (codes "csv") (codes "text/csv");
      body = text (
          print_lines (
            codes "protocol,ip,port,anonymity,country_code,city,latency_ms,score,uptime_percent,ssl"
            ∷ map (export_line fmt) ps));
    }
    else record {
      status = 200;
      header = attachment fmt now (codes "txt") (codes "text/plain");
      body = text (print_lines (map url_string ps));
    }
