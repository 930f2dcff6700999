-- ===== src/Pipeline/Process.antt =====
-- pkg/pipeline/pipeline.go, processJob: a checked job goes to the counters, and a live proxy to the
-- files and to the database.
use go_proxy.Base.{Bool, true, Option, none, some, if◌then◌else◌}
use go_proxy.Base.Int.{pos}
use go_proxy.Base.Float.{FloatOps}
use go_proxy.Model.Proxy.{Time, Proxy, CheckResult}
use go_proxy.Model.Stats.{Stats, record_result}
use go_proxy.Checker.Score.Defs.{calculate_score}
use go_proxy.Storage.Table.{Table, flush_batch, commit_single_proxy}
use go_proxy.Storage.Committer.{Store, save_or_update_proxy}
use go_proxy.Storage.Exporter.{Exporter, System, write_alive}

-- Where results go; a nil exporter or store is `none`.
pub record Sinks : Type 0 where
  pub stats : Stats
  pub exporter : Option Exporter
  pub store : Option (Store Table)

-- The proxy that `processJob` builds from a result, without its score.
unfoldable pub unscored_proxy : Time → CheckResult → Proxy
unscored_proxy now r = record {
  id = pos 0;
  ip = r.ip;
  port = r.port;
  protocol = r.protocol;
  anonymity = r.anonymity;
  country = r.country;
  country_code = r.country_code;
  city = r.city;
  asn = r.asn;
  org = r.org;
  latency = r.latency;
  latency_ms = r.latency_ms;
  latency_p50 = pos 0;
  latency_p95 = pos 0;
  speed_kbps = 0;
  ssl = r.ssl;
  target_ok = r.target_ok;
  score = pos 0;
  uptime_percent = 0;
  success_checks = 1;
  failed_checks = 0;
  consecutive_fail = 0;
  judge_count = r.judge_count;
  ip_ver = 0;
  last_alive = now;
  last_checked = 0;
  first_seen = now;
  is_alive = true;
}

-- `proxy.Score = checker.CalculateScore(proxy)`
unfoldable pub proxy_of_result : FloatOps → Time → CheckResult → Proxy
unfolding unscored_proxy calculate_score
proxy_of_result f now r =
    let p = unscored_proxy now r in record p { score = calculate_score f now p }

abbrev pub export_to : System → Proxy → Option Exporter → Option Exporter
export_to sys p none = none
export_to sys p (some e) = some (write_alive sys p e)

-- `SaveOrUpdateProxy` over the table; `commits` says whether a transaction succeeds now.
abbrev pub save_to : FloatOps → Bool → Time → Proxy → Option (Store Table) → Option (Store Table)
save_to f commits now p none = none
save_to f commits now p (some s) = some (
    save_or_update_proxy (flush_batch f commits)
      (λ t q table. (commit_single_proxy f commits t q table).0) now p s)

-- `processJob` after the check; the log line is left out.
unfoldable pub process_result : FloatOps → System → Bool → Time → CheckResult → Sinks → Sinks
unfolding record_result proxy_of_result write_alive save_or_update_proxy
process_result f sys commits now r s =
    let counted = record s { stats = record_result r s.stats } in
    if r.success
    then (let p = proxy_of_result f now r in
        record counted {
          exporter = export_to sys p s.exporter;
          store = save_to f commits now p s.store;
        })
    else counted
