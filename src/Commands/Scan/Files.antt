-- ===== src/Commands/Scan/Files.antt =====
-- cmd/check.go: the files and the counters after a scan.
use mathlib.Core.Option
use go_proxy.Base.{
  ◌≡◌, ◌≢◌, refl, sym, ap, ◌∙◌, Bool, true, some, List, [], ◌∷◌, ◌++◌, if◌then◌else◌, All,
  Bool-cases, inl, inr,
}
use go_proxy.Base.Text.{Text, codes}
use go_proxy.Base.Float.{FloatOps}
use go_proxy.Model.Proxy.{Time, Proxy, CheckResult}
use go_proxy.Model.Stats.{record_result}
use go_proxy.Model.Stats.Counts.{record_all}
use go_proxy.Storage.Exporter.{Exporter, System, content, write_alive}
use go_proxy.Storage.Exporter.Setup.{close_exporter}
use go_proxy.Storage.Exporter.Lines.{lines_for}
use go_proxy.Storage.Exporter.Appends.{terminated}
use go_proxy.Storage.Exporter.Contents.{live_entries, write_each, content-write_each}
use go_proxy.Pipeline.Process.{Sinks, export_to, process_result, proxy_of_result}
use go_proxy.Commands.Scan.Defs.{
  ScanEvent, checked, received, ticked, scan_event, run_scan, finish_scan,
}

-- The results of a scan, in the order in which the workers have them.
abbrev pub results_of : List ScanEvent → List CheckResult
results_of [] = []
results_of (checked now r ∷ more) = r ∷ results_of more
results_of (received now ∷ more) = results_of more
results_of (ticked now ∷ more) = results_of more

module _ (f : FloatOps) where
  -- The live proxies of a scan, in this order.
  abbrev pub live_proxies : List ScanEvent → List Proxy
  live_proxies [] = []
  live_proxies (checked now r ∷ more) =
      if r.success then proxy_of_result f now r ∷ live_proxies more else live_proxies more
  live_proxies (received now ∷ more) = live_proxies more
  live_proxies (ticked now ∷ more) = live_proxies more

  all_alive : (events : List ScanEvent) → All (λ p. p.is_alive ≡ true) (live_proxies events)
  unfolding proxy_of_result
  all_alive [] = tt
  all_alive (checked now r ∷ more) = elim (Bool-cases r.success) [
    | inl e ↦ rw e (refl, all_alive more)
    | inr e ↦ rw e (all_alive more)
  ]
  all_alive (received now ∷ more) = all_alive more
  all_alive (ticked now ∷ more) = all_alive more

  module _ (sys : System) (commits : Bool) where
    stats_after :
        (events : List ScanEvent) (s : Sinks)
        → (run_scan f sys commits events s).stats ≡ record_all (results_of events) s.stats
    unfolding run_scan scan_event process_result record_all
    stats_after [] s = refl
    stats_after (checked now r ∷ more) s =
        let next = process_result f sys commits now r s in
        let here : next.stats ≡ record_result r s.stats = elim (Bool-cases r.success) [
          | inl e ↦ rw e refl
          | inr e ↦ rw e refl
        ] in
        stats_after more next ∙ ap (record_all (results_of more)) here
    stats_after (received now ∷ more) s =
        stats_after more (scan_event f sys commits (received now) s)
    stats_after (ticked now ∷ more) s = stats_after more (scan_event f sys commits (ticked now) s)

    exporter_after :
        (events : List ScanEvent) (s : Sinks) (e : Exporter)
        → s.exporter ≡ some e
        → (run_scan f sys commits events s).exporter ≡ some (write_each sys (live_proxies events) e)
    unfolding run_scan scan_event process_result write_each
    exporter_after [] s e h = h
    exporter_after (checked now r ∷ more) s e h =
        let p = proxy_of_result f now r in
        let next = process_result f sys commits now r s in
        let rest = live_proxies more in
        elim (Bool-cases r.success) [
          | inl live ↦
              let written : next.exporter ≡ some (write_alive sys p e) =
                rw live (ap (export_to sys p) h) in
              let listed = ap (λ b. if b then p ∷ rest else rest) live in
              exporter_after more next (write_alive sys p e) written
              ∙ ap (λ l. some (write_each sys l e)) (sym listed)
          | inr dead ↦
              let kept : next.exporter ≡ some e = rw dead h in
              let listed = ap (λ b. if b then p ∷ rest else rest) dead in
              exporter_after more next e kept ∙ ap (λ l. some (write_each sys l e)) (sym listed)
        ]
    exporter_after (received now ∷ more) s e h =
        exporter_after more (scan_event f sys commits (received now) s) e h
    exporter_after (ticked now ∷ more) s e h =
        exporter_after more (scan_event f sys commits (ticked now) s) e h

-- What a scan leaves in a text file and in the counters.
pub record Exports (f : FloatOps) (q : Text) (events : List ScanEvent) (e : Exporter)
    (before after : Sinks) : Type 0 where
  pub exporter : Exporter
  pub kept : after.exporter ≡ some exporter
  pub file :
      content q exporter
      ≡ content q e
        ++ terminated
            (lines_for q (live_entries e.split_by_country e.split_by_type (live_proxies f events)))
  pub counted : after.stats ≡ record_all (results_of events) before.stats

-- The files and the counters of a scan do not depend on the database. Whether transactions
-- commit or fail, and whenever the committer runs: at the end of the check command every text
-- file holds what it held before and then exactly the lines of the live proxies, in the order in which
-- the workers found them, and the counters are those of the results of the workers. (For a
-- file that can be opened, other than the JSON lines and the CSV file.)
pub finish_scan-Exports :
    (f : FloatOps) (sys : System) (commits : Bool) (now : Time) (q : Text)
    → sys.opens q ≡ true
    → q ≢ codes "proxies.jsonl"
    → q ≢ codes "proxies.csv"
    → (events : List ScanEvent) (s : Sinks) (e : Exporter) → s.exporter ≡ some e
    → Exports f q events e s (finish_scan f sys commits now (run_scan f sys commits events s))
unfolding finish_scan close_exporter
finish_scan-Exports f sys commits now q usable nj nc events s e h =
    let written = write_each sys (live_proxies f events) e in
    record {
      exporter = close_exporter written;
      kept = ap (Option.map close_exporter) (exporter_after f sys commits events s e h);
      file =
          content-write_each sys q usable nj nc (live_proxies f events) e e.split_by_country
            e.split_by_type refl refl (all_alive f events);
      counted = stats_after f sys commits events s;
    }
