-- ===== src/Commands/Scan/Defs.antt =====
-- cmd/check.go, runCheck: what happens to the results of a scan until the command ends.
use mathlib.Core.Option
use go_proxy.Base.{Bool, List, [], ◌∷◌}
use go_proxy.Base.Float.{FloatOps}
use go_proxy.Model.Proxy.{Time, Proxy, CheckResult}
use go_proxy.Storage.Table.{Table, flush_batch, commit_single_proxy}
use go_proxy.Storage.Committer.{Store, receive, tick, flush, close}
use go_proxy.Storage.Exporter.{System}
use go_proxy.Storage.Exporter.Setup.{close_exporter}
use go_proxy.Pipeline.Process.{Sinks, process_result}

-- What happens in a scan, in the order in which it happens: a worker has the result of a check, or
-- the committer's goroutine receives a proxy or a tick.
pub data ScanEvent : Type 0 where
  checked : Time → CheckResult → ScanEvent
  received ticked : Time → ScanEvent

-- An operation of the committer over the table.
abbrev pub over_table :
    FloatOps
    → Bool
    → ((Time → List Proxy → Table → Table)
        → (Time → Proxy → Table → Table)
        → Time
        → Store Table
        → Store Table)
    → Time
    → Store Table
    → Store Table
over_table f commits operation now s =
    operation (flush_batch f commits) (λ t p table. (commit_single_proxy f commits t p table).0) now
      s

module _ (f : FloatOps) (sys : System) (commits : Bool) where
  unfoldable pub scan_event : ScanEvent → Sinks → Sinks
  unfolding process_result receive tick
  scan_event (checked now r) s = process_result f sys commits now r s
  scan_event (received now) s = record s {
    store = Option.map (over_table f commits receive now) s.store;
  }
  scan_event (ticked now) s = record s {
    store = Option.map (over_table f commits tick now) s.store;
  }

  unfoldable pub run_scan : List ScanEvent → Sinks → Sinks
  unfolding scan_event
  run_scan [] s = s
  run_scan (e ∷ more) s = run_scan more (scan_event e s)

  -- The end of `runCheck`, once the workers have stopped: Flush and Close of the store, and Close
  -- of the exporter.
  unfoldable pub finish_scan : Time → Sinks → Sinks
  unfolding flush close close_exporter
  finish_scan now s = record s {
    exporter = Option.map close_exporter s.exporter;
    store =
        Option.map (λ t. over_table f commits close now (over_table f commits flush now t)) s.store;
  }
