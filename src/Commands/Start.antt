-- ===== src/Commands/Start.antt =====
-- cmd/check.go, cmd/run.go, cmd/daemon.go and cmd/server.go: what the commands open before they
-- work. `none` is an exit with the status 1.
use mathlib.Core.Option
use go_proxy.Base.{Bool, true, false, not, ◌&&◌, Option, none, some, if◌then◌else◌}
use go_proxy.Base.Text.{Text}
use go_proxy.Base.Assoc.{Map}
use go_proxy.Model.Proxy.{Time}
use go_proxy.Model.Config.{Config}
use go_proxy.Model.Stats.{new_stats}
use go_proxy.Storage.Setup.{Statement, new_sqlite_store}
use go_proxy.Storage.Table.{Table}
use go_proxy.Storage.Committer.{Store}
use go_proxy.Storage.Exporter.{Exporter, System}
use go_proxy.Storage.Exporter.Setup.{new_exporter}
use go_proxy.Pipeline.Process.{Sinks}
use go_proxy.Commands.{CheckFlags, apply_flags}

-- The flags of `check` that say what is started.
pub record RunFlags : Type 0 where
  pub no_db : Bool
  pub quiet : Bool
  pub serve : Bool

-- The world that the commands start in: SQLite, the output directory, and its files.
pub record World : Type 0 where
  pub execute : Statement → Table → Option Table
  pub opens : Text → Option Table
  pub makes : Text → Bool
  pub files : Map Text

abbrev open_store : World → Config → Option (Store Table)
open_store w cfg = new_sqlite_store w.execute w.opens cfg.storage.db_path

-- What `check` works with: where the results go, and whether the API and the dashboard run.
pub record Started : Type 0 where
  pub config : Config
  pub sinks : Sinks
  pub api : Bool
  pub dashboard : Bool

abbrev is_open : Option (Store Table) → Bool
is_open none = false
is_open (some s) = true

-- Without the table the scan goes on; without the output directory it does not.
abbrev started : RunFlags → Time → Config → Option (Store Table) → Option Exporter → Option Started
started f now cfg store none = none
started f now cfg store (some e) = some (record {
  config = cfg;
  sinks = record { stats = new_stats now; exporter = some e; store = store };
  api = f.serve && is_open store;
  dashboard = f.quiet;
})

-- The start of `runCheck`, up to the worker pool.
unfoldable pub start_check : System → World → CheckFlags → RunFlags → Time → Config → Option Started
unfolding apply_flags new_sqlite_store new_exporter
start_check sys w flags f now base =
    let cfg = apply_flags flags base in
    started f now cfg (if not f.no_db && cfg.storage.save_sqlite then open_store w cfg else none)
      (new_exporter sys w.makes cfg.storage w.files)

-- The store and the exporter of `runAllInOne` and `runDaemon`; a failure of the exporter leaves
-- them without one.
unfoldable pub start_daemon : System → World → Config → Option (Store Table × Option Exporter)
unfolding new_sqlite_store new_exporter
start_daemon sys w cfg =
    Option.map (λ s. (s, new_exporter sys w.makes cfg.storage w.files)) (open_store w cfg)

-- The store of `runServer`.
unfoldable pub start_server : World → Config → Option (Store Table)
unfolding new_sqlite_store
start_server w cfg = open_store w cfg
