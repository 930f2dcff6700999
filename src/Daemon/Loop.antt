-- ===== src/Daemon/Loop.antt =====
-- pkg/daemon/daemon.go, Run: a cycle at once, and one at every tick until the context is done.
use go_proxy.Base.{Option, List, [], ◌∷◌}
use go_proxy.Base.Float.{FloatOps}
use go_proxy.Storage.Table.{Table}
use go_proxy.Storage.Committer.{Store}
use go_proxy.Storage.Exporter.{Exporter, System}
use go_proxy.Daemon.Defs.{CommitterStep, Cycle, committer, recheck_pool}

-- What the select of `Run` takes; between two cycles the committer of the store goes on.
pub data Wake : Type 0 where
  done : Wake
  ticked : Cycle → Wake
  committed : CommitterStep → Wake

abbrev pub Pool : Type 0
Pool = Store Table × Option Exporter

module _ (f : FloatOps) (sys : System) where
  abbrev pub cycle : Cycle → Pool → Pool
  cycle c (store, exporter) = recheck_pool f c sys store exporter

  -- The loop over what the select takes; nothing happens after the context is done.
  unfoldable pub daemon_loop : List Wake → Pool → Pool
  unfolding recheck_pool committer
  daemon_loop [] p = p
  daemon_loop (done ∷ more) p = p
  daemon_loop (ticked c ∷ more) p = daemon_loop more (cycle c p)
  daemon_loop (committed s ∷ more) p = daemon_loop more (committer f (s ∷ []) p.0, p.1)

  -- `Run`
  unfoldable pub run_daemon : Cycle → List Wake → Pool → Pool
  unfolding daemon_loop recheck_pool
  run_daemon first wakes p = daemon_loop wakes (cycle first p)
