-- ===== src/Daemon/Clean.antt =====
-- pkg/daemon/daemon.go: what the cycles of the daemon leave in the table.
use go_proxy.Base.{◌≡◌, false, Option, List, take, All}
use go_proxy.Base.Float.{FloatOps}
use go_proxy.Model.Proxy.{Time, Proxy}
use go_proxy.Storage.Table.{Row, Table, is_purged}
use go_proxy.Storage.Table.Upsert.{IsValid}
use go_proxy.Storage.Committer.{Store}
use go_proxy.Storage.Exporter.{Exporter, System}
use go_proxy.Daemon.Defs.{Cycle, Tally, start_tally, recheck_all, by_priority}
use go_proxy.Daemon.Loop.{Wake, done}

-- A row that the purge of a cycle leaves.
abbrev pub IsKept : Time → Row → Type 0
IsKept now r = is_purged 5 172_800_000_000_000 now r ≡ false

-- What a cycle at the time `now` leaves.
pub record IsClean (now : Time) (t : Table) : Type 0 where
  pub valid : IsValid t
  pub all_kept : All (IsKept now) t.rows

-- What the cycle `c` makes of a store, by the proxies that its query finds.
module _ (f : FloatOps) (sys : System) (c : Cycle) (store : Store Table)
    (exporter : Option Exporter) where
  abbrev checked : List Proxy → Tally
  checked ps =
      recheck_all f c.saves c.time c.check (take c.before_done (by_priority f c.time ps))
        (start_tally store)

-- The context is not done.
abbrev pub IsGoing : Wake → Type 0
IsGoing done = ⊥
IsGoing _ = Unit
