-- ===== src/Daemon/Defs.antt =====
-- pkg/daemon/daemon.go, NewDaemon, priorityScore and recheckPool. The workers of a cycle are
-- modelled by the order in which their checks end: that of the priorities. The committer goroutine
-- of the store runs at the same time: its steps between those of a cycle are given with the cycle.
use go_proxy.Base.{
  ℕ, ◌+◌, ◌*◌, Bool, true, false, Option, none, some, List, [], ◌∷◌, ◌++◌, if◌then◌else◌, take,
}
use go_proxy.Base.Int.{ℤ, pos, leb_ℤ, ◌-ℤ◌}
use go_proxy.Base.Float.{Float64, FloatOps}
use go_proxy.Model.Proxy.{Time, is_zero_time, Proxy, CheckResult}
use go_proxy.Checker.Score.Defs.{calculate_score}
use go_proxy.Storage.Table.{
  Table, ProxyFilter, query_proxies, flush_batch, commit_single_proxy, purge_dead_proxies,
}
use go_proxy.Storage.Committer.{Store, save_or_update_proxy, receive, tick, flush}
use go_proxy.Storage.Exporter.{Exporter, System, sync_alive_files}

-- The interval and the number of workers of `NewDaemon`.
unfoldable pub daemon_settings : ℤ → ℤ → ℤ × ℤ
daemon_settings interval workers = (
  if leb_ℤ interval (pos 0) then pos 300_000_000_000 else interval,
  if leb_ℤ workers (pos 0) then pos 500 else workers,
)

-- What the committer goroutine does: it receives a proxy or its ticker ticks, with whether a
-- transaction of this step commits, and the time.
pub data CommitterStep : Type 0 where
  on_receive on_tick : Bool → Time → CommitterStep

-- The save of one proxy: what the committer does before it, and whether the transaction of a
-- direct write commits.
pub record Save : Type 0 where
  pub before : List CommitterStep
  pub commits : Bool

-- What a cycle meets: the time of its checks and that of its end, whether QueryProxies and the
-- DELETE of the purge fail, what the checker finds, how many proxies are checked before the
-- context is done, the save of each of them, what the committer does before Flush and between
-- Flush and the purge, and whether the transaction of Flush commits.
pub record Cycle : Type 0 where
  pub time : Time
  pub end_time : Time
  pub query_fails : Bool
  pub purge_fails : Bool
  pub check : Proxy → CheckResult
  pub before_done : ℕ
  pub saves : ℕ → Save
  pub before_flush : List CommitterStep
  pub before_purge : List CommitterStep
  pub flush_commits : Bool

-- The counters, the list of live proxies, and the store.
pub record Tally : Type 0 where
  pub alive_count : ℕ
  pub dead_count : ℕ
  pub alive_list : List Proxy
  pub store : Store Table

abbrev pub tallied : Bool → Proxy → Store Table → Tally → Tally
tallied true q store t = record t {
  alive_count = t.alive_count + 1;
  alive_list = t.alive_list ++ q ∷ [];
  store = store;
}
tallied false q store t = record t { dead_count = t.dead_count + 1; store = store }

abbrev pub start_tally : Store Table → Tally
start_tally store = record { alive_count = 0; dead_count = 0; alive_list = []; store = store }

abbrev pub cycle_filter : ProxyFilter
cycle_filter = record {
  protocol = [];
  country_code = [];
  anonymity = [];
  min_score = pos 0;
  max_latency = pos 0;
  only_alive = false;
  limit = pos 15000;
  offset = pos 0;
}

abbrev pub synchronise : System → List Proxy → Option Exporter → Option Exporter
synchronise sys alive none = none
synchronise sys [] (some e) = some e
synchronise sys (p ∷ ps) (some e) = some (sync_alive_files sys (p ∷ ps) e)

module _ (f : FloatOps) where
  -- `priorityScore` at the time `now`
  unfoldable pub priority_score : Time → Proxy → Float64
  priority_score now p =
      let by_score = f.add (f.decimal 0 0) (f.of_int (pos 100 -ℤ p.score)) in
      let by_fails = f.add by_score (f.of_int (pos (p.consecutive_fail * 15))) in
      let by_age =
        if is_zero_time p.last_checked
        then by_fails
        else f.add by_fails (f.mul (f.hours (pos now -ℤ pos p.last_checked)) (f.decimal 5 0)) in
      if f.lt p.uptime_percent (f.decimal 80 0)
      then f.add by_age (f.mul (f.sub (f.decimal 80 0) p.uptime_percent) (f.decimal 5 1))
      else by_age

  unfoldable pub insert_urgent : Time → Proxy → List Proxy → List Proxy
  unfolding priority_score
  insert_urgent now p [] = p ∷ []
  insert_urgent now p (q ∷ qs) =
      let rest = insert_urgent now p qs in
      if f.lt (priority_score now p) (priority_score now q) then q ∷ rest else p ∷ q ∷ qs

  -- `sort.Slice` by falling priority.
  unfoldable pub by_priority : Time → List Proxy → List Proxy
  unfolding insert_urgent
  by_priority now [] = []
  by_priority now (p ∷ ps) = insert_urgent now p (by_priority now ps)

  abbrev pub checked_fields : Bool → Time → CheckResult → Proxy → Proxy
  checked_fields true now r p = record p {
    is_alive = true;
    latency = r.latency;
    latency_ms = r.latency_ms;
    anonymity = r.anonymity;
    last_alive = now;
    consecutive_fail = 0;
  }
  checked_fields false now r p = record p {
    is_alive = false;
    consecutive_fail = p.consecutive_fail + 1;
  }

  -- What a worker makes of the proxy that it has checked at the time `now`.
  unfoldable pub rechecked : Time → CheckResult → Proxy → Proxy
  unfolding calculate_score
  rechecked now r p =
      let q = checked_fields r.success now r p in record q { score = calculate_score f now q }

  -- Steps of the committer, in order.
  unfoldable pub committer : List CommitterStep → Store Table → Store Table
  unfolding receive tick
  committer [] s = s
  committer (on_receive commits now ∷ more) s = committer more (
      receive (flush_batch f commits) (λ t x table. (commit_single_proxy f commits t x table).0) now
        s)
  committer (on_tick commits now ∷ more) s = committer more (
      tick (flush_batch f commits) (λ t x table. (commit_single_proxy f commits t x table).0) now s)

  -- One round of a worker's loop: the check, the counters, and the save.
  unfoldable pub recheck_one : Save → Time → CheckResult → Proxy → Tally → Tally
  unfolding rechecked save_or_update_proxy committer
  recheck_one save now r p t =
      let q = rechecked now r p in
      tallied r.success q
        (save_or_update_proxy (flush_batch f save.commits)
          (λ s x table. (commit_single_proxy f save.commits s x table).0) now q
          (committer save.before t.store))
        t

  -- The workers' loops: `check` is what the checker finds for a proxy, and `saves` has the save
  -- of each proxy, by how many there were before.
  unfoldable pub recheck_all :
      (ℕ → Save) → Time → (Proxy → CheckResult) → List Proxy → Tally → Tally
  unfolding recheck_one
  recheck_all saves now check [] t = t
  recheck_all saves now check (p ∷ ps) t =
      recheck_all saves now check ps
        (recheck_one (saves (t.alive_count + t.dead_count)) now (check p) p t)

  -- The end of a cycle: Flush, the purge, whose error is ignored, and the files.
  unfoldable pub end_cycle :
      Cycle → System → Tally → Option Exporter → Store Table × Option Exporter
  unfolding flush purge_dead_proxies sync_alive_files committer
  end_cycle c sys t exporter =
      let flushed =
        flush (flush_batch f c.flush_commits)
          (λ s x table. (commit_single_proxy f c.flush_commits s x table).0) c.end_time
          (committer c.before_flush t.store) in
      let settled = committer c.before_purge flushed in
      (
        if c.purge_fails then settled else record settled {
          db = (purge_dead_proxies 5 172_800_000_000_000 c.end_time settled.db).0;
        },
        synchronise sys t.alive_list exporter,
      )

  -- `recheckPool`
  unfoldable pub recheck_pool :
      Cycle → System → Store Table → Option Exporter → Store Table × Option Exporter
  unfolding query_proxies by_priority recheck_all end_cycle
  recheck_pool c sys store exporter =
      if c.query_fails
      then (store, exporter)
      else with_proxies (query_proxies cycle_filter store.db)
    where
      with_proxies : List Proxy → Store Table × Option Exporter
      with_proxies [] = (store, exporter)
      with_proxies (p ∷ ps) =
          end_cycle c sys
            (recheck_all c.saves c.time c.check (take c.before_done (by_priority c.time (p ∷ ps)))
              (start_tally store))
            exporter
