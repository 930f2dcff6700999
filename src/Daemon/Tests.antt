-- ===== src/Daemon/Tests.antt =====
-- Tests of pkg/daemon, and its theorem at a concrete input.
use go_proxy.Base.{
  ℕ, ◌+◌, ◌%◌, ◌==◌, ◌≡◌, refl, Bool, true, false, none, List, [], ◌∷◌, if◌then◌else◌, length,
}
use go_proxy.Base.Int.{pos}
use go_proxy.Model.Proxy.{Time, http, Proxy, CheckResult}
use go_proxy.Samples.{whole_numbers, live_proxy, dead_proxy, result_of}
use go_proxy.Storage.Table.{Table, upsert, row_of, query_proxies}
use go_proxy.Storage.Committer.{Store}
use go_proxy.Daemon.Defs.{
  on_receive, on_tick, Save, Cycle, cycle_filter, daemon_settings, by_priority, recheck_all,
  start_tally,
}
use go_proxy.Daemon.Loop.{Wake, ticked, committed, Pool}
use go_proxy.Daemon.Query.{at_most}
use go_proxy.Daemon.Cycle.{IsCycleOf, recheck_all-IsCycleOf}

-- Without an interval, the pool is rechecked every five minutes.
default_interval : daemon_settings (pos 0) (pos 20) ≡ (pos 300_000_000_000, pos 20)
unfolding daemon_settings
default_interval = refl

abbrev empty_table : Store Table
empty_table = record { queue = []; buffer = []; db = record { rows = []; next_id = 1 } }

-- The check succeeds for the proxies that were alive.
abbrev same_as_before : Proxy → CheckResult
same_as_before p = result_of http p.is_alive

abbrev stored : Store Table
stored = record empty_table {
  db =
      upsert whole_numbers (row_of dead_proxy)
        (upsert whole_numbers (row_of live_proxy) empty_table.db);
}

-- The committer receives a proxy before every save, and its ticker ticks before each fourth.
abbrev busy : ℕ → Save
busy n = record {
  before = on_receive true 9 ∷ (if n % 4 == 3 then on_tick false 9 ∷ [] else []);
  commits = true;
}

recheck_all-IsCycleOf_example :
    IsCycleOf whole_numbers 9 same_as_before (query_proxies cycle_filter stored.db) (
      recheck_all whole_numbers busy 9 same_as_before
        (by_priority whole_numbers 9 (query_proxies cycle_filter stored.db))
        (start_tally stored))
    × (length (query_proxies cycle_filter stored.db) ≡ at_most 15000 (length stored.db.rows))
recheck_all-IsCycleOf_example = recheck_all-IsCycleOf whole_numbers 9 same_as_before busy stored

abbrev pool : Pool
pool = (
  record { queue = []; buffer = []; db = upsert whole_numbers (row_of live_proxy) empty_table.db },
  none,
)

abbrev cycle_at : Time → Bool → Cycle
cycle_at now fails = record {
  time = now;
  end_time = now + 50;
  query_fails = false;
  purge_fails = fails;
  check = same_as_before;
  before_done = 10;
  saves = busy;
  before_flush = on_receive true now ∷ [];
  before_purge = on_tick true now ∷ [];
  flush_commits = true;
}

-- The purge of the second cycle fails, and the committer ticks after it.
abbrev wakes : List Wake
wakes = ticked (cycle_at 600 true) ∷ committed (on_tick true 700) ∷ []
