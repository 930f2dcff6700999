-- ===== src/Commands/Scan/Delivery.antt =====
-- cmd/check.go: the table after a scan has every live proxy, with the number of its checks.
use mathlib.Core.Path.{subst}
use mathlib.Core.Option
use go_proxy.Base.{
  ℕ, ◌+◌, ◌≡◌, refl, ap, Bool, true, ◌&&◌, Option, some, List, [], ◌∷◌, arith, Bool-cases, inl, inr,
}
use go_proxy.Base.Int.{eqb_ℤ}
use go_proxy.Base.Text.{text_eq}
use go_proxy.Base.Float.{FloatOps}
use go_proxy.Model.Proxy.{Time, CheckResult, protocol_text}
use go_proxy.Model.Stats.{Stats}
use go_proxy.Storage.Table.{Row, Table, same_key, row_of, flush_batch, commit_single_proxy}
use go_proxy.Storage.Committer.{Store, receive, tick, flush, close}
use go_proxy.Storage.Committer.Delivery.{
  Holds, save-Holds, receive-Holds, tick-Holds, flush-Holds, close-delivers,
}
use go_proxy.Storage.Exporter.{Exporter, System}
use go_proxy.Pipeline.Process.{Sinks, save_to, process_result, proxy_of_result}
use go_proxy.Commands.Scan.Counted.{
  checks_at, one_if, IsFresh, share, flush_batch_adds, commit_single_adds,
}
use go_proxy.Commands.Scan.Defs.{
  ScanEvent, checked, received, ticked, scan_event, run_scan, finish_scan, over_table,
}

module _ (f : FloatOps) (x : Row) where
  -- What the store comes to once it is closed.
  abbrev ComesTo : ℕ → Store Table → Type 0
  ComesTo n s =
      Holds (flush_batch f true) (λ t p table. (commit_single_proxy f true t p table).0)
        (checks_at x) (share f x) IsFresh (flush_batch_adds f x) (commit_single_adds f x) n s

  proxy_of_result-IsFresh : (now : Time) (r : CheckResult) → IsFresh (proxy_of_result f now r)
  unfolding proxy_of_result
  proxy_of_result-IsFresh now r = (refl, refl)

  -- A successful check of the address, port and protocol of `x`.
  abbrev pub is_live_check : CheckResult → Bool
  is_live_check r =
      r.success
      && (text_eq r.ip x.ip && eqb_ℤ r.port x.port && text_eq (protocol_text r.protocol) x.protocol)

  -- How many of the events are such checks.
  abbrev pub live_checks : List ScanEvent → ℕ
  live_checks [] = 0
  live_checks (checked now r ∷ more) = one_if (is_live_check r) + live_checks more
  live_checks (received now ∷ more) = live_checks more
  live_checks (ticked now ∷ more) = live_checks more

  share_of_result :
      (now : Time) (r : CheckResult)
      → r.success ≡ true
      → share f x (proxy_of_result f now r) ≡ one_if (is_live_check r)
  unfolding same_key row_of proxy_of_result
  share_of_result now r e = rw e refl

  -- The sinks with a store that comes to `n`.
  abbrev StoreComesTo : ℕ → Sinks → Type 0
  StoreComesTo n s = (t : Store Table) × (s.store ≡ some t) × ComesTo n t

  module _ (sys : System) where
    result_comes_to :
        (n : ℕ) (now : Time) (r : CheckResult) (s : Sinks)
        → StoreComesTo n s
        → StoreComesTo (n + one_if (is_live_check r)) (process_result f sys true now r s)
    unfolding process_result
    result_comes_to n now r s (t, e, h) = elim (Bool-cases r.success) [
      | inl live ↦
          let p = proxy_of_result f now r in
          let kept = save-Holds _ _ _ _ _ _ _ n now p t (proxy_of_result-IsFresh now r) h in
          let saved : StoreComesTo (n + share f x p) (process_result f sys true now r s) =
            (_, (rw live (ap (save_to f true now p) e)), kept) in
          subst (λ m. StoreComesTo m (process_result f sys true now r s))
            (ap (λ k. n + k) (share_of_result now r live)) saved
      | inr dead ↦
          let idle : (process_result f sys true now r s).store ≡ some t = rw dead e in
          let none_live : n ≡ n + one_if (is_live_check r) = rw dead (omega arith) in
          subst (λ m. StoreComesTo m (process_result f sys true now r s)) none_live (t, idle, h)
    ]

    event_comes_to :
        (n : ℕ) (e : ScanEvent) (s : Sinks)
        → StoreComesTo n s
        → StoreComesTo (n + live_checks (e ∷ [])) (scan_event f sys true e s)
    unfolding scan_event
    event_comes_to n (checked now r) s h =
        subst (λ m. StoreComesTo m (scan_event f sys true (checked now r) s)) (omega arith)
          (result_comes_to n now r s h)
    event_comes_to n (received now) s (t, e, h) =
        subst (λ m. StoreComesTo m (scan_event f sys true (received now) s)) (omega arith)
          (
            _,
            ap (Option.map (over_table f true receive now)) e,
            receive-Holds _ _ _ _ _ _ _ n now t h,
          )
    event_comes_to n (ticked now) s (t, e, h) =
        subst (λ m. StoreComesTo m (scan_event f sys true (ticked now) s)) (omega arith)
          (_, ap (Option.map (over_table f true tick now)) e, tick-Holds _ _ _ _ _ _ _ n now t h)

    live_checks_cons :
        (e : ScanEvent) (more : List ScanEvent)
        → live_checks (e ∷ more) ≡ live_checks (e ∷ []) + live_checks more
    live_checks_cons (checked now r) more = omega arith
    live_checks_cons (received now) more = omega arith
    live_checks_cons (ticked now) more = omega arith

    run_comes_to :
        (n : ℕ) (events : List ScanEvent) (s : Sinks)
        → StoreComesTo n s
        → StoreComesTo (n + live_checks events) (run_scan f sys true events s)
    unfolding run_scan
    run_comes_to n [] s h = subst (λ m. StoreComesTo m s) (omega arith) h
    run_comes_to n (e ∷ more) s h =
        subst (λ m. StoreComesTo m (run_scan f sys true (e ∷ more) s))
          (omega (arith, live_checks_cons e more))
          (run_comes_to (n + live_checks (e ∷ [])) more (scan_event f sys true e s)
            (event_comes_to n e s h))

-- The sinks at the start of a scan, over a table.
abbrev pub starting : Stats → Option Exporter → Table → Sinks
starting stats exporter t = record {
  stats = stats;
  exporter = exporter;
  store = some (record { queue = []; buffer = []; db = t });
}

-- What the end of a scan leaves: a closed store where nothing waits, whose table has counted the
-- successful checks of every address.
pub record Delivers (f : FloatOps) (x : Row) (events : List ScanEvent) (before : Table) (s : Sinks)
    : Type 0 where
  pub store : Store Table
  pub kept : s.store ≡ some store
  pub queue : store.queue ≡ []
  pub buffer : store.buffer ≡ []
  pub counted : checks_at x store.db ≡ checks_at x before + live_checks f x events

-- No result of a scan is lost between a worker and the table. When every transaction commits,
-- then in whatever order workers finish checks and the committer receives and ticks, after the
-- Flush and the Close at the end of the check command nothing waits in the queue or the buffer;
-- and for every address, port and protocol the successful checks that the table has counted
-- are those that it had counted before and the successful checks of the scan, none of them
-- twice.
pub finish_scan-Delivers :
    (f : FloatOps) (sys : System) (now : Time) (events : List ScanEvent) (stats : Stats)
    (exporter : Option Exporter) (t : Table) (x : Row)
    → Delivers f x events t
        (finish_scan f sys true now (run_scan f sys true events (starting stats exporter t)))
unfolding finish_scan
finish_scan-Delivers f sys now events stats exporter t x =
    let begun = starting stats exporter t in
    let start : StoreComesTo f x (checks_at x t) begun =
      (_, refl, record { queue_fit = tt; buffer_fit = tt; comes_to = omega arith }) in
    let (s, e, h) = run_comes_to f x sys (checks_at x t) events begun start in
    let flushed = flush-Holds _ _ _ _ _ _ _ _ now s h in
    let (queue, buffer, counted) = close-delivers _ _ _ _ _ _ _ _ now _ flushed in
    record {
      store = over_table f true close now (over_table f true flush now s);
      kept = ap (Option.map (λ t. over_table f true close now (over_table f true flush now t))) e;
      queue = queue;
      buffer = buffer;
      counted = counted;
    }
