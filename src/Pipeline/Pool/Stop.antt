-- ===== src/Pipeline/Pool/Stop.antt =====
-- pkg/pipeline/pipeline.go: Stop returns.
use go_proxy.Base.{ℕ, ◌≤◌, ◌≡◌, refl, ◌⊎◌, true, arith}
use go_proxy.Base.Int.{ℤ}
use go_proxy.Base.Float.{FloatOps}
use go_proxy.Model.Proxy.{Protocol, CheckResult}
use go_proxy.Pipeline.Jobs.Defs.{Parsers}
use go_proxy.Storage.Exporter.{System}
use go_proxy.Pipeline.Pool.Defs.{
  Pool, after_line, after_job, Step, read, return_from_loop, send, receive, finish, leave, cancel,
  Run, here, next,
}
use go_proxy.Pipeline.Pool.Progress.{work, run_bounded, HasStopped, CanStep, stop_or_step}

module _ (capacity : ℕ) (ps : Parsers) (port : ℤ) (proto : Protocol) (f : FloatOps)
    (sys : System) where
  stays_cancelled :
      {p q : Pool} → Step capacity ps port proto f sys p q → p.cancelled ≡ true → q.cancelled ≡ true
  unfolding after_line after_job
  stays_cancelled (read now line rest a b c d) h = h
  stays_cancelled (return_from_loop a b) h = h
  stays_cancelled (send j a b c) h = h
  stays_cancelled (receive n j js a b) h = h
  stays_cancelled (finish now commits r before after j a) h = h
  stays_cancelled (leave n a b) h = h
  stays_cancelled (cancel a) h = refl

  module _ (r : CheckResult) where
    stays_cancelled_in :
        {p : Pool} {n : ℕ} {q : Pool}
        → Run capacity ps port proto f sys p n q
        → p.cancelled ≡ true
        → q.cancelled ≡ true
    stays_cancelled_in here c = c
    stays_cancelled_in (next u s) c = stays_cancelled s (stays_cancelled_in u c)

    -- Stop returns: once the context is cancelled, every run is bounded by the work that is left,
    -- and wherever it stands the loop and all workers have returned, or a step is possible.
    pub stop_terminates :
        {p : Pool} {n : ℕ} {q : Pool}
        → Run capacity ps port proto f sys p n q
        → p.cancelled ≡ true
        → (n ≤ work p) × (HasStopped q ⊎ CanStep capacity ps port proto f sys q)
    stop_terminates {q = q} u c = (
      omega (arith, run_bounded capacity ps port proto f sys u),
      stop_or_step capacity ps port proto f sys r q q.reading q.idle (stays_cancelled_in u c) refl
          refl,
    )
