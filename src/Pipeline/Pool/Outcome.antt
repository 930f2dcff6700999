-- ===== src/Pipeline/Pool/Outcome.antt =====
-- pkg/pipeline/pipeline.go: a pool that is not cancelled works off its input.
use go_proxy.Base.{ℕ, suc, ◌+◌, ◌%◌, ◌^◌, ◌<◌, ◌≡◌, false, none, length}
use go_proxy.Base.Int.{ℤ}
use go_proxy.Base.Float.{FloatOps}
use go_proxy.Base.Text.{Text}
use go_proxy.Model.Proxy.{Protocol, CheckResult}
use go_proxy.Pipeline.Jobs.Defs.{Job, Parsers}
use go_proxy.Storage.Exporter.{System}
use go_proxy.Pipeline.Pool.Defs.{Pool, Step, finish, Run, here, next}
use go_proxy.Pipeline.Pool.Progress.{IsDrained}

module _ (capacity : ℕ) (ps : Parsers) (port : ℤ) (proto : Protocol) (f : FloatOps)
    (sys : System) where
  unfoldable after_step :
      {p q : Pool} {n : ℕ} {r : Pool}
      → Step capacity ps port proto f sys p q
      → Run capacity ps port proto f sys q n r
      → Run capacity ps port proto f sys p (suc n) r
  after_step s here = next here s
  after_step s (next r t) = next (after_step s r) t

  module _ (check : Job → CheckResult) where
    -- A worker that ends a job in the step found for it what `check` says.
    abbrev pub FindsIn : {p q : Pool} → Step capacity ps port proto f sys p q → Type 0
    FindsIn (finish now commits r before after j e) = r ≡ check j
    FindsIn _ = Unit

    -- Every check that ends in the run has found what `check` says.
    abbrev pub Finds :
        {p : Pool} {n : ℕ} {q : Pool} → Run capacity ps port proto f sys p n q → Type 0
    Finds here = Unit
    Finds (next run s) = Finds run × FindsIn s

    -- Some run from the pool, whose checks find what `check` says, ends in a state with the
    -- property.
    abbrev pub Reaches : Pool → (Pool → Type 0) → Type 0
    Reaches p P =
        (n : ℕ) × ((q : Pool) × ((run : Run capacity ps port proto f sys p n q) × (Finds run
              × P q)))

    -- A pool that works: it is not cancelled, it has a worker, and a loop that has returned has
    -- sent its last job.
    pub record IsReady (p : Pool) : Type 0 where
      pub open_context : p.cancelled ≡ false
      pub staffed : 0 < p.idle + length p.working
      pub settled : p.reading ≡ false → p.waiting ≡ none

    CanGo : Pool → Type 0
    CanGo p = (q : Pool) × ((s : Step capacity ps port proto f sys p q) × (FindsIn s × IsReady q))

    abbrev pub WorkedOff : Pool → Type 0
    WorkedOff q = IsDrained q × IsReady q

    -- All that was counted as queued was checked, modulo 2 ^ 64.
    abbrev pub AllChecked : Pool → Type 0
    AllChecked q =
        IsDrained q
        × (q.cancelled ≡ false)
        × (q.stats.total_queued ≡ q.stats.total_scanned % 2 ^ 64)
