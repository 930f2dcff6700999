-- ===== src/Pipeline/Pool/Defs.antt =====
-- pkg/pipeline/pipeline.go, IngestFromReader, worker, processJob, Cancel and Stop as the steps that
-- their goroutines take. A select with several ready cases may take any of them.
use go_proxy.Base.{
  ℕ, suc, ◌<◌, ◌≡◌, ◌⊎◌, Bool, true, false, Option, none, some, List, [], ◌∷◌, ◌++◌, length,
}
use go_proxy.Base.Int.{ℤ, pos, leb_ℤ, pos_part}
use go_proxy.Base.Float.{FloatOps}
use go_proxy.Base.Text.{Text}
use go_proxy.Base.{if◌then◌else◌}
use go_proxy.Model.Proxy.{Time, Protocol, CheckResult}
use go_proxy.Model.Config.{Config}
use go_proxy.Model.Stats.{Stats, new_stats}
use go_proxy.Pipeline.Dedup.{Deduplicator, new_deduplicator}
use go_proxy.Pipeline.Jobs.Defs.{Job, Parsers}
use go_proxy.Pipeline.Ingest.Defs.{ingest_line}
use go_proxy.Pipeline.Process.{process_result}
use go_proxy.Storage.Table.{Table}
use go_proxy.Storage.Committer.{Store}
use go_proxy.Storage.Exporter.{Exporter, System}

-- The lines that are not read yet; whether the loop over them runs; the job that it waits to
-- send; `jobsChan`; the workers that wait; the jobs that are processed; the context; and what
-- they share. A job that waits when the loop has returned is lost.
pub record Pool : Type 0 where
  pub lines : List Text
  pub reading : Bool
  pub waiting : Option Job
  pub queue : List Job
  pub idle : ℕ
  pub working : List Job
  pub cancelled : Bool
  pub dedup : Deduplicator
  pub stats : Stats
  pub exporter : Option Exporter
  pub store : Option (Store Table)

-- `NewPipeline` and `Start` at the time `now`, with an input.
unfoldable pub start : Time → Config → ℤ → List Text → Option Exporter → Option (Store Table) → Pool
unfolding new_stats new_deduplicator
start now cfg num_workers lines exporter store = record {
  lines = lines;
  reading = true;
  waiting = none;
  queue = [];
  idle = pos_part (if leb_ℤ num_workers (pos 0) then cfg.engine.workers else num_workers);
  working = [];
  cancelled = false;
  dedup = new_deduplicator (pos 900_000_000_000);
  stats = new_stats now;
  exporter = exporter;
  store = store;
}

module _ (capacity : ℕ) (ps : Parsers) (port : ℤ) (proto : Protocol) (f : FloatOps)
    (sys : System) where
  -- One round of the loop over the lines, up to the send.
  unfoldable pub after_line : Time → Text → List Text → Pool → Pool
  unfolding ingest_line
  after_line now line rest p =
      let (job, i) =
        ingest_line ps port proto now line (record { dedup = p.dedup; stats = p.stats }) in
      record p { lines = rest; waiting = job; dedup = i.dedup; stats = i.stats }

  -- The end of `processJob` with the result of the check.
  unfoldable pub after_job : Time → Bool → CheckResult → List Job → Pool → Pool
  unfolding process_result
  after_job now commits r working p =
      let s =
        process_result f sys commits now r
          (record { stats = p.stats; exporter = p.exporter; store = p.store }) in
      record p {
        working = working;
        idle = suc p.idle;
        stats = s.stats;
        exporter = s.exporter;
        store = s.store;
      }

  pub data Step (p : Pool) : Pool → Type 0 where
    -- the loop reads a line
    read :
        (now : Time) (line : Text) (rest : List Text)
        → p.reading ≡ true
        → p.waiting ≡ none
        → p.cancelled ≡ false
        → p.lines ≡ line ∷ rest
        → Step p (after_line now line rest p)
    -- the loop returns at the end of the input, or since the context is done: the code sees this
    -- once the scanner has returned, so that the input is taken not to block
    return_from_loop :
        p.reading ≡ true
        → (p.lines ≡ []) × (p.waiting ≡ none) ⊎ (p.cancelled ≡ true)
        → Step p (record p { reading = false })
    -- the loop sends its job
    send :
        (j : Job)
        → p.reading ≡ true
        → p.waiting ≡ some j
        → length p.queue < capacity
        → Step p (record p { waiting = none; queue = p.queue ++ j ∷ [] })
    -- a worker receives a job
    receive :
        (n : ℕ) (j : Job) (js : List Job)
        → p.idle ≡ suc n
        → p.queue ≡ j ∷ js
        → Step p (record p { idle = n; queue = js; working = j ∷ p.working })
    -- a worker ends a job, with what CheckIPPort returned and whether the database accepts it
    finish :
        (now : Time) (commits : Bool) (r : CheckResult) (before after : List Job) (j : Job)
        → p.working ≡ before ++ j ∷ after
        → Step p (after_job now commits r (before ++ after) p)
    -- a worker returns
    leave : (n : ℕ) → p.idle ≡ suc n → p.cancelled ≡ true → Step p (record p { idle = n })
    -- Cancel, and the first half of Stop
    cancel : p.cancelled ≡ false → Step p (record p { cancelled = true })

  -- A run of `n` steps.
  pub data Run (p : Pool) : ℕ → Pool → Type 0 where
    here : Run p 0 p
    next : {n : ℕ} {q r : Pool} → Run p n q → Step q r → Run p (suc n) r
