-- ===== src/Pipeline/Pool/Progress.antt =====
-- pkg/pipeline/pipeline.go: the runs of the pool end, and how they end.
use go_proxy.Base.{
  ℕ, zero, suc, ◌+◌, ◌*◌, ◌≤◌, ◌<◌, ◌≡◌, refl, ap, ◌⊎◌, inl, inr, Bool, true, false, Option, none,
  some, List, [], ◌∷◌, ◌++◌, arith, length, length-append,
}
use go_proxy.Base.Int.{ℤ}
use go_proxy.Base.Float.{FloatOps}
use go_proxy.Base.Text.{Text}
use go_proxy.Model.Proxy.{Protocol, CheckResult}
use go_proxy.Pipeline.Jobs.Defs.{Job, Parsers}
use go_proxy.Pipeline.Ingest.Defs.{ingest_line}
use go_proxy.Storage.Exporter.{System}
use go_proxy.Pipeline.Pool.Defs.{
  Pool, after_line, after_job, Step, read, return_from_loop, send, receive, finish, leave, cancel,
  Run, here, next,
}
use go_proxy.Pipeline.Pool.Invariant.{size_of}

size_of_le : (o : Option Job) → size_of o ≤ 1
size_of_le none = omega arith
size_of_le (some j) = omega arith

abbrev flag : Bool → ℕ
flag true = 1
flag false = 0

-- The loop's part: 8 for each line, 4 for a job that waits, 1 for the return; nothing once it
-- has returned.
abbrev loop_work : Bool → List Text → Option Job → ℕ
loop_work true lines o = 8 * length lines + 4 * size_of o + 1
loop_work false lines o = 0

abbrev open_context : Bool → ℕ
open_context true = 0
open_context false = 1

-- What is left to do: every step makes it smaller.
unfoldable pub work : Pool → ℕ
work p =
    loop_work p.reading p.lines p.waiting
    + 3 * length p.queue
    + 2 * length p.working
    + p.idle
    + open_context p.cancelled

loop_runs :
    (b : Bool) (lines : List Text) (o : Option Job)
    → b ≡ true
    → loop_work b lines o ≡ 8 * length lines + 4 * size_of o + 1
loop_runs true lines o h = refl
loop_runs false lines o h = cc

opened : (b : Bool) → b ≡ false → open_context b ≡ 1
opened false h = refl
opened true h = cc

-- All goroutines of the pool have returned.
pub record HasStopped (p : Pool) : Type 0 where
  pub loop_returned : p.reading ≡ false
  pub nothing_running : p.working ≡ []
  pub workers_gone : p.idle ≡ 0

-- The loop and the workers wait for nothing: the input is read, and every job is checked.
pub record IsDrained (p : Pool) : Type 0 where
  pub loop_returned : p.reading ≡ false
  pub queue_empty : p.queue ≡ []
  pub nothing_running : p.working ≡ []

module _ (capacity : ℕ) (ps : Parsers) (port : ℤ) (proto : Protocol) (f : FloatOps)
    (sys : System) where
  pub work-Step : {p q : Pool} → Step capacity ps port proto f sys p q → work q < work p
  unfolding work after_line after_job
  work-Step {p} (read now line rest a b c d) =
      let o =
        (ingest_line ps port proto now line (record { dedup = p.dedup; stats = p.stats })).0 in
      let shorter : length p.lines ≡ suc (length rest) = ap length d in
      omega (
        arith,
        loop_runs p.reading rest o a,
        loop_runs p.reading p.lines p.waiting a,
        size_of_le o,
        shorter,
      )
  work-Step {p} (return_from_loop a b) = omega (arith, loop_runs p.reading p.lines p.waiting a)
  work-Step {p} (send j a b c) =
      let waits : size_of p.waiting ≡ 1 = ap size_of b in
      omega (
        arith,
        loop_runs p.reading p.lines none a,
        loop_runs p.reading p.lines p.waiting a,
        waits,
        length-append p.queue (j ∷ []),
      )
  work-Step {p} (receive n j js a b) =
      let longer : length p.queue ≡ suc (length js) = ap length b in omega (arith, a, longer)
  work-Step {p} (finish now commits r before after j a) =
      let longer : length p.working ≡ length (before ++ j ∷ after) = ap length a in
      omega (arith, longer, length-append before (j ∷ after), length-append before after)
  work-Step {p} (leave n a b) = omega (arith, a)
  work-Step {p} (cancel a) = omega (arith, opened p.cancelled a)

  -- A run of the pool is no longer than its work: at most 8 steps for each line of the input, 4
  -- for a job that waits to be sent, 3 for each queued job, 2 for each job in a worker, 1 for each
  -- worker that waits, and 2 more.
  pub run_bounded :
      {p : Pool} {n : ℕ} {q : Pool} → Run capacity ps port proto f sys p n q → n + work q ≤ work p
  run_bounded here = omega arith
  run_bounded (next r s) = omega (arith, run_bounded r, work-Step s)

  -- Some next state, given any result of a check.
  abbrev pub CanStep : Pool → Type 0
  CanStep p = (q : Pool) × Step capacity ps port proto f sys p q

  module _ (r : CheckResult) where
    pub worker_ends : (p : Pool) (js : List Job) → p.working ≡ js → (p.working ≡ []) ⊎ CanStep p
    worker_ends p [] e = inl e
    worker_ends p (j ∷ js) e = inr (_, finish 0 true r [] js j e)

    pub stop_or_step :
        (p : Pool) (reading : Bool) (idle : ℕ)
        → p.cancelled ≡ true
        → p.reading ≡ reading
        → p.idle ≡ idle
        → HasStopped p ⊎ CanStep p
    stop_or_step p true idle c b i = inr (_, return_from_loop b (inr c))
    stop_or_step p false (suc n) c b i = inr (_, leave n i c)
    stop_or_step p false zero c b i = elim (worker_ends p p.working refl) [
      | inl e ↦ inl (record { loop_returned = b; nothing_running = e; workers_gone = i })
      | inr s ↦ inr s
    ]
