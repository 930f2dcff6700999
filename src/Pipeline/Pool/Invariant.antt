-- ===== src/Pipeline/Pool/Invariant.antt =====
-- pkg/pipeline/pipeline.go: what holds of the pool in every run.
use go_proxy.Base.{
  ℕ, suc, ◌+◌, ◌%◌, ◌^◌, ◌≤◌, ◌<◌, ◌≡◌, refl, ap, ◌∙◌, Bool, true, false, Option, none, some, List,
  [], ◌∷◌, ◌++◌, arith, length, length-append, if◌then◌else◌,
}
use go_proxy.Base.Int.{ℤ}
use go_proxy.Base.Float.{FloatOps}
use go_proxy.Base.Text.{Text}
use go_proxy.Model.Proxy.{Time, Protocol, CheckResult}
use go_proxy.Model.Stats.{Stats, inc_queued, record_result}
use go_proxy.Pipeline.Dedup.{Deduplicator, check_and_set}
use go_proxy.Pipeline.Jobs.Defs.{Job, Parsers}
use go_proxy.Pipeline.Ingest.Defs.{
  Intake, admit, admit_decided, admit_parsed, ingest_line, read_line, dedup_key,
}
use go_proxy.Pipeline.Process.{Sinks, process_result}
use go_proxy.Storage.Exporter.{System}
use go_proxy.Pipeline.Pool.Defs.{
  Pool, after_line, after_job, Step, read, return_from_loop, send, receive, finish, leave, cancel,
  Run, here, next,
}

abbrev pub size_of : Option Job → ℕ
size_of none = 0
size_of (some j) = 1

-- The jobs that were counted as queued and are not checked yet.
abbrev pub in_flight : Pool → ℕ
in_flight p = size_of p.waiting + length p.queue + length p.working

-- What a line does to the two counters, and whether it leads to a job.
record Counts (o : Option Job) (s t : Stats) : Type 0 where
  queued : t.total_queued ≡ (s.total_queued + size_of o) % 2 ^ 64
  scanned : t.total_scanned ≡ s.total_scanned

admit_decided-Counts :
    (j : Job) (r : Bool × Deduplicator) (s : Intake)
    → s.stats.total_queued < 2 ^ 64
    → Counts (admit_decided j r s).0 s.stats (admit_decided j r s).1.stats
unfolding inc_queued
admit_decided-Counts j (true, d) s h = record { queued = refl; scanned = refl }
admit_decided-Counts j (false, d) s h = record { queued = omega arith; scanned = refl }

admit_parsed-Counts :
    (now : Time) (o : Option Job) (s : Intake)
    → s.stats.total_queued < 2 ^ 64
    → Counts (admit_parsed now o s).0 s.stats (admit_parsed now o s).1.stats
unfolding admit
admit_parsed-Counts now none s h = record { queued = omega arith; scanned = refl }
admit_parsed-Counts now (some j) s h =
    admit_decided-Counts j (check_and_set now (dedup_key j) s.dedup) s h

record_result-queued :
    (r : CheckResult) (s : Stats) → (record_result r s).total_queued ≡ s.total_queued
unfolding record_result
record_result-queued r s = ground arith

record_result-scanned :
    (r : CheckResult) (s : Stats)
    → (record_result r s).total_scanned ≡ (s.total_scanned + 1) % 2 ^ 64
unfolding record_result
record_result-scanned r s = ground arith

either_stats : (b : Bool) (s t : Sinks) → s.stats ≡ t.stats → (if b then s else t).stats ≡ t.stats
either_stats true s t h = h
either_stats false s t h = refl

process_result-counts :
    (f : FloatOps) (sys : System) (commits : Bool) (now : Time) (r : CheckResult) (s : Sinks)
    → (process_result f sys commits now r s).stats ≡ record_result r s.stats
unfolding process_result
process_result-counts f sys commits now r s = either_stats r.success _ _ refl

module _ (capacity workers : ℕ) where
  -- Modulo 2 ^ 64, every job that was counted as queued was checked and counted as scanned, or it
  -- is in flight; the queue is never longer than its capacity; and no worker was added.
  pub record IsSound (p : Pool) : Type 0 where
    pub counted : p.stats.total_queued ≡ (p.stats.total_scanned + in_flight p) % 2 ^ 64
    pub scanned_word : p.stats.total_scanned < 2 ^ 64
    pub bounded : length p.queue ≤ capacity
    pub staffed : p.idle + length p.working ≤ workers

  module _ (ps : Parsers) (port : ℤ) (proto : Protocol) (f : FloatOps) (sys : System) where
    line-IsSound :
        (now : Time) (line : Text) (rest : List Text) (p : Pool)
        → p.waiting ≡ none
        → IsSound p
        → IsSound (after_line capacity ps port proto f sys now line rest p)
    unfolding after_line ingest_line
    line-IsSound now line rest p w v =
        let c =
          admit_parsed-Counts now (read_line ps port proto line)
            (record { dedup = p.dedup; stats = p.stats }) (omega (arith, v.counted)) in
        let none_waits : size_of p.waiting ≡ 0 = ap size_of w in
        record {
          counted = omega (arith, c.queued, c.scanned, v.counted, none_waits);
          scanned_word = omega (arith, c.scanned, v.scanned_word);
          bounded = v.bounded;
          staffed = v.staffed;
        }

    job-IsSound :
        (now : Time) (commits : Bool) (r : CheckResult) (before after : List Job) (j : Job)
        (p : Pool)
        → p.working ≡ before ++ j ∷ after
        → IsSound p
        → IsSound (after_job capacity ps port proto f sys now commits r (before ++ after) p)
    unfolding after_job
    job-IsSound now commits r before after j p w v =
        let same =
          process_result-counts f sys commits now r
            (record { stats = p.stats; exporter = p.exporter; store = p.store }) in
        let queued = ap (λ (s : Stats). s.total_queued) same ∙ record_result-queued r p.stats in
        let scanned = ap (λ (s : Stats). s.total_scanned) same ∙ record_result-scanned r p.stats in
        let one_less : length p.working ≡ suc (length (before ++ after)) =
          ap length w
          ∙ omega (arith, length-append before (j ∷ after), length-append before after) in
        record {
          counted = omega (arith, queued, scanned, v.counted, v.scanned_word, one_less);
          scanned_word = omega (arith, scanned);
          bounded = v.bounded;
          staffed = omega (arith, v.staffed, one_less);
        }

    Step-IsSound : {p q : Pool} → Step capacity ps port proto f sys p q → IsSound p → IsSound q
    Step-IsSound {p} (read now line rest a b c d) v = line-IsSound now line rest p b v
    Step-IsSound {p} (return_from_loop a b) v = record {
      counted = v.counted;
      scanned_word = v.scanned_word;
      bounded = v.bounded;
      staffed = v.staffed;
    }
    Step-IsSound {p} (send j a b c) v =
        let one : size_of p.waiting ≡ 1 = ap size_of b in
        let longer = length-append p.queue (j ∷ []) in
        record {
          counted = omega (arith, v.counted, one, longer);
          scanned_word = v.scanned_word;
          bounded = omega (arith, c, longer);
          staffed = v.staffed;
        }
    Step-IsSound {p} (receive n j js a b) v =
        let longer : length p.queue ≡ suc (length js) = ap length b in
        record {
          counted = omega (arith, v.counted, longer);
          scanned_word = v.scanned_word;
          bounded = omega (arith, v.bounded, longer);
          staffed = omega (arith, v.staffed, a);
        }
    Step-IsSound {p} (finish now commits r before after j a) v =
        job-IsSound now commits r before after j p a v
    Step-IsSound {p} (leave n a b) v = record {
      counted = v.counted;
      scanned_word = v.scanned_word;
      bounded = v.bounded;
      staffed = omega (arith, v.staffed, a);
    }
    Step-IsSound {p} (cancel a) v = record {
      counted = v.counted;
      scanned_word = v.scanned_word;
      bounded = v.bounded;
      staffed = v.staffed;
    }

    -- A run of the pool keeps what is sound: modulo 2 ^ 64 the number of queued jobs is that of the
    -- scanned ones and of those in flight, the queue is never longer than its capacity, and no
    -- more workers run than were started.
    pub Run-IsSound :
        {p : Pool} {n : ℕ} {q : Pool}
        → Run capacity ps port proto f sys p n q
        → IsSound p
        → IsSound q
    Run-IsSound here v = v
    Run-IsSound (next r s) v = Step-IsSound s (Run-IsSound r v)
