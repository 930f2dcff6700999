-- ===== src/Pipeline/Pool/Tests.antt =====
-- Tests of the pool and of the loop over the lines in pkg/pipeline, and their theorems at concrete
-- inputs.
use go_proxy.Base.{◌≡◌, ◌≤◌, ◌+◌, ◌⊎◌, refl, true, none, some, List, [], ◌∷◌, arith}
use go_proxy.Base.Int.{pos, eqb_ℤ}
use go_proxy.Base.Assoc.{lookup, insert}
use go_proxy.Base.Text.{Text, codes, itoa, text_eq, is_digit, trim_space}
use go_proxy.Model.Proxy.{http, CheckResult}
use go_proxy.Model.Config.{default_config}
use go_proxy.Model.Stats.{new_stats}
use go_proxy.Samples.{whole_numbers, result_of, machine}
use go_proxy.Pipeline.Dedup.{new_deduplicator, check_and_set, cleanup, fnv32}
use go_proxy.Pipeline.Dedup.Shards.{new_deduplicator-IsValid}
use go_proxy.Pipeline.Jobs.Defs.{Job, Parsers, parse_line_to_job}
use go_proxy.Pipeline.Ingest.Defs.{
  Intake, ingest_line, Happening, line_read, cleaned, ingest_happenings, read_line,
}
use go_proxy.Pipeline.Ingest.Spacing.{queued_apart}
use go_proxy.Pipeline.Pool.Defs.{Pool, start, after_line, Run, here, next, read, send}
use go_proxy.Pipeline.Pool.Invariant.{IsSound, Run-IsSound}
use go_proxy.Pipeline.Pool.Progress.{work, HasStopped, CanStep}
use go_proxy.Pipeline.Pool.Stop.{stop_terminates}

-- Every line is taken for the address 1.2.3.4:80.
abbrev one_host : Parsers
one_host = record {
  parse_url = λ s. none;
  split_host_port = λ s. some (codes "1.2.3.4", codes "80");
}

abbrev address_line : Text
address_line = codes "1.2.3.4:80"

abbrev job : Job
job = record { ip = codes "1.2.3.4"; port = pos 80; protocol = http }

abbrev empty_intake : Intake
empty_intake = record { dedup = new_deduplicator (pos 100); stats = new_stats 0 }

abbrev after_first : Intake
after_first = (ingest_line one_host (pos 80) http 7 address_line empty_intake).1

first_is_sent : (ingest_line one_host (pos 80) http 7 address_line empty_intake).0 ≡ some job
unfolding ingest_line read_line parse_line_to_job trim_space text_eq is_digit check_and_set
    new_deduplicator fnv32 itoa lookup
first_is_sent = refl

-- A line that is refused, and a cleanup before and after the entry of the first line has expired.
abbrev between : List Happening
between = cleaned 40 ∷ line_read 50 address_line ∷ cleaned 107 ∷ []

second_is_sent :
    (ingest_line one_host
      (pos 80)
      http
      107
      address_line
      (ingest_happenings one_host (pos 80) http between after_first)).0
    ≡ some job
unfolding ingest_line ingest_happenings cleanup read_line parse_line_to_job trim_space text_eq
    is_digit check_and_set new_deduplicator fnv32 itoa lookup insert
second_is_sent = refl

queued_apart_example : 7 + empty_intake.dedup.window ≤ 107
queued_apart_example =
    queued_apart one_host (pos 80) http 7 107 address_line address_line between job job empty_intake
      (new_deduplicator-IsValid (pos 100)) first_is_sent second_is_sent refl
      (omega arith, (omega arith, (omega arith, tt)))

-- Two workers, and two lines.
abbrev pool : Pool
pool = start 0 default_config (pos 2) (address_line ∷ codes "# end" ∷ []) none none

abbrev pool_read : Pool
pool_read =
    after_line 16 one_host (pos 80) http whole_numbers machine 7 address_line (codes "# end" ∷ [])
      pool

waits_to_send : pool_read.waiting ≡ some job
unfolding start after_line ingest_line read_line parse_line_to_job trim_space text_eq is_digit
    check_and_set new_deduplicator fnv32 itoa lookup
waits_to_send = refl

abbrev pool_sent : Pool
pool_sent = record pool_read { waiting = none; queue = job ∷ [] }

-- The loop reads the first line and sends its job.
sent : Run 16 one_host (pos 80) http whole_numbers machine pool 2 pool_sent
unfolding start after_line
sent =
    next (next here (read 7 address_line (codes "# end" ∷ []) refl refl refl refl))
      (send job refl waits_to_send (omega arith))

pool-IsSound : IsSound 16 2 pool
unfolding start new_stats default_config
pool-IsSound = record {
  counted = refl;
  scanned_word = omega arith;
  bounded = omega arith;
  staffed = omega arith;
}

Run-IsSound_example : IsSound 16 2 pool_sent
Run-IsSound_example =
    Run-IsSound 16 2 one_host (pos 80) http whole_numbers machine sent pool-IsSound

abbrev pool_cancelled : Pool
pool_cancelled = record pool { cancelled = true }

stop_terminates_example :
    (0 ≤ work pool_cancelled)
    × (HasStopped pool_cancelled
        ⊎ CanStep 16 one_host (pos 80) http whole_numbers machine pool_cancelled)
stop_terminates_example =
    stop_terminates 16 one_host (pos 80) http whole_numbers machine (result_of http true) here refl

-- The checks of addresses with port 80 succeed.
abbrev port_80_works : Job → CheckResult
port_80_works j = result_of http (eqb_ℤ j.port (pos 80))
