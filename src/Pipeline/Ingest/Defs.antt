-- ===== src/Pipeline/Ingest/Defs.antt =====
-- pkg/pipeline/pipeline.go, IngestFromReader: what the body of the loop does with a line, up to the
-- send of the job to the workers.
use go_proxy.Base.{Bool, true, false, ◌||◌, Option, none, some, List, [], ◌∷◌, ◌++◌, if◌then◌else◌}
use go_proxy.Base.Int.{ℤ}
use go_proxy.Base.Text.{Text, codes, is_empty, has_prefix, trim_space, itoa}
use go_proxy.Model.Proxy.{Time, Protocol, protocol_text}
use go_proxy.Model.Stats.{Stats, inc_queued}
use go_proxy.Pipeline.Dedup.{Deduplicator, check_and_set, cleanup}
use go_proxy.Pipeline.Jobs.Defs.{Job, Parsers, parse_line_to_job}

-- The part of the pipeline that a line may change: the filter and the counters.
pub record Intake : Type 0 where
  pub dedup : Deduplicator
  pub stats : Stats

-- `fmt.Sprintf("%s:%d:%s", job.IP, job.Port, job.Protocol)`
unfoldable pub dedup_key : Job → Text
unfolding itoa protocol_text
dedup_key j = j.ip ++ (b':' ∷ (itoa j.port ++ (b':' ∷ protocol_text j.protocol)))

-- The job of a line that is neither empty nor a comment and that parses.
unfoldable pub read_line : Parsers → ℤ → Protocol → Text → Option Job
unfolding parse_line_to_job trim_space has_prefix
read_line ps default_port default_proto text =
    let line = trim_space text in
    if is_empty line || has_prefix line (codes "#")
    then none
    else parse_line_to_job ps line default_port default_proto

abbrev pub admit_decided : Job → Bool × Deduplicator → Intake → Option Job × Intake
admit_decided j (true, d) s = (some j, record { dedup = d; stats = inc_queued s.stats })
admit_decided j (false, d) s = (none, record s { dedup = d })

-- The job goes on only if the filter accepts its key.
unfoldable pub admit : Time → Job → Intake → Option Job × Intake
unfolding check_and_set dedup_key inc_queued
admit now j s = admit_decided j (check_and_set now (dedup_key j) s.dedup) s

abbrev pub admit_parsed : Time → Option Job → Intake → Option Job × Intake
admit_parsed now none s = (none, s)
admit_parsed now (some j) s = admit now j s

-- One round of the loop at the time `now`: the job to be sent, and the filter and counters.
unfoldable pub ingest_line : Parsers → ℤ → Protocol → Time → Text → Intake → Option Job × Intake
unfolding read_line admit
ingest_line ps default_port default_proto now text s =
    admit_parsed now (read_line ps default_port default_proto text) s

-- The loop over lines with the times at which they are read, while cleanupLoop does not tick.
unfoldable pub ingest_lines : Parsers → ℤ → Protocol → List (Time × Text) → Intake → Intake
unfolding ingest_line
ingest_lines ps default_port default_proto [] s = s
ingest_lines ps default_port default_proto ((now, text) ∷ rest) s =
    ingest_lines ps default_port default_proto rest
      (ingest_line ps default_port default_proto now text s).1

-- What changes the filter while the loop runs: the loop reads a line, or cleanupLoop ticks.
pub data Happening : Type 0 where
  line_read : Time → Text → Happening
  cleaned : Time → Happening

-- The loop over the lines, with the ticks of cleanupLoop between them.
unfoldable pub ingest_happenings : Parsers → ℤ → Protocol → List Happening → Intake → Intake
unfolding ingest_line cleanup
ingest_happenings ps default_port default_proto [] s = s
ingest_happenings ps default_port default_proto (line_read now text ∷ rest) s =
    ingest_happenings ps default_port default_proto rest
      (ingest_line ps default_port default_proto now text s).1
ingest_happenings ps default_port default_proto (cleaned now ∷ rest) s =
    ingest_happenings ps default_port default_proto rest (record s { dedup = cleanup now s.dedup })
