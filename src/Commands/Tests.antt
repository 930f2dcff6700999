-- ===== src/Commands/Tests.antt =====
-- Tests of cmd.
use mathlib.Core.Option
use go_proxy.Base.{◌≡◌, refl, true, false, none, some, [], ◌∷◌, ◌++◌, if◌then◌else◌}
use go_proxy.Base.Int.{pos}
use go_proxy.Base.Text.{codes, text_eq, is_digit, trim_space, itoa}
use go_proxy.Base.Assoc.{lookup, insert}
use go_proxy.Model.Config.{Config, default_config}
use go_proxy.Samples.{machine}
use go_proxy.Storage.Exporter.Setup.{new_exporter, output_dir_of, open_csv}
use go_proxy.Commands.Settings.{
  Reads, config_candidates, load_first, init_config, Loads, init_config-Loads,
}
use go_proxy.Commands.Start.{World, start_check}
use go_proxy.Model.Stats.{new_stats}
use go_proxy.Pipeline.Dedup.{new_deduplicator, check_and_set, fnv32}
use go_proxy.Pipeline.Jobs.Defs.{Parsers, parse_line_to_job}
use go_proxy.Pipeline.Ingest.Defs.{Intake, ingest_line, ingest_lines, read_line}
use go_proxy.Commands.{CheckFlags, apply_flags, read_all, ingest_rounds, reads_again}

abbrev loop_flags : CheckFlags
loop_flags = record {
  port = record { value = pos 8080; changed = false };
  workers = record { value = pos 2000; changed = false };
  protocol = record { value = codes "http"; changed = true };
  file = codes "targets.txt";
  timeout = record { value = pos 5; changed = true };
  output_dir = record { value = codes "output"; changed = false };
  loop = record { value = true; changed = true };
  retry = record { value = false; changed = false };
}

both_timeouts : (apply_flags loop_flags default_config).engine.read_write_timeout ≡ pos 5
unfolding apply_flags
both_timeouts = refl

file_is_read_again : reads_again loop_flags (apply_flags loop_flags default_config) ≡ true
unfolding reads_again apply_flags text_eq
file_is_read_again = refl

abbrev readers : Parsers
readers = record {
  parse_url = λ s. none;
  split_host_port = λ s. some (codes "1.2.3.4", codes "80");
}

abbrev two_rounds : Intake
two_rounds =
    (ingest_rounds readers loop_flags true
      (read_all ((7, codes "1.2.3.4:80") ∷ []) false
        ∷ read_all ((2_000_000_007, codes "1.2.3.4:80") ∷ []) true
        ∷ [])
      (record { dedup = new_deduplicator (pos 900_000_000_000); stats = new_stats 0 })).1

-- The second round of the loop queues nothing: its lines are duplicates.
second_round_is_empty : two_rounds.stats.total_queued ≡ 1
unfolding ingest_rounds ingest_lines ingest_line read_line parse_line_to_job trim_space text_eq
    is_digit check_and_set new_deduplicator fnv32 itoa lookup insert new_stats
second_round_is_empty = refl

-- The first file has a setting of the wrong type: it is passed over, but its directory stays.
abbrev half_read : Config
half_read = record default_config {
  storage = record default_config.storage { output_dir = codes "half" };
}

abbrev two_files : Reads
two_files = record {
  read_file = λ path.
      if text_eq path (codes "configs/config.yaml")
      then some (codes "bad")
      else if text_eq path (codes "config.yaml")
      then some (codes "good")
      else none;
  unmarshal = λ content c. if text_eq content (codes "good") then (c, true) else (half_read, false);
  exec_dir = none;
  join = λ dir name. dir ++ b'/' ∷ name;
}

second_file_is_loaded : (init_config two_files []).loaded ≡ codes "config.yaml"
unfolding init_config config_candidates load_first text_eq
second_file_is_loaded = refl

setting_of_first_stays : (init_config two_files []).config.storage.output_dir ≡ codes "half"
unfolding init_config config_candidates load_first text_eq default_config
setting_of_first_stays = refl

init_config-Loads_example :
    Loads two_files (config_candidates two_files []) default_config (init_config two_files [])
init_config-Loads_example = init_config-Loads two_files []

abbrev empty_world : World
empty_world = record {
  execute = λ s t. some t;
  opens = λ path. some (record { rows = []; next_id = 1 });
  makes = λ dir. true;
  files = [];
}

-- The table is opened unless it is switched off, and the API needs it.
api_needs_table :
    Option.map
      (λ s. s.api)
      (start_check machine empty_world loop_flags
        (record { no_db = true; quiet = true; serve = true })
        0
        default_config)
    ≡ some false
unfolding start_check new_exporter apply_flags output_dir_of open_csv text_eq
api_needs_table = refl
