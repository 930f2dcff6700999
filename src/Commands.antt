-- ===== src/Commands.antt =====
-- cmd/check.go: the settings that the flags choose, and the loop that reads the input.
mod Tests
pub mod Scan
pub mod Settings
pub mod Start
use go_proxy.Base.{
  Bool, true, false, not, ◌&&◌, ◌||◌, Option, none, some, List, [], ◌∷◌, if◌then◌else◌,
}
use go_proxy.Base.Int.{ℤ}
use go_proxy.Base.Text.{Text, codes, text_eq}
use go_proxy.Model.Proxy.{Time, Protocol, unknown, protocol_of_text}
use go_proxy.Model.Config.{Config, EngineConfig, ProtocolConfig, StorageConfig}
use go_proxy.Pipeline.Jobs.Defs.{Parsers}
use go_proxy.Pipeline.Ingest.Defs.{Intake, ingest_lines}

-- The value of a flag, and whether it is on the command line.
pub record Flag (A : Type 0) : Type 0 where
  pub value : A
  pub changed : Bool

pub record CheckFlags : Type 0 where
  pub port : Flag ℤ
  pub workers : Flag ℤ
  pub protocol : Flag Text
  pub file : Text
  pub timeout : Flag ℤ
  pub output_dir : Flag Text
  pub loop : Flag Bool
  pub retry : Flag Bool

abbrev flag_or : {A : Type 0} → Flag A → A → A
flag_or f old = if f.changed then f.value else old

unfoldable pub engine_of_flags : CheckFlags → EngineConfig → EngineConfig
engine_of_flags f e = record e {
  workers = flag_or f.workers e.workers;
  connect_timeout = flag_or f.timeout e.connect_timeout;
  read_write_timeout = flag_or f.timeout e.read_write_timeout;
  auto_port = flag_or f.port e.auto_port;
  loop = if f.loop.changed || f.retry.changed then f.loop.value || f.retry.value else e.loop;
}

unfoldable pub protocol_of_flags : CheckFlags → ProtocolConfig → ProtocolConfig
unfolding text_eq protocol_of_text
protocol_of_flags f c =
    if f.protocol.changed && not (text_eq f.protocol.value (codes "auto"))
    then record c { protocols = protocol_of_text f.protocol.value ∷ []; auto_detect = false }
    else c

unfoldable pub storage_of_flags : CheckFlags → StorageConfig → StorageConfig
storage_of_flags f c = record c { output_dir = flag_or f.output_dir c.output_dir }

-- The flags that `runCheck` applies to the configuration.
unfoldable pub apply_flags : CheckFlags → Config → Config
unfolding engine_of_flags protocol_of_flags storage_of_flags
apply_flags f cfg = record cfg {
  engine = engine_of_flags f cfg.engine;
  protocol = protocol_of_flags f cfg.protocol;
  storage = storage_of_flags f cfg.storage;
}

-- The protocol for lines without one.
unfoldable pub selected_proto : CheckFlags → Protocol
unfolding text_eq protocol_of_text
selected_proto f =
    if text_eq f.protocol.value (codes "auto") then unknown else protocol_of_text f.protocol.value

-- What happens in a round of the loop: the file cannot be opened; the scanner fails after the
-- lines; or the lines end, and the context is done before two seconds have passed, or not.
pub data Round : Type 0 where
  not_opened : Text → Round
  read_failed : Text → List (Time × Text) → Round
  read_all : List (Time × Text) → Bool → Round

-- How the goroutine ends: it sends nil or an error, or it still runs after these rounds.
pub data Ended : Type 0 where
  no_failure : Ended
  failure : Text → Ended
  running : Ended

-- The goroutine that reads the input, round after round, with the filter and the counters.
unfoldable pub ingest_rounds : Parsers → CheckFlags → Bool → List Round → Intake → Ended × Intake
unfolding ingest_lines selected_proto
ingest_rounds ps f again [] s = (running, s)
ingest_rounds ps f again (not_opened message ∷ rounds) s = (failure message, s)
ingest_rounds ps f again (read_failed message lines ∷ rounds) s =
    (failure message, ingest_lines ps f.port.value (selected_proto f) lines s)
ingest_rounds ps f again (read_all lines done ∷ rounds) s =
    let t = ingest_lines ps f.port.value (selected_proto f) lines s in
    let rest = ingest_rounds ps f again rounds t in
    if again && not done then rest else (no_failure, t)

-- `!cfg.Engine.Loop || fileFlag == ""`, negated
unfoldable pub reads_again : CheckFlags → Config → Bool
unfolding text_eq
reads_again f cfg = cfg.engine.loop && not (text_eq f.file [])
