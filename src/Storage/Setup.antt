-- ===== src/Storage/Setup.antt =====
-- pkg/storage/sqlite.go, NewSQLiteStore and initSchema. The database is any type whose
-- statements succeed or not; what a statement does to it is a parameter.
use go_proxy.Base.{Option, none, some, List, [], ◌∷◌, ◌++◌, if◌then◌else◌}
use go_proxy.Base.Text.{Text, codes, is_empty}
use go_proxy.Storage.Committer.{Store}

-- The statements: the table, its indexes, and the columns that later versions have added.
pub data Statement : Type 0 where
  create_table index_filter index_latency index_address : Statement
  add_judge_count add_speed_kbps : Statement

abbrev pub schema : List Statement
schema = create_table ∷ index_filter ∷ index_latency ∷ index_address ∷ []

abbrev pub migrations : List Statement
migrations = add_judge_count ∷ add_speed_kbps ∷ []

-- The path and the data source name.
unfoldable pub database_path : Text → Text
database_path path = if is_empty path then codes "proxies.db" else path

unfoldable pub data_source : Text → Text
unfolding database_path
data_source path =
    database_path path
    ++ codes "?_journal_mode=WAL&_busy_timeout=10000&_synchronous=NORMAL&_cache_size=-128000"
    ++ codes "&_temp_store=MEMORY&_mmap_size=268435456&_wal_autocheckpoint=4000"

module _ {D : Type 0} (execute : Statement → D → Option D) where
  -- A statement that fails changes nothing and ends the first loop of `initSchema`.
  unfoldable pub execute_all : List Statement → D → Option D
  execute_all [] d = some d
  execute_all (s ∷ more) d = elim (execute s d) [ none ↦ none | some e ↦ execute_all more e ]

  -- The second loop ignores the errors: the column exists already.
  unfoldable pub execute_each : List Statement → D → D
  execute_each [] d = d
  execute_each (s ∷ more) d = execute_each more (elim (execute s d) [ none ↦ d | some e ↦ e ])

  -- `initSchema`
  unfoldable pub init_schema : D → Option D
  unfolding execute_all execute_each
  init_schema d = elim (execute_all schema d) [
    | none ↦ none
    | some e ↦ some (execute_each migrations e)
  ]

  -- `NewSQLiteStore`: `opens` is sql.Open of the data source.
  unfoldable pub new_sqlite_store : (Text → Option D) → Text → Option (Store D)
  unfolding init_schema data_source
  new_sqlite_store opens path = elim (opens (data_source path)) [
    | none ↦ none
    | some d ↦ elim (init_schema d) [
      | none ↦ none
      | some e ↦ some (record { queue = []; buffer = []; db = e })
    ]
  ]
