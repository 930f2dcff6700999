-- ===== src/GeoIp/Database.antt =====
-- pkg/geoip/geoip.go, initMMDB and autoDownloadMMDB: where the offline database is looked for, and
-- its download. geoip2.Open is a parameter: what it makes of the content of a file.
use go_proxy.Base.{ℕ, zero, suc, Bool, true, false, Option, none, some, List, [], ◌∷◌, ◌++◌}
use go_proxy.Base.Text.{Text, codes}
use go_proxy.Base.Assoc.{Map, lookup, insert, erase}
use go_proxy.Net.Ip.{Ip}
use go_proxy.GeoIp.Defs.{CountryRecord}

-- An open database: what a query finds.
abbrev pub Database : Type 0
Database = Ip → Option CountryRecord

-- The files, by their paths, and the database of the resolver.
pub record Disk : Type 0 where
  pub files : Map Text
  pub reader : Option Database

abbrev pub country_file : Text
country_file = codes "GeoLite2-Country.mmdb"

abbrev pub city_file : Text
city_file = codes "GeoLite2-City.mmdb"

-- The places of a file: below the working directory and those above it.
abbrev pub usual_places : Text → List Text
usual_places name =
    (codes "configs/" ++ name)
    ∷ (codes "../configs/" ++ name)
    ∷ (codes "../../configs/" ++ name)
    ∷ (codes "/root/scan_proxy/configs/" ++ name)
    ∷ name
    ∷ []

-- The places beside the executable, in the directory `dir`; `join` is filepath.Join.
abbrev pub beside : (Text → Text → Text) → Text → Text → List Text
beside join dir name = join dir (codes "configs/" ++ name) ∷ join dir name ∷ []

-- The paths that are tried, in order; without the directory of the executable if it is not known.
unfoldable pub database_candidates : (Text → Text → Text) → Option Text → List Text
database_candidates join none = usual_places country_file ++ usual_places city_file
database_candidates join (some dir) =
    usual_places country_file
    ++ usual_places city_file
    ++ beside join dir country_file
    ++ beside join dir city_file

-- What comes of the request: no answer with the status 200, or one whose body arrives in some
-- pieces, with or without an error in the end.
pub data Download : Type 0 where
  no_answer : Download
  copied : List Text → Bool → Download

abbrev pub target_file : Text
target_file = codes "configs/GeoLite2-Country.mmdb"

abbrev pub temporary_file : Text
temporary_file = codes "configs/GeoLite2-Country.mmdb.tmp"

abbrev pub read_from : Option Database → Disk → Disk
read_from none d = d
read_from (some db) d = record d { reader = some db }

-- A piece at the end of the temporary file, which has this content.
abbrev pub appended : Option Text → Text → Map Text → Map Text
appended none piece files = files
appended (some body) piece files = insert temporary_file (body ++ piece) files

-- `os.Rename` of the temporary file, which has this content.
abbrev pub renamed : Option Text → Map Text → Map Text
renamed none files = files
renamed (some body) files = erase temporary_file (insert target_file body files)

-- What `autoDownloadMMDB` does to the files, one call at a time: os.Create, a write of io.Copy,
-- os.Rename and geoip2.Open.
pub data FileStep : Type 0 where
  create_temporary rename_temporary open_target : FileStep
  append_temporary : Text → FileStep

-- The steps after the copy; `renames` says whether os.Rename succeeds, and its error is ignored.
abbrev pub steps_at_end : Bool → Bool → List FileStep
steps_at_end false renames = []
steps_at_end true false = open_target ∷ []
steps_at_end true true = rename_temporary ∷ open_target ∷ []

abbrev pub copy_steps : List Text → List FileStep → List FileStep
copy_steps [] more = more
copy_steps (piece ∷ pieces) more = append_temporary piece ∷ copy_steps pieces more

-- All steps, in order; `creates` says whether os.Create succeeds.
abbrev pub download_steps : Download → Bool → Bool → List FileStep
download_steps no_answer creates renames = []
download_steps (copied pieces complete) false renames = []
download_steps (copied pieces complete) true renames =
    create_temporary ∷ copy_steps pieces (steps_at_end complete renames)

module _ (open_database : Text → Option Database) where
  abbrev pub open_path : Map Text → Text → Option Database
  open_path files path = elim (lookup path files) [
    | none ↦ none
    | some content ↦ open_database content
  ]

  unfoldable pub first_database : Map Text → List Text → Option Database
  first_database files [] = none
  first_database files (p ∷ ps) = elim (open_path files p) [
    | none ↦ first_database files ps
    | some db ↦ some db
  ]

  -- `initMMDB`: the disk afterwards, and whether the download starts.
  unfoldable pub init_mmdb : (Text → Text → Text) → Option Text → Disk → Disk × Bool
  unfolding first_database database_candidates
  init_mmdb join exec_dir d = elim (first_database d.files (database_candidates join exec_dir)) [
    | some db ↦ (record d { reader = some db }, false)
    | none ↦ (d, true)
  ]

  -- The open of the target, once the rename has been tried.
  abbrev pub reopened : Disk → Disk
  reopened d = read_from (open_path d.files target_file) d

  unfoldable pub file_step : FileStep → Disk → Disk
  unfolding insert erase lookup
  file_step create_temporary d = record d { files = insert temporary_file [] d.files }
  file_step (append_temporary piece) d = record d {
    files = appended (lookup temporary_file d.files) piece d.files;
  }
  file_step rename_temporary d = record d {
    files = renamed (lookup temporary_file d.files) d.files;
  }
  file_step open_target d = reopened d

  -- At most `n` of the steps.
  unfoldable pub run_steps : List FileStep → ℕ → Disk → Disk
  unfolding file_step
  run_steps [] n d = d
  run_steps (s ∷ more) zero d = d
  run_steps (s ∷ more) (suc n) d = run_steps more n (file_step s d)

  -- `autoDownloadMMDB` of one resolver, while no other one downloads; the process ends after `n`
  -- steps, or later.
  unfoldable pub auto_download_mmdb : Download → Bool → Bool → ℕ → Disk → Disk
  unfolding run_steps
  auto_download_mmdb dl creates renames n d = run_steps (download_steps dl creates renames) n d
