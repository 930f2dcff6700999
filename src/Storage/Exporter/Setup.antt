-- ===== src/Storage/Exporter/Setup.antt =====
-- pkg/storage/exporter.go: NewExporter and Close.
use go_proxy.Base.{Bool, true, false, not, ◌&&◌, Option, none, some, List, [], ◌∷◌, if◌then◌else◌}
use go_proxy.Base.Text.{Text, codes, is_empty}
use go_proxy.Base.Assoc.{Map, insert}
use go_proxy.Model.Config.{StorageConfig}
use go_proxy.Storage.Exporter.Defs.{Exporter, System, content}

abbrev csv_columns : List Text
csv_columns =
    codes "IP"
    ∷ codes "Port"
    ∷ codes "Protocol"
    ∷ codes "Anonymity"
    ∷ codes "Country"
    ∷ codes "CountryCode"
    ∷ codes "City"
    ∷ codes "LatencyMs"
    ∷ codes "Score"
    ∷ codes "LastAlive"
    ∷ []

-- `filepath` of the output directory.
unfoldable pub output_dir_of : StorageConfig → Text
output_dir_of cfg = if is_empty cfg.output_dir then codes "output" else cfg.output_dir

abbrev plain_exporter : StorageConfig → Map Text → Exporter
plain_exporter cfg files = record {
  split_by_country = cfg.split_by_country;
  split_by_type = cfg.split_by_type;
  save_json = cfg.save_json;
  has_csv = false;
  handles = [];
  files = files;
}

-- Opening the CSV file, with the names of the columns in a file that is empty.
unfoldable pub open_csv : System → Exporter → Exporter
unfolding insert
open_csv sys e =
    let old = content (codes "proxies.csv") e in
    record e {
      has_csv = true;
      files =
          insert (codes "proxies.csv") (if is_empty old then sys.csv_line csv_columns else old)
            e.files;
    }

-- `NewExporter` over the files of the output directory; `makes` says whether a directory can be
-- made, and `none` is the error.
unfoldable pub new_exporter : System → (Text → Bool) → StorageConfig → Map Text → Option Exporter
unfolding output_dir_of open_csv
new_exporter sys makes cfg files =
    let e = plain_exporter cfg files in
    if not (makes (output_dir_of cfg))
    then none
    else some (if cfg.save_csv && sys.opens (codes "proxies.csv") then open_csv sys e else e)

-- `Close` of the handles; the CSV file is closed too, and nothing is written after that.
unfoldable pub close_exporter : Exporter → Exporter
close_exporter e = record e { handles = [] }
