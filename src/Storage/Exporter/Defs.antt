-- ===== src/Storage/Exporter/Defs.antt =====
-- pkg/storage/exporter.go: WriteAlive and SyncAliveFiles.
use go_proxy.Base.{
  Bool, true, false, not, ◌&&◌, Option, none, some, List, [], ◌∷◌, ◌++◌, any, if◌then◌else◌,
}
use go_proxy.Base.Int.{pos, ltb_ℤ, leb_ℤ}
use go_proxy.Base.Text.{Text, codes, text_eq, is_empty, itoa}
use go_proxy.Base.Assoc.{Map, lookup, insert}
use go_proxy.Model.Proxy.{
  Time, Protocol, socks5, protocol_text, Anonymity, elite, anonymity_text, Proxy, address,
  url_string,
}

pub record Exporter : Type 0 where
  pub split_by_country : Bool
  pub split_by_type : Bool
  pub save_json : Bool
  pub has_csv : Bool
  -- the paths with an open handle
  pub handles : List Text
  -- the disk
  pub files : Map Text

-- What the exporter uses of the system and of encoding/json, encoding/csv and time.
pub record System : Type 0 where
  -- whether a file can be opened for writing
  pub opens : Text → Bool
  -- `json.Marshal(p)`
  pub json : Proxy → Text
  -- the line that a csv.Writer writes for a record
  pub csv_line : List Text → Text
  -- the time in the layout RFC 3339
  pub rfc3339 : Time → Text

abbrev pub content : Text → Exporter → Text
content path e = elim (lookup path e.files) [ none ↦ [] | some c ↦ c ]

abbrev pub is_elite : Anonymity → Bool
is_elite elite = true
is_elite _ = false

abbrev pub is_socks5 : Protocol → Bool
is_socks5 socks5 = true
is_socks5 _ = false

-- `p.LatencyMs > 0 && p.LatencyMs <= 500`
abbrev pub is_fast : Proxy → Bool
is_fast p = ltb_ℤ (pos 0) p.latency_ms && leb_ℤ p.latency_ms (pos 500)

-- `e.splitByCountry && p.CountryCode != "" && p.CountryCode != "XX"`
abbrev pub has_country : Bool → Proxy → Bool
has_country split p =
    split && not (is_empty p.country_code) && not (text_eq p.country_code (codes "XX"))

-- `filepath.Join("countries", cc + ".txt")`, and with the protocol
abbrev pub country_file : Proxy → Text
country_file p = codes "countries/" ++ (p.country_code ++ codes ".txt")

abbrev pub country_protocol_file : Proxy → Text
country_protocol_file p =
    codes "countries/" ++ (p.country_code ++ (b'_' ∷ (protocol_text p.protocol ++ codes ".txt")))

abbrev pub protocol_file : Proxy → Text
protocol_file p = protocol_text p.protocol ++ codes ".txt"

module _ (sys : System) where
  -- `getFileHandle`: the exporter with the handle, or `none` for nil. An opened file exists.
  unfoldable pub get_file_handle : Text → Exporter → Option Exporter
  get_file_handle path e =
      if any (λ h. text_eq h path) e.handles
      then some e
      else if sys.opens path
      then some
          (record e { handles = path ∷ e.handles; files = insert path (content path e) e.files })
      else none

  -- A write to the end of a file through its handle.
  unfoldable pub write_through : Text → Text → Exporter → Exporter
  unfolding get_file_handle
  write_through path text e = elim (get_file_handle path e) [
    | none ↦ e
    | some e' ↦ record e' { files = insert path (content path e' ++ text) e'.files }
  ]

  -- `appendLine`
  unfoldable pub append_line : Text → Text → Exporter → Exporter
  append_line name line e = write_through name (line ++ b'\n' ∷ []) e

  -- The stages of `WriteAlive`, by the numbers of its comments.
  unfoldable pub write_all : Proxy → Exporter → Exporter
  write_all p e =
      append_line (codes "alive_url.txt") (url_string p)
        (append_line (codes "alive.txt") (address p) e)

  unfoldable pub write_by_type : Proxy → Exporter → Exporter
  write_by_type p e = if e.split_by_type then append_line (protocol_file p) (address p) e else e

  unfoldable pub write_elite : Proxy → Exporter → Exporter
  write_elite p e =
      if is_elite p.anonymity
      then (let e' = append_line (codes "elite.txt") (address p) e in
          if is_socks5 p.protocol
          then append_line (codes "socks5_elite.txt") (address p) e'
          else e')
      else e

  unfoldable pub write_fast : Proxy → Exporter → Exporter
  write_fast p e = if is_fast p then append_line (codes "fast.txt") (address p) e else e

  unfoldable pub write_high_quality : Proxy → Exporter → Exporter
  write_high_quality p e =
      if leb_ℤ (pos 80) p.score then append_line (codes "high_quality.txt") (address p) e else e

  unfoldable pub write_by_country : Proxy → Exporter → Exporter
  write_by_country p e =
      if has_country e.split_by_country p
      then append_line (country_protocol_file p) (address p)
          (append_line (country_file p) (address p) e)
      else e

  unfoldable pub write_json : Proxy → Exporter → Exporter
  write_json p e =
      if e.save_json then write_through (codes "proxies.jsonl") (sys.json p ++ b'\n' ∷ []) e else e

  -- The CSV file has a writer of its own, which is flushed at once.
  unfoldable pub write_csv : Proxy → Exporter → Exporter
  write_csv p e =
      if e.has_csv
      then record e {
        files =
            insert (codes "proxies.csv")
              (content (codes "proxies.csv") e
                ++ sys.csv_line (
                    p.ip
                    ∷ itoa p.port
                    ∷ protocol_text p.protocol
                    ∷ anonymity_text p.anonymity
                    ∷ p.country
                    ∷ p.country_code
                    ∷ p.city
                    ∷ itoa p.latency_ms
                    ∷ itoa p.score
                    ∷ sys.rfc3339 p.last_alive
                    ∷ []))
              e.files;
      }
      else e

  -- `WriteAlive`
  unfoldable pub write_alive : Proxy → Exporter → Exporter
  write_alive p e = write_csv p (
      write_json p (
        write_by_country p
          (write_high_quality p (write_fast p (write_elite p (write_by_type p (write_all p e)))))))

-- `linesByFile`: the lines of each file.
abbrev pub Lines : Type 0
Lines = Map (List Text)

abbrev pub lines_at : Text → Lines → List Text
lines_at name m = elim (lookup name m) [ none ↦ [] | some ls ↦ ls ]

-- `linesByFile[name] = append(linesByFile[name], line)`
unfoldable pub add_line : Text → Text → Lines → Lines
add_line name line m = insert name (lines_at name m ++ line ∷ []) m

-- The body of the loop of `SyncAliveFiles`, for a proxy that is alive.
unfoldable pub add_proxy : Bool → Bool → Proxy → Lines → Lines
add_proxy by_country by_type p m0 =
    let addr = address p in
    let m1 =
      add_line (codes "alive_url.txt") (url_string p) (add_line (codes "alive.txt") addr m0) in
    let m2 = if by_type then add_line (protocol_file p) addr m1 else m1 in
    let m3 =
      if is_elite p.anonymity
      then (let m = add_line (codes "elite.txt") addr m2 in
          if is_socks5 p.protocol then add_line (codes "socks5_elite.txt") addr m else m)
      else m2 in
    let m4 = if is_fast p then add_line (codes "fast.txt") addr m3 else m3 in
    let m5 = if leb_ℤ (pos 80) p.score then add_line (codes "high_quality.txt") addr m4 else m4 in
    if has_country by_country p
    then add_line (country_protocol_file p) addr (add_line (country_file p) addr m5)
    else m5

unfoldable pub collect_lines : Bool → Bool → List Proxy → Lines → Lines
collect_lines by_country by_type [] m = m
collect_lines by_country by_type (p ∷ ps) m =
    collect_lines by_country by_type ps (if p.is_alive then add_proxy by_country by_type p m else m)

-- `strings.Join(lines, "\n")`
unfoldable pub join_lines : List Text → Text
join_lines [] = []
join_lines (l ∷ []) = l
join_lines (l ∷ k ∷ ls) = l ++ b'\n' ∷ join_lines (k ∷ ls)

-- The content that is written for a list of lines.
unfoldable pub sync_content : List Text → Text
unfolding join_lines
sync_content [] = []
sync_content (l ∷ ls) = join_lines (l ∷ ls) ++ b'\n' ∷ []

-- The loop that overwrites the files, over the entries of `linesByFile`.
unfoldable pub overwrite : (Text → Bool) → Lines → Map Text → Map Text
overwrite opens [] files = files
overwrite opens ((name, ls) ∷ m) files =
    overwrite opens m (if opens name then insert name (sync_content ls) files else files)

-- `SyncAliveFiles`
unfoldable pub sync_alive_files : System → List Proxy → Exporter → Exporter
sync_alive_files sys proxies e =
    let m = collect_lines e.split_by_country e.split_by_type proxies [] in
    record e { handles = []; files = overwrite sys.opens m e.files }
