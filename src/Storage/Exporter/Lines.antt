-- ===== src/Storage/Exporter/Lines.antt =====
-- pkg/storage/exporter.go: which lines a proxy adds to which files, as one list that both
-- WriteAlive and SyncAliveFiles go through.
use go_proxy.Base.{◌≡◌, refl, ap, sym, ◌∙◌, Bool, List, [], ◌∷◌, ◌++◌, arith, if◌then◌else◌}
use go_proxy.Base.Int.{pos, leb_ℤ}
use go_proxy.Base.Text.{Text, codes, text_eq}
use go_proxy.Model.Proxy.{Proxy, address, url_string}
use go_proxy.Storage.Exporter.Defs.{
  Exporter, System, is_elite, is_socks5, is_fast, has_country, country_file, country_protocol_file,
  protocol_file, get_file_handle, write_through, append_line, write_all, write_by_type, write_elite,
  write_fast, write_high_quality, write_by_country, write_json, write_csv, write_alive, Lines,
  add_line, add_proxy,
}

-- A file and a line of it.
abbrev pub Entry : Type 0
Entry = Text × Text

abbrev pub all_entries : Proxy → List Entry
all_entries p = (codes "alive.txt", address p) ∷ (codes "alive_url.txt", url_string p) ∷ []

abbrev pub type_entries : Bool → Proxy → List Entry
type_entries by_type p = if by_type then (protocol_file p, address p) ∷ [] else []

abbrev pub elite_entries : Proxy → List Entry
elite_entries p =
    if is_elite p.anonymity
    then (codes "elite.txt", address p)
      ∷ (if is_socks5 p.protocol then (codes "socks5_elite.txt", address p) ∷ [] else [])
    else []

abbrev pub fast_entries : Proxy → List Entry
fast_entries p = if is_fast p then (codes "fast.txt", address p) ∷ [] else []

abbrev pub quality_entries : Proxy → List Entry
quality_entries p =
    if leb_ℤ (pos 80) p.score then (codes "high_quality.txt", address p) ∷ [] else []

abbrev pub country_entries : Bool → Proxy → List Entry
country_entries by_country p =
    if has_country by_country p
    then (country_file p, address p) ∷ (country_protocol_file p, address p) ∷ []
    else []

-- All lines of a proxy, with the files that they belong to.
unfoldable pub entries : Bool → Bool → Proxy → List Entry
entries by_country by_type p =
    all_entries p
    ++ (type_entries by_type p
        ++ (elite_entries p
            ++ (fast_entries p ++ (quality_entries p ++ country_entries by_country p))))

-- The lines for one file.
abbrev pub lines_for : Text → List Entry → List Text
lines_for q [] = []
lines_for q ((name, line) ∷ es) = if text_eq name q then line ∷ lines_for q es else lines_for q es

pub lines_for-append :
    (q : Text) (es fs : List Entry) → lines_for q (es ++ fs) ≡ lines_for q es ++ lines_for q fs
lines_for-append q [] fs = refl
lines_for-append q ((n, l) ∷ es) fs = ground (arith, lines_for-append q es fs)

-- Lines added one after the other, to the files and to `linesByFile`.
unfoldable pub append_entries : System → List Entry → Exporter → Exporter
append_entries sys [] e = e
append_entries sys ((name, line) ∷ es) e = append_entries sys es (append_line sys name line e)

unfoldable pub add_entries : List Entry → Lines → Lines
add_entries [] m = m
add_entries ((name, line) ∷ es) m = add_entries es (add_line name line m)

pub add_entries-append :
    (es fs : List Entry) (m : Lines) → add_entries (es ++ fs) m ≡ add_entries fs (add_entries es m)
unfolding add_entries
add_entries-append [] fs m = refl
add_entries-append ((n, l) ∷ es) fs m = add_entries-append es fs (add_line n l m)

append_entries-append :
    (sys : System) (es fs : List Entry) (e : Exporter)
    → append_entries sys (es ++ fs) e ≡ append_entries sys fs (append_entries sys es e)
unfolding append_entries
append_entries-append sys [] fs e = refl
append_entries-append sys ((n, l) ∷ es) fs e =
    append_entries-append sys es fs (append_line sys n l e)

pub add_proxy-eq-add_entries :
    (by_country by_type : Bool) (p : Proxy) (m : Lines)
    → add_proxy by_country by_type p m ≡ add_entries (entries by_country by_type p) m
unfolding add_proxy add_entries entries
add_proxy-eq-add_entries c t p m = ground arith

-- Writing a line keeps the settings of the exporter.
abbrev pub SameSettings : Exporter → Exporter → Type 0
SameSettings e e' =
    (e'.split_by_country ≡ e.split_by_country)
    × (e'.split_by_type ≡ e.split_by_type)
    × (e'.save_json ≡ e.save_json)
    × (e'.has_csv ≡ e.has_csv)

append_line-SameSettings :
    (sys : System) (name line : Text) (e : Exporter) → SameSettings e (append_line sys name line e)
unfolding append_line write_through get_file_handle
append_line-SameSettings sys name line e = ground arith

pub append_entries-SameSettings :
    (sys : System) (es : List Entry) (e : Exporter) → SameSettings e (append_entries sys es e)
unfolding append_entries
append_entries-SameSettings sys [] e = (refl, refl, refl, refl)
append_entries-SameSettings sys ((n, l) ∷ es) e =
    let (a, b, c, d) = append_line-SameSettings sys n l e in
    let (a', b', c', d') = append_entries-SameSettings sys es (append_line sys n l e) in
    (a' ∙ a, b' ∙ b, c' ∙ c, d' ∙ d)

module _ (sys : System) (p : Proxy) (e : Exporter) where
  by_type_stage :
      (e' : Exporter)
      → e'.split_by_type ≡ e.split_by_type
      → write_by_type sys p e' ≡ append_entries sys (type_entries e.split_by_type p) e'
  unfolding write_by_type append_entries
  by_type_stage e' h = ground arith

  elite_stage : (e' : Exporter) → write_elite sys p e' ≡ append_entries sys (elite_entries p) e'
  unfolding write_elite append_entries
  elite_stage e' = ground arith

  fast_stage : (e' : Exporter) → write_fast sys p e' ≡ append_entries sys (fast_entries p) e'
  unfolding write_fast append_entries
  fast_stage e' = ground arith

  quality_stage :
      (e' : Exporter) → write_high_quality sys p e' ≡ append_entries sys (quality_entries p) e'
  unfolding write_high_quality append_entries
  quality_stage e' = ground arith

  country_stage :
      (e' : Exporter)
      → e'.split_by_country ≡ e.split_by_country
      → write_by_country sys p e' ≡ append_entries sys (country_entries e.split_by_country p) e'
  unfolding write_by_country append_entries
  country_stage e' h = ground arith

  -- WriteAlive writes the same lines, and then the JSON and the CSV record.
  pub write_alive-eq-append_entries :
      write_alive sys p e
      ≡ write_csv sys p
          (write_json sys p (append_entries sys (entries e.split_by_country e.split_by_type p) e))
  unfolding write_alive entries
  write_alive-eq-append_entries =
      let es1 : List Entry = all_entries p in
      let es2 : List Entry = type_entries e.split_by_type p in
      let es3 : List Entry = elite_entries p in
      let es4 : List Entry = fast_entries p in
      let es5 : List Entry = quality_entries p in
      let es6 : List Entry = country_entries e.split_by_country p in
      let e1 : Exporter = append_entries sys es1 e in
      let e2 : Exporter = append_entries sys es2 e1 in
      let e3 : Exporter = append_entries sys es3 e2 in
      let e4 : Exporter = append_entries sys es4 e3 in
      let e5 : Exporter = append_entries sys es5 e4 in
      let first : write_all sys p e ≡ e1 = unfold write_all append_entries in refl in
      let second : write_by_type sys p e1 ≡ e2 =
        by_type_stage e1 (append_entries-SameSettings sys es1 e).1 in
      let kept : e5.split_by_country ≡ e.split_by_country =
        (append_entries-SameSettings sys es5 e4).0
        ∙ (append_entries-SameSettings sys es4 e3).0
        ∙ (append_entries-SameSettings sys es3 e2).0
        ∙ (append_entries-SameSettings sys es2 e1).0
        ∙ (append_entries-SameSettings sys es1 e).0 in
      ap (λ t. write_csv sys p (write_json sys p t))
        (rw (first, second, elite_stage e2, fast_stage e3, quality_stage e4, country_stage e5 kept)
          (sym (
            append_entries-append sys es1 (es2 ++ (es3 ++ (es4 ++ (es5 ++ es6)))) e
            ∙ append_entries-append sys es2 (es3 ++ (es4 ++ (es5 ++ es6))) e1
            ∙ append_entries-append sys es3 (es4 ++ (es5 ++ es6)) e2
            ∙ append_entries-append sys es4 (es5 ++ es6) e3
            ∙ append_entries-append sys es5 es6 e4)))
