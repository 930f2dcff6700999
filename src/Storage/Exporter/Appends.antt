-- ===== src/Storage/Exporter/Appends.antt =====
-- pkg/storage/exporter.go: what the files hold after WriteAlive.
use go_proxy.Base.{
  ◌≡◌, ◌≢◌, refl, ap, sym, ◌∙◌, true, List, [], ◌∷◌, ◌++◌, arith, if◌then◌else◌, append-nil_right,
  append_assoc_right, Bool-cases, inl, inr,
}
use go_proxy.Base.Text.{Text, codes, text_eq, text_eq_iff}
use go_proxy.Base.Assoc.{insert, lookup-insert}
use go_proxy.Model.Proxy.{Proxy}
use go_proxy.Storage.Exporter.Defs.{
  Exporter, System, get_file_handle, write_through, append_line, write_json, write_csv, write_alive,
  content,
}
use go_proxy.Storage.Exporter.Lines.{
  Entry, entries, lines_for, append_entries, write_alive-eq-append_entries,
}

-- Lines as they stand in a file, each with its line feed.
abbrev pub terminated : List Text → Text
terminated [] = []
terminated (l ∷ ls) = l ++ b'\n' ∷ terminated ls

pub terminated-append : (ls ks : List Text) → terminated (ls ++ ks) ≡ terminated ls ++ terminated ks
terminated-append [] ks = refl
terminated-append (l ∷ ls) ks =
    ap (λ t. l ++ b'\n' ∷ t) (terminated-append ls ks)
    ∙ sym (append_assoc_right l (b'\n' ∷ terminated ls) (terminated ks))

module _ (sys : System) (q : Text) (usable : sys.opens q ≡ true) where
  content-write_through :
      (name text : Text) (e : Exporter)
      → content q (write_through sys name text e)
        ≡ (if text_eq name q then content q e ++ text else content q e)
  unfolding write_through get_file_handle
  content-write_through name text e = ground (
    arith,
    text_eq_iff name q,
    ap sys.opens (sym ((text_eq_iff name q).0 _)),
    lookup-insert name q (content name e) e.files,
    lookup-insert name name (content name e) e.files,
    lookup-insert name q (content name e ++ text) e.files,
    lookup-insert name q (content name e ++ text) (insert name (content name e) e.files),
  )

  content-append_entries :
      (es : List Entry) (e : Exporter)
      → content q (append_entries sys es e) ≡ content q e ++ terminated (lines_for q es)
  unfolding append_entries append_line
  content-append_entries [] e = sym (append-nil_right (content q e))
  content-append_entries ((name, line) ∷ es) e =
      let written : Text = line ++ b'\n' ∷ [] in
      let step = content-write_through name written e in
      let rest = content-append_entries es (append_line sys name line e) in
      elim (Bool-cases (text_eq name q)) [
        | inl same ↦
            let here : content q (write_through sys name written e) ≡ content q e ++ written =
              step ∙ rw same refl in
            rest
            ∙ ap (λ t. t ++ terminated (lines_for q es)) here
            ∙ append_assoc_right (content q e) written (terminated (lines_for q es))
            ∙ rw same (
                ap (λ t. content q e ++ t)
                  (append_assoc_right line (b'\n' ∷ []) (terminated (lines_for q es))))
        | inr other ↦
            let here : content q (write_through sys name written e) ≡ content q e =
              step ∙ rw other refl in
            rest ∙ ap (λ t. t ++ terminated (lines_for q es)) here ∙ rw other refl
      ]

  -- The JSON and the CSV record go to files of their own.
  content-write_json :
      (p : Proxy) (e : Exporter)
      → q ≢ codes "proxies.jsonl"
      → content q (write_json sys p e) ≡ content q e
  unfolding write_json
  content-write_json p e nj = ground (
    arith,
    text_eq_iff (codes "proxies.jsonl") q,
    content-write_through (codes "proxies.jsonl") (sys.json p ++ b'\n' ∷ []) e,
  )

  content-insert :
      (name text : Text) (e : Exporter)
      → q ≢ name
      → content q (record e { files = insert name text e.files }) ≡ content q e
  content-insert name text e ne =
      ground (arith, text_eq_iff name q, lookup-insert name q text e.files)

  content-write_csv :
      (p : Proxy) (e : Exporter)
      → q ≢ codes "proxies.csv"
      → content q (write_csv sys p e) ≡ content q e
  unfolding write_csv
  content-write_csv p e nc = elim (Bool-cases e.has_csv) [
    | inl csv ↦ rw csv (content-insert (codes "proxies.csv") _ e nc)
    | inr none_of_it ↦ rw none_of_it refl
  ]

  content-records :
      (p : Proxy) (e : Exporter)
      → q ≢ codes "proxies.jsonl"
      → q ≢ codes "proxies.csv"
      → content q (write_csv sys p (write_json sys p e)) ≡ content q e
  content-records p e nj nc =
      content-write_csv p (write_json sys p e) nc ∙ content-write_json p e nj

  -- WriteAlive appends to each text file exactly the lines that the proxy has for it: the file
  -- keeps what it held, and nothing else is written to it. (For a file that can be opened, other
  -- than the JSON lines and the CSV file.)
  pub content-write_alive :
      (p : Proxy) (e : Exporter)
      → q ≢ codes "proxies.jsonl"
      → q ≢ codes "proxies.csv"
      → content q (write_alive sys p e)
        ≡ content q e ++ terminated (lines_for q (entries e.split_by_country e.split_by_type p))
  content-write_alive p e nj nc =
      ap (content q) (write_alive-eq-append_entries sys p e)
      ∙ content-records p (append_entries sys (entries e.split_by_country e.split_by_type p) e) nj
          nc
      ∙ content-append_entries (entries e.split_by_country e.split_by_type p) e
