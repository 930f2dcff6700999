-- ===== src/Storage/Exporter/Contents.antt =====
-- pkg/storage/exporter.go: what the files hold after SyncAliveFiles, and how WriteAlive compares.
use go_proxy.Base.{
  ◌≡◌, ◌≢◌, refl, ap, sym, ◌∙◌, Bool, true, false, Option, none, some, List, [], ◌∷◌, ◌++◌, arith,
  if◌then◌else◌, append-nil_right, append_assoc_right, Bool-cases, inl, inr, All,
}
use mathlib.Core.Path.{ap₂}
use go_proxy.Base.Text.{Text, codes, text_eq, text_eq_iff}
use go_proxy.Base.Assoc.{Map, lookup, insert, lookup-insert, HasUniqueKeys, insert-HasUniqueKeys}
use go_proxy.Model.Proxy.{Proxy}
use go_proxy.Storage.Exporter.Defs.{
  Exporter, System, get_file_handle, write_through, write_json, write_csv, write_alive, Lines,
  lines_at, add_line, add_proxy, collect_lines, content, join_lines, sync_content, overwrite,
  sync_alive_files,
}
use go_proxy.Storage.Exporter.Lines.{
  Entry, entries, lines_for, lines_for-append, add_entries-append, append_entries, add_entries,
  SameSettings, add_proxy-eq-add_entries, append_entries-SameSettings,
  write_alive-eq-append_entries,
}
use go_proxy.Storage.Exporter.Appends.{terminated, terminated-append, content-write_alive}

-- The lines of all live proxies.
abbrev pub live_entries : Bool → Bool → List Proxy → List Entry
live_entries by_country by_type [] = []
live_entries by_country by_type (p ∷ ps) =
    (if p.is_alive then entries by_country by_type p else []) ++ live_entries by_country by_type ps

-- What the map holds for a file: nothing, or at least one line.
abbrev listed : List Text → Option (List Text)
listed [] = none
listed (l ∷ ls) = some (l ∷ ls)

lines_at-listed :
    (q : Text) (m : Lines) (ls : List Text) → lookup q m ≡ listed ls → lines_at q m ≡ ls
lines_at-listed q m [] h = ground arith
lines_at-listed q m (l ∷ ls) h = ground arith

listed-snoc : (ls : List Text) (l : Text) → some (ls ++ l ∷ []) ≡ listed (ls ++ l ∷ [])
listed-snoc [] l = refl
listed-snoc (k ∷ ks) l = refl

lookup-add_entries :
    (q : Text) (es : List Entry) (m : Lines) (ls : List Text)
    → lookup q m ≡ listed ls
    → lookup q (add_entries es m) ≡ listed (ls ++ lines_for q es)
unfolding add_entries add_line
lookup-add_entries q [] m ls h = h ∙ ap listed (sym (append-nil_right ls))
lookup-add_entries q ((name, line) ∷ es) m ls h =
    let m' : Lines = insert name (lines_at name m ++ line ∷ []) m in
    let added = lookup-insert name q (lines_at name m ++ line ∷ []) m in
    elim (Bool-cases (text_eq name q)) [
      | inl same ↦
          let old : lines_at name m ≡ ls =
            ap (λ k. lines_at k m) ((text_eq_iff name q).0 same) ∙ lines_at-listed q m ls h in
          let here : lookup q m' ≡ listed (ls ++ line ∷ []) =
            added
            ∙ rw same refl
            ∙ ap {B = Option (List Text)} (λ t. some (t ++ line ∷ [])) old
            ∙ listed-snoc ls line in
          lookup-add_entries q es m' (ls ++ line ∷ []) here
          ∙ ap listed (append_assoc_right ls (line ∷ []) (lines_for q es) ∙ rw same refl)
      | inr other ↦
          let here : lookup q m' ≡ listed ls = added ∙ rw other h in
          lookup-add_entries q es m' ls here ∙ rw other refl
    ]

add_entries-HasUniqueKeys :
    (es : List Entry) (m : Lines) → HasUniqueKeys m → HasUniqueKeys (add_entries es m)
unfolding add_entries add_line
add_entries-HasUniqueKeys [] m h = h
add_entries-HasUniqueKeys ((name, line) ∷ es) m h =
    add_entries-HasUniqueKeys es (insert name (lines_at name m ++ line ∷ []) m)
      (insert-HasUniqueKeys name _ m h)

collect_lines-eq-add_entries :
    (c t : Bool) (ps : List Proxy) (m : Lines)
    → collect_lines c t ps m ≡ add_entries (live_entries c t ps) m
unfolding collect_lines
collect_lines-eq-add_entries c t [] m = unfold add_entries in refl
collect_lines-eq-add_entries c t (p ∷ ps) m =
    go p.is_alive (collect_lines-eq-add_entries c t ps m)
      (collect_lines-eq-add_entries c t ps (add_proxy c t p m))
  where
    go :
        (alive : Bool)
        → collect_lines c t ps m ≡ add_entries (live_entries c t ps) m
        → collect_lines c t ps (add_proxy c t p m)
          ≡ add_entries (live_entries c t ps) (add_proxy c t p m)
        → collect_lines c t ps (if alive then add_proxy c t p m else m)
          ≡ add_entries ((if alive then entries c t p else []) ++ live_entries c t ps) m
    go true _ ih =
        ih
        ∙ ap (add_entries (live_entries c t ps)) (add_proxy-eq-add_entries c t p m)
        ∙ sym (add_entries-append (entries c t p) (live_entries c t ps) m)
    go false ih _ = ih

-- The content of a file after the overwriting loop.
abbrev overwritten : Option (List Text) → Option Text → Option Text
overwritten none old = old
overwritten (some ls) old = some (sync_content ls)

lookup-overwrite :
    (opens : Text → Bool) (q : Text) (m : Lines) (files : Map Text)
    → opens q ≡ true
    → HasUniqueKeys m
    → lookup q (overwrite opens m files) ≡ overwritten (lookup q m) (lookup q files)
unfolding overwrite lookup
lookup-overwrite opens q [] files usable u = refl
lookup-overwrite opens q ((name, ls) ∷ m) files usable u =
    let files' : Map Text = if opens name then insert name (sync_content ls) files else files in
    let rest = lookup-overwrite opens q m files' usable u.1 in
    elim (Bool-cases (text_eq name q)) [
      | inl same ↦
          let e : name ≡ q = (text_eq_iff name q).0 same in
          let gone : lookup q m ≡ none = ap (λ k. lookup k m) (sym e) ∙ u.0 in
          let open_name : opens name ≡ true = ap opens e ∙ usable in
          let here : lookup q files' ≡ some (sync_content ls) =
            rw open_name (lookup-insert name q (sync_content ls) files ∙ rw same refl) in
          rest ∙ rw (gone, same) here
      | inr other ↦
          let here : lookup q files' ≡ lookup q files =
            ground (arith, other, lookup-insert name q (sync_content ls) files) in
          rest ∙ rw (here, other) refl
    ]

sync_content-eq-terminated : (ls : List Text) → sync_content ls ≡ terminated ls
unfolding sync_content
sync_content-eq-terminated [] = refl
sync_content-eq-terminated (l ∷ []) = refl
sync_content-eq-terminated (l ∷ k ∷ ls) =
    append_assoc_right l (b'\n' ∷ join_lines (k ∷ ls)) (b'\n' ∷ [])
    ∙ ap (λ t. l ++ b'\n' ∷ t) (sync_content-eq-terminated (k ∷ ls))

-- What a text file holds after a synchronisation: its lines, or its old content if there are none.
abbrev pub synced : List Text → Text → Text
synced [] old = old
synced (l ∷ ls) old = terminated (l ∷ ls)

-- SyncAliveFiles replaces a text file for which some live proxy has a line by exactly the lines
-- of the live proxies for it, in their order. A file that no live proxy has a line for is not
-- touched: it keeps its old content, whatever proxies that lists. (For a file that can be opened.)
pub content-sync_alive_files :
    (sys : System) (q : Text) (ps : List Proxy) (e : Exporter)
    → sys.opens q ≡ true
    → content q (sync_alive_files sys ps e)
      ≡ synced (lines_for q (live_entries e.split_by_country e.split_by_type ps)) (content q e)
unfolding sync_alive_files
content-sync_alive_files sys q ps e usable =
    let es = live_entries e.split_by_country e.split_by_type ps in
    let m : Lines = collect_lines e.split_by_country e.split_by_type ps [] in
    let built = collect_lines-eq-add_entries e.split_by_country e.split_by_type ps [] in
    let unique : HasUniqueKeys m = rw built (add_entries-HasUniqueKeys es [] tt) in
    let held : lookup q m ≡ listed (lines_for q es) =
      rw built (lookup-add_entries q es [] [] (unfold lookup in refl)) in
    let entry : lookup q (overwrite sys.opens m e.files)
        ≡ overwritten (listed (lines_for q es)) (lookup q e.files) =
      lookup-overwrite sys.opens q m e.files usable unique
      ∙ ap (λ o. overwritten o (lookup q e.files)) held in
    ap or_empty entry ∙ finish (lines_for q es) e
  where
    or_empty : Option Text → Text
    or_empty o = elim o [ none ↦ [] | some c ↦ c ]

    finish :
        (ls : List Text) (e' : Exporter)
        → or_empty (overwritten (listed ls) (lookup q e'.files)) ≡ synced ls (content q e')
    finish [] e' = refl
    finish (l ∷ ls) e' = sync_content-eq-terminated (l ∷ ls)

-- WriteAlive for one proxy after the other.
unfoldable pub write_each : System → List Proxy → Exporter → Exporter
write_each sys [] e = e
write_each sys (p ∷ ps) e = write_each sys ps (write_alive sys p e)

write_alive-SameSettings :
    (sys : System) (p : Proxy) (e : Exporter) → SameSettings e (write_alive sys p e)
write_alive-SameSettings sys p e =
    let e' = append_entries sys (entries e.split_by_country e.split_by_type p) e in
    rw (write_alive-eq-append_entries sys p e) (
      records e' (append_entries-SameSettings sys (entries e.split_by_country e.split_by_type p) e))
  where
    records :
        (e' : Exporter) → SameSettings e e' → SameSettings e (write_csv sys p (write_json sys p e'))
    records e' h = unfold write_csv write_json write_through get_file_handle in ground arith

live-snoc :
    (q : Text) (c t : Bool) (p : Proxy) (ps : List Proxy)
    → p.is_alive ≡ true
    → lines_for q (live_entries c t (p ∷ ps))
      ≡ lines_for q (entries c t p) ++ lines_for q (live_entries c t ps)
live-snoc q c t p ps alive = go p.is_alive alive
  where
    go :
        (b : Bool)
        → b ≡ true
        → lines_for q ((if b then entries c t p else []) ++ live_entries c t ps)
          ≡ lines_for q (entries c t p) ++ lines_for q (live_entries c t ps)
    go true h = lines_for-append q (entries c t p) (live_entries c t ps)
    go false h = cc

module _ (sys : System) (q : Text) (usable : sys.opens q ≡ true)
    (not_json : q ≢ codes "proxies.jsonl") (not_csv : q ≢ codes "proxies.csv") where
  pub content-write_each :
      (ps : List Proxy) (e : Exporter) (c t : Bool)
      → e.split_by_country ≡ c
      → e.split_by_type ≡ t
      → All (λ p. p.is_alive ≡ true) ps
      → content q (write_each sys ps e)
        ≡ content q e ++ terminated (lines_for q (live_entries c t ps))
  unfolding write_each
  content-write_each [] e c t hc ht alive = sym (append-nil_right (content q e))
  content-write_each (p ∷ ps) e c t hc ht alive =
      let ls : List Text = lines_for q (entries c t p) in
      let ks : List Text = lines_for q (live_entries c t ps) in
      let same = write_alive-SameSettings sys p e in
      let here : content q (write_alive sys p e) ≡ content q e ++ terminated ls =
        content-write_alive sys q usable p e not_json not_csv
        ∙ ap₂ (λ x y. content q e ++ terminated (lines_for q (entries x y p))) hc ht in
      content-write_each ps (write_alive sys p e) c t (same.0 ∙ hc) (same.1 ∙ ht) alive.1
      ∙ ap (λ x. x ++ terminated ks) here
      ∙ append_assoc_right (content q e) (terminated ls) (terminated ks)
      ∙ ap (λ x. content q e ++ x)
          (sym (terminated-append ls ks) ∙ ap terminated (sym (live-snoc q c t p ps alive.0)))

  -- The two ways of writing the files agree: where a text file was empty or absent, writing live
  -- proxies one by one as they are found leaves in it what one synchronisation with the same
  -- proxies leaves. (For a file that can be opened, other than the JSON lines and the CSV file.)
  pub write_each-eq-sync_alive_files :
      (ps : List Proxy) (e : Exporter)
      → content q e ≡ []
      → All (λ p. p.is_alive ≡ true) ps
      → content q (write_each sys ps e) ≡ content q (sync_alive_files sys ps e)
  write_each-eq-sync_alive_files ps e empty alive =
      let ls : List Text = lines_for q (live_entries e.split_by_country e.split_by_type ps) in
      content-write_each ps e e.split_by_country e.split_by_type refl refl alive
      ∙ ap (λ x. x ++ terminated ls) empty
      ∙ sym (content-sync_alive_files sys q ps e usable ∙ ap (synced ls) empty ∙ from_nothing ls)
    where
      from_nothing : (ls : List Text) → synced ls [] ≡ terminated ls
      from_nothing [] = refl
      from_nothing (l ∷ ls) = refl
