-- ===== src/Server/Pool/Random.antt =====
-- pkg/server/server.go, handleRandom: the errors and the answers.
use go_proxy.Base.{
  ℕ, zero, suc, ◌%◌, ◌<◌, ◌≡◌, refl, sym, ap, ◌∙◌, inl, inr, Bool, true, false, Option, none, some,
  List, [], ◌∷◌, map, ◌==◌, filter, length, take, drop, get_elem?, length-take, arith, All,
  Somewhere, if◌then◌else◌, Bool-cases,
}
use go_proxy.Base.Int.{pos, pos_part}
use go_proxy.Base.Text.{Text, codes}
use go_proxy.Model.Proxy.{Time, Proxy}
use go_proxy.Storage.Table.{
  Row, Table, ProxyFilter, any_filter, matches, limit_of, order_rows, select_rows, proxy_of_row,
  query_proxies, get_random_alive_proxy,
}
use go_proxy.Storage.Table.Search.{
  Meets, select_rows_sound, length-order_rows, All-map, All-select_rows,
}
use go_proxy.Server.Response.{Response, http_error}
use go_proxy.Server.Pool.{found, random_page, random_answer, handle_random}

-- A live row of the table.
abbrev pub IsLiveRow : Table → Row → Type 0
IsLiveRow t r = Somewhere (λ x. x ≡ r) t.rows × (r.is_alive ≡ 1)

-- The proxies that a request for the protocol and the country asks for.
abbrev pub wanted : Text → Text → ProxyFilter
wanted protocol country = record any_filter {
  protocol = protocol;
  country_code = country;
  min_score = pos 50;
  limit = pos 20;
}

-- The answers of `handleRandom`, where the database gives one.
pub data IsRandomAnswer (get : Text → Text) (t : Table) : Response → Type 0 where
  none_alive :
      All (λ r. (r.is_alive == 1) ≡ false) t.rows
      → IsRandomAnswer get t (http_error (codes "no alive proxies available") 404)
  matched :
      (r : Row)
      → IsLiveRow t r
      → Meets (wanted (get (codes "protocol")) (get (codes "country"))) r
      → IsRandomAnswer get t (random_page (get (codes "format")) (proxy_of_row r))
  any_other :
      (r : Row)
      → IsLiveRow t r
      → All
          (λ x. matches (wanted (get (codes "protocol")) (get (codes "country"))) x ≡ false)
          t.rows
      → IsRandomAnswer get t (random_page (get (codes "format")) (proxy_of_row r))

All-both : (P Q : Row → Type 0) (rs : List Row) → All P rs → All Q rs → All (λ r. P r × Q r) rs
All-both P Q [] h k = tt
All-both P Q (r ∷ rs) h k = ((h.0, k.0), All-both P Q rs h.1 k.1)

listed : (rs : List Row) → All (λ r. Somewhere (λ x. x ≡ r) rs) rs
listed [] = tt
listed (r ∷ rs) = (inl refl, All-map (λ x h. inr h) rs (listed rs))

select_rows-live :
    (q : ProxyFilter) (t : Table) → q.only_alive ≡ true → All (IsLiveRow t) (select_rows q t)
select_rows-live q t e =
    All-both _ _ (select_rows q t)
      (All-select_rows (λ r. Somewhere (λ x. x ≡ r) t.rows) q t (listed t.rows))
      (All-map (λ r (m : Meets q r). m.alive e) (select_rows q t) (select_rows_sound q t).0)

-- The proxy at an index of an answer.
row_at :
    (P : Row → Type 0) (rs : List Row) (i : ℕ)
    → i < length rs
    → All P rs
    → (r : Row) × (P r × (get_elem? (map proxy_of_row rs) i ≡ some (proxy_of_row r)))
row_at P [] i l h = absurd (omega (arith, l))
row_at P (r ∷ rs) zero l h = (r, (h.0, refl))
row_at P (r ∷ rs) (suc i) l h = row_at P rs i (omega (arith, l)) h.1

length-map_rows : (rs : List Row) → length (map proxy_of_row rs) ≡ length rs
length-map_rows [] = refl
length-map_rows (r ∷ rs) = ap suc (length-map_rows rs)

filter-empty :
    (p : Row → Bool) (rs : List Row) → length (filter p rs) ≡ 0 → All (λ r. p r ≡ false) rs
filter-empty p [] h = tt
filter-empty p (r ∷ rs) h = elim (Bool-cases (p r)) [
  | inl e ↦ absurd (ground (arith, e, h))
  | inr e ↦ (e, filter-empty p rs (ground (arith, e, h)))
]

matches-any_filter : (r : Row) → matches any_filter r ≡ false → (r.is_alive == 1) ≡ false
unfolding matches
matches-any_filter r h = ground (arith, h)

none_selected :
    (q : ProxyFilter) (t : Table)
    → pos_part q.offset ≡ 0
    → 0 < limit_of q
    → length (select_rows q t) ≡ 0
    → All (λ r. matches q r ≡ false) t.rows
unfolding select_rows
none_selected q t start room h =
    let rows = filter (matches q) t.rows in
    let cut_off : length (take (limit_of q) (order_rows rows)) ≡ 0 =
      ap (λ n. length (take (limit_of q) (drop n (order_rows rows)))) (sym start) ∙ h in
    filter-empty (matches q) t.rows (
      omega
        (arith, cut_off, room, length-take (limit_of q) (order_rows rows), length-order_rows rows))

-- One of the proxies by the clock, if there is any.
by_clock : Time → List Proxy → Option Proxy
by_clock now ps = if length ps == 0 then none else get_elem? ps (now % length ps)

-- The choice from an answer that is not empty.
by_clock-row :
    (now : Time) (q : ProxyFilter) (t : Table)
    → q.only_alive ≡ true
    → (length (query_proxies q t) == 0) ≡ false
    → (r : Row) × ((IsLiveRow t r × Meets q r)
        × (by_clock now (query_proxies q t) ≡ some (proxy_of_row r)))
unfolding by_clock query_proxies
by_clock-row now q t live e =
    let rows = select_rows q t in
    let n = length (map proxy_of_row rows) in
    let (r, (has, at)) =
      row_at (λ x. IsLiveRow t x × Meets q x) rows (now % n)
        (ground (arith, e, length-map_rows rows))
        (All-both (IsLiveRow t) (Meets q) rows (select_rows-live q t live)
          (select_rows_sound q t).0) in
    (r, (has, rw e at))

empty_query :
    (q : ProxyFilter) (t : Table)
    → (length (query_proxies q t) == 0) ≡ true
    → length (select_rows q t) ≡ 0
unfolding query_proxies
empty_query q t e = ground (arith, e, length-map_rows (select_rows q t))

module _ (get : Text → Text) (now : Time) (t : Table) where
  from_any :
      All (λ x. matches (wanted (get (codes "protocol")) (get (codes "country"))) x ≡ false) t.rows
      → IsRandomAnswer get t
          (random_answer (get (codes "format")) (by_clock now (query_proxies any_filter t)))
  unfolding by_clock
  from_any no_match = elim (Bool-cases (length (query_proxies any_filter t) == 0)) [
    | inl e ↦ rw e (
        none_alive (
          All-map matches-any_filter t.rows
            (none_selected any_filter t refl (omega arith) (empty_query any_filter t e))))
    | inr e ↦
        let (r, (has, at)) = by_clock-row now any_filter t refl e in
        rw at (any_other r has.0 no_match)
  ]

  -- The random proxy of a table. The answer is 404 exactly when no row is alive. Else it is the
  -- proxy of a live row, in the format that the request asks for: of one with the protocol and
  -- the country of the request and a score of at least 50 if there is any, and of any live row
  -- otherwise.
  pub handle_random-IsRandomAnswer : IsRandomAnswer get t (handle_random get now (found t))
  unfolding handle_random get_random_alive_proxy by_clock
  handle_random-IsRandomAnswer =
      let q = wanted (get (codes "protocol")) (get (codes "country")) in
      elim (Bool-cases (length (query_proxies q t) == 0)) [
        | inl e ↦ rw e (from_any (none_selected q t refl (omega arith) (empty_query q t e)))
        | inr e ↦
            let (r, (has, at)) = by_clock-row now q t refl e in rw e (rw at (matched r has.0 has.1))
      ]
