-- ===== src/Daemon/Query.antt =====
-- pkg/daemon/daemon.go, recheckPool: what the query of a cycle reads.
use go_proxy.Base.{
  ℕ, zero, suc, ◌≡◌, refl, sym, ap, ◌∙◌, List, [], ◌∷◌, arith, map, take, filter, length, leb,
  if◌then◌else◌,
}
use go_proxy.Storage.Table.{
  Row, Table, query_proxies, select_rows, order_rows, matches, proxy_of_row,
}
use go_proxy.Storage.Table.Search.{length-order_rows}
use go_proxy.Daemon.Defs.{cycle_filter}

filter_all : (rs : List Row) → filter (matches cycle_filter) rs ≡ rs
unfolding matches
filter_all [] = refl
filter_all (r ∷ rs) = ap (λ t. r ∷ t) (filter_all rs)

query_rows :
    (t : Table) → query_proxies cycle_filter t ≡ map proxy_of_row (take 15000 (order_rows t.rows))
unfolding query_proxies select_rows
query_rows t = ap (λ l. map proxy_of_row (take 15000 (order_rows l))) (filter_all t.rows)

length-proxies : (rs : List Row) → length (map proxy_of_row rs) ≡ length rs
length-proxies [] = refl
length-proxies (r ∷ rs) = ap suc (length-proxies rs)

-- The smaller one of the number of rows and the limit of the query.
abbrev pub at_most : ℕ → ℕ → ℕ
at_most limit n = if leb n limit then n else limit

length-take_rows : (n : ℕ) (rs : List Row) → length (take n rs) ≡ at_most n (length rs)
length-take_rows zero [] = ground arith
length-take_rows zero (r ∷ rs) = ground arith
length-take_rows (suc n) [] = ground arith
length-take_rows (suc n) (r ∷ rs) = ground (arith, length-take_rows n rs)

pub length-query :
    (t : Table) → length (query_proxies cycle_filter t) ≡ at_most 15000 (length t.rows)
length-query t =
    ap length (query_rows t)
    ∙ length-proxies (take 15000 (order_rows t.rows))
    ∙ length-take_rows 15000 (order_rows t.rows)
    ∙ ap (at_most 15000) (length-order_rows t.rows)

-- The query of a cycle finds something as long as the table has rows.
pub query-finds : (t : Table) → query_proxies cycle_filter t ≡ [] → t.rows ≡ []
query-finds t e = go t.rows (sym (length-query t) ∙ ap length e)
  where
    go : (rs : List Row) → at_most 15000 (length rs) ≡ 0 → rs ≡ []
    go [] h = refl
    go (r ∷ rs) h = absurd (ground (arith, h))
