-- ===== src/Storage/Table/Countries.antt =====
-- pkg/storage/sqlite.go, CountByCountry: the countries with the most live proxies.
use go_proxy.Base.{
  ℕ, ◌+◌, ◌<◌, ◌≡◌, refl, Bool, not, ◌&&◌, Option, none, some, List, [], ◌∷◌, map, arith, ◌==◌,
  if◌then◌else◌, filter, length, All, suc, Bool-cases, inl, inr, ap, ◌∙◌,
}
use go_proxy.Base.Int.{ℤ, pos, pos_part, leb_ℤ}
use go_proxy.Base.Text.{Text, codes, text_eq, text_eq_iff, is_empty}
use go_proxy.Base.Assoc.{Map, lookup, insert, lookup-insert, HasUniqueKeys, insert-HasUniqueKeys}
use go_proxy.Base.Counts.{IsTop, take-order_counts-IsTop}
use go_proxy.Storage.Table.Defs.{Row, Table}
use go_proxy.Storage.Table.Query.{group_counts, count_by_country}

-- How often `k` stands in a list.
abbrev pub occurrences : Text → List Text → ℕ
occurrences k xs = length (filter (λ x. text_eq x k) xs)

-- The count under a key; a missing key has none.
abbrev pub count_under : Text → Map ℕ → ℕ
count_under k m = elim (lookup k m) [ none ↦ 0 | some n ↦ n ]

lookup-group_counts :
    (k : Text) (xs : List Text) → count_under k (group_counts xs) ≡ occurrences k xs
unfolding group_counts lookup
lookup-group_counts k [] = refl
lookup-group_counts k (x ∷ xs) = ground (
  arith,
  text_eq_iff x k,
  lookup-insert x k (count_under x (group_counts xs) + 1) (group_counts xs),
  lookup-group_counts k xs,
)

group_counts-HasUniqueKeys : (xs : List Text) → HasUniqueKeys (group_counts xs)
unfolding group_counts
group_counts-HasUniqueKeys [] = tt
group_counts-HasUniqueKeys (x ∷ xs) =
    insert-HasUniqueKeys x _ (group_counts xs) (group_counts-HasUniqueKeys xs)

insert-positive :
    (k : Text) (n : ℕ) (m : Map ℕ)
    → 0 < n
    → All (λ e. 0 < e.1) m
    → All (λ e. 0 < e.1) (insert k n m)
unfolding insert
insert-positive k n [] h p = (h, tt)
insert-positive k n ((j, v) ∷ m) h p = ground (arith, insert-positive k n m h p.1)

one_more-positive : (o : Option ℕ) → 0 < elim o [ none ↦ 1 | some n ↦ n + 1 ]
one_more-positive none = omega arith
one_more-positive (some n) = omega arith

group_counts-positive : (xs : List Text) → All (λ e. 0 < e.1) (group_counts xs)
unfolding group_counts
group_counts-positive [] = tt
group_counts-positive (x ∷ xs) =
    insert-positive x _ (group_counts xs) (one_more-positive (lookup x (group_counts xs)))
      (group_counts-positive xs)

-- A live row whose country is known.
abbrev pub is_placed : Row → Bool
is_placed r =
    r.is_alive == 1 && (not (is_empty r.country_code) && not (text_eq r.country_code (codes "XX")))

-- How many live rows have this code, none if the code is empty or XX.
abbrev pub live_rows_of : Text → List Row → ℕ
live_rows_of k rows = length (filter (λ r. is_placed r && text_eq r.country_code k) rows)

occurrences-placed :
    (k : Text) (rows : List Row)
    → occurrences k (map (λ r. r.country_code) (filter is_placed rows)) ≡ live_rows_of k rows
occurrences-placed k [] = refl
occurrences-placed k (r ∷ rs) = elim (Bool-cases (is_placed r)) [
  | inl e ↦ elim (Bool-cases (text_eq r.country_code k)) [
    | inl d ↦ rw (e, d) (ap suc (occurrences-placed k rs))
    | inr d ↦ rw (e, d) (occurrences-placed k rs)
  ]
  | inr e ↦ rw e (occurrences-placed k rs)
]

-- `out` is the head, of at most `n` entries, of a ranking of all countries: `groups` has an entry
-- for each country of a live row, and it holds the number of these rows.
pub record IsRanking (n : ℕ) (t : Table) (out : Map ℕ) : Type 0 where
  pub groups : Map ℕ
  pub unique : HasUniqueKeys groups
  pub positive : All (λ e. 0 < e.1) groups
  pub counts : (k : Text) → count_under k groups ≡ live_rows_of k t.rows
  pub top : IsTop n groups out

abbrev pub limit_or_ten : ℤ → ℕ
limit_or_ten limit = if leb_ℤ limit (pos 0) then 10 else pos_part limit

-- The countries that CountByCountry reads from its SELECT into a map are, in the falling order of
-- the statement, those with the most live rows, each with the number of these rows: `limit` of
-- them (10 for a limit that is not positive), or all if there are fewer; rows without a
-- country and with the code XX do not count.
pub count_by_country-IsRanking :
    (limit : ℤ) (t : Table) → IsRanking (limit_or_ten limit) t (count_by_country limit t)
unfolding count_by_country
count_by_country-IsRanking limit t =
    let names : List Text = map (λ r. r.country_code) (filter is_placed t.rows) in
    record {
      groups = group_counts names;
      unique = group_counts-HasUniqueKeys names;
      positive = group_counts-positive names;
      counts = λ k. lookup-group_counts k names ∙ occurrences-placed k t.rows;
      top = take-order_counts-IsTop (limit_or_ten limit) (group_counts names);
    }
