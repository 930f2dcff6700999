-- ===== src/Storage/Table/Upsert.antt =====
-- pkg/storage/sqlite.go: INSERT … ON CONFLICT DO UPDATE, by the key of a row.
use mathlib.Core.List.{reverse, reverse-cons}
use go_proxy.Base.{
  ℕ, ◌+◌, ◌<◌, ◌≤◌, ◌≡◌, ◌↔◌, refl, sym, ◌∙◌, Bool, true, not, Option, none, some, List, [], ◌∷◌,
  ◌++◌, arith, ◌==◌, if◌then◌else◌, All,
}
use go_proxy.Base.Int.{ℤ, pos, negsuc, eqb_ℤ}
use go_proxy.Base.Text.{Text, text_eq_iff}
use go_proxy.Base.Float.{FloatOps}
use go_proxy.Model.Proxy.{Time, Proxy}
use go_proxy.Storage.Table.Defs.{
  Row, Table, same_key, stamp, row_of, merge, upsert_rows, upsert, flush_rows,
}

abbrev pub key : Row → Text × ℤ × Text
key r = (r.ip, r.port, r.protocol)

eqb_ℤ_iff : (a b : ℤ) → (eqb_ℤ a b ≡ true) ↔ (a ≡ b)
eqb_ℤ_iff (pos a) (pos b) = ground arith
eqb_ℤ_iff (pos a) (negsuc b) = ground arith
eqb_ℤ_iff (negsuc a) (pos b) = ground arith
eqb_ℤ_iff (negsuc a) (negsuc b) = ground arith

pub same_key_iff : (a b : Row) → (same_key a b ≡ true) ↔ (key a ≡ key b)
unfolding same_key
same_key_iff a b =
    ground
      (arith, text_eq_iff a.ip b.ip, eqb_ℤ_iff a.port b.port, text_eq_iff a.protocol b.protocol)

-- The row with the key of `x`.
unfoldable pub find : Row → List Row → Option Row
find x [] = none
find x (r ∷ rs) = if same_key r x then some r else find x rs

-- UNIQUE(ip, port, protocol) over all rows.
abbrev pub HasUniqueRows : List Row → Type 0
HasUniqueRows [] = Unit
HasUniqueRows (r ∷ rs) = (find r rs ≡ none) × HasUniqueRows rs

pub key-merge : (f : FloatOps) (r x : Row) → key (merge f r x) ≡ key r
unfolding merge
key-merge f r x = refl

-- Only the key matters to a search.
pub find-congr : (x y : Row) (rs : List Row) → key x ≡ key y → find x rs ≡ find y rs
unfolding find
find-congr x y [] e = refl
find-congr x y (r ∷ rs) e = ground (arith, same_key_iff r x, same_key_iff r y, find-congr x y rs e)

-- What a statement leaves at the key of `x`.
abbrev pub written : FloatOps → ℕ → Row → Option Row → Row
written f next x none = record x { id = next }
written f next x (some r) = merge f r x

pub find-upsert_rows :
    (f : FloatOps) (next : ℕ) (x y : Row) (rs : List Row)
    → find y (upsert_rows f next x rs)
      ≡ (if same_key x y then some (written f next x (find x rs)) else find y rs)
unfolding find upsert_rows
find-upsert_rows f next x y [] =
    ground (arith, same_key_iff (record x { id = next }) y, same_key_iff x y)
find-upsert_rows f next x y (r ∷ rs) = ground (
  arith,
  same_key_iff r x,
  same_key_iff x y,
  same_key_iff r y,
  same_key_iff (merge f r x) y,
  key-merge f r x,
  find-upsert_rows f next x y rs,
)

upsert_rows-HasUniqueRows :
    (f : FloatOps) (next : ℕ) (x : Row) (rs : List Row)
    → HasUniqueRows rs
    → HasUniqueRows (upsert_rows f next x rs)
unfolding upsert_rows find
upsert_rows-HasUniqueRows f next x [] h = (refl, tt)
upsert_rows-HasUniqueRows f next x (r ∷ rs) h = ground (
  arith,
  same_key_iff r x,
  same_key_iff x r,
  find-congr (merge f r x) r rs (key-merge f r x),
  find-upsert_rows f next x r rs,
  upsert_rows-HasUniqueRows f next x rs h.1,
)

-- No id is used twice, since all are below the next one.
upsert_rows-below :
    (f : FloatOps) (next : ℕ) (x : Row) (rs : List Row)
    → All (λ r. r.id < next) rs
    → All (λ r. r.id < next + 1) (upsert_rows f next x rs)
unfolding upsert_rows merge
upsert_rows-below f next x [] h = (omega arith, tt)
upsert_rows-below f next x (r ∷ rs) h =
    ground (arith, weaken rs h.1, upsert_rows-below f next x rs h.1)
  where
    weaken : (l : List Row) → All (λ q. q.id < next) l → All (λ q. q.id < next + 1) l
    weaken [] k = tt
    weaken (q ∷ l) k = (omega arith, weaken l k.1)

pub record IsValid (t : Table) : Type 0 where
  pub unique : HasUniqueRows t.rows
  pub below : All (λ r. r.id < t.next_id) t.rows

pub upsert-IsValid : (f : FloatOps) (x : Row) (t : Table) → IsValid t → IsValid (upsert f x t)
unfolding upsert
upsert-IsValid f x t v = record {
  unique = upsert_rows-HasUniqueRows f t.next_id x t.rows v.unique;
  below = upsert_rows-below f t.next_id x t.rows v.below;
}

-- Committing a batch of proxies keeps the table valid: no two rows have the same address, port
-- and protocol, and every id is below the next one.
pub flush_rows-IsValid :
    (f : FloatOps) (now : Time) (ps : List Proxy) (t : Table)
    → IsValid t
    → IsValid (flush_rows f now ps t)
unfolding flush_rows
flush_rows-IsValid f now [] t v = v
flush_rows-IsValid f now (p ∷ ps) t v =
    flush_rows-IsValid f now ps (upsert f (row_of (stamp now p)) t)
      (upsert-IsValid f (row_of (stamp now p)) t v)

-- An upsert of `x` writes exactly one key. At the key of `x` the table then holds the merged row
-- if there was one, and otherwise `x` with the next id; at every other key it holds what it held.
pub find-upsert :
    (f : FloatOps) (x y : Row) (t : Table)
    → find y (upsert f x t).rows
      ≡ (if same_key x y then some (written f t.next_id x (find x t.rows)) else find y t.rows)
unfolding upsert
find-upsert f x y t = find-upsert_rows f t.next_id x y t.rows

-- The row after a sequence of updates.
unfoldable pub merge_all : FloatOps → Row → List Row → Row
merge_all f r [] = r
merge_all f r (x ∷ xs) = merge_all f (merge f r x) xs

abbrev pub lives : Row → Bool
lives x = x.is_alive == 1

abbrev pub tally : (Row → Bool) → List Row → ℕ
tally p [] = 0
tally p (x ∷ xs) = (if p x then 1 else 0) + tally p xs

-- The failures since the last success, read from the latest check backwards; before the first
-- of them the row had `start`.
abbrev pub failures_in_a_row : ℕ → List Row → ℕ
failures_in_a_row start [] = start
failures_in_a_row start (x ∷ xs) = if lives x then 0 else failures_in_a_row start xs + 1

abbrev IsFlag : Row → Type 0
IsFlag x = x.is_alive ≤ 1

failures_in_a_row-snoc :
    (start : ℕ) (xs : List Row) (x : Row)
    → failures_in_a_row start (xs ++ x ∷ [])
      ≡ failures_in_a_row (if lives x then 0 else start + 1) xs
failures_in_a_row-snoc start [] x = ground arith
failures_in_a_row-snoc start (y ∷ xs) x = ground (arith, failures_in_a_row-snoc start xs x)

-- Over any sequence of checks of one proxy (rows whose is_alive is 0 or 1), the stored counters
-- count them: the successes and the failures are added to what was stored, and consecutive_fail
-- is the number of failures since the last success.
pub merge_all-counts :
    (f : FloatOps) (r : Row) (xs : List Row)
    → All (λ x. x.is_alive ≤ 1) xs
    → ((merge_all f r xs).success_checks ≡ r.success_checks + tally lives xs)
      × ((merge_all f r xs).failed_checks ≡ r.failed_checks + tally (λ x. not (lives x)) xs)
      × ((merge_all f r xs).consecutive_fail ≡ failures_in_a_row r.consecutive_fail (reverse xs))
unfolding merge_all
merge_all-counts f r [] h = (omega arith, omega arith, refl)
merge_all-counts f r (x ∷ xs) h =
    let (good, bad, row) = merge_all-counts f (merge f r x) xs h.1 in
    (
      good ∙ unfold merge in ground arith,
      bad ∙ unfold merge in ground arith,
      row
          ∙ sym (
              rw (reverse-cons x xs)
                (failures_in_a_row-snoc r.consecutive_fail (reverse xs) x ∙ unfold merge in refl)),
    )
