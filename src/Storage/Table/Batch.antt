-- ===== src/Storage/Table/Batch.antt =====
-- pkg/storage/sqlite.go, flushBatch: what a committed batch makes of each row.
use mathlib.Core.Path.{subst}
use go_proxy.Base.{
  ℕ, ◌+◌, ◌≤◌, ◌≡◌, refl, ap, ◌∙◌, Option, none, some, List, [], ◌∷◌, arith, if◌then◌else◌,
  Bool-cases, inl, inr,
}
use go_proxy.Base.Float.{FloatOps}
use go_proxy.Model.Proxy.{Time, Proxy}
use go_proxy.Storage.Table.Defs.{Row, Table, same_key, stamp, row_of, upsert, flush_rows}
use go_proxy.Storage.Table.Upsert.{find, find-congr, find-upsert, written, same_key_iff, merge_all}

-- The rows of a batch for the key of `y`, in order.
abbrev pub updates_of : Row → Time → List Proxy → List Row
updates_of y now [] = []
updates_of y now (p ∷ ps) =
    let more = updates_of y now ps in
    if same_key (row_of (stamp now p)) y then row_of (stamp now p) ∷ more else more

-- The stored row for a key, after a table with `next` as its next id has taken the rows `xs`
-- for that key, if it was `o` before.
abbrev pub IsCell : FloatOps → ℕ → Option Row → List Row → Option Row → Type 0
IsCell f next (some r) xs after = after ≡ some (merge_all f r xs)
IsCell f next none [] after = after ≡ none
IsCell f next none (x ∷ xs) after =
    (id : ℕ) × ((next ≤ id) × (after ≡ some (merge_all f (record x { id = id }) xs)))

earlier_id :
    (f : FloatOps) (next : ℕ) (o : Option Row) (xs : List Row) (after : Option Row)
    → IsCell f (next + 1) o xs after
    → IsCell f next o xs after
earlier_id f next (some r) xs after h = h
earlier_id f next none [] after h = h
earlier_id f next none (x ∷ xs) after (id, (above, same)) = (id, (omega arith, same))

from_written :
    (f : FloatOps) (next : ℕ) (o : Option Row) (x : Row) (xs : List Row) (after : Option Row)
    → after ≡ some (merge_all f (written f next x o) xs)
    → IsCell f next o (x ∷ xs) after
unfolding merge_all
from_written f next (some r) x xs after e = e
from_written f next none x xs after e = (next, (omega arith, e))

upserted-IsCell :
    (f : FloatOps) (x y : Row) (xs : List Row) (t : Table) (after : Option Row)
    → IsCell f (t.next_id + 1) (find y (upsert f x t).rows) xs after
    → IsCell f t.next_id (find y t.rows) (if same_key x y then x ∷ xs else xs) after
upserted-IsCell f x y xs t after later = elim (Bool-cases (same_key x y)) [
  | inl e ↦
      let same : find x t.rows ≡ find y t.rows = find-congr x y t.rows ((same_key_iff x y).0 e) in
      let stored : find y (upsert f x t).rows ≡ some (written f t.next_id x (find y t.rows)) =
        find-upsert f x y t ∙ rw e (ap (λ o. some (written f t.next_id x o)) same) in
      rw e (
        from_written f t.next_id (find y t.rows) x xs after
          (subst (λ o. IsCell f (t.next_id + 1) o xs after) stored later))
  | inr e ↦
      let kept : find y (upsert f x t).rows ≡ find y t.rows = find-upsert f x y t ∙ rw e refl in
      rw e (
        earlier_id f t.next_id (find y t.rows) xs after
          (subst (λ o. IsCell f (t.next_id + 1) o xs after) kept later))
]

next_id-upsert : (f : FloatOps) (x : Row) (t : Table) → (upsert f x t).next_id ≡ t.next_id + 1
unfolding upsert
next_id-upsert f x t = refl

-- After a batch is committed, without an error of a single row, what the table holds for a key
-- depends on what it held for it and on the proxies of the batch with that key alone: a row that
-- was stored has been merged with these, each once and in order; without such proxies there is
-- still no row; and otherwise the first of them is a new row, with an id no less than the next one
-- of the table, which has been merged with the others.
pub flush_rows-IsCell :
    (f : FloatOps) (now : Time) (y : Row) (ps : List Proxy) (t : Table)
    → IsCell f t.next_id (find y t.rows) (updates_of y now ps) (find y (flush_rows f now ps t).rows)
unfolding flush_rows merge_all
flush_rows-IsCell f now y [] t = go (find y t.rows)
  where
    go : (o : Option Row) → IsCell f t.next_id o [] o
    go none = refl
    go (some r) = refl
flush_rows-IsCell f now y (p ∷ ps) t =
    let x = row_of (stamp now p) in
    let after = find y (flush_rows f now ps (upsert f x t)).rows in
    upserted-IsCell f x y (updates_of y now ps) t after (
      subst (λ n. IsCell f n (find y (upsert f x t).rows) (updates_of y now ps) after)
        (next_id-upsert f x t) (flush_rows-IsCell f now y ps (upsert f x t)))
