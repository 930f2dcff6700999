-- ===== src/Commands/Scan/Counted.antt =====
-- pkg/storage/sqlite.go, flushBatch and commitSingleProxy: what they add to the number of checks
-- that the table has counted for an address.
use go_proxy.Base.{
  ℕ, ◌+◌, ◌≡◌, refl, ap, ◌∙◌, Bool, true, Option, none, some, List, [], ◌∷◌, arith, if◌then◌else◌,
  All, ◌==◌, Bool-cases, inl, inr,
}
use go_proxy.Base.Float.{FloatOps}
use go_proxy.Model.Proxy.{Time, Proxy}
use go_proxy.Storage.Table.{
  Row, Table, int_of_bool, same_key, stamp, row_of, merge, upsert, flush_rows, flush_batch,
  commit_single_proxy,
}
use go_proxy.Storage.Table.Upsert.{find, find-upsert, find-congr, same_key_iff, written}
use go_proxy.Storage.Committer.Delivery.{weigh}

-- The successful checks that the table has counted for the key of `x`.
abbrev pub checks_in : Option Row → ℕ
checks_in none = 0
checks_in (some r) = r.success_checks

abbrev pub checks_at : Row → Table → ℕ
checks_at x t = checks_in (find x t.rows)

abbrev pub one_if : Bool → ℕ
one_if b = if b then 1 else 0

-- A proxy of a first successful check.
abbrev pub IsFresh : Proxy → Type 0
IsFresh p = (p.success_checks ≡ 1) × (p.is_alive ≡ true)

module _ (f : FloatOps) (x : Row) where
  abbrev pub share : Proxy → ℕ
  share p = one_if (same_key (row_of p) x)

  written_adds :
      (now : Time) (next : ℕ) (p : Proxy) (o : Option Row)
      → IsFresh p
      → checks_in (some (written f next (row_of (stamp now p)) o)) ≡ checks_in o + 1
  unfolding row_of stamp merge
  written_adds now next p none h = h.0
  written_adds now next p (some r) h =
      ap (λ b. r.success_checks + (if int_of_bool b == 1 then 1 else 0)) h.1

  key_of_stamped :
      (now : Time) (p : Proxy) → same_key (row_of (stamp now p)) x ≡ same_key (row_of p) x
  unfolding same_key row_of stamp
  key_of_stamped now p = refl

  upsert_adds :
      (now : Time) (p : Proxy) (t : Table)
      → IsFresh p
      → checks_at x (upsert f (row_of (stamp now p)) t) ≡ checks_at x t + share p
  upsert_adds now p t h =
      let y = row_of (stamp now p) in
      let found = ap checks_in (find-upsert f y x t) in
      elim (Bool-cases (same_key y x)) [
        | inl e ↦
            let same = find-congr y x t.rows ((same_key_iff y x).0 e) in
            let here = written_adds now t.next_id p (find y t.rows) h in
            rw (found, ← key_of_stamped now p, e) (here ∙ ap (λ o. checks_in o + 1) same)
        | inr e ↦ rw (found, ← key_of_stamped now p, e) (omega arith)
      ]

  flush_rows_adds :
      (now : Time) (ps : List Proxy) (t : Table)
      → All IsFresh ps
      → checks_at x (flush_rows f now ps t) ≡ checks_at x t + weigh share ps
  unfolding flush_rows
  flush_rows_adds now [] t h = omega arith
  flush_rows_adds now (p ∷ ps) t h = omega (
    arith,
    upsert_adds now p t h.0,
    flush_rows_adds now ps (upsert f (row_of (stamp now p)) t) h.1,
  )

  pub flush_batch_adds :
      (now : Time) (ps : List Proxy) (t : Table)
      → All IsFresh ps
      → checks_at x (flush_batch f true now ps t) ≡ checks_at x t + weigh share ps
  unfolding flush_batch
  flush_batch_adds now [] t h = omega arith
  flush_batch_adds now (p ∷ ps) t h = flush_rows_adds now (p ∷ ps) t h

  pub commit_single_adds :
      (now : Time) (p : Proxy) (t : Table)
      → IsFresh p
      → checks_at x (commit_single_proxy f true now p t).0 ≡ checks_at x t + share p
  unfolding commit_single_proxy
  commit_single_adds now p t h = upsert_adds now p t h
