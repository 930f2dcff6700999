-- ===== src/Daemon/Valid.antt =====
-- pkg/daemon/daemon.go: every write of a cycle and of the committer keeps the table valid.
use go_proxy.Base.{
  ℕ, ◌+◌, ◌≡◌, refl, Bool, true, false, List, [], ◌∷◌, ◌++◌, Bool-cases, inl, inr, ltb, leb, length,
}
use go_proxy.Base.Float.{FloatOps}
use go_proxy.Model.Proxy.{Time, Proxy, CheckResult}
use go_proxy.Storage.Table.{Table, row_of, stamp, flush_batch, commit_single_proxy}
use go_proxy.Storage.Table.Upsert.{IsValid, upsert-IsValid, flush_rows-IsValid}
use go_proxy.Storage.Committer.{
  Store, queue_capacity, batch_size, save_or_update_proxy, take_in, receive, flush_buffer, tick,
  flush,
}
use go_proxy.Daemon.Defs.{
  CommitterStep, on_receive, on_tick, Save, Cycle, Tally, tallied, committer, recheck_one,
  recheck_all, rechecked,
}

module _ (f : FloatOps) (commits : Bool) where
  flush_batch-IsValid :
      (now : Time) (ps : List Proxy) (t : Table)
      → IsValid t
      → IsValid (flush_batch f commits now ps t)
  unfolding flush_batch
  flush_batch-IsValid now [] t v = v
  flush_batch-IsValid now (p ∷ ps) t v = elim (Bool-cases commits) [
    | inl e ↦ rw e (flush_rows-IsValid f now (p ∷ ps) t v)
    | inr e ↦ rw e v
  ]

  commit_single-IsValid :
      (now : Time) (p : Proxy) (t : Table)
      → IsValid t
      → IsValid (commit_single_proxy f commits now p t).0
  unfolding commit_single_proxy
  commit_single-IsValid now p t v = elim (Bool-cases commits) [
    | inl e ↦ rw e (upsert-IsValid f (row_of (stamp now p)) t v)
    | inr e ↦ rw e v
  ]

  take_in-IsValid :
      (now : Time) (p : Proxy) (s : Store Table)
      → IsValid s.db
      → IsValid
          (take_in
            (flush_batch f commits)
            (λ t q table. (commit_single_proxy f commits t q table).0)
            now
            p
            s).db
  unfolding take_in
  take_in-IsValid now p s v = elim (Bool-cases (leb batch_size (length (s.buffer ++ p ∷ [])))) [
    | inl e ↦ rw e (flush_batch-IsValid now (s.buffer ++ p ∷ []) s.db v)
    | inr e ↦ rw e v
  ]

  receive_parts-IsValid :
      (now : Time) (q b : List Proxy) (t : Table)
      → IsValid t
      → IsValid
          (receive
            (flush_batch f commits)
            (λ s x table. (commit_single_proxy f commits s x table).0)
            now
            (record { queue = q; buffer = b; db = t })).db
  unfolding receive
  receive_parts-IsValid now [] b t v = v
  receive_parts-IsValid now (p ∷ ps) b t v =
      take_in-IsValid now p (record { queue = ps; buffer = b; db = t }) v

  tick_parts-IsValid :
      (now : Time) (q b : List Proxy) (t : Table)
      → IsValid t
      → IsValid
          (tick
            (flush_batch f commits)
            (λ s x table. (commit_single_proxy f commits s x table).0)
            now
            (record { queue = q; buffer = b; db = t })).db
  unfolding tick flush_buffer
  tick_parts-IsValid now q [] t v = v
  tick_parts-IsValid now q (p ∷ ps) t v = flush_batch-IsValid now (p ∷ ps) t v

  save-IsValid :
      (now : Time) (p : Proxy) (s : Store Table)
      → IsValid s.db
      → IsValid
          (save_or_update_proxy
            (flush_batch f commits)
            (λ t q table. (commit_single_proxy f commits t q table).0)
            now
            p
            s).db
  unfolding save_or_update_proxy
  save-IsValid now p s v = elim (Bool-cases (ltb (length s.queue) queue_capacity)) [
    | inl e ↦ rw e v
    | inr e ↦ rw e (commit_single-IsValid now p s.db v)
  ]

  flush_parts-IsValid :
      (now : Time) (q b : List Proxy) (t : Table)
      → IsValid t
      → IsValid
          (flush
            (flush_batch f commits)
            (λ s x table. (commit_single_proxy f commits s x table).0)
            now
            (record { queue = q; buffer = b; db = t })).db
  unfolding flush
  flush_parts-IsValid now [] b t v = v
  flush_parts-IsValid now (p ∷ ps) b t v = flush_batch-IsValid now (p ∷ ps) t v

module _ (f : FloatOps) where
  pub committer-IsValid :
      (steps : List CommitterStep) (s : Store Table)
      → IsValid s.db
      → IsValid (committer f steps s).db
  unfolding committer
  committer-IsValid [] s v = v
  committer-IsValid (on_receive commits now ∷ more) s v =
      committer-IsValid more _ (receive_parts-IsValid f commits now s.queue s.buffer s.db v)
  committer-IsValid (on_tick commits now ∷ more) s v =
      committer-IsValid more _ (tick_parts-IsValid f commits now s.queue s.buffer s.db v)

  tallied_store : (b : Bool) (q : Proxy) (s : Store Table) (t : Tally) → (tallied b q s t).store ≡ s
  tallied_store true q s t = refl
  tallied_store false q s t = refl

  pub recheck_all-IsValid :
      (saves : ℕ → Save) (now : Time) (check : Proxy → CheckResult) (ps : List Proxy) (t : Tally)
      → IsValid t.store.db
      → IsValid (recheck_all f saves now check ps t).store.db
  unfolding recheck_all recheck_one
  recheck_all-IsValid saves now check [] t v = v
  recheck_all-IsValid saves now check (p ∷ ps) t v =
      let save : Save = saves (t.alive_count + t.dead_count) in
      let q = rechecked f now (check p) p in
      let s = committer f save.before t.store in
      recheck_all-IsValid saves now check ps (recheck_one f save now (check p) p t) (
        rw
          (tallied_store (check p).success q
            (save_or_update_proxy (flush_batch f save.commits)
              (λ s x table. (commit_single_proxy f save.commits s x table).0) now q s)
            t)
          (save-IsValid f save.commits now q s (committer-IsValid save.before t.store v)))

  -- The store of a cycle before its purge.
  abbrev pub before_purge : Cycle → Tally → Store Table
  before_purge c t = committer f c.before_purge (
      flush (flush_batch f c.flush_commits)
        (λ s x table. (commit_single_proxy f c.flush_commits s x table).0) c.end_time
        (committer f c.before_flush t.store))

  pub before_purge-IsValid :
      (c : Cycle) (t : Tally) → IsValid t.store.db → IsValid (before_purge c t).db
  before_purge-IsValid c t v =
      let s = committer f c.before_flush t.store in
      committer-IsValid c.before_purge _ (
        flush_parts-IsValid f c.flush_commits c.end_time s.queue s.buffer s.db
          (committer-IsValid c.before_flush t.store v))
