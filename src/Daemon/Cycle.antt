-- ===== src/Daemon/Cycle.antt =====
-- pkg/daemon/daemon.go, recheckPool: what a cycle makes of the proxies of the pool.
use mathlib.Core.List.{Perm}
use mathlib.Core.List.Perm
use go_proxy.Base.{
  ℕ, suc, ◌+◌, ◌≡◌, refl, sym, ap, ◌∙◌, Bool, true, false, List, [], ◌∷◌, ◌++◌, arith,
  if◌then◌else◌, length, All, append-nil_right, append_assoc_right,
}
use go_proxy.Base.Float.{FloatOps}
use go_proxy.Model.Proxy.{Time, Proxy, CheckResult}
use go_proxy.Storage.Table.{Table, query_proxies}
use go_proxy.Storage.Committer.{Store}
use go_proxy.Daemon.Query.{at_most, length-query}
use go_proxy.Daemon.Defs.{
  Save, cycle_filter, priority_score, insert_urgent, by_priority, checked_fields, rechecked, Tally,
  tallied, recheck_one, recheck_all, start_tally,
}

-- A proxy that has passed: alive now, without failures in a row.
abbrev pub IsRevived : Time → Proxy → Type 0
IsRevived now p = (p.is_alive ≡ true) × (p.consecutive_fail ≡ 0) × (p.last_alive ≡ now)

module _ (f : FloatOps) (now : Time) (check : Proxy → CheckResult) where
  -- The proxies that pass, as the check leaves them.
  abbrev pub revived : List Proxy → List Proxy
  revived [] = []
  revived (p ∷ ps) =
      if (check p).success then rechecked f now (check p) p ∷ revived ps else revived ps

  revived_cons :
      (p : Proxy) (ps qs : List Proxy)
      → Perm (revived ps) (revived qs)
      → Perm (revived (p ∷ ps)) (revived (p ∷ qs))
  revived_cons p ps qs h = go (check p).success
    where
      go :
          (b : Bool)
          → Perm
              (if b then rechecked f now (check p) p ∷ revived ps else revived ps)
              (if b then rechecked f now (check p) p ∷ revived qs else revived qs)
      go true = Perm.cons (rechecked f now (check p) p) h
      go false = h

  revived_swap :
      (p q : Proxy) (ps : List Proxy) → Perm (revived (q ∷ p ∷ ps)) (revived (p ∷ q ∷ ps))
  revived_swap p q ps = go (check p).success (check q).success
    where
      a : Proxy
      a = rechecked f now (check p) p

      b : Proxy
      b = rechecked f now (check q) q

      go :
          (x y : Bool)
          → Perm
              (if y
                then b ∷ (if x then a ∷ revived ps else revived ps)
                else (if x then a ∷ revived ps else revived ps))
              (if x
                then a ∷ (if y then b ∷ revived ps else revived ps)
                else (if y then b ∷ revived ps else revived ps))
      go true true = Perm.swap a b (revived ps)
      go true false = Perm.refl (a ∷ revived ps)
      go false true = Perm.refl (b ∷ revived ps)
      go false false = Perm.refl (revived ps)

  revived-insert_urgent :
      (p : Proxy) (qs : List Proxy) → Perm (revived (insert_urgent f now p qs)) (revived (p ∷ qs))
  unfolding insert_urgent
  revived-insert_urgent p [] = Perm.refl (revived (p ∷ []))
  revived-insert_urgent p (q ∷ qs) = go (f.lt (priority_score f now p) (priority_score f now q)) (
      Perm.trans (revived_cons q (insert_urgent f now p qs) (p ∷ qs) (revived-insert_urgent p qs))
        (revived_swap p q qs))
    where
      go :
          (b : Bool)
          → Perm (revived (q ∷ insert_urgent f now p qs)) (revived (p ∷ q ∷ qs))
          → Perm
              (revived (if b then q ∷ insert_urgent f now p qs else p ∷ q ∷ qs))
              (revived (p ∷ q ∷ qs))
      go true h = h
      go false h = Perm.refl (revived (p ∷ q ∷ qs))

  revived-by_priority : (ps : List Proxy) → Perm (revived (by_priority f now ps)) (revived ps)
  unfolding by_priority
  revived-by_priority [] = Perm.refl []
  revived-by_priority (p ∷ ps) =
      Perm.trans (revived-insert_urgent p (by_priority f now ps))
        (revived_cons p (by_priority f now ps) ps (revived-by_priority ps))

  length-insert_urgent :
      (p : Proxy) (qs : List Proxy) → length (insert_urgent f now p qs) ≡ suc (length qs)
  unfolding insert_urgent
  length-insert_urgent p [] = refl
  length-insert_urgent p (q ∷ qs) =
      go (f.lt (priority_score f now p) (priority_score f now q))
        (ap suc (length-insert_urgent p qs))
    where
      go :
          (b : Bool)
          → length (q ∷ insert_urgent f now p qs) ≡ suc (suc (length qs))
          → length (if b then q ∷ insert_urgent f now p qs else p ∷ q ∷ qs) ≡ suc (suc (length qs))
      go true h = h
      go false h = refl

  length-by_priority : (ps : List Proxy) → length (by_priority f now ps) ≡ length ps
  unfolding by_priority
  length-by_priority [] = refl
  length-by_priority (p ∷ ps) =
      length-insert_urgent p (by_priority f now ps) ∙ ap suc (length-by_priority ps)

  -- A tally after the proxies `ps`, from the tally `s`.
  record Adds (ps : List Proxy) (s t : Tally) : Type 0 where
    alive : t.alive_count ≡ s.alive_count + length (revived ps)
    total : t.alive_count + t.dead_count ≡ s.alive_count + s.dead_count + length ps
    listed : t.alive_list ≡ s.alive_list ++ revived ps

  checked_fields-IsRevived :
      (b : Bool) (r : CheckResult) (p : Proxy)
      → b ≡ true
      → IsRevived now (checked_fields f b now r p)
  checked_fields-IsRevived true r p h = (refl, refl, refl)
  checked_fields-IsRevived false r p h = cc

  rechecked-IsRevived :
      (p : Proxy) → (check p).success ≡ true → IsRevived now (rechecked f now (check p) p)
  unfolding rechecked
  rechecked-IsRevived p h =
      let q = checked_fields-IsRevived (check p).success (check p) p h in (q.0, q.1, q.2)

  revived-IsRevived : (ps : List Proxy) → All (IsRevived now) (revived ps)
  revived-IsRevived [] = tt
  revived-IsRevived (p ∷ ps) = go (check p).success (rechecked-IsRevived p) (revived-IsRevived ps)
    where
      go :
          (b : Bool)
          → (b ≡ true → IsRevived now (rechecked f now (check p) p))
          → All (IsRevived now) (revived ps)
          → All (IsRevived now) (if b then rechecked f now (check p) p ∷ revived ps else revived ps)
      go true h rest = (h refl, rest)
      go false h rest = rest

  -- What a cycle finds for the proxies `ps` of the pool.
  pub record IsCycleOf (ps : List Proxy) (t : Tally) : Type 0 where
    pub all_counted : t.alive_count + t.dead_count ≡ length ps
    pub alive_counted : t.alive_count ≡ length t.alive_list
    pub all_listed : Perm t.alive_list (revived ps)
    pub listed_alive : All (IsRevived now) t.alive_list

  module _ (saves : ℕ → Save) where
    tallied-Adds :
        (b : Bool) (p : Proxy) (ps : List Proxy) (store : Store Table) (s t : Tally)
        → (check p).success ≡ b
        → Adds ps (tallied b (rechecked f now (check p) p) store s) t
        → Adds (p ∷ ps) s t
    tallied-Adds true p ps store s t e a =
        let more : revived (p ∷ ps) ≡ rechecked f now (check p) p ∷ revived ps = rw e refl in
        record {
          alive = omega (arith, a.alive, ap length more);
          total = omega (arith, a.total);
          listed =
              a.listed
              ∙ append_assoc_right s.alive_list (rechecked f now (check p) p ∷ []) (revived ps)
              ∙ ap (λ t. s.alive_list ++ t) (sym more);
        }
    tallied-Adds false p ps store s t e a =
        let same : revived (p ∷ ps) ≡ revived ps = rw e refl in
        record {
          alive = omega (arith, a.alive, ap length same);
          total = omega (arith, a.total);
          listed = a.listed ∙ ap (λ t. s.alive_list ++ t) (sym same);
        }

    recheck_all-Adds :
        (ps : List Proxy) (s : Tally) → Adds ps s (recheck_all f saves now check ps s)
    unfolding recheck_all recheck_one
    recheck_all-Adds [] s = record {
      alive = omega arith;
      total = omega arith;
      listed = sym (append-nil_right s.alive_list);
    }
    recheck_all-Adds (p ∷ ps) s = tallied-Adds (check p).success p ps _ s _ refl (
        recheck_all-Adds ps
          (recheck_one f (saves (s.alive_count + s.dead_count)) now (check p) p s))

    checked-IsCycleOf :
        (ps : List Proxy) (store : Store Table)
        → IsCycleOf ps (recheck_all f saves now check (by_priority f now ps) (start_tally store))
    checked-IsCycleOf ps store =
        let a = recheck_all-Adds (by_priority f now ps) (start_tally store) in
        record {
          all_counted = omega (arith, a.total, length-by_priority ps);
          alive_counted = omega (arith, a.alive, ap length a.listed);
          all_listed = rw a.listed (revived-by_priority ps);
          listed_alive = rw a.listed (revived-IsRevived (by_priority f now ps));
        }

    -- A recheck cycle that is not interrupted counts each of the proxies that its query returns
    -- once, as alive or as dead, whatever the order of the priorities and whatever the committer
    -- does; these are as many as the table has rows, but 15000 at most. The list for the files
    -- has exactly those whose check succeeds, each alive at this time and without failures in a
    -- row.
    pub recheck_all-IsCycleOf :
        (store : Store Table)
        → IsCycleOf (query_proxies cycle_filter store.db) (
            recheck_all f saves now check
              (by_priority f now (query_proxies cycle_filter store.db))
              (start_tally store))
          × (length (query_proxies cycle_filter store.db) ≡ at_most 15000 (length store.db.rows))
    recheck_all-IsCycleOf store =
        (checked-IsCycleOf (query_proxies cycle_filter store.db) store, length-query store.db)
