-- ===== src/Storage/Committer/Conservation.antt =====
-- pkg/storage/sqlite.go: no proxy is lost or doubled between the workers and the database but by
-- a transaction that fails, after which flushBatch drops its proxies.
use go_proxy.Base.{
  ℕ, suc, ◌+◌, ◌<◌, ◌≤◌, ◌≡◌, refl, ap, Bool, true, false, List, [], ◌∷◌, ◌++◌, arith,
  if◌then◌else◌, length, length-append, All,
}
use mathlib.Core.Path.{subst}
use go_proxy.Model.Proxy.{Time, Proxy}
use go_proxy.Storage.Committer.Defs.{
  Store, queue_capacity, batch_size, save_or_update_proxy, take_in, receive, flush_buffer, tick,
  flush, close,
}
use go_proxy.Storage.Committer.Delivery.{
  weigh, weigh-append, Holds, save-Holds, receive-Holds, tick-Holds, flush-Holds, close-delivers,
}

-- A database that keeps a log of what was committed, in order, and of what failing transactions
-- dropped. `fates` says of the transactions to come whether they commit; those after it do.
pub record Log : Type 0 where
  pub committed : List Proxy
  pub lost : List (List Proxy)
  pub fates : List Bool

abbrev write_fated : List Bool → List Proxy → Log → Log
write_fated [] ps log = record log { committed = log.committed ++ ps }
write_fated (true ∷ fates) ps log = record log { committed = log.committed ++ ps; fates = fates }
write_fated (false ∷ fates) ps log = record log { lost = ps ∷ log.lost; fates = fates }

unfoldable pub log_batch : Time → List Proxy → Log → Log
log_batch now ps log = write_fated log.fates ps log

unfoldable pub log_single : Time → Proxy → Log → Log
unfolding log_batch
log_single now p log = log_batch now (p ∷ []) log

-- What the goroutines do, one at a time.
pub data Action : Type 0 where
  submit : Time → Proxy → Action
  received ticked flushed : Time → Action

unfoldable pub act : Action → Store Log → Store Log
act (submit now p) s = save_or_update_proxy log_batch log_single now p s
act (received now) s = receive log_batch log_single now s
act (ticked now) s = tick log_batch log_single now s
act (flushed now) s = flush log_batch log_single now s

unfoldable pub run : List Action → Store Log → Store Log
run [] s = s
run (a ∷ more) s = run more (act a s)

-- The proxies that the actions submit.
abbrev pub submitted : List Action → List Proxy
submitted [] = []
submitted (submit now p ∷ more) = p ∷ submitted more
submitted (_ ∷ more) = submitted more

-- How many proxies of a list pass a test, and how many of some lists do.
abbrev pub tally : (Proxy → Bool) → List Proxy → ℕ
tally p ps = weigh (λ x. if p x then 1 else 0) ps

abbrev pub tally_lists : (Proxy → Bool) → List (List Proxy) → ℕ
tally_lists p [] = 0
tally_lists p (ps ∷ more) = tally p ps + tally_lists p more

-- How many transactions are to fail.
abbrev pub failures : List Bool → ℕ
failures [] = 0
failures (true ∷ fates) = failures fates
failures (false ∷ fates) = suc (failures fates)

-- How many proxies that pass the test the database was given.
unfoldable logged : (Proxy → Bool) → Log → ℕ
logged p log = tally p log.committed + tally_lists p log.lost

-- How many transactions have failed or are to fail.
unfoldable unlucky : Log → ℕ
unlucky log = length log.lost + failures log.fates

write_fated-logged :
    (p : Proxy → Bool) (fates : List Bool) (ps : List Proxy) (log : Log)
    → logged p (write_fated fates ps log) ≡ logged p log + tally p ps
unfolding logged
write_fated-logged p [] ps log = omega (arith, weigh-append _ log.committed ps)
write_fated-logged p (true ∷ fates) ps log = omega (arith, weigh-append _ log.committed ps)
write_fated-logged p (false ∷ fates) ps log = omega arith

write_fated-unlucky :
    (fates : List Bool) (ps : List Proxy) (log : Log)
    → log.fates ≡ fates
    → unlucky (write_fated fates ps log) ≡ unlucky log
unfolding unlucky
write_fated-unlucky [] ps log e = refl
write_fated-unlucky (true ∷ fates) ps log e = omega (arith, ap failures e)
write_fated-unlucky (false ∷ fates) ps log e = omega (arith, ap failures e)

-- A quantity of the log to which each write adds the weight of its proxies.
module _ (quantity : Log → ℕ) (w : Proxy → ℕ)
    (write_adds : (now : Time) (ps : List Proxy) (log : Log)
      → All (λ _. Unit {0}) ps
      → quantity (log_batch now ps log) ≡ quantity log + weigh w ps)
    (single_adds : (now : Time) (p : Proxy) (log : Log)
      → Unit {0}
      → quantity (log_single now p log) ≡ quantity log + w p) where
  abbrev Comes : ℕ → Store Log → Type 0
  Comes = Holds log_batch log_single quantity w (λ _. Unit {0}) write_adds single_adds

  run-Comes :
      (actions : List Action) (n : ℕ) (s : Store Log)
      → Comes n s
      → Comes (n + weigh w (submitted actions)) (run actions s)
  unfolding run act
  run-Comes [] n s h = subst (λ m. Comes m s) (omega arith) h
  run-Comes (submit now p ∷ more) n s h =
      subst (λ m. Comes m (run more (act (submit now p) s))) (omega arith)
        (run-Comes more _ _ (
          save-Holds log_batch log_single quantity w (λ _. Unit {0}) write_adds single_adds n now p
            s tt h))
  run-Comes (received now ∷ more) n s h = run-Comes more n _ (
      receive-Holds log_batch log_single quantity w (λ _. Unit {0}) write_adds single_adds n now s
        h)
  run-Comes (ticked now ∷ more) n s h =
      run-Comes more n _ (
        tick-Holds log_batch log_single quantity w (λ _. Unit {0}) write_adds single_adds n now s h)
  run-Comes (flushed now ∷ more) n s h =
      run-Comes more n _ (
        flush-Holds log_batch log_single quantity w (λ _. Unit {0}) write_adds single_adds n now s
          h)

  closed :
      (now : Time) (actions : List Action) (n : ℕ) (s : Store Log)
      → Comes n s
      → let t = close log_batch log_single now (run actions s) in
        (t.queue ≡ []) × (t.buffer ≡ []) × (quantity t.db ≡ n + weigh w (submitted actions))
  closed now actions n s h =
      close-delivers log_batch log_single quantity w (λ _. Unit {0}) write_adds single_adds _ now _
        (run-Comes actions n s h)

abbrev pub empty_store : List Bool → Store Log
empty_store fates = record {
  queue = [];
  buffer = [];
  db = record { committed = []; lost = []; fates = fates };
}

weigh_nothing : (ps : List Proxy) → weigh (λ _. 0) ps ≡ 0
weigh_nothing [] = refl
weigh_nothing (p ∷ ps) = omega (arith, weigh_nothing ps)

-- Whatever the order in which workers submit proxies, the committer receives and ticks, and Flush
-- is called, and whichever transactions fail: Close leaves the queue and the buffer empty; each
-- submitted proxy is then either committed or in one of the batches that failing transactions
-- dropped, once for each time it was submitted (as many proxies pass any given test there as
-- among the submitted); and there are as many dropped batches as transactions have failed, so
-- none if all commit. (A direct write of one proxy is a batch of one; errors of single rows inside
-- a transaction that commits are left out.)
pub close_commits_all :
    (p : Proxy → Bool) (fates : List Bool) (now : Time) (actions : List Action)
    → let s = close log_batch log_single now (run actions (empty_store fates)) in
      (s.queue ≡ [])
      × (s.buffer ≡ [])
      × (tally p s.db.committed + tally_lists p s.db.lost ≡ tally p (submitted actions))
      × (length s.db.lost + failures s.db.fates ≡ failures fates)
unfolding log_batch log_single logged unlucky
close_commits_all p fates now actions =
    let (queue, buffer, all) =
      closed (logged p) (λ x. if p x then 1 else 0)
        (λ now ps log _. write_fated-logged p log.fates ps log)
        (λ now x log _. omega (arith, write_fated-logged p log.fates (x ∷ []) log)) now actions 0
        (empty_store fates) (record { queue_fit = tt; buffer_fit = tt; comes_to = omega arith }) in
    let (_, _, fate) =
      closed unlucky (λ _. 0)
        (λ now ps log _. omega (arith, write_fated-unlucky log.fates ps log refl, weigh_nothing ps))
        (λ now x log _. omega (arith, write_fated-unlucky log.fates (x ∷ []) log refl)) now actions
        (failures fates) (empty_store fates)
        (record { queue_fit = tt; buffer_fit = tt; comes_to = omega arith }) in
    (queue, buffer, omega (arith, all), omega (arith, fate, weigh_nothing (submitted actions)))

-- The bounds on what waits in memory.
pub record IsBounded (s : Store Log) : Type 0 where
  pub queue : length s.queue ≤ queue_capacity
  pub buffer : length s.buffer < batch_size

take_in-IsBounded :
    (now : Time) (x : Proxy) (s : Store Log)
    → length s.queue ≤ queue_capacity
    → IsBounded (take_in log_batch log_single now x s)
unfolding take_in
take_in-IsBounded now x s h = ground arith

act-IsBounded : (a : Action) (s : Store Log) → IsBounded s → IsBounded (act a s)
unfolding act save_or_update_proxy receive flush_buffer tick flush
act-IsBounded (submit now x) s h = ground (arith, length-append s.queue (x ∷ []))
act-IsBounded (received now) s h = go s.queue refl
  where
    go : (q : List Proxy) → s.queue ≡ q → IsBounded (act (received now) s)
    go [] e = ground arith
    go (x ∷ xs) e =
        let fits : length xs ≤ queue_capacity = ground (arith, h.queue, ap length e) in
        ground (arith, e, take_in-IsBounded now x (record s { queue = xs }) fits)
act-IsBounded (ticked now) s h = ground arith
act-IsBounded (flushed now) s h = ground arith

run_from-IsBounded :
    (actions : List Action) (s : Store Log) → IsBounded s → IsBounded (run actions s)
unfolding run
run_from-IsBounded [] s h = h
run_from-IsBounded (a ∷ more) s h = run_from-IsBounded more (act a s) (act-IsBounded a s h)

-- At every moment of any run fewer proxies than the batch size wait in the buffer, and at most
-- the capacity of the queue wait there.
run-IsBounded :
    (fates : List Bool) (actions : List Action) → IsBounded (run actions (empty_store fates))
run-IsBounded fates actions = run_from-IsBounded actions (empty_store fates) (ground arith)
