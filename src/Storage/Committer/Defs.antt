-- ===== src/Storage/Committer/Defs.antt =====
-- pkg/storage/sqlite.go: SaveOrUpdateProxy, batchCommitter, Flush and Close, each as what it does
-- to the queue, the committer's buffer and the database. `write` commits a batch at a time, and
-- `write_single` one proxy (flushBatch and commitSingleProxy).
use go_proxy.Base.{ℕ, List, [], ◌∷◌, ◌++◌, ltb, leb, if◌then◌else◌, length}
use go_proxy.Model.Proxy.{Time, Proxy}

abbrev pub queue_capacity : ℕ
queue_capacity = 50000

abbrev pub batch_size : ℕ
batch_size = 200

-- `batchChan`, the buffer of the committer goroutine, and the database.
pub record Store (D : Type 0) : Type 0 where
  pub queue : List Proxy
  pub buffer : List Proxy
  pub db : D

module _ {D : Type 0} (write : Time → List Proxy → D → D)
    (write_single : Time → Proxy → D → D) where
  -- `SaveOrUpdateProxy`: a full queue is bypassed.
  unfoldable pub save_or_update_proxy : Time → Proxy → Store D → Store D
  save_or_update_proxy now p s =
      if ltb (length s.queue) queue_capacity
      then record s { queue = s.queue ++ p ∷ [] }
      else record s { db = write_single now p s.db }

  -- One proxy taken from the queue into the buffer, which is flushed when it is full.
  unfoldable pub take_in : Time → Proxy → Store D → Store D
  take_in now p s =
      let buffer = s.buffer ++ p ∷ [] in
      if leb batch_size (length buffer)
      then record s { buffer = []; db = write now buffer s.db }
      else record s { buffer = buffer }

  -- The committer's receive; on an empty queue it is not ready.
  unfoldable pub receive : Time → Store D → Store D
  unfolding take_in
  receive now s = elim s.queue [ [] ↦ s | p ∷ ps ↦ take_in now p (record s { queue = ps }) ]

  -- The flush of a buffer that is not empty.
  unfoldable pub flush_buffer : Time → Store D → Store D
  flush_buffer now s = elim s.buffer [
    | [] ↦ s
    | p ∷ ps ↦ record s { buffer = []; db = write now (p ∷ ps) s.db }
  ]

  -- The committer's tick.
  unfoldable pub tick : Time → Store D → Store D
  unfolding flush_buffer
  tick now s = flush_buffer now s

  -- `Flush`: all that is queued goes to the database as one batch of its own.
  unfoldable pub flush : Time → Store D → Store D
  flush now s = elim s.queue [
    | [] ↦ s
    | p ∷ ps ↦ record s { queue = []; db = write now (p ∷ ps) s.db }
  ]

  -- The loop that drains the queue once `closeChan` is closed, over the queued proxies.
  unfoldable pub drain : Time → List Proxy → Store D → Store D
  unfolding take_in flush_buffer
  drain now [] s = flush_buffer now s
  drain now (p ∷ ps) s = drain now ps (take_in now p (record s { queue = ps }))

  -- `Close`, for the committer
  unfoldable pub close : Time → Store D → Store D
  unfolding drain
  close now s = drain now s.queue s
