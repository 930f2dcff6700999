-- ===== src/Storage/Committer/Delivery.antt =====
-- pkg/storage/sqlite.go: what the queue and the committer's buffer add to a quantity of the
-- database, for any database where a write adds to it what the proxies weigh.
use mathlib.Core.Path.{subst}
use go_proxy.Base.{
  ℕ, ◌+◌, ◌≡◌, refl, ap, List, [], ◌∷◌, ◌++◌, arith, ltb, leb, length, All, Bool-cases, inl, inr,
}
use go_proxy.Model.Proxy.{Time, Proxy}
use go_proxy.Storage.Committer.Defs.{
  Store, queue_capacity, batch_size, save_or_update_proxy, take_in, receive, flush_buffer, tick,
  flush, drain, close,
}

abbrev pub weigh : (Proxy → ℕ) → List Proxy → ℕ
weigh w [] = 0
weigh w (p ∷ ps) = w p + weigh w ps

pub weigh-append :
    (w : Proxy → ℕ) (ps qs : List Proxy) → weigh w (ps ++ qs) ≡ weigh w ps + weigh w qs
weigh-append w [] qs = omega arith
weigh-append w (p ∷ ps) qs = omega (arith, weigh-append w ps qs)

All-append_one :
    (P : Proxy → Type 0) (ps : List Proxy) (q : Proxy) → All P ps → P q → All P (ps ++ q ∷ [])
All-append_one P [] q h k = (k, tt)
All-append_one P (p ∷ ps) q h k = (h.0, All-append_one P ps q h.1 k)

module _ {D : Type 0} (write : Time → List Proxy → D → D) (write_single : Time → Proxy → D → D)
    (quantity : D → ℕ) (w : Proxy → ℕ) (IsFit : Proxy → Type 0)
    (write_adds : (now : Time) (ps : List Proxy) (d : D)
      → All IsFit ps
      → quantity (write now ps d) ≡ quantity d + weigh w ps)
    (single_adds : (now : Time) (p : Proxy) (d : D)
      → IsFit p
      → quantity (write_single now p d) ≡ quantity d + w p) where
  -- All that waits is fit to be written, and with it the quantity comes to `n`.
  pub record Holds (n : ℕ) (s : Store D) : Type 0 where
    pub queue_fit : All IsFit s.queue
    pub buffer_fit : All IsFit s.buffer
    pub comes_to : quantity s.db + weigh w s.buffer + weigh w s.queue ≡ n

  pub save-Holds :
      (n : ℕ) (now : Time) (p : Proxy) (s : Store D)
      → IsFit p
      → Holds n s
      → Holds (n + w p) (save_or_update_proxy write write_single now p s)
  unfolding save_or_update_proxy
  save-Holds n now p s fit h = elim (Bool-cases (ltb (length s.queue) queue_capacity)) [
    | inl e ↦ rw e (record {
      queue_fit = All-append_one IsFit s.queue p h.queue_fit fit;
      buffer_fit = h.buffer_fit;
      comes_to = omega (arith, h.comes_to, weigh-append w s.queue (p ∷ []));
    })
    | inr e ↦ rw e (record {
      queue_fit = h.queue_fit;
      buffer_fit = h.buffer_fit;
      comes_to = omega (arith, h.comes_to, single_adds now p s.db fit);
    })
  ]

  take_in-Holds :
      (n : ℕ) (now : Time) (p : Proxy) (s : Store D)
      → IsFit p
      → Holds n s
      → Holds (n + w p) (take_in write write_single now p s)
  unfolding take_in
  take_in-Holds n now p s fit h =
      let buffer = s.buffer ++ p ∷ [] in
      let all_fit = All-append_one IsFit s.buffer p h.buffer_fit fit in
      elim (Bool-cases (leb batch_size (length buffer))) [
        | inl e ↦ rw e (record {
          queue_fit = h.queue_fit;
          buffer_fit = tt;
          comes_to = omega (
            arith,
            h.comes_to,
            weigh-append w s.buffer (p ∷ []),
            write_adds now buffer s.db all_fit,
          );
        })
        | inr e ↦ rw e (record {
          queue_fit = h.queue_fit;
          buffer_fit = all_fit;
          comes_to = omega (arith, h.comes_to, weigh-append w s.buffer (p ∷ []));
        })
      ]

  -- The store of its parts, on which the operations compute.
  abbrev parts : List Proxy → List Proxy → D → Store D
  parts q b d = record { queue = q; buffer = b; db = d }

  receive-parts :
      (n : ℕ) (now : Time) (q b : List Proxy) (d : D)
      → Holds n (parts q b d)
      → Holds n (receive write write_single now (parts q b d))
  unfolding receive
  receive-parts n now [] b d h = h
  receive-parts n now (p ∷ ps) b d h =
      let others : Holds (quantity d + weigh w b + weigh w ps) (parts ps b d) = record {
        queue_fit = h.queue_fit.1;
        buffer_fit = h.buffer_fit;
        comes_to = refl;
      } in
      subst (λ m. Holds m (take_in write write_single now p (parts ps b d)))
        (omega (arith, h.comes_to)) (take_in-Holds _ now p (parts ps b d) h.queue_fit.0 others)

  pub receive-Holds :
      (n : ℕ) (now : Time) (s : Store D) → Holds n s → Holds n (receive write write_single now s)
  receive-Holds n now s h = receive-parts n now s.queue s.buffer s.db h

  -- The store after a flush of the buffer, with what it leaves in the queue.
  abbrev IsFlushed : ℕ → List Proxy → Store D → Type 0
  IsFlushed n q s = Holds n s × (s.buffer ≡ []) × (s.queue ≡ q)

  flush_buffer-parts :
      (n : ℕ) (now : Time) (q b : List Proxy) (d : D)
      → Holds n (parts q b d)
      → IsFlushed n q (flush_buffer write write_single now (parts q b d))
  unfolding flush_buffer
  flush_buffer-parts n now q [] d h = (h, refl, refl)
  flush_buffer-parts n now q (p ∷ ps) d h = (
    record {
      queue_fit = h.queue_fit;
      buffer_fit = tt;
      comes_to = omega (arith, h.comes_to, write_adds now (p ∷ ps) d h.buffer_fit);
    },
    refl,
    refl,
  )

  pub tick-Holds :
      (n : ℕ) (now : Time) (s : Store D) → Holds n s → Holds n (tick write write_single now s)
  unfolding tick
  tick-Holds n now s h = (flush_buffer-parts n now s.queue s.buffer s.db h).0

  flush-parts :
      (n : ℕ) (now : Time) (q b : List Proxy) (d : D)
      → Holds n (parts q b d)
      → Holds n (flush write write_single now (parts q b d))
  unfolding flush
  flush-parts n now [] b d h = h
  flush-parts n now (p ∷ ps) b d h = record {
    queue_fit = tt;
    buffer_fit = h.buffer_fit;
    comes_to = omega (arith, h.comes_to, write_adds now (p ∷ ps) d h.queue_fit);
  }

  pub flush-Holds :
      (n : ℕ) (now : Time) (s : Store D) → Holds n s → Holds n (flush write write_single now s)
  flush-Holds n now s h = flush-parts n now s.queue s.buffer s.db h

  take_in_queue :
      (now : Time) (p : Proxy) (s : Store D) → (take_in write write_single now p s).queue ≡ s.queue
  unfolding take_in
  take_in_queue now p s = ground arith

  drain-IsFlushed :
      (n : ℕ) (now : Time) (ps : List Proxy) (s : Store D)
      → s.queue ≡ ps
      → Holds n s
      → IsFlushed n [] (drain write write_single now ps s)
  unfolding drain
  drain-IsFlushed n now [] s e h =
      subst (λ q. IsFlushed n q (flush_buffer write write_single now s)) e
        (flush_buffer-parts n now s.queue s.buffer s.db h)
  drain-IsFlushed n now (p ∷ ps) s e h =
      let whole : Holds n (parts (p ∷ ps) s.buffer s.db) =
        subst (λ q. Holds n (parts q s.buffer s.db)) e h in
      drain-IsFlushed n now ps (take_in write write_single now p (parts ps s.buffer s.db))
        (take_in_queue now p (parts ps s.buffer s.db))
        (unfold receive in receive-parts n now (p ∷ ps) s.buffer s.db whole)

  -- Close leaves nothing behind, so that the quantity is what it was to come to.
  pub close-delivers :
      (n : ℕ) (now : Time) (s : Store D)
      → Holds n s
      → let t = close write write_single now s in
        (t.queue ≡ []) × (t.buffer ≡ []) × (quantity t.db ≡ n)
  unfolding close
  close-delivers n now s h =
      let (held, buffer, queue) = drain-IsFlushed n now s.queue s refl h in
      (queue, buffer, omega (arith, held.comes_to, ap (weigh w) buffer, ap (weigh w) queue))
