-- ===== src/Server/Stream/Order.antt =====
-- pkg/server/server.go: what a client of the stream gets, and how much waits for it.
use mathlib.Core.Path.{subst}
use go_proxy.Base.{
  ℕ, ◌≤◌, ◌≡◌, refl, sym, ap, ◌∙◌, Bool, true, false, not, Option, none, some, List, [], ◌∷◌, ◌++◌,
  map, arith, ltb, ◌==◌, if◌then◌else◌, length, length-append, filter, All, append-nil_right,
  append_assoc_right, Bool-cases, inl, inr,
}
use go_proxy.Base.Text.{Text}
use go_proxy.Model.Proxy.{Time}
use go_proxy.Model.Stats.{Snapshot}
use go_proxy.Server.Stream.Parts.{IsPartOf, IsPartOf-append, IsPartOf-longer, IsPartOf-without}
use go_proxy.Server.Stream.{
  Sent, proxy_event, stats_event, Client, Hub, broadcast_proxy, deliver, deliver_next,
  broadcast_round, join, quit, write_next, write_event, write_report, Action, broadcast, delivered,
  joined, left, writes, ticked, at_client, stream_step,
}

-- The proxies among what was written.
abbrev pub events_of : List Sent → List Text
events_of [] = []
events_of (proxy_event e ∷ rest) = e ∷ events_of rest
events_of (stats_event alive stats now ∷ rest) = events_of rest

events_of-append : (xs ys : List Sent) → events_of (xs ++ ys) ≡ events_of xs ++ events_of ys
events_of-append [] ys = refl
events_of-append (proxy_event e ∷ xs) ys = ap (λ t. e ∷ t) (events_of-append xs ys)
events_of-append (stats_event alive stats now ∷ xs) ys = events_of-append xs ys

-- What has been broadcast in some actions.
abbrev pub all_events : List Action → List Text
all_events [] = []
all_events (broadcast (some e) ∷ more) = e ∷ all_events more
all_events (_ ∷ more) = all_events more

-- What a client has got, will get from its channel, and may get of what still waits.
abbrev coming : List Text → Client → List Text
coming waiting c = events_of c.sent ++ (c.events ++ waiting)

-- The state of a client, where `all` has been broadcast and `waiting` waits.
abbrev IsServed : List Text → List Text → Client → Type 0
IsServed all waiting c = IsPartOf (coming waiting c) all × (length c.events ≤ 64)

-- The hub after the broadcast of `all`.
pub record IsOrderly (all : List Text) (h : Hub) : Type 0 where
  pub queued : IsPartOf h.waiting all
  pub waiting_bounded : length h.waiting ≤ 256
  pub served : All (IsServed all h.waiting) h.clients

All-map :
    (P Q : Client → Type 0) (f : Client → Client)
    → ((c : Client) → P c → Q (f c))
    → (cs : List Client) → All P cs
    → All Q (map f cs)
All-map P Q f step [] h = tt
All-map P Q f step (c ∷ cs) h = (step c h.0, All-map P Q f step cs h.1)

All-weaken :
    (P Q : Client → Type 0) → ((c : Client) → P c → Q c) → (cs : List Client) → All P cs → All Q cs
All-weaken P Q step [] h = tt
All-weaken P Q step (c ∷ cs) h = (step c h.0, All-weaken P Q step cs h.1)

All-filter_clients :
    (P : Client → Type 0) (p : Client → Bool) (cs : List Client) → All P cs → All P (filter p cs)
All-filter_clients P p [] h = tt
All-filter_clients P p (c ∷ cs) h = elim (Bool-cases (p c)) [
  | inl e ↦ rw e (h.0, All-filter_clients P p cs h.1)
  | inr e ↦ rw e (All-filter_clients P p cs h.1)
]

coming-append :
    (waiting : List Text) (e : Text) (c : Client)
    → coming (waiting ++ e ∷ []) c ≡ coming waiting c ++ e ∷ []
coming-append waiting e c = sym (
    append_assoc_right (events_of c.sent) (c.events ++ waiting) (e ∷ [])
    ∙ ap (λ t. events_of c.sent ++ t) (append_assoc_right c.events waiting (e ∷ [])))

broadcast-IsOrderly :
    (all : List Text) (e : Text) (h : Hub)
    → IsOrderly all h
    → IsOrderly (all ++ e ∷ []) (broadcast_proxy (some e) h)
unfolding broadcast_proxy
broadcast-IsOrderly all e h o = elim (Bool-cases (ltb (length h.waiting) 256)) [
  | inl room ↦ rw room (record {
    queued = IsPartOf-append h.waiting all e o.queued;
    waiting_bounded = ground (arith, room, length-append h.waiting (e ∷ []));
    served =
        All-weaken (IsServed all h.waiting) (IsServed (all ++ e ∷ []) (h.waiting ++ e ∷ []))
          (λ c s. (
            rw (coming-append h.waiting e c) (IsPartOf-append (coming h.waiting c) all e s.0),
            s.1,
          ))
          h.clients o.served;
  })
  | inr no_room ↦ rw no_room (record {
    queued = IsPartOf-longer h.waiting all e o.queued;
    waiting_bounded = o.waiting_bounded;
    served =
        All-weaken (IsServed all h.waiting) (IsServed (all ++ e ∷ []) h.waiting)
          (λ c s. (IsPartOf-longer (coming h.waiting c) all e s.0, s.1)) h.clients o.served;
  })
]

deliver-IsServed :
    (all rest : List Text) (e : Text) (c : Client)
    → IsServed all (e ∷ rest) c
    → IsServed all rest (deliver e c)
unfolding deliver
deliver-IsServed all rest e c s = elim (Bool-cases (ltb (length c.events) 64)) [
  | inl room ↦
      let same = ap (λ t. events_of c.sent ++ t) (append_assoc_right c.events (e ∷ []) rest) in
      rw (room, same) (s.0, ground (arith, room, length-append c.events (e ∷ [])))
  | inr no_room ↦
      let front = append_assoc_right (events_of c.sent) c.events in
      rw (no_room, ← front rest)
        (
          IsPartOf-without (events_of c.sent ++ c.events) rest all e (rw (front (e ∷ rest)) s.0),
          s.1,
        )
]

deliver_next-IsOrderly :
    (all waiting : List Text) (h : Hub)
    → h.waiting ≡ waiting
    → IsOrderly all h
    → IsOrderly all (deliver_next waiting h)
deliver_next-IsOrderly all [] h e o = o
deliver_next-IsOrderly all (x ∷ rest) h e o = record {
  queued = IsPartOf-without [] rest all x (subst (λ w. IsPartOf w all) e o.queued);
  waiting_bounded = omega (arith, o.waiting_bounded, ap length e);
  served =
      All-map (IsServed all (x ∷ rest)) (IsServed all rest) (deliver x)
        (deliver-IsServed all rest x) h.clients
        (subst (λ w. All (IsServed all w) h.clients) e o.served);
}

write_next-IsServed :
    (all waiting events : List Text) (c : Client)
    → c.events ≡ events
    → IsServed all waiting c
    → IsServed all waiting (write_next events c)
write_next-IsServed all waiting [] c q s = s
write_next-IsServed all waiting (x ∷ rest) c q s =
    let moved : coming waiting (write_next (x ∷ rest) c) ≡ coming waiting c =
      ap (λ t. t ++ (rest ++ waiting)) (events_of-append c.sent (proxy_event x ∷ []))
      ∙ append_assoc_right (events_of c.sent) (x ∷ []) (rest ++ waiting)
      ∙ ap (λ t. events_of c.sent ++ (t ++ waiting)) (sym q) in
    (rw moved s.0, omega (arith, s.1, ap length q))

write_report-IsServed :
    (all waiting : List Text) (alive : ℕ) (stats : Option Snapshot) (now : Time) (c : Client)
    → IsServed all waiting c
    → IsServed all waiting (write_report alive stats now c)
write_report-IsServed all waiting alive stats now c s =
    let same =
      events_of-append c.sent (stats_event alive stats now ∷ [])
      ∙ append-nil_right (events_of c.sent) in
    (rw same s.0, s.1)

at_client-IsOrderly :
    (all : List Text) (id : ℕ) (change : Client → Client) (h : Hub)
    → ((c : Client) → IsServed all h.waiting c → IsServed all h.waiting (change c))
    → IsOrderly all h
    → IsOrderly all (at_client id change h)
at_client-IsOrderly all id change h step o = record {
  queued = o.queued;
  waiting_bounded = o.waiting_bounded;
  served =
      All-map (IsServed all h.waiting) (IsServed all h.waiting)
        (λ c. if c.id == id then change c else c) (λ c s. go (c.id == id) c s) h.clients o.served;
}
  where
    go :
        (b : Bool) (c : Client)
        → IsServed all h.waiting c
        → IsServed all h.waiting (if b then change c else c)
    go true c s = step c s
    go false c s = s

step-IsOrderly :
    (all : List Text) (a : Action) (h : Hub)
    → IsOrderly all h
    → IsOrderly (all ++ all_events (a ∷ [])) (stream_step a h)
unfolding stream_step broadcast_proxy broadcast_round join quit
step-IsOrderly all (broadcast none) h o = rw (append-nil_right all) o
step-IsOrderly all (broadcast (some e)) h o = broadcast-IsOrderly all e h o
step-IsOrderly all delivered h o =
    rw (append-nil_right all) (deliver_next-IsOrderly all h.waiting h refl o)
step-IsOrderly all (joined id) h o = rw (append-nil_right all) (record {
  queued = o.queued;
  waiting_bounded = o.waiting_bounded;
  served = ((o.queued, omega arith), o.served);
})
step-IsOrderly all (left id) h o = rw (append-nil_right all) (record {
  queued = o.queued;
  waiting_bounded = o.waiting_bounded;
  served = All-filter_clients (IsServed all h.waiting) (λ c. not (c.id == id)) h.clients o.served;
})
step-IsOrderly all (writes id) h o = rw (append-nil_right all) (
    at_client-IsOrderly all id write_event h
      (λ c s. write_next-IsServed all h.waiting c.events c refl s) o)
step-IsOrderly all (ticked id alive stats now) h o = rw (append-nil_right all) (
    at_client-IsOrderly all id (write_report alive stats now) h
      (write_report-IsServed all h.waiting alive stats now) o)

-- The hub after a sequence of actions.
abbrev pub stream_run : List Action → Hub → Hub
stream_run [] h = h
stream_run (a ∷ more) h = stream_run more (stream_step a h)

all_events_cons :
    (a : Action) (more : List Action)
    → all_events (a ∷ more) ≡ all_events (a ∷ []) ++ all_events more
all_events_cons (broadcast none) more = refl
all_events_cons (broadcast (some e)) more = refl
all_events_cons delivered more = refl
all_events_cons (joined id) more = refl
all_events_cons (left id) more = refl
all_events_cons (writes id) more = refl
all_events_cons (ticked id alive stats now) more = refl

run_from-IsOrderly :
    (all : List Text) (actions : List Action) (h : Hub)
    → IsOrderly all h
    → IsOrderly (all ++ all_events actions) (stream_run actions h)
run_from-IsOrderly all [] h o = rw (append-nil_right all) o
run_from-IsOrderly all (a ∷ more) h o =
    subst (λ t. IsOrderly t (stream_run (a ∷ more) h))
      (append_assoc_right all (all_events (a ∷ [])) (all_events more)
        ∙ ap (λ t. all ++ t) (sym (all_events_cons a more)))
      (run_from-IsOrderly (all ++ all_events (a ∷ [])) more (stream_step a h)
        (step-IsOrderly all a h o))

abbrev pub no_clients : Hub
no_clients = record { waiting = []; clients = [] }

-- Whatever the order in which proxies are broadcast, the loop delivers them, clients join and
-- leave, and events and counters are written: what a client has been sent, followed by what is
-- in its channel and what waits for the loop, is the sequence of the broadcast proxies
-- without some of them, in their order and none twice; at most 64 events are in a channel, and
-- at most 256 wait.
pub stream_run-IsOrderly :
    (actions : List Action) → IsOrderly (all_events actions) (stream_run actions no_clients)
stream_run-IsOrderly actions =
    run_from-IsOrderly [] actions no_clients
      (record { queued = tt; waiting_bounded = omega arith; served = tt })
