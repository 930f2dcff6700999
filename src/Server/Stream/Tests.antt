-- ===== src/Server/Stream/Tests.antt =====
-- Tests of the stream, and its theorem at a concrete input.
use go_proxy.Base.{◌≡◌, refl, none, some, List, [], ◌∷◌, map}
use go_proxy.Base.Text.{codes}
use go_proxy.Server.Stream.{
  Action, broadcast, delivered, joined, left, writes, ticked, stream_step, broadcast_proxy,
  broadcast_round, deliver, join, quit,
}
use go_proxy.Server.Stream.Order.{
  IsOrderly, events_of, stream_run, no_clients, stream_run-IsOrderly,
}

-- The second client joins when the first proxy has been delivered.
abbrev session : List Action
session =
    joined 1
    ∷ broadcast (some (codes "a"))
    ∷ delivered
    ∷ joined 2
    ∷ broadcast none
    ∷ broadcast (some (codes "b"))
    ∷ ticked 1 5 none 7
    ∷ writes 1
    ∷ delivered
    ∷ writes 1
    ∷ writes 2
    ∷ left 1
    ∷ []

second_client :
    map (λ c. events_of c.sent) (stream_run session no_clients).clients ≡ (codes "b" ∷ []) ∷ []
unfolding stream_step broadcast_proxy broadcast_round deliver join quit
second_client = refl

stream_run-IsOrderly_example :
    IsOrderly (codes "a" ∷ codes "b" ∷ []) (stream_run session no_clients)
stream_run-IsOrderly_example = stream_run-IsOrderly session
