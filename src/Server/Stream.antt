-- ===== src/Server/Stream.antt =====
-- pkg/server/server.go: the events of the stream, BroadcastProxy, broadcastLoop and the clients of
-- handleStream.
mod Parts
pub mod Order
mod Tests
use go_proxy.Base.{
  ℕ, Option, none, some, List, [], ◌∷◌, ◌++◌, map, length, ltb, filter, not, ◌==◌, if◌then◌else◌,
}
use go_proxy.Base.Text.{Text, codes}
use go_proxy.Model.Proxy.{Time}
use go_proxy.Model.Stats.{Snapshot}

-- What is written to the connection of a client: an event of the channel, or the counters, as
-- the values that encoding/json writes.
pub data Sent : Type 0 where
  proxy_event : Text → Sent
  stats_event : ℕ → Option Snapshot → Time → Sent

-- A client, by a number, with the events in its channel of 64, and what has been written to its
-- connection. A client that has left is no longer in the map.
pub record Client : Type 0 where
  pub id : ℕ
  pub events : List Text
  pub sent : List Sent

-- `sseBroadcast` and `sseClients`
pub record Hub : Type 0 where
  pub waiting : List Text
  pub clients : List Client

-- `BroadcastProxy`: the event, or `none` where json.Marshal fails. A full channel drops it.
unfoldable pub broadcast_proxy : Option Text → Hub → Hub
broadcast_proxy none h = h
broadcast_proxy (some event) h =
    if ltb (length h.waiting) 256 then record h { waiting = h.waiting ++ event ∷ [] } else h

-- The select of `broadcastLoop` for a client: its channel takes the event unless it is full.
unfoldable pub deliver : Text → Client → Client
deliver event c =
    if ltb (length c.events) 64 then record c { events = c.events ++ event ∷ [] } else c

abbrev pub deliver_next : List Text → Hub → Hub
deliver_next [] h = h
deliver_next (event ∷ rest) h = record { waiting = rest; clients = map (deliver event) h.clients }

-- A round of `broadcastLoop`; without an event it waits.
unfoldable pub broadcast_round : Hub → Hub
unfolding deliver
broadcast_round h = deliver_next h.waiting h

-- The start and the end of `handleStream` for a client.
unfoldable pub join : ℕ → Hub → Hub
join id h = record h { clients = record { id = id; events = []; sent = [] } ∷ h.clients }

unfoldable pub quit : ℕ → Hub → Hub
quit id h = record h { clients = filter (λ c. not (c.id == id)) h.clients }

-- `fmt.Fprintf(w, "data: %s\n\n", data)`
abbrev pub event_text : Text → Text
event_text data_text = codes "data: " ++ (data_text ++ codes "\n\n")

-- The select of the loop of `handleStream`: an event of the channel is written; with an empty
-- channel this case is not ready.
abbrev pub write_next : List Text → Client → Client
write_next [] c = c
write_next (e ∷ rest) c = record c { events = rest; sent = c.sent ++ proxy_event e ∷ [] }

abbrev pub write_event : Client → Client
write_event c = write_next c.events c

-- The counters are written at a tick.
abbrev pub write_report : ℕ → Option Snapshot → Time → Client → Client
write_report alive stats now c = record c { sent = c.sent ++ stats_event alive stats now ∷ [] }

-- What the goroutines of the server do with the channels, one at a time.
pub data Action : Type 0 where
  broadcast : Option Text → Action
  delivered : Action
  joined left writes : ℕ → Action
  ticked : ℕ → ℕ → Option Snapshot → Time → Action

-- A change of the client with this number.
abbrev pub at_client : ℕ → (Client → Client) → Hub → Hub
at_client id change h = record h {
  clients = map (λ c. if c.id == id then change c else c) h.clients;
}

unfoldable pub stream_step : Action → Hub → Hub
unfolding broadcast_proxy broadcast_round join quit
stream_step (broadcast e) h = broadcast_proxy e h
stream_step delivered h = broadcast_round h
stream_step (joined id) h = join id h
stream_step (left id) h = quit id h
stream_step (writes id) h = at_client id write_event h
stream_step (ticked id alive stats now) h = at_client id (write_report alive stats now) h
