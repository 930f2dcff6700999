-- ===== src/GeoIp/Batch.antt =====
-- pkg/geoip/geoip.go, fetchBatch and the flush of batchWorker.
use go_proxy.Base.{
  Bool, not, ◌&&◌, ◌||◌, Option, none, some, List, [], ◌∷◌, ◌++◌, leb, length, if◌then◌else◌,
}
use go_proxy.Base.Text.{Text, codes, is_empty, text_eq}
use go_proxy.Base.Assoc.{Map, lookup, insert}
use go_proxy.Checker.Defs.{Location}
use go_proxy.GeoIp.Defs.{Caches, store_exact, store_subnet, fallback_provider}

-- An item of the answer of ip-api.com.
pub record ApiItem : Type 0 where
  pub status : Text
  pub query : Text
  pub location : Location

-- The loop of `fetchBatch` over the decoded items.
unfoldable pub add_items : List ApiItem → Map Location → Map Location
unfolding insert text_eq
add_items [] m = m
add_items (i ∷ is) m = add_items is (
    if text_eq i.status (codes "success") && not (is_empty i.location.country_code)
    then insert i.query i.location m
    else m)

-- `fetchBatch`: `none` is any error on the way to the items.
abbrev pub fetch_batch : Option (List ApiItem) → Map Location
unfolding add_items
fetch_batch none = []
fetch_batch (some items) = add_items items []

unfoldable pub has_no_code : Location → Bool
unfolding text_eq
has_no_code info = is_empty info.country_code || text_eq info.country_code (codes "XX")

-- A reply to the request for an address.
abbrev pub Reply : Type 0
Reply = Text × Location

-- A request of a batch: its address, and what ipwho.is answers should it be asked for this
-- request; two requests for one address may get different answers.
abbrev pub Ask : Type 0
Ask = Text × Option Location

-- The first loop of `flush`: the replies from the cache, and the requests to fetch.
unfoldable pub answer_cached : Caches → List Ask → List Reply × List Ask
unfolding lookup
answer_cached c [] = ([], [])
answer_cached c ((ip, backup) ∷ asks) =
    let (replies, to_fetch) = answer_cached c asks in
    elim (lookup ip c.exact) [
      | none ↦ (replies, (ip, backup) ∷ to_fetch)
      | some info ↦ ((ip, info) ∷ replies, to_fetch)
    ]

-- The information for an address that was fetched, or the fallback's.
abbrev pub fetched_or : Option Location → Option Location → Text → Caches → Location × Caches
fetched_or none backup ip c = fallback_provider backup ip c
fetched_or (some info) backup ip c =
    if has_no_code info then fallback_provider backup ip c else (info, c)

abbrev pub keep_reply : Text → Location × Caches → Caches
keep_reply ip (info, c) =
    if text_eq info.country_code (codes "XX")
    then store_exact ip info c
    else store_subnet ip info (store_exact ip info c)

-- A round of the second loop of `flush`.
unfoldable pub answer_fetched : Map Location → Ask → Caches → Reply × Caches
unfolding has_no_code fallback_provider store_exact store_subnet lookup text_eq
answer_fetched results (ip, backup) c =
    let answer = fetched_or (lookup ip results) backup ip c in
    ((ip, answer.0), keep_reply ip answer)

unfoldable pub answer_all : Map Location → List Ask → Caches → List Reply × Caches
unfolding answer_fetched
answer_all results [] c = ([], c)
answer_all results (ask ∷ asks) c =
    let (reply, c1) = answer_fetched results ask c in
    let (replies, c2) = answer_all results asks c1 in (reply ∷ replies, c2)

abbrev pub asked : List Ask → List Text
asked [] = []
asked ((ip, backup) ∷ asks) = ip ∷ asked asks

-- `flush` for the requests of a batch, where `fetch` is the request to ip-api.com: the replies
-- in the order in which they are sent, and the caches.
unfoldable pub flush_requests :
    (List Text → Option (List ApiItem)) → List Ask → Caches → List Reply × Caches
unfolding answer_cached answer_all
flush_requests fetch asks c =
    let (cached, to_fetch) = answer_cached c asks in
    let (fetched, c1) = answer_all (fetch_batch (fetch (asked to_fetch))) to_fetch c in
    (cached ++ fetched, c1)

-- The loop of `batchWorker`: a request is added, and a batch of 100 is flushed.
pub record Worker : Type 0 where
  pub batch : List Ask
  pub caches : Caches

unfoldable pub flush_worker : (List Text → Option (List ApiItem)) → Worker → List Reply × Worker
unfolding flush_requests
flush_worker fetch w =
    let (replies, c) = flush_requests fetch w.batch w.caches in
    (replies, record { batch = []; caches = c })

unfoldable pub take_request :
    (List Text → Option (List ApiItem)) → Ask → Worker → List Reply × Worker
unfolding flush_worker
take_request fetch ask w =
    let grown = record w { batch = w.batch ++ ask ∷ [] } in
    if leb 100 (length grown.batch) then flush_worker fetch grown else ([], grown)
