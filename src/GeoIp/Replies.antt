-- ===== src/GeoIp/Replies.antt =====
-- pkg/geoip/geoip.go, the flush of batchWorker: which requests it answers, and with what.
use mathlib.Core.List.{Perm, perm_middle}
use mathlib.Core.Path.{subst}
use mathlib.Core.List.Perm
use go_proxy.Base.{
  ◌≡◌, refl, sym, ap, ◌∙◌, ◌⊎◌, inl, inr, ◌||◌, or_false, Bool, true, false, Option, none, some,
  List, [], ◌∷◌, ◌++◌, map, if◌then◌else◌, All, Bool-cases,
}
use go_proxy.Base.Text.{Text, codes, text_eq}
use go_proxy.Base.Assoc.{Map, lookup, lookup-congr}
use go_proxy.Checker.Defs.{Location}
use go_proxy.GeoIp.Defs.{
  Caches, unknown_place, store_exact, store_subnet, fallback_with, fallback_provider,
}
use go_proxy.GeoIp.Batch.{
  ApiItem, has_no_code, fetch_batch, Reply, Ask, asked, answer_cached, fetched_or, keep_reply,
  answer_fetched, answer_all, flush_requests,
}
use go_proxy.GeoIp.Cached.{Holds, store_exact-Holds, store_both-Holds}

abbrev pub asker : Reply → Text
asker r = r.0

-- The cache has the address of the reply, with its location.
abbrev pub AgreesWith : Caches → Reply → Type 0
AgreesWith c r = lookup r.0 c.exact ≡ some r.1

fallback_info : Option Location → Location
fallback_info none = unknown_place
fallback_info (some info) = info

reply_info : Option Location → Option Location → Location
reply_info none backup = fallback_info backup
reply_info (some info) backup = if has_no_code info then fallback_info backup else info

keep_reply-Holds : (ip : Text) (a : Location × Caches) → Holds ip a.0 a.1 (keep_reply ip a)
keep_reply-Holds ip (info, c) = go (text_eq info.country_code (codes "XX"))
  where
    go :
        (b : Bool)
        → Holds ip info c
            (if b then store_exact ip info c else store_subnet ip info (store_exact ip info c))
    go true = store_exact-Holds ip info c
    go false = store_both-Holds ip info c

-- What a lookup of the fallback leaves.
record Finds (ip : Text) (info : Location) (c : Caches) (a : Location × Caches) : Type 0 where
  found : a.0 ≡ info
  others : (j : Text) → text_eq ip j ≡ false → lookup j a.1.exact ≡ lookup j c.exact

fallback_with-Finds :
    (o : Option Location) (ip : Text) (c : Caches)
    → Finds ip (fallback_info o) c (fallback_with o ip c)
unfolding fallback_info
fallback_with-Finds none ip c = record { found = refl; others = λ j n. refl }
fallback_with-Finds (some info) ip c =
    let h = store_both-Holds ip info c in record { found = refl; others = h.others }

fetched_or-Finds :
    (o backup : Option Location) (ip : Text) (c : Caches)
    → Finds ip (reply_info o backup) c (fetched_or o backup ip c)
unfolding reply_info fallback_provider
fetched_or-Finds none backup ip c = fallback_with-Finds backup ip c
fetched_or-Finds (some info) backup ip c = go (has_no_code info)
  where
    go :
        (b : Bool)
        → Finds ip
            (if b then fallback_info backup else info)
            c
            (if b then fallback_with backup ip c else (info, c))
    go true = fallback_with-Finds backup ip c
    go false = record { found = refl; others = λ j n. refl }

-- The address is one of these.
abbrev pub among : Text → List Text → Bool
among j [] = false
among j (ip ∷ ips) = text_eq ip j || among j ips

-- The cache agrees with the replies that no later reply for the same address follows.
abbrev pub LastAgree : Caches → List Reply → Type 0
LastAgree c [] = Unit
LastAgree c (r ∷ rs) = ((among r.0 (map asker rs) ≡ true) ⊎ AgreesWith c r) × LastAgree c rs

module _ (results : Map Location) where
  info_for : Ask → Location
  info_for (ip, backup) = reply_info (lookup ip results) backup

  answer_fetched-Holds :
      (ip : Text) (backup : Option Location) (c : Caches)
      → ((answer_fetched results (ip, backup) c).0 ≡ (ip, info_for (ip, backup)))
        × Holds ip (info_for (ip, backup)) c (answer_fetched results (ip, backup) c).1
  unfolding answer_fetched info_for
  answer_fetched-Holds ip backup c =
      let a = fetched_or (lookup ip results) backup ip c in
      let f = fetched_or-Finds (lookup ip results) backup ip c in
      let k = keep_reply-Holds ip a in
      (
        ap (λ i. (ip, i)) f.found,
        record { held = k.held ∙ ap some f.found; others = λ j n. k.others j n ∙ f.others j n },
      )

  -- An address that is not asked for keeps its entry.
  untouched :
      (asks : List Ask) (c : Caches) (j : Text)
      → among j (asked asks) ≡ false
      → lookup j (answer_all results asks c).1.exact ≡ lookup j c.exact
  unfolding answer_all
  untouched [] c j h = refl
  untouched ((ip, backup) ∷ asks) c j h =
      let step = (answer_fetched-Holds ip backup c).1 in
      untouched asks (answer_fetched results (ip, backup) c).1 j (or_false (text_eq ip j) _ h).1
      ∙ step.others j (or_false (text_eq ip j) _ h).0

  answer_all-asker :
      (asks : List Ask) (c : Caches) → map asker (answer_all results asks c).0 ≡ asked asks
  unfolding answer_all
  answer_all-asker [] c = refl
  answer_all-asker ((ip, backup) ∷ asks) c =
      let d = (answer_fetched results (ip, backup) c).1 in
      ap (λ (r : Reply). r.0 ∷ map asker (answer_all results asks d).0)
        (answer_fetched-Holds ip backup c).0
      ∙ ap (λ l. ip ∷ l) (answer_all-asker asks d)

  answer_all-LastAgree :
      (asks : List Ask) (c : Caches)
      → LastAgree (answer_all results asks c).1 (answer_all results asks c).0
  unfolding answer_all
  answer_all-LastAgree [] c = tt
  answer_all-LastAgree ((ip, backup) ∷ asks) c =
      let d = (answer_fetched results (ip, backup) c).1 in
      let (same, step) = answer_fetched-Holds ip backup c in
      (
        subst
            (λ (r : Reply).
              (among r.0 (map asker (answer_all results asks d).0) ≡ true)
              ⊎ AgreesWith (answer_all results asks d).1 r)
            (sym same)
            (elim (Bool-cases (among ip (asked asks))) [
              | inl e ↦ inl (ap (among ip) (answer_all-asker asks d) ∙ e)
              | inr e ↦ inr (untouched asks d ip e ∙ step.held)
            ]),
        answer_all-LastAgree asks d,
      )

-- What the first loop finds.
record Splits (c : Caches) (asks : List Ask) (r : List Reply × List Ask) : Type 0 where
  every : Perm (map asker r.0 ++ asked r.1) (asked asks)
  cached : All (AgreesWith c) r.0
  missing : All (λ ip. lookup ip c.exact ≡ none) (asked r.1)

answer_cached-Splits : (c : Caches) (asks : List Ask) → Splits c asks (answer_cached c asks)
unfolding answer_cached
answer_cached-Splits c [] = record { every = Perm.refl []; cached = tt; missing = tt }
answer_cached-Splits c ((ip, backup) ∷ asks) =
    go (lookup ip c.exact) refl (answer_cached-Splits c asks)
  where
    go :
        (o : Option Location)
        → lookup ip c.exact ≡ o
        → Splits c asks (answer_cached c asks)
        → Splits c ((ip, backup) ∷ asks) (elim o [
          | none ↦ ((answer_cached c asks).0, (ip, backup) ∷ (answer_cached c asks).1)
          | some info ↦ ((ip, info) ∷ (answer_cached c asks).0, (answer_cached c asks).1)
        ])
    go none e s = record {
      every =
          Perm.trans
            (perm_middle (map asker (answer_cached c asks).0) (asked (answer_cached c asks).1))
            (Perm.cons ip s.every);
      cached = s.cached;
      missing = (e, s.missing);
    }
    go (some info) e s = record {
      every = Perm.cons ip s.every;
      cached = (e, s.cached);
      missing = s.missing;
    }

-- A request that is not in the cache is for another address than one that is.
apart :
    (c : Caches) (j : Text) (info : Location) (ips : List Text)
    → lookup j c.exact ≡ some info
    → All (λ ip. lookup ip c.exact ≡ none) ips
    → among j ips ≡ false
apart c j info [] h m = refl
apart c j info (ip ∷ ips) h m =
    let other : text_eq ip j ≡ false = elim (Bool-cases (text_eq ip j)) [
      | inl e ↦ cc (lookup-congr ip j c.exact e, h, m.0)
      | inr e ↦ e
    ] in
    rw other (apart c j info ips h m.1)

map-asker-append : (xs ys : List Reply) → map asker (xs ++ ys) ≡ map asker xs ++ map asker ys
map-asker-append [] ys = refl
map-asker-append (x ∷ xs) ys = ap (λ l. x.0 ∷ l) (map-asker-append xs ys)

LastAgree-append :
    (c : Caches) (xs ys : List Reply)
    → All (AgreesWith c) xs
    → LastAgree c ys
    → LastAgree c (xs ++ ys)
LastAgree-append c [] ys h k = k
LastAgree-append c (x ∷ xs) ys h k = (inr h.0, LastAgree-append c xs ys h.1 k)

-- The flush of a batch.
pub record IsFlush (asks : List Ask) (c : Caches) (r : List Reply × Caches) : Type 0 where
  pub answers_each : Perm (map asker r.0) (asked asks)
  pub agrees : LastAgree r.1 r.0
  pub keeps :
      (j : Text) (info : Location) → lookup j c.exact ≡ some info → lookup j r.1.exact ≡ some info

module _ (results : Map Location) (c : Caches) (asks : List Ask)
    (missing : All (λ ip. lookup ip c.exact ≡ none) (asked asks)) where
  kept_entry :
      (j : Text) (info : Location)
      → lookup j c.exact ≡ some info
      → lookup j (answer_all results asks c).1.exact ≡ some info
  kept_entry j info h = untouched results asks c j (apart c j info (asked asks) h missing) ∙ h

  All-kept :
      (rs : List Reply) → All (AgreesWith c) rs → All (AgreesWith (answer_all results asks c).1) rs
  All-kept [] h = tt
  All-kept (r ∷ rs) h = (kept_entry r.0 r.1 h.0, All-kept rs h.1)

-- The flush of a batch answers every request exactly once, those for one address as often as it
-- was asked for; the last answer for an address is what the cache of addresses then holds for it;
-- and no entry that the cache had is changed. This holds whatever ip-api.com answers, and
-- whatever ipwho.is answers to each of the requests.
pub flush_requests-IsFlush :
    (fetch : List Text → Option (List ApiItem)) (asks : List Ask) (c : Caches)
    → IsFlush asks c (flush_requests fetch asks c)
unfolding flush_requests
flush_requests-IsFlush fetch asks c =
    let s = answer_cached-Splits c asks in
    let cached = (answer_cached c asks).0 in
    let to_fetch = (answer_cached c asks).1 in
    let results = fetch_batch (fetch (asked to_fetch)) in
    let fetched = (answer_all results to_fetch c).0 in
    record {
      answers_each =
          rw (map-asker-append cached fetched, answer_all-asker results to_fetch c) s.every;
      agrees =
          LastAgree-append (answer_all results to_fetch c).1 cached fetched
            (All-kept results c to_fetch s.missing cached s.cached)
            (answer_all-LastAgree results to_fetch c);
      keeps = λ j info h. kept_entry results c to_fetch s.missing j info h;
    }
