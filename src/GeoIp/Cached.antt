-- ===== src/GeoIp/Cached.antt =====
-- pkg/geoip/geoip.go, Lookup: what it leaves in the caches, and what a later Lookup returns.
use go_proxy.Base.{
  ◌≡◌, refl, ap, ◌∙◌, ◌⊎◌, inl, inr, Bool, true, false, Option, none, some, if◌then◌else◌,
}
use go_proxy.Base.Text.{Text, is_empty, text_eq}
use go_proxy.Base.Assoc.{lookup, insert, lookup-insert, lookup-insert_self}
use go_proxy.Net.Ip.{Ip, parse_ip}
use go_proxy.Checker.Defs.{Location}
use go_proxy.GeoIp.Defs.{
  Caches, Sources, unknown_place, classify_special_ip, match_embedded_cidr, get_subnet24,
  store_exact, store_subnet, store_both, from_database, from_subnet, fallback_with,
  fallback_provider, resolve, known_or, lookup_parsed, lookup_location,
}

store_subnet-exact :
    (ip : Text) (info : Location) (c : Caches) → (store_subnet ip info c).exact ≡ c.exact
unfolding store_subnet
store_subnet-exact ip info c = go (is_empty (get_subnet24 ip))
  where
    go :
        (b : Bool)
        → (if b then c else record c { subnets = insert (get_subnet24 ip) info c.subnets }).exact
          ≡ c.exact
    go true = refl
    go false = refl

-- The cache of exact addresses holds `info` for `ip`, and for the others what `c` holds.
pub record Holds (ip : Text) (info : Location) (c d : Caches) : Type 0 where
  pub held : lookup ip d.exact ≡ some info
  pub others : (j : Text) → text_eq ip j ≡ false → lookup j d.exact ≡ lookup j c.exact

pub store_exact-Holds :
    (ip : Text) (info : Location) (c : Caches) → Holds ip info c (store_exact ip info c)
unfolding store_exact
store_exact-Holds ip info c = record {
  held = lookup-insert_self ip info c.exact;
  others = λ j n. lookup-insert ip j info c.exact ∙ rw n refl;
}

pub store_both-Holds :
    (ip : Text) (info : Location) (c : Caches) → Holds ip info c (store_both ip info c)
store_both-Holds ip info c =
    let same = store_subnet-exact ip info (store_exact ip info c) in
    let h = store_exact-Holds ip info c in
    record {
      held = ap (lookup ip) same ∙ h.held;
      others = λ j n. ap (lookup j) same ∙ h.others j n;
    }

-- What a Lookup without the worker did: nothing, for an address of its own kind or since no tier
-- knows it, or it holds its answer.
data Answered (ip : Text) (c : Caches) : Location × Caches → Type 0 where
  unknown : Answered ip c (unknown_place, c)
  kept : (info : Location) (d : Caches) → Holds ip info c d → Answered ip c (info, d)

fallback_with-Answered :
    (o : Option Location) (ip : Text) (c : Caches) → Answered ip c (fallback_with o ip c)
fallback_with-Answered none ip c = unknown
fallback_with-Answered (some info) ip c =
    kept info (store_both ip info c) (store_both-Holds ip info c)

resolve-Answered :
    (src : Sources) (database subnet embedded : Option Location) (ip : Text) (c : Caches)
    → Answered ip c (resolve src none database subnet embedded ip c)
unfolding fallback_provider
resolve-Answered src (some info) subnet embedded ip c = kept info _ (store_both-Holds ip info c)
resolve-Answered src none (some info) embedded ip c = kept info _ (store_exact-Holds ip info c)
resolve-Answered src none none (some info) ip c = kept info _ (store_both-Holds ip info c)
resolve-Answered src none none none ip c = fallback_with-Answered (src.ipwho ip) ip c

cached-Answered :
    (o : Option Location) (src : Sources) (database subnet embedded : Option Location) (ip : Text)
    (c : Caches)
    → lookup ip c.exact ≡ o
    → Answered ip c (known_or o (resolve src none database subnet embedded ip) c)
cached-Answered none src database subnet embedded ip c e =
    resolve-Answered src database subnet embedded ip c
cached-Answered (some info) src database subnet embedded ip c e =
    kept info c (record { held = e; others = λ j n. refl })

-- What a Lookup leaves behind, with the caches `e` at a later one: unless no source knows the
-- address, the later one returns the same and changes nothing, whatever the sources and the worker
-- say then.
pub record IsStable (ip : Text) (c : Caches) (info : Location) (d e : Caches) : Type 0 where
  pub again :
      ((info ≡ unknown_place) × (d ≡ c))
      ⊎ ((src : Sources) (reply : Option (Location × Caches))
          → lookup_location src true reply ip e ≡ (info, e))
  pub others : (j : Text) → text_eq ip j ≡ false → lookup j d.exact ≡ lookup j c.exact

known_again :
    (src : Sources) (reply : Option (Location × Caches)) (special : Option Location) (ip : Text)
    (a : Ip) (info : Location) (d : Caches)
    → special ≡ none
    → lookup ip d.exact ≡ some info
    → known_or special
        (λ c1.
          known_or
            (lookup ip c1.exact)
            (resolve src reply
              (from_database src.database a)
              (from_subnet ip c1)
              (match_embedded_cidr a)
              ip)
            c1)
        d
      ≡ (info, d)
known_again src reply none ip a info d n h =
    ap
      (λ o.
        known_or o
          (resolve src reply (from_database src.database a) (from_subnet ip d)
            (match_embedded_cidr a) ip)
          d)
      h
known_again src reply (some i) ip a info d n h = cc

module _ (src : Sources) (ip : Text) (c e : Caches) where
  later_tiers : Sources → Option (Location × Caches) → Ip → Caches → Location × Caches
  later_tiers s reply a c1 =
      known_or (lookup ip c1.exact)
        (resolve s reply (from_database s.database a) (from_subnet ip c1) (match_embedded_cidr a)
          ip)
        c1

  lookup_opens :
      (s : Sources) (reply : Option (Location × Caches)) (a : Ip) (d : Caches)
      → is_empty ip ≡ false
      → parse_ip ip ≡ some a
      → lookup_location s true reply ip d
        ≡ known_or (classify_special_ip a) (later_tiers s reply a) d
  unfolding lookup_location lookup_parsed later_tiers
  lookup_opens s reply a d e p = rw (e, p) refl

  answered-IsStable :
      (a : Ip) (r : Location × Caches)
      → is_empty ip ≡ false
      → parse_ip ip ≡ some a
      → classify_special_ip a ≡ none
      → lookup ip e.exact ≡ lookup ip r.1.exact
      → Answered ip c r
      → IsStable ip c r.0 r.1 e
  unfolding later_tiers
  answered-IsStable a _ g p n l unknown = record { again = inl (refl, refl); others = λ j x. refl }
  answered-IsStable a _ g p n l (kept info d h) = record {
    again = inr (λ s reply.
        lookup_opens s reply a e g p
        ∙ known_again s reply (classify_special_ip a) ip a info e n (l ∙ h.held));
    others = h.others;
  }

  special-IsStable :
      (a : Ip) (special : Option Location)
      → is_empty ip ≡ false
      → parse_ip ip ≡ some a
      → classify_special_ip a ≡ special
      → lookup ip e.exact ≡ lookup ip (known_or special (later_tiers src none a) c).1.exact
      → IsStable ip c
          (known_or special (later_tiers src none a) c).0
          (known_or special (later_tiers src none a) c).1
          e
  unfolding later_tiers
  special-IsStable a (some info) g p n l = record {
    again = inr (λ s reply.
        lookup_opens s reply a e g p ∙ ap (λ o. known_or o (later_tiers s reply a) e) n);
    others = λ j x. refl;
  }
  special-IsStable a none g p n l = answered-IsStable a _ g p n l (
      cached-Answered (lookup ip c.exact) src (from_database src.database a) (from_subnet ip c)
        (match_embedded_cidr a) ip c refl)

  parsed-IsStable :
      (o : Option Ip)
      → is_empty ip ≡ false
      → parse_ip ip ≡ o
      → lookup ip e.exact ≡ lookup ip (lookup_parsed src none ip o c).1.exact
      → IsStable ip c (lookup_parsed src none ip o c).0 (lookup_parsed src none ip o c).1 e
  unfolding lookup_location lookup_parsed later_tiers
  parsed-IsStable none g p l = record { again = inr (λ s r. rw (g, p) refl); others = λ j n. refl }
  parsed-IsStable (some a) g p l = special-IsStable a (classify_special_ip a) g p refl l

  -- After a Lookup in an enabled resolver, which the batch worker did not answer in time, the
  -- cache for other addresses is as before. Take any caches later on, changed by other Lookups or
  -- by the worker, in which the entry of the address is the one that this Lookup left: the
  -- worker has not yet stored an answer of its own for the late request. If the answer of the
  -- first Lookup is not unknown, then a Lookup of the address returns it again, whatever the
  -- sources and the worker answer, and leaves the caches as they are.
  pub lookup_location-IsStable :
      lookup ip e.exact ≡ lookup ip (lookup_location src true none ip c).1.exact
      → IsStable ip c
          (lookup_location src true none ip c).0
          (lookup_location src true none ip c).1
          e
  unfolding lookup_location
  lookup_location-IsStable l = go (is_empty ip) refl l
    where
      opened : Bool → Location × Caches
      opened b = if b then (unknown_place, c) else lookup_parsed src none ip (parse_ip ip) c

      go :
          (b : Bool)
          → is_empty ip ≡ b
          → lookup ip e.exact ≡ lookup ip (opened b).1.exact
          → IsStable ip c (opened b).0 (opened b).1 e
      go true g l = record { again = inl (refl, refl); others = λ j n. refl }
      go false g l = parsed-IsStable (parse_ip ip) g refl l
