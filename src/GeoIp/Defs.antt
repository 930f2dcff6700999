-- ===== src/GeoIp/Defs.antt =====
-- pkg/geoip/geoip.go: the tiers of Lookup, with the two caches.
use go_proxy.Base.{
  ℕ, ◌/◌, Bool, false, not, ◌&&◌, ◌||◌, Option, none, some, List, [], ◌∷◌, ◌++◌, leb, ◌==◌,
  if◌then◌else◌,
}
use go_proxy.Base.Text.{Text, codes, is_empty, split}
use go_proxy.Base.Assoc.{Map, lookup, insert}
use go_proxy.Net.Ip.{
  Ip, v4, v6, parse_ip, is_loopback, is_private, is_link_local_unicast, is_link_local_multicast,
}
use go_proxy.Checker.Defs.{Location}

abbrev pub place : Text → Text → Text → Location
place country code city = record {
  country = country;
  country_code = code;
  city = city;
  asn = [];
  org = [];
}

abbrev pub unknown_place : Location
unknown_place = place (codes "Unknown") (codes "XX") []

-- `sync.Map`s of exact addresses and of /24 networks.
pub record Caches : Type 0 where
  pub exact : Map Location
  pub subnets : Map Location

-- What `reader.Country(ip)` of the offline database gives: the ISO code and the English name.
pub record CountryRecord : Type 0 where
  pub iso_code : Text
  pub english_name : Text

-- What a Lookup asks of the world: the offline database (`none` as the reader, or as an
-- error of the query), and the answer of ipwho.is with success and a country code.
pub record Sources : Type 0 where
  pub database : Option (Ip → Option CountryRecord)
  pub ipwho : Text → Option Location

-- `classifySpecialIP`
unfoldable pub classify_special_ip : Ip → Option Location
unfolding is_loopback is_private is_link_local_unicast is_link_local_multicast
classify_special_ip ip =
    if is_loopback ip
    then some (place (codes "Loopback") (codes "LO") [])
    else if is_private ip
    then some (place (codes "Private") (codes "PR") [])
    else if is_link_local_unicast ip || is_link_local_multicast ip
    then some (place (codes "Link-Local") (codes "LL") [])
    else if is_cgnat ip
    then some (place (codes "CGNAT") (codes "CG") [])
    else none
  where
    is_cgnat : Ip → Bool
    is_cgnat (v4 a b c d) = a == 100 && b / 4 == 16
    is_cgnat (v6 bytes) = false

abbrev within : ℕ → ℕ → ℕ → Bool
within low high b = leb low b && leb b high

-- The condition of `matchEmbeddedCIDR`, on the first two bytes.
unfoldable pub is_embedded : ℕ → ℕ → Bool
is_embedded a b =
    (a == 14 && within 160 255 b)
    || (a == 27 && within 64 95 b)
    || (a == 42 && within 112 119 b)
    || (a == 58 && within 186 187 b)
    || (a == 113 && within 160 191 b)
    || (a == 115 && within 72 79 b)
    || (a == 116 && within 96 111 b)
    || (a == 117 && leb b 7)
    || (a == 118 && within 68 71 b)
    || (a == 123 && within 16 31 b)
    || (a == 125 && within 234 255 b)
    || (a == 171 && within 224 255 b)
    || (a == 222 && within 252 255 b)

-- `matchEmbeddedCIDR`
unfoldable pub match_embedded_cidr : Ip → Option Location
unfolding is_embedded
match_embedded_cidr (v4 a b c d) =
    if is_embedded a b then some (place (codes "Vietnam") (codes "VN") (codes "Vietnam")) else none
match_embedded_cidr (v6 bytes) = none

abbrev three_of_four : List Text → Text
three_of_four (a ∷ b ∷ c ∷ d ∷ []) = a ++ (b'.' ∷ (b ++ (b'.' ∷ c)))
three_of_four _ = []

-- `getSubnet24`
unfoldable pub get_subnet24 : Text → Text
unfolding split
get_subnet24 ip = three_of_four (split b'.' ip)

unfoldable pub store_exact : Text → Location → Caches → Caches
unfolding insert
store_exact ip info c = record c { exact = insert ip info c.exact }

-- `if subnetKey != "" { r.subnetCache.Store(subnetKey, info) }`
unfoldable pub store_subnet : Text → Location → Caches → Caches
unfolding get_subnet24 insert
store_subnet ip info c =
    if is_empty (get_subnet24 ip)
    then c
    else record c { subnets = insert (get_subnet24 ip) info c.subnets }

abbrev pub store_both : Text → Location → Caches → Caches
store_both ip info c = store_subnet ip info (store_exact ip info c)

abbrev pub named_place : CountryRecord → Option Location
named_place r =
    if is_empty r.iso_code
    then none
    else some (place (if is_empty r.english_name then r.iso_code else r.english_name) r.iso_code [])

abbrev pub from_record : Option CountryRecord → Option Location
from_record none = none
from_record (some r) = named_place r

-- Tier 1: the offline database.
abbrev pub from_database : Option (Ip → Option CountryRecord) → Ip → Option Location
from_database none ip = none
from_database (some country) ip = from_record (country ip)

-- Tier 2b: the cache of networks.
unfoldable pub from_subnet : Text → Caches → Option Location
unfolding get_subnet24 lookup
from_subnet ip c = if is_empty (get_subnet24 ip) then none else lookup (get_subnet24 ip) c.subnets

-- `fallbackProvider`; `answer` is that of ipwho.is to the request of this call.
abbrev pub fallback_with : Option Location → Text → Caches → Location × Caches
fallback_with none ip c = (unknown_place, c)
fallback_with (some info) ip c = (info, store_both ip info c)

unfoldable pub fallback_provider : Option Location → Text → Caches → Location × Caches
unfolding store_exact store_subnet
fallback_provider answer ip c = fallback_with answer ip c

-- The end of tier 4: the worker answers in time (it has then changed the caches itself), or the
-- fallback is asked.
abbrev pub ask_worker : Sources → Option (Location × Caches) → Text → Caches → Location × Caches
ask_worker src (some answer) ip c = answer
ask_worker src none ip c = fallback_provider (src.ipwho ip) ip c

-- The tiers from the offline database on.
abbrev pub resolve :
    Sources
    → Option (Location × Caches)
    → Option Location
    → Option Location
    → Option Location
    → Text
    → Caches
    → Location × Caches
resolve src reply (some info) subnet embedded ip c = (info, store_both ip info c)
resolve src reply none (some info) embedded ip c = (info, store_exact ip info c)
resolve src reply none none (some info) ip c = (info, store_both ip info c)
resolve src reply none none none ip c = ask_worker src reply ip c

abbrev pub known_or : Option Location → (Caches → Location × Caches) → Caches → Location × Caches
known_or (some info) more c = (info, c)
known_or none more c = more c

-- `Lookup` of an address that parses, or not.
unfoldable pub lookup_parsed :
    Sources → Option (Location × Caches) → Text → Option Ip → Caches → Location × Caches
unfolding classify_special_ip store_exact store_subnet match_embedded_cidr from_subnet
    fallback_provider lookup
lookup_parsed src reply ip none c = (place (codes "Invalid") (codes "XX") [], c)
lookup_parsed src reply ip (some a) c =
    known_or (classify_special_ip a)
      (λ c1.
        known_or (lookup ip c1.exact)
          (resolve src reply (from_database src.database a) (from_subnet ip c1)
            (match_embedded_cidr a) ip)
          c1)
      c

-- `Lookup`; `reply` is what the batch worker answers in time, with the caches as they are then,
-- and `none` if it does not or if its queue is full.
unfoldable pub lookup_location :
    Sources → Bool → Option (Location × Caches) → Text → Caches → Location × Caches
unfolding parse_ip lookup_parsed
lookup_location src enabled reply ip c =
    if not enabled || is_empty ip
    then (unknown_place, c)
    else lookup_parsed src reply ip (parse_ip ip) c
