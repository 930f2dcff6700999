-- ===== src/GeoIp/Tests.antt =====
-- Tests of pkg/geoip, and its theorems at concrete inputs.
use go_proxy.Base.{
  ◌≡◌, ◌∙◌, refl, true, false, ◌++◌, if◌then◌else◌, Option, none, some, List, [], ◌∷◌,
}
use go_proxy.Base.Text.{Text, codes, is_empty, text_eq}
use go_proxy.Base.Assoc.{lookup, insert, lookup-insert}
use go_proxy.GeoIp.Defs.{Caches, Sources, place, get_subnet24, store_exact, lookup_location}
use go_proxy.GeoIp.Batch.{ApiItem, Ask, flush_requests}
use go_proxy.GeoIp.Replies.{IsFlush, flush_requests-IsFlush}
use go_proxy.GeoIp.Database.{
  Database, Disk, copied, target_file, init_mmdb, database_candidates, first_database, run_steps,
  file_step, auto_download_mmdb,
}
use go_proxy.GeoIp.Download.{IsAtomic, auto_download_mmdb-IsAtomic}
use go_proxy.GeoIp.Cached.{IsStable, lookup_location-IsStable}

-- Without a database, and with a service that knows every address.
abbrev service_only : Sources
service_only = record {
  database = none;
  ipwho = λ ip. some (place (codes "France") (codes "FR") []);
}

abbrev no_caches : Caches
no_caches = record { exact = []; subnets = [] }

abbrev asked : Text
asked = codes "9.9.9.9"

network_of_asked : get_subnet24 asked ≡ codes "9.9.9"
unfolding get_subnet24
network_of_asked = refl

-- The caches once another address has been looked up, too.
abbrev later_caches : Caches
later_caches =
    store_exact (codes "7.7.7.7") (place (codes "Japan") (codes "JP") [])
      (lookup_location service_only true none asked no_caches).1

same_entry :
    lookup asked later_caches.exact
    ≡ lookup asked (lookup_location service_only true none asked no_caches).1.exact
unfolding store_exact
same_entry =
    lookup-insert (codes "7.7.7.7") asked (place (codes "Japan") (codes "JP") [])
      (lookup_location service_only true none asked no_caches).1.exact
    ∙ unfold text_eq in refl

lookup_location-IsStable_example :
    IsStable asked no_caches
      (lookup_location service_only true none asked no_caches).0
      (lookup_location service_only true none asked no_caches).1
      later_caches
lookup_location-IsStable_example =
    lookup_location-IsStable service_only asked no_caches later_caches same_entry

-- ip-api.com knows one of two addresses.
abbrev some_items : List Text → Option (List ApiItem)
some_items ips = some (
    record {
      status = codes "success";
      query = asked;
      location = place (codes "Japan") (codes "JP") [];
    }
    ∷ [])

-- ipwho.is knows the other one at its first request only.
abbrev requests : List Ask
requests =
    (asked, none)
    ∷ (codes "7.7.7.7", some (place (codes "France") (codes "FR") []))
    ∷ (codes "7.7.7.7", none)
    ∷ []

flush_requests-IsFlush_example :
    IsFlush requests no_caches (flush_requests some_items requests no_caches)
flush_requests-IsFlush_example = flush_requests-IsFlush some_items requests no_caches

-- A file opens as a database that knows nothing, unless it is empty.
abbrev opening : Text → Option Database
opening content = if is_empty content then none else some (λ ip. none)

abbrev new_disk : Disk
new_disk = record { files = (target_file, codes "old") ∷ []; reader = none }

-- The copy ends with an error, and no step is left out.
half_download :
    lookup target_file
      (auto_download_mmdb opening (copied (codes "ne" ∷ []) false) true true 9 new_disk).files
    ≡ some (codes "old")
unfolding auto_download_mmdb run_steps file_step lookup insert text_eq
half_download = refl

-- The process is killed after the rename.
auto_download_mmdb-IsAtomic_example :
    IsAtomic opening
      (copied (codes "n" ∷ codes "ew" ∷ []) true)
      new_disk
      (auto_download_mmdb opening (copied (codes "n" ∷ codes "ew" ∷ []) true) true true 4 new_disk)
auto_download_mmdb-IsAtomic_example =
    auto_download_mmdb-IsAtomic opening (copied (codes "n" ∷ codes "ew" ∷ []) true) true true 4
      new_disk

found_beside :
    (init_mmdb opening
      (λ dir name. dir ++ b'/' ∷ name)
      (some (codes "/opt"))
      (record { files = (codes "/opt/GeoLite2-City.mmdb", codes "db") ∷ []; reader = none })).1
    ≡ false
unfolding init_mmdb database_candidates first_database lookup text_eq
found_beside = refl
