-- ===== src/Model/Stats/Counts.antt =====
-- pkg/model/stats.go, RecordResult: the counters against a count over the results.
use go_proxy.Base.{
  ℕ, ◌+◌, ◌%◌, ◌^◌, ◌≤◌, ◌<◌, ◌≡◌, ◌≢◌, refl, Bool, true, false, not, ◌&&◌, List, [], ◌∷◌, arith,
  length,
}
use go_proxy.Base.Text.{Text, text_eq, text_eq_iff}
use go_proxy.Base.Assoc.{lookup, lookup-insert}
use go_proxy.Model.Proxy.{
  Time, Protocol, http, https, socks4, socks4a, socks5, Anonymity, elite, anonymous, transparent,
  CheckResult,
}
use go_proxy.Model.Stats.Defs.{Stats, new_stats, record_result, count_of}

-- The collector after a sequence of results.
unfoldable pub record_all : List CheckResult → Stats → Stats
record_all [] s = s
record_all (r ∷ rs) s = record_all rs (record_result r s)

abbrev pub bit : Bool → ℕ
bit true = 1
bit false = 0

-- How many results pass a test.
abbrev pub tally : (CheckResult → Bool) → List CheckResult → ℕ
tally p [] = 0
tally p (r ∷ rs) = bit (p r) + tally p rs

abbrev pub is_http : Protocol → Bool
is_http http = true
is_http _ = false

abbrev pub is_https : Protocol → Bool
is_https https = true
is_https _ = false

abbrev pub is_socks4 : Protocol → Bool
is_socks4 socks4 = true
is_socks4 socks4a = true
is_socks4 _ = false

abbrev pub is_socks5 : Protocol → Bool
is_socks5 socks5 = true
is_socks5 _ = false

abbrev pub is_elite : Anonymity → Bool
is_elite elite = true
is_elite _ = false

abbrev pub is_anonymous : Anonymity → Bool
is_anonymous anonymous = true
is_anonymous _ = false

abbrev pub is_transparent : Anonymity → Bool
is_transparent transparent = true
is_transparent _ = false

-- One counter: if every step adds the test's value, so does a sequence of steps.
module _ (field : Stats → ℕ) (p : CheckResult → Bool)
    (step : (r : CheckResult) (s : Stats)
      → field s < 2 ^ 64
      → field (record_result r s) ≡ (field s + bit (p r)) % 2 ^ 64) where
  record_all-tally :
      (rs : List CheckResult) (s : Stats)
      → field s < 2 ^ 64
      → field (record_all rs s) ≡ (field s + tally p rs) % 2 ^ 64
  unfolding record_all
  record_all-tally [] s h = omega arith
  record_all-tally (r ∷ rs) s h =
      omega (arith, step r s h, record_all-tally rs (record_result r s) (omega (arith, step r s h)))

  -- From 0 the counter is the count.
  record_all_from_zero :
      (rs : List CheckResult) (s : Stats)
      → field s ≡ 0
      → field (record_all rs s) ≡ tally p rs % 2 ^ 64
  record_all_from_zero rs s h = omega (arith, record_all-tally rs s (omega arith))

scanned_step :
    (r : CheckResult) (s : Stats)
    → s.total_scanned < 2 ^ 64
    → (record_result r s).total_scanned ≡ (s.total_scanned + 1) % 2 ^ 64
unfolding record_result
scanned_step r s h = ground arith

alive_step :
    (r : CheckResult) (s : Stats)
    → s.total_alive < 2 ^ 64
    → (record_result r s).total_alive ≡ (s.total_alive + bit r.success) % 2 ^ 64
unfolding record_result
alive_step r s h = ground arith

dead_step :
    (r : CheckResult) (s : Stats)
    → s.total_dead < 2 ^ 64
    → (record_result r s).total_dead ≡ (s.total_dead + bit (not r.success)) % 2 ^ 64
unfolding record_result
dead_step r s h = ground arith

http_step :
    (r : CheckResult) (s : Stats)
    → s.http_alive < 2 ^ 64
    → (record_result r s).http_alive
      ≡ (s.http_alive + bit (r.success && is_http r.protocol)) % 2 ^ 64
unfolding record_result
http_step r s h = ground arith

https_step :
    (r : CheckResult) (s : Stats)
    → s.https_alive < 2 ^ 64
    → (record_result r s).https_alive
      ≡ (s.https_alive + bit (r.success && is_https r.protocol)) % 2 ^ 64
unfolding record_result
https_step r s h = ground arith

socks4_step :
    (r : CheckResult) (s : Stats)
    → s.socks4_alive < 2 ^ 64
    → (record_result r s).socks4_alive
      ≡ (s.socks4_alive + bit (r.success && is_socks4 r.protocol)) % 2 ^ 64
unfolding record_result
socks4_step r s h = ground arith

socks5_step :
    (r : CheckResult) (s : Stats)
    → s.socks5_alive < 2 ^ 64
    → (record_result r s).socks5_alive
      ≡ (s.socks5_alive + bit (r.success && is_socks5 r.protocol)) % 2 ^ 64
unfolding record_result
socks5_step r s h = ground arith

elite_step :
    (r : CheckResult) (s : Stats)
    → s.elite_alive < 2 ^ 64
    → (record_result r s).elite_alive
      ≡ (s.elite_alive + bit (r.success && is_elite r.anonymity)) % 2 ^ 64
unfolding record_result
elite_step r s h = ground arith

anonymous_step :
    (r : CheckResult) (s : Stats)
    → s.anonymous_alive < 2 ^ 64
    → (record_result r s).anonymous_alive
      ≡ (s.anonymous_alive + bit (r.success && is_anonymous r.anonymity)) % 2 ^ 64
unfolding record_result
anonymous_step r s h = ground arith

transparent_step :
    (r : CheckResult) (s : Stats)
    → s.transparent_alive < 2 ^ 64
    → (record_result r s).transparent_alive
      ≡ (s.transparent_alive + bit (r.success && is_transparent r.anonymity)) % 2 ^ 64
unfolding record_result
transparent_step r s h = ground arith

country_step :
    (code : Text) (r : CheckResult) (s : Stats)
    → code ≢ []
    → count_of code s.country_counts < 2 ^ 64
    → count_of code (record_result r s).country_counts
      ≡ (count_of code s.country_counts + bit (r.success && text_eq r.country_code code)) % 2 ^ 64
unfolding record_result
country_step code r s ne h = ground (
  arith,
  text_eq_iff r.country_code code,
  lookup-insert r.country_code code ((count_of r.country_code s.country_counts + 1) % 2 ^ 64)
      s.country_counts,
)

-- A record of what the counters of a collector are to be after the results `rs`.
pub record Counted (rs : List CheckResult) (s : Stats) : Type 0 where
  pub scanned : s.total_scanned ≡ length rs % 2 ^ 64
  pub alive : s.total_alive ≡ tally (λ r. r.success) rs % 2 ^ 64
  pub dead : s.total_dead ≡ tally (λ r. not r.success) rs % 2 ^ 64
  pub by_http : s.http_alive ≡ tally (λ r. r.success && is_http r.protocol) rs % 2 ^ 64
  pub by_https : s.https_alive ≡ tally (λ r. r.success && is_https r.protocol) rs % 2 ^ 64
  pub by_socks4 : s.socks4_alive ≡ tally (λ r. r.success && is_socks4 r.protocol) rs % 2 ^ 64
  pub by_socks5 : s.socks5_alive ≡ tally (λ r. r.success && is_socks5 r.protocol) rs % 2 ^ 64
  pub by_elite : s.elite_alive ≡ tally (λ r. r.success && is_elite r.anonymity) rs % 2 ^ 64
  pub by_anonymous :
      s.anonymous_alive ≡ tally (λ r. r.success && is_anonymous r.anonymity) rs % 2 ^ 64
  pub by_transparent :
      s.transparent_alive ≡ tally (λ r. r.success && is_transparent r.anonymity) rs % 2 ^ 64
  pub by_country :
      (code : Text)
      → code ≢ []
      → count_of code s.country_counts
        ≡ tally (λ r. r.success && text_eq r.country_code code) rs % 2 ^ 64

tally_all : (rs : List CheckResult) → tally (λ _. true) rs ≡ length rs
tally_all [] = refl
tally_all (r ∷ rs) = omega (arith, tally_all rs)

country-record_all :
    (code : Text)
    → code ≢ []
    → (rs : List CheckResult) (s : Stats) → count_of code s.country_counts ≡ 0
    → count_of code (record_all rs s).country_counts
      ≡ tally (λ r. r.success && text_eq r.country_code code) rs % 2 ^ 64
country-record_all code ne rs s h =
    record_all_from_zero (λ t. count_of code t.country_counts)
      (λ r. r.success && text_eq r.country_code code) (λ r t. country_step code r t ne) rs s h

-- After any sequence of results, recorded in a new collector, every counter is the number of
-- results of its kind (modulo 2 ^ 64, where an int64 wraps around): all results, successes,
-- failures, successes by protocol (SOCKS4 and SOCKS4A together), by anonymity and by country.
pub record_all-Counted :
    (now : Time) (rs : List CheckResult) → Counted rs (record_all rs (new_stats now))
unfolding new_stats lookup
record_all-Counted now rs =
    let s = new_stats now in
    record {
      scanned =
          rw (← tally_all rs)
            (record_all_from_zero (λ t. t.total_scanned) (λ _. true) scanned_step rs s refl);
      alive = record_all_from_zero (λ t. t.total_alive) (λ r. r.success) alive_step rs s refl;
      dead = record_all_from_zero (λ t. t.total_dead) (λ r. not r.success) dead_step rs s refl;
      by_http = record_all_from_zero (λ t. t.http_alive) _ http_step rs s refl;
      by_https = record_all_from_zero (λ t. t.https_alive) _ https_step rs s refl;
      by_socks4 = record_all_from_zero (λ t. t.socks4_alive) _ socks4_step rs s refl;
      by_socks5 = record_all_from_zero (λ t. t.socks5_alive) _ socks5_step rs s refl;
      by_elite = record_all_from_zero (λ t. t.elite_alive) _ elite_step rs s refl;
      by_anonymous = record_all_from_zero (λ t. t.anonymous_alive) _ anonymous_step rs s refl;
      by_transparent = record_all_from_zero (λ t. t.transparent_alive) _ transparent_step rs s refl;
      by_country = λ code ne. country-record_all code ne rs s refl;
    }

tally_split :
    (rs : List CheckResult) → tally (λ r. r.success) rs + tally (λ r. not r.success) rs ≡ length rs
tally_split [] = refl
tally_split (r ∷ rs) = ground (arith, tally_split rs)

tally_protocols :
    (rs : List CheckResult)
    → tally (λ r. r.success && is_http r.protocol) rs
        + tally (λ r. r.success && is_https r.protocol) rs
        + tally (λ r. r.success && is_socks4 r.protocol) rs
        + tally (λ r. r.success && is_socks5 r.protocol) rs
      ≤ tally (λ r. r.success) rs
tally_protocols [] = omega arith
tally_protocols (r ∷ rs) = ground (arith, tally_protocols rs)

tally_levels :
    (rs : List CheckResult)
    → tally (λ r. r.success && is_elite r.anonymity) rs
        + tally (λ r. r.success && is_anonymous r.anonymity) rs
        + tally (λ r. r.success && is_transparent r.anonymity) rs
      ≤ tally (λ r. r.success) rs
tally_levels [] = omega arith
tally_levels (r ∷ rs) = ground (arith, tally_levels rs)

-- What ties the counters of a collector together.
pub record IsBalanced (s : Stats) : Type 0 where
  pub total : s.total_alive + s.total_dead ≡ s.total_scanned
  pub protocols : s.http_alive + s.https_alive + s.socks4_alive + s.socks5_alive ≤ s.total_alive
  pub levels : s.elite_alive + s.anonymous_alive + s.transparent_alive ≤ s.total_alive

-- After fewer than 2 ^ 64 results in a new collector the counters balance: successes and failures
-- add up to the scanned results, and neither the successes by protocol nor those by anonymity
-- are more than all successes.
record_all-IsBalanced :
    (now : Time) (rs : List CheckResult)
    → length rs < 2 ^ 64
    → IsBalanced (record_all rs (new_stats now))
record_all-IsBalanced now rs h =
    let c = record_all-Counted now rs in
    omega (
      arith,
      c.scanned,
      c.alive,
      c.dead,
      c.by_http,
      c.by_https,
      c.by_socks4,
      c.by_socks5,
      c.by_elite,
      c.by_anonymous,
      c.by_transparent,
      tally_split rs,
      tally_protocols rs,
      tally_levels rs,
    )
