-- ===== src/Pipeline/Dedup/Shards.antt =====
-- pkg/pipeline/dedup.go: the 64 shards behave as one map from keys to times.
use go_proxy.Base.{
  ℕ, zero, suc, ◌+◌, ◌≡◌, refl, ap, sym, ◌∙◌, Bool, false, not, ◌&&◌, Option, none, some, List, [],
  ◌∷◌, map, arith, leb, ◌==◌, if◌then◌else◌, length, length-set, get_or, set, get_or-set_self,
  get_or-set_ne, All, Bool-cases, inl, inr,
}
use go_proxy.Base.Int.{ℤ}
use go_proxy.Base.Text.{Text, text_eq, text_eq_iff}
use go_proxy.Base.Assoc.{
  lookup, insert, lookup-insert, HasUniqueKeys, insert-HasUniqueKeys, lookup-congr,
}
use go_proxy.Model.Proxy.{Time}
use go_proxy.Pipeline.Dedup.Defs.{
  Shard, Deduplicator, new_deduplicator, shard_index, shard_of, is_recent, check_and_set, sweep,
  cleanup,
}

-- There are 64 shards, and none lists a key twice.
pub record IsValid (d : Deduplicator) : Type 0 where
  pub count : length d.shards ≡ 64
  pub unique : All HasUniqueKeys d.shards

-- When a key was last accepted: the filter as one map.
abbrev pub last_seen : Deduplicator → Text → Option Time
last_seen d key = lookup key (shard_of d key)

All-set {ℓ κ} :
    {A : Type ℓ} (P : A → Type κ) (xs : List A) (i : ℕ) (v : A)
    → All P xs
    → P v
    → All P (set xs i v)
All-set P [] i v h p = tt
All-set P (x ∷ xs) zero v h p = (p, h.1)
All-set P (x ∷ xs) (suc i) v h p = (h.0, All-set P xs i v h.1 p)

All-get_or {ℓ κ} :
    {A : Type ℓ} (P : A → Type κ) (xs : List A) (i : ℕ) (d : A) → All P xs → P d → P (get_or xs i d)
All-get_or P [] i d h p = p
All-get_or P (x ∷ xs) zero d h p = h.0
All-get_or P (x ∷ xs) (suc i) d h p = All-get_or P xs i d h.1 p

pub shard_of-HasUniqueKeys :
    (d : Deduplicator) (key : Text) → IsValid d → HasUniqueKeys (shard_of d key)
shard_of-HasUniqueKeys d key v = All-get_or HasUniqueKeys d.shards (shard_index key) [] v.unique tt

pub new_deduplicator-IsValid : (w : ℤ) → IsValid (new_deduplicator w)
unfolding new_deduplicator
new_deduplicator-IsValid w = record { count = refl; unique = omega arith }

pub check_and_set-IsValid :
    (now : Time) (key : Text) (d : Deduplicator) → IsValid d → IsValid (check_and_set now key d).1
unfolding check_and_set
check_and_set-IsValid now key d v = elim (Bool-cases (is_recent d.window now (last_seen d key))) [
  | inl e ↦ rw e v
  | inr e ↦ rw e (record {
    count = length-set d.shards (shard_index key) _ ∙ v.count;
    unique =
        All-set HasUniqueKeys d.shards (shard_index key) _ v.unique
          (insert-HasUniqueKeys key now _ (shard_of-HasUniqueKeys d key v));
  })
]

-- A write to the shard of one key, read through another.
last_seen-set :
    (now : Time) (key j : Text) (d : Deduplicator)
    → length d.shards ≡ 64
    → lookup j (
        get_or
          (set d.shards (shard_index key) (insert key now (shard_of d key)))
          (shard_index j)
          [])
      ≡ (if text_eq key j then some now else last_seen d j)
last_seen-set now key j d len = elim (Bool-cases (shard_index key == shard_index j)) [
  | inl same ↦
      let e : shard_index j ≡ shard_index key = ground arith in
      rw
        (
          e,
          get_or-set_self d.shards (shard_index key) (insert key now (shard_of d key)) []
              (omega arith),
        )
        (lookup-insert key j now (shard_of d key))
  | inr apart ↦
      let ne : text_eq key j ≡ false =
        ground (arith, text_eq_iff key j, λ (e : key ≡ j). ap shard_index e) in
      rw
        (
          ne,
          get_or-set_ne d.shards (shard_index key) (shard_index j) (insert key now (shard_of d key))
              [] (ground arith),
        )
        refl
]

-- What CheckAndSet promises, by the map from keys to times: it accepts a key exactly when the
-- key was not accepted within the window before `now`, and then records `now` for this key and
-- leaves every other key alone; a rejected key changes nothing.
pub record Decides (now : Time) (key : Text) (d : Deduplicator) (r : Bool × Deduplicator)
    : Type 0 where
  pub decision : r.0 ≡ not (is_recent d.window now (last_seen d key))
  pub window : r.1.window ≡ d.window
  pub entries :
      (j : Text) → last_seen r.1 j ≡ (if r.0 && text_eq key j then some now else last_seen d j)

-- On a valid filter CheckAndSet meets this contract, whatever shard the key hashes to.
pub check_and_set-Decides :
    (now : Time) (key : Text) (d : Deduplicator)
    → IsValid d
    → Decides now key d (check_and_set now key d)
unfolding check_and_set
check_and_set-Decides now key d v = elim (Bool-cases (is_recent d.window now (last_seen d key))) [
  | inl e ↦ rw e (record { decision = ap not (sym e); window = refl; entries = λ j. refl })
  | inr e ↦ rw e (record {
    decision = ap not (sym e);
    window = refl;
    entries = λ j. last_seen-set now key j d v.count;
  })
]

-- An entry that a sweep at `now` keeps.
abbrev pub unexpired : ℕ → Time → Option Time → Option Time
unexpired window now none = none
unexpired window now (some seen) = if leb (seen + window) now then none else some seen

lookup-sweep :
    (w : ℕ) (now : Time) (k : Text) (m : Shard)
    → HasUniqueKeys m
    → lookup k (sweep w now m) ≡ unexpired w now (lookup k m)
unfolding lookup sweep
lookup-sweep w now k [] h = refl
lookup-sweep w now k ((j, seen) ∷ m) h =
    ground (arith, lookup-sweep w now k m h.1, lookup-congr j k m)

sweep-HasUniqueKeys :
    (w : ℕ) (now : Time) (m : Shard) → HasUniqueKeys m → HasUniqueKeys (sweep w now m)
unfolding sweep
sweep-HasUniqueKeys w now [] h = tt
sweep-HasUniqueKeys w now ((j, seen) ∷ m) h =
    ground (arith, lookup-sweep w now j m h.1, sweep-HasUniqueKeys w now m h.1)

All-map-sweep :
    (w : ℕ) (now : Time) (ms : List Shard)
    → All HasUniqueKeys ms
    → All HasUniqueKeys (map (sweep w now) ms)
All-map-sweep w now [] h = tt
All-map-sweep w now (m ∷ ms) h = (sweep-HasUniqueKeys w now m h.0, All-map-sweep w now ms h.1)

length-map-sweep :
    (w : ℕ) (now : Time) (ms : List Shard) → length (map (sweep w now) ms) ≡ length ms
length-map-sweep w now [] = refl
length-map-sweep w now (m ∷ ms) = ap suc (length-map-sweep w now ms)

get_or-map-sweep :
    (w : ℕ) (now : Time) (ms : List Shard) (i : ℕ)
    → get_or (map (sweep w now) ms) i [] ≡ sweep w now (get_or ms i [])
unfolding sweep
get_or-map-sweep w now [] i = refl
get_or-map-sweep w now (m ∷ ms) zero = refl
get_or-map-sweep w now (m ∷ ms) (suc i) = get_or-map-sweep w now ms i

pub cleanup-IsValid : (now : Time) (d : Deduplicator) → IsValid d → IsValid (cleanup now d)
unfolding cleanup
cleanup-IsValid now d v = record {
  count = length-map-sweep d.window now d.shards ∙ v.count;
  unique = All-map-sweep d.window now d.shards v.unique;
}

-- A cleanup at `now` removes exactly the entries that are as old as the window, from the map too.
pub last_seen-cleanup :
    (now : Time) (key : Text) (d : Deduplicator)
    → IsValid d
    → last_seen (cleanup now d) key ≡ unexpired d.window now (last_seen d key)
unfolding cleanup
last_seen-cleanup now key d v =
    rw (get_or-map-sweep d.window now d.shards (shard_index key))
      (lookup-sweep d.window now key (shard_of d key) (shard_of-HasUniqueKeys d key v))
