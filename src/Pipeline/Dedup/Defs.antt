-- ===== src/Pipeline/Dedup/Defs.antt =====
-- pkg/pipeline/dedup.go: the filter's state and its operations.
use Prim.Native.Nat.{bit_xor}
use go_proxy.Base.{
  ℕ, ◌+◌, ◌*◌, ◌%◌, ◌^◌, Bool, true, false, Option, none, some, List, [], ◌∷◌, map, ltb, leb,
  if◌then◌else◌, get_or, set, replicate,
}
use go_proxy.Base.Int.{ℤ, pos, leb_ℤ, pos_part}
use go_proxy.Base.Text.{Text}
use go_proxy.Base.Assoc.{Map, lookup, insert}
use go_proxy.Model.Proxy.{Time}

-- The entries of one shard: when each key was last accepted.
abbrev pub Shard : Type 0
Shard = Map Time

pub record Deduplicator : Type 0 where
  pub shards : List Shard
  pub window : ℕ

-- `NewShardedDeduplicator`: a window that is not positive becomes 10 minutes.
unfoldable pub new_deduplicator : ℤ → Deduplicator
new_deduplicator window = record {
  shards = replicate 64 [];
  window = if leb_ℤ window (pos 0) then 600_000_000_000 else pos_part window;
}

-- The 32-bit FNV-1a hash (hash/fnv): for each byte, xor and then multiply by the prime.
fnv32_from : ℕ → Text → ℕ
fnv32_from h [] = h
fnv32_from h (b ∷ s) = fnv32_from (bit_xor h b * 16777619 % 2 ^ 32) s

unfoldable pub fnv32 : Text → ℕ
unfolding fnv32_from
fnv32 s = fnv32_from 2166136261 s

abbrev pub shard_index : Text → ℕ
shard_index key = fnv32 key % 64

abbrev pub shard_of : Deduplicator → Text → Shard
shard_of d key = get_or d.shards (shard_index key) []

-- `exists && now.Sub(lastSeen) < d.window`
abbrev pub is_recent : ℕ → Time → Option Time → Bool
is_recent window now none = false
is_recent window now (some last_seen) = ltb now (last_seen + window)

-- `CheckAndSet` at the time `now`
unfoldable pub check_and_set : Time → Text → Deduplicator → Bool × Deduplicator
check_and_set now key d =
    let shard = shard_of d key in
    if is_recent d.window now (lookup key shard)
    then (false, d)
    else (true, record d { shards = set d.shards (shard_index key) (insert key now shard) })

-- `delete` of the entries with `now.Sub(seen) >= d.window`
unfoldable pub sweep : ℕ → Time → Shard → Shard
sweep window now [] = []
sweep window now ((k, seen) ∷ m) =
    if leb (seen + window) now then sweep window now m else (k, seen) ∷ sweep window now m

-- One tick of `cleanupLoop`.
unfoldable pub cleanup : Time → Deduplicator → Deduplicator
unfolding sweep
cleanup now d = record d { shards = map (sweep d.window now) d.shards }
