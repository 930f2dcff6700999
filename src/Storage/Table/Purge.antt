-- ===== src/Storage/Table/Purge.antt =====
-- pkg/storage/sqlite.go, PurgeDeadProxies: which rows go and which stay.
use go_proxy.Base.{
  ℕ, ◌+◌, ◌<◌, ◌≤◌, ◌≡◌, ◌↔◌, ◌⊎◌, refl, sym, ◌∙◌, Bool, true, not, Option, none, some, List, [],
  ◌∷◌, arith, if◌then◌else◌, All, filter, length,
}
use go_proxy.Model.Proxy.{Time}
use go_proxy.Storage.Table.Defs.{Row, Table, is_purged, purge_dead_proxies}
use go_proxy.Storage.Table.Upsert.{find, find-congr, same_key_iff, HasUniqueRows, IsValid}

-- A row that is dead for good: not alive, and either failed too often or alive too long ago.
pub IsDead : ℕ → ℕ → Time → Row → Type 0
IsDead max_fail older_than now r =
    (r.is_alive ≡ 0) × ((max_fail ≤ r.consecutive_fail) ⊎ (r.last_alive + older_than < now))

pub is_purged_iff :
    (max_fail older_than : ℕ) (now : Time) (r : Row)
    → (is_purged max_fail older_than now r ≡ true) ↔ IsDead max_fail older_than now r
unfolding is_purged IsDead
is_purged_iff m o now r = ground arith

-- A filtered list of rows with unique keys, searched by key.
module _ (p : Row → Bool) where
  abbrev kept : Option Row → Option Row
  kept none = none
  kept (some r) = if p r then some r else none

  find-filter :
      (y : Row) (rs : List Row) → HasUniqueRows rs → find y (filter p rs) ≡ kept (find y rs)
  unfolding find
  find-filter y [] h = refl
  find-filter y (r ∷ rs) h =
      ground (arith, same_key_iff r y, find-congr r y rs, find-filter y rs h.1)

  filter-HasUniqueRows : (rs : List Row) → HasUniqueRows rs → HasUniqueRows (filter p rs)
  filter-HasUniqueRows [] h = tt
  filter-HasUniqueRows (r ∷ rs) h =
      ground (arith, find-filter r rs h.1, filter-HasUniqueRows rs h.1)

  filter-below :
      (n : ℕ) (rs : List Row) → All (λ r. r.id < n) rs → All (λ r. r.id < n) (filter p rs)
  filter-below n [] h = tt
  filter-below n (r ∷ rs) h = ground (arith, filter-below n rs h.1)

length-filter-not :
    (p : Row → Bool) (rs : List Row)
    → length (filter (λ r. not (p r)) rs) + length (filter p rs) ≡ length rs
length-filter-not p [] = refl
length-filter-not p (r ∷ rs) = ground (arith, length-filter-not p rs)

-- What a purge promises of the table and of the count that it returns.
pub record Purges (max_fail older_than : ℕ) (now : Time) (t : Table) (r : Table × ℕ) : Type 0 where
  pub valid : IsValid r.0
  pub counted : length r.0.rows + r.1 ≡ length t.rows
  pub stays :
      (y x : Row)
      → find y r.0.rows ≡ some x
      → (find y t.rows ≡ some x) × (¬ IsDead max_fail older_than now x)
  pub survives :
      (y x : Row)
      → find y t.rows ≡ some x
      → ¬ IsDead max_fail older_than now x
      → find y r.0.rows ≡ some x

-- On a valid table PurgeDeadProxies deletes exactly the rows that are dead for good (not alive,
-- with at least max_fail failures in a row or last alive before the cutoff): every row left is
-- an old one that is not, every such row is left as it was, the number returned is that of the
-- rows deleted, and the table stays valid.
pub purge_dead_proxies-Purges :
    (max_fail older_than : ℕ) (now : Time) (t : Table)
    → IsValid t
    → Purges max_fail older_than now t (purge_dead_proxies max_fail older_than now t)
unfolding purge_dead_proxies IsDead
purge_dead_proxies-Purges m o now t v =
    let p : Row → Bool = λ r. not (is_purged m o now r) in
    let found : (y : Row) → find y (filter p t.rows) ≡ kept p (find y t.rows) =
      λ y. find-filter p y t.rows v.unique in
    record {
      valid = record {
        unique = filter-HasUniqueRows p t.rows v.unique;
        below = filter-below p t.next_id t.rows v.below;
      };
      counted = length-filter-not (is_purged m o now) t.rows;
      stays = λ y x e. stays_lem m o now (find y t.rows) x (sym (found y) ∙ e);
      survives = λ y x e alive. found y ∙ rw e (survives_lem m o now x alive);
    }
  where
    stays_lem :
        (m o : ℕ) (now : Time) (q : Option Row) (x : Row)
        → kept (λ r. not (is_purged m o now r)) q ≡ some x
        → (q ≡ some x) × (¬ IsDead m o now x)
    stays_lem m o now none x e = cc
    stays_lem m o now (some r) x e =
        (ground arith, λ d. ground (arith, (is_purged_iff m o now x).1 d))

    survives_lem :
        (m o : ℕ) (now : Time) (x : Row)
        → ¬ IsDead m o now x
        → kept (λ r. not (is_purged m o now r)) (some x) ≡ some x
    survives_lem m o now x alive = ground (arith, is_purged_iff m o now x)
