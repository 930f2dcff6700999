-- ===== src/Pipeline/Dedup/Window.antt =====
-- pkg/pipeline/dedup.go: what the filter promises over a run of requests and cleanups.
use go_proxy.Base.{
  ℕ, ◌+◌, ◌<◌, ◌≤◌, ◌≡◌, refl, ap, ◌∙◌, true, false, none, some, List, [], ◌∷◌, arith, Bool-cases,
  inl, inr,
}
use go_proxy.Base.Text.{Text, text_eq, text_eq_iff, text_eq_refl}
use go_proxy.Model.Proxy.{Time}
use go_proxy.Pipeline.Dedup.Defs.{Deduplicator, check_and_set, cleanup}
use go_proxy.Pipeline.Dedup.Shards.{
  IsValid, last_seen, check_and_set-IsValid, check_and_set-Decides, cleanup-IsValid,
  last_seen-cleanup, unexpired,
}

-- A cleanup never changes a later decision: at `now` or after it CheckAndSet answers as it would
-- have without the cleanup, since what was removed had expired.
check_and_set-cleanup :
    (now later : Time) (key : Text) (d : Deduplicator)
    → IsValid d
    → now ≤ later
    → (check_and_set later key (cleanup now d)).0 ≡ (check_and_set later key d).0
unfolding cleanup
check_and_set-cleanup now later key d v h =
    let before = (check_and_set-Decides later key d v).decision in
    let after =
      (check_and_set-Decides later key (cleanup now d) (cleanup-IsValid now d v)).decision in
    let found = last_seen-cleanup now key d v in ground (arith, before, after, found)

-- What happens to the filter: a request for a key or a tick of the cleanup, each with its time.
pub data Event : Type 0 where
  request : Time → Text → Event
  tick : Time → Event

abbrev pub event_time : Event → Time
event_time (request t key) = t
event_time (tick t) = t

unfoldable pub react : Event → Deduplicator → Deduplicator
react (request t key) d = (check_and_set t key d).1
react (tick t) d = cleanup t d

unfoldable pub run : List Event → Deduplicator → Deduplicator
run [] d = d
run (e ∷ es) d = run es (react e d)

-- All events of a run happen at `t` or before.
abbrev pub Until : Time → List Event → Type 0
Until t [] = Unit
Until t (e ∷ es) = (event_time e ≤ t) × Until t es

-- The filter is valid, has its window, and holds for the key a time from `since` on.
record Remembers (window : ℕ) (since : Time) (key : Text) (d : Deduplicator) : Type 0 where
  valid : IsValid d
  same : d.window ≡ window
  at : Time
  held : last_seen d key ≡ some at
  recent : since ≤ at

check_and_set-Remembers :
    (window : ℕ) (since now : Time) (key j : Text) (d : Deduplicator)
    → now < since + window
    → Remembers window since key d
    → Remembers window since key (check_and_set now j d).1
check_and_set-Remembers window since now key j d h r =
    let c = check_and_set-Decides now j d r.valid in
    record {
      valid = check_and_set-IsValid now j d r.valid;
      same = c.window ∙ r.same;
      at = r.at;
      held = elim (Bool-cases (text_eq j key)) [
        | inl e ↦
            let same_key : last_seen d j ≡ some r.at =
              ap (last_seen d) ((text_eq_iff j key).0 e) ∙ r.held in
            ground (arith, c.decision, c.entries key, r.held, r.recent, r.same)
        | inr e ↦ ground (arith, c.entries key, r.held)
      ];
      recent = r.recent;
    }

cleanup-Remembers :
    (window : ℕ) (since now : Time) (key : Text) (d : Deduplicator)
    → now < since + window
    → Remembers window since key d
    → Remembers window since key (cleanup now d)
unfolding cleanup
cleanup-Remembers window since now key d h r = record {
  valid = cleanup-IsValid now d r.valid;
  same = r.same;
  at = r.at;
  held = last_seen-cleanup now key d r.valid ∙ ground (arith, r.held, r.recent, r.same);
  recent = r.recent;
}

run-Remembers :
    (window : ℕ) (since t : Time) (key : Text) (es : List Event) (d : Deduplicator)
    → t < since + window
    → Until t es
    → Remembers window since key d
    → Remembers window since key (run es d)
unfolding run react
run-Remembers window since t key [] d h u r = r
run-Remembers window since t key (request s j ∷ es) d h u r =
    run-Remembers window since t key es (check_and_set s j d).1 h u.1
      (check_and_set-Remembers window since s key j d (omega arith) r)
run-Remembers window since t key (tick s ∷ es) d h u r =
    run-Remembers window since t key es (cleanup s d) h u.1
      (cleanup-Remembers window since s key d (omega arith) r)

-- A key that was accepted at the time `since` is rejected at every time `t` less than a window
-- later, whatever requests (for this or other keys) and cleanups happen in between, at `t` at
-- the latest.
pub accepted_once :
    (since t : Time) (key : Text) (es : List Event) (d : Deduplicator)
    → IsValid d
    → (check_and_set since key d).0 ≡ true
    → Until t es
    → t < since + d.window
    → (check_and_set t key (run es (check_and_set since key d).1)).0 ≡ false
accepted_once since t key es d v acc u h =
    let c = check_and_set-Decides since key d v in
    let start : Remembers d.window since key (check_and_set since key d).1 = record {
      valid = check_and_set-IsValid since key d v;
      same = c.window;
      at = since;
      held = c.entries key ∙ rw (acc, text_eq_refl key) refl;
      recent = omega arith;
    } in
    let r = run-Remembers d.window since t key es (check_and_set since key d).1 h u start in
    let last = check_and_set-Decides t key (run es (check_and_set since key d).1) r.valid in
    ground (arith, last.decision, r.held, r.recent, r.same)

-- A valid filter accepts a key that it has no entry for, or one that is as old as the window.
accepted_after_window :
    (t : Time) (key : Text) (d : Deduplicator)
    → IsValid d
    → unexpired d.window t (last_seen d key) ≡ none
    → (check_and_set t key d).0 ≡ true
accepted_after_window t key d v h = ground (arith, (check_and_set-Decides t key d v).decision)
