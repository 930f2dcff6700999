-- ===== src/Model/Stats/History.antt =====
-- pkg/model/stats.go, PushHistoryPoint and GetHistory: the ring buffer is a sliding window.
use go_proxy.Base.{
  ℕ, zero, suc, ◌+◌, ◌/◌, ◌%◌, ◌^◌, ◌<◌, ◌≤◌, ◌≡◌, refl, some, List, [], ◌∷◌, ◌++◌, some_inj, ap,
  sym, ◌∙◌, arith, lt→ltb, length, length-set, get_or, set, get_or-set_self, get_or-set_ne, drop,
  take,
}
use go_proxy.Base.Int.{pos, ◌-ℤ◌}
use mathlib.Core.Path.{ap₂}
use go_proxy.Base.Float.{FloatOps}
use go_proxy.Model.Proxy.{Time}
use go_proxy.Model.Stats.Defs.{
  Stats, HistoryPoint, slot, collect, push_history_point, get_history, no_point, speed, new_stats,
}

-- The points in the ring from the offset `i` after the index, `n` of them.
window : List HistoryPoint → ℕ → ℕ → ℕ → List HistoryPoint
window h idx i zero = []
window h idx i (suc n) = get_or h ((idx + i + 1) % 120) no_point ∷ window h idx (i + 1) n

slot_lem : (k : ℕ) → k < 2 ^ 63 → slot k ≡ some (k % 120)
unfolding slot
slot_lem k h = rw (lt→ltb k (2 ^ 63) h)

collect-eq-window :
    (h : List HistoryPoint) (idx i n : ℕ)
    → idx + i + n < 2 ^ 63
    → collect h idx i n ≡ some (window h idx i n)
unfolding collect window
collect-eq-window h idx i zero b = refl
collect-eq-window h idx i (suc n) b =
    let small : (idx + i + 1) % 2 ^ 64 ≡ idx + i + 1 = omega arith in
    ground (
      arith,
      ap slot small,
      slot_lem (idx + i + 1) (omega arith),
      collect-eq-window h idx (i + 1) n (omega arith),
    )

-- After a write at the next index, the window one further on has the same points.
window-set :
    (h : List HistoryPoint) (p : HistoryPoint) (idx i n : ℕ)
    → i + n ≤ 119
    → window (set h ((idx + 1) % 120) p) (idx + 1) i n ≡ window h idx (i + 1) n
unfolding window
window-set h p idx i zero b = refl
window-set h p idx i (suc n) b =
    let same : idx + 1 + i + 1 ≡ idx + (i + 1) + 1 = omega arith in
    rw (
      same,
      get_or-set_ne h ((idx + 1) % 120) ((idx + (i + 1) + 1) % 120) p no_point (omega arith),
      window-set h p idx (i + 1) n (omega arith),
    )

window-suc :
    (h : List HistoryPoint) (idx i n : ℕ)
    → window h idx i (suc n) ≡ window h idx i n ++ get_or h ((idx + i + n + 1) % 120) no_point ∷ []
unfolding window
window-suc h idx i zero = let e : idx + i + 0 + 1 ≡ idx + i + 1 = omega arith in rw e
window-suc h idx i (suc n) =
    let e : idx + i + suc n + 1 ≡ idx + (i + 1) + n + 1 = omega arith in
    rw e (ap (λ t. get_or h ((idx + i + 1) % 120) no_point ∷ t) (window-suc h idx (i + 1) n))

-- The point that a push records.
abbrev pub taken : FloatOps → Time → Stats → HistoryPoint
taken f now s = record {
  timestamp = pos (now / 1_000_000_000);
  alive = s.total_alive;
  scanned = s.total_scanned;
  speed_ips = speed f now s;
}

-- Pushing a point slides the list that GetHistory returns by one: its first point goes, the
-- others keep their order, and the point with the current time and counters comes last. This
-- holds of a history of 120 points as long as the index stays below 2 ^ 63; both are kept.
pub get_history-push :
    (f : FloatOps) (now : Time) (s : Stats) {w : List HistoryPoint}
    → length s.history ≡ 120
    → s.history_idx + 122 < 2 ^ 63
    → get_history s ≡ some w
    → (s' : Stats) × (push_history_point f now s ≡ some s')
      × (get_history s' ≡ some (drop 1 w ++ taken f now s ∷ []))
      × (length s'.history ≡ 120)
      × (s'.history_idx ≡ s.history_idx + 1)
unfolding push_history_point get_history window
get_history-push f now s {w} len small e =
    let h : List HistoryPoint = s.history in
    let idx : ℕ = s.history_idx in
    let p : HistoryPoint = taken f now s in
    let s' : Stats = record s { history_idx = idx + 1; history = set h ((idx + 1) % 120) p } in
    let wrapped : (idx + 1) % 2 ^ 64 ≡ idx + 1 = omega arith in
    let pushed : push_history_point f now s ≡ some s' =
      ground (arith, ap slot wrapped, slot_lem (idx + 1) (omega arith)) in
    let before : some w ≡ some (window h idx 0 120) =
      sym e ∙ collect-eq-window h idx 0 120 (omega arith) in
    let last : get_or (set h ((idx + 1) % 120) p) ((idx + 1 + 0 + 119 + 1) % 120) no_point ≡ p =
      let same : (idx + 1 + 0 + 119 + 1) % 120 ≡ (idx + 1) % 120 = omega arith in
      rw same (get_or-set_self h ((idx + 1) % 120) p no_point (omega arith)) in
    let slid : window (set h ((idx + 1) % 120) p) (idx + 1) 0 120
        ≡ drop 1 (window h idx 0 120) ++ p ∷ [] =
      window-suc (set h ((idx + 1) % 120) p) (idx + 1) 0 119
      ∙ ap₂ (λ xs q. xs ++ q ∷ []) (window-set h p idx 0 119 (omega arith)) last in
    (
      s',
      pushed,
      collect-eq-window (set h ((idx + 1) % 120) p) (idx + 1) 0 120 (omega arith)
          ∙ ap some (slid ∙ ap (λ xs. drop 1 xs ++ p ∷ []) (some_inj (sym before))),
      length-set h ((idx + 1) % 120) p ∙ len,
      refl,
    )

-- In a new collector GetHistory does not run from the oldest point to the newest: the first of
-- its 120 points is 119 seconds old, and the last one is 120 seconds old, older than the first.
get_history-new_stats :
    (now : Time)
    → (w : List HistoryPoint) × (get_history (new_stats now) ≡ some w)
      × (length w ≡ 120)
      × ((get_or w 0 no_point).timestamp ≡ pos (now / 1_000_000_000) -ℤ pos 119)
      × ((get_or w 119 no_point).timestamp ≡ pos (now / 1_000_000_000) -ℤ pos 120)
unfolding get_history new_stats
get_history-new_stats now = (rotated, refl, refl, refl, refl)
  where
    rotated : List HistoryPoint
    rotated = let h = (new_stats now).history in drop 1 h ++ take 1 h
