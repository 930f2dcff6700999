-- ===== src/Model/Tests.antt =====
-- Tests of pkg/model, and its theorems at concrete inputs.
use go_proxy.Base.{◌+◌, ◌≡◌, refl, some, List, [], ◌∷◌, ◌++◌, arith, length, get_or, drop}
use go_proxy.Base.Text.{codes, text_eq}
use go_proxy.Base.Assoc.{lookup, insert}
use go_proxy.Samples.{whole_numbers, results}
use go_proxy.Model.Proxy.{protocol_of_text, protocol_text}
use go_proxy.Model.Proxy.Names.{protocol_text-of_text}
use go_proxy.Model.Stats.{
  Stats, HistoryPoint, new_stats, record_result, push_history_point, get_history, no_point,
  count_of,
}
use go_proxy.Model.Stats.Counts.{record_all, Counted, record_all-Counted}
use go_proxy.Model.Stats.History.{taken, get_history-push}

abbrev scanned : Stats
scanned = record_all results (new_stats 0)

alive_of_three : scanned.total_alive ≡ 2
unfolding record_all record_result new_stats
alive_of_three = refl

vietnam_twice : count_of (codes "VN") scanned.country_counts ≡ 2
unfolding record_all record_result new_stats lookup insert text_eq
vietnam_twice = refl

record_all-Counted_example : Counted results (record_all results (new_stats 0))
record_all-Counted_example = record_all-Counted 0 results

abbrev window : List HistoryPoint
window = drop 1 (new_stats 0).history ++ get_or (new_stats 0).history 0 no_point ∷ []

get_history-push_example :
    (s' : Stats) × (push_history_point whole_numbers 9 (new_stats 0) ≡ some s')
    × (get_history s' ≡ some (drop 1 window ++ taken whole_numbers 9 (new_stats 0) ∷ []))
    × (length s'.history ≡ 120)
    × (s'.history_idx ≡ (new_stats 0).history_idx + 1)
unfolding new_stats get_history
get_history-push_example =
    get_history-push whole_numbers 9 (new_stats 0) {w = window} refl (omega arith) refl

protocol_text-of_text_example : protocol_text (protocol_of_text (codes "socks5")) ≡ codes "socks5"
protocol_text-of_text_example = protocol_text-of_text (codes "socks5")
