-- ===== src/Judge/Tests.antt =====
-- Tests of pkg/judge and pkg/checker, and their theorems at concrete inputs.
use go_proxy.Base.{◌≡◌, refl, Bool, true, false, Option, none, some, List, [], ◌∷◌, if◌then◌else◌}
use go_proxy.Base.Int.{ℤ, pos}
use go_proxy.Base.Text.{Text, codes, text_eq}
use go_proxy.Samples.{whole_numbers}
use go_proxy.Model.Proxy.{transparent, anonymous}
use go_proxy.Net.Header.{Header}
use go_proxy.Judge.Defs.{JudgeEntry, pick_judge, evaluate_anonymity}
use go_proxy.Judge.Health.{resolve_judge_url, judge_urls, check_judge, check_all_judges}
use go_proxy.Judge.Rounds.{health_loop, IsAnswering, pick_judge-IsAnswering}
use go_proxy.Judge.Level.{IsLeaked, IsRevealed, Levels, evaluate_anonymity-Levels}

abbrev judge_of : Text → ℤ → Bool → JudgeEntry
judge_of url latency healthy = record { url = url; latency_ms = latency; healthy = healthy }

abbrev three_judges : List JudgeEntry
three_judges =
    judge_of (codes "a") (pos 90) true
    ∷ judge_of (codes "b") (pos 20) false
    ∷ judge_of (codes "c") (pos 40) true
    ∷ []

picks_c : pick_judge [] three_judges ≡ codes "c"
unfolding pick_judge
picks_c = refl

abbrev via_header : Header
via_header = (codes "Via", codes "1.1 squid" ∷ []) ∷ []

is_anonymous : evaluate_anonymity (codes "9.9.9.9") via_header (codes "1.2.3.4") ≡ anonymous
unfolding evaluate_anonymity text_eq
is_anonymous = refl

is_transparent : evaluate_anonymity (codes "9.9.9.9") via_header (codes "ip 9.9.9.9") ≡ transparent
unfolding evaluate_anonymity text_eq
is_transparent = refl

evaluate_anonymity-Levels_example :
    Levels
      (evaluate_anonymity (codes "9.9.9.9") via_header (codes "1.2.3.4"))
      (IsLeaked (codes "9.9.9.9") via_header (codes "1.2.3.4"))
      (IsRevealed via_header (codes "1.2.3.4"))
evaluate_anonymity-Levels_example =
    evaluate_anonymity-Levels (codes "9.9.9.9") via_header (codes "1.2.3.4")

own_judge :
    resolve_judge_url (codes "8.8.8.8") (codes "/ip") (codes ":9090")
    ≡ codes "http://8.8.8.8:9090/ip"
unfolding resolve_judge_url
own_judge = refl

-- Without a list of judges the custom judge is not asked.
custom_dropped :
    judge_urls (codes "8.8.8.8") (codes "80") [] (codes "http://judge")
    ≡ codes "http://8.8.8.8:80/json"
      ∷ codes "http://8.8.8.8:80/judge"
      ∷ codes "http://8.8.8.8:80/ip"
      ∷ []
unfolding judge_urls
custom_dropped = refl

-- Only b answers in the second round.
abbrev only_b : Text → Option ℤ
only_b url = if text_eq url (codes "b") then some (pos 30) else none

picks_b :
    pick_judge [] (health_loop whole_numbers ((λ url. some (pos 5)) ∷ only_b ∷ []) three_judges)
    ≡ codes "b"
unfolding pick_judge health_loop check_all_judges check_judge text_eq
picks_b = refl

pick_judge-IsAnswering_example :
    IsAnswering whole_numbers only_b three_judges
      (pick_judge [] (health_loop whole_numbers ((λ url. some (pos 5)) ∷ only_b ∷ []) three_judges))
pick_judge-IsAnswering_example =
    pick_judge-IsAnswering whole_numbers ((λ url. some (pos 5)) ∷ []) only_b [] three_judges
