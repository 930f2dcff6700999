-- ===== src/Checker/Tests.antt =====
-- Tests of pkg/checker, and its theorem at a concrete input.
use go_proxy.Base.{ℕ, ◌≡◌, refl, true, [], arith}
use go_proxy.Base.Int.{pos, ◌≤ℤ◌}
use go_proxy.Samples.{whole_numbers, live_proxy}
use go_proxy.Checker.Score.Defs.{calculate_score}
use go_proxy.Checker.Score.Bounds.{RoundsPercents, calculate_score_bounded}
use go_proxy.Base.Text.{codes}
use go_proxy.Model.Proxy.{socks4, unknown, CheckResult}
use go_proxy.Model.Config.{default_config}
use go_proxy.Samples.Network.{plain_packages, socks4_world}
use go_proxy.Checker.Defs.{Location, Env, check_ip_port}
use go_proxy.Checker.Sound.{IsCheckOf, check_ip_port-IsCheckOf}

abbrev nowhere : Location
nowhere = record { country = []; country_code = codes "XX"; city = []; asn = []; org = [] }

abbrev env : Env
env = record {
  location = nowhere;
  ping = λ addr timeout. true;
  world = socks4_world;
  packages = plain_packages;
  judge_url = [];
  my_ip = [];
  message = λ e. [];
}

-- On the port 1080 the protocol is detected.
abbrev found : CheckResult
unfolding check_ip_port default_config
found = check_ip_port env default_config [] (codes "1.2.3.4") (pos 1080) unknown

finds_socks4 : found.protocol ≡ socks4
unfolding found
finds_socks4 = refl

check_ip_port-IsCheckOf_example :
    IsCheckOf
      (codes "1.2.3.4")
      (pos 1080)
      unknown
      (check_ip_port env default_config [] (codes "1.2.3.4") (pos 1080) unknown)
check_ip_port-IsCheckOf_example =
    check_ip_port-IsCheckOf env default_config [] (codes "1.2.3.4") (pos 1080) unknown

-- Every number of the samples is one.
abbrev IsWhole : ℕ → Type 0
IsWhole x = Unit

whole_numbers_round : RoundsPercents whole_numbers IsWhole
whole_numbers_round = record {
  zero_number = tt;
  hundred_number = tt;
  zero_irrefl = refl;
  zero_below = refl;
  hundred_irrefl = refl;
  rounds = λ x n below above. (omega arith, ground (arith, above));
}

calculate_score_bounded_example :
    (pos 0 ≤ℤ calculate_score whole_numbers 9 live_proxy)
    × (calculate_score whole_numbers 9 live_proxy ≤ℤ pos 100)
calculate_score_bounded_example =
    calculate_score_bounded whole_numbers IsWhole whole_numbers_round 9 live_proxy tt
