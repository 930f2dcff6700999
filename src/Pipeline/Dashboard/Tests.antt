-- ===== src/Pipeline/Dashboard/Tests.antt =====
-- Tests of the dashboard and the report.
use go_proxy.Base.{◌≡◌, refl, none, some, [], ◌∷◌, length, ℕ}
use mathlib.Core.Option
use go_proxy.Base.Int.{pos, negsuc}
use go_proxy.Base.Text.{codes, format_nat}
use go_proxy.Base.Assoc.{Map}
use go_proxy.Pipeline.Dashboard.Pieces.{
  pad_right, speed_bar, two_digits, mod_sixty, get_top_countries, top_entries, join_entries,
}
use go_proxy.Pipeline.Dashboard.Live.{dashboard_interval}

abbrev three_countries : Map ℕ
three_countries = (codes "VN", 2) ∷ (codes "US", 7) ∷ (codes "DE", 4) ∷ []

two_highest : get_top_countries 2 three_countries ≡ codes "US:7  DE:4"
unfolding get_top_countries top_entries join_entries format_nat
two_highest = refl

cell_of_five : pad_right 5 (codes "ab") ≡ codes "ab   "
unfolding pad_right
cell_of_five = refl

-- The green part of the bar is as many bytes as there are full blocks, a third of their text.
green_part : Option.map (λ b. length b.0) (speed_bar (pos 30)) ≡ some 30
unfolding speed_bar
green_part = refl

negative_bar : speed_bar (negsuc 0) ≡ none
unfolding speed_bar
negative_bar = refl

seconds_of_runtime : two_digits (mod_sixty (pos 3605)) ≡ codes "05"
unfolding two_digits mod_sixty format_nat
seconds_of_runtime = refl

default_interval : dashboard_interval (pos 0) ≡ pos 500_000_000
unfolding dashboard_interval
default_interval = refl
