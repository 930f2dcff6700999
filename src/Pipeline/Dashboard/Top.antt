-- ===== src/Pipeline/Dashboard/Top.antt =====
-- pkg/pipeline/dashboard.go: which countries the dashboard and the report name.
use go_proxy.Base.{ℕ, ◌≡◌, refl, [], ◌∷◌, ◌++◌, take, get_elem?, some}
use go_proxy.Base.Text.{Text, codes}
use go_proxy.Base.Assoc.{Map}
use go_proxy.Base.Counts.{order_counts, IsTop, take-order_counts-IsTop}
use go_proxy.Pipeline.Dashboard.Pieces.{top_entries, join_entries, get_top_countries, yellow}
use go_proxy.Pipeline.Dashboard.Summary.{summary_countries}

-- What the dashboard and the report show of the counts by country.
pub record ShowsTop (n : ℕ) (counts : Map ℕ) : Type 0 where
  pub live : Map ℕ
  pub live-IsTop : IsTop n counts live
  pub live_text : get_top_countries n counts ≡ join_entries (codes ":") (codes "  ") live
  pub final : Map ℕ
  pub final-IsTop : IsTop 10 counts final
  pub final_text :
      get_elem? (summary_countries counts) 2
      ≡ some (yellow, join_entries (codes ": ") (codes " | ") final ++ 10 ∷ [])

-- When there are counts by country, the dashboard writes the `n` countries with the highest
-- counts in falling order, each as name:count, and the report at the end writes the 10 highest.
top_countries-ShowsTop : (n : ℕ) (c : Text × ℕ) (cs : Map ℕ) → ShowsTop n (c ∷ cs)
unfolding get_top_countries summary_countries top_entries
top_countries-ShowsTop n c cs = record {
  live = take n (order_counts (c ∷ cs));
  live-IsTop = take-order_counts-IsTop n (c ∷ cs);
  live_text = refl;
  final = take 10 (order_counts (c ∷ cs));
  final-IsTop = take-order_counts-IsTop 10 (c ∷ cs);
  final_text = refl;
}
