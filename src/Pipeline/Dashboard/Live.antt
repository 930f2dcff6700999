-- ===== src/Pipeline/Dashboard/Live.antt =====
-- pkg/pipeline/dashboard.go, StartLiveDashboard and printDashboard.
use go_proxy.Base.{ℕ, ◌-◌, Option, none, some, List, [], ◌∷◌, ◌++◌, ltb, if◌then◌else◌}
use mathlib.Core.Option
use go_proxy.Base.Int.{ℤ, pos, ltb_ℤ, leb_ℤ, ◌-ℤ◌}
use go_proxy.Base.Float.{Float64, FloatOps}
use go_proxy.Base.Text.{Text, codes, format_nat}
use go_proxy.Model.Proxy.{Time}
use go_proxy.Model.Stats.{Stats, speed, push_history_point}
use go_proxy.Pipeline.Dashboard.Pieces.{
  plain, bold, cyan, green, yellow, red, magenta, blue, white, dim, Colour, Piece, Prints,
  pad_right, wall, column, rule, mod_sixty, two_digits, speed_bar, get_top_countries,
}

-- `%-10d` of a counter, after its name
abbrev cell : Colour → Text → ℕ → ℕ → Piece
cell colour name width n = (colour, name ++ pad_right width (format_nat n))

abbrev wall_in : Piece
wall_in = (cyan, codes "  " ++ (wall ++ codes "  "))

abbrev wall_out : Text → Piece
wall_out gap = (cyan, gap ++ (wall ++ 10 ∷ []))

module _ (f : FloatOps) where
  -- `int(speed / maxSpeed * 50)`, at most 50
  unfoldable pub bar_length : Float64 → ℤ
  bar_length x =
      let n = f.to_int (f.mul (f.div x (f.decimal 50000 1)) (f.decimal 50 0)) in
      if ltb_ℤ (pos 50) n then pos 50 else n

  -- The share of live proxies, in percent.
  unfoldable pub alive_rate : Stats → Float64
  alive_rate s =
      if ltb 0 s.total_scanned
      then f.mul (f.div (f.of_int (pos s.total_alive)) (f.of_int (pos s.total_scanned)))
          (f.decimal 1000 1)
      else f.decimal 0 1

  -- The lines of `printDashboard` up to the countries, from the time since the start: what
  -- `elapsed.Minutes()` gives is `minutes`.
  unfoldable pub head_rows : Prints → (ℤ → Float64) → ℤ → Float64 → List Piece
  unfolding two_digits mod_sixty pad_right
  head_rows d minutes elapsed rate =
      (plain, 10 ∷ [])
      ∷ (cyan, codes "  " ++ rule 148 151 70)
      ∷ (cyan, codes "  " ++ wall)
      ∷ (bold, codes "  " ++ pad_right 20 (codes "  GoProxy 2026 Pro"))
      ∷ (
        white,
        column
            ++ (codes "Runtime: "
                ++ (two_digits (f.to_int (f.hours elapsed))
                    ++ (b':'
                        ∷ (two_digits (mod_sixty (f.to_int (minutes elapsed)))
                            ++ (b':'
                                ∷ (two_digits (mod_sixty (f.to_int (f.seconds elapsed)))
                                    ++ (32 ∷ (column ++ codes "Speed: ")))))))),
      )
      ∷ (green, pad_right 10 (d.whole_number rate ++ codes "/s"))
      ∷ wall_out (codes "              ")
      ∷ (cyan, codes "  " ++ rule 160 163 70)
      ∷ []

  -- The rows of the counters; the queue is never negative.
  unfoldable pub counter_rows : Prints → Stats → List Piece
  unfolding pad_right alive_rate
  counter_rows d s =
      wall_in
      ∷ cell yellow (codes "Scanned: ") 10 s.total_scanned
      ∷ cell green (column ++ codes "Alive: ") 8 s.total_alive
      ∷ (dim, b'(' ∷ (d.one_decimal (alive_rate s) ++ codes "%)"))
      ∷ cell red (column ++ codes "Dead: ") 8 s.total_dead
      ∷ cell white (column ++ codes "Queue: ") 7 (s.total_queued - s.total_scanned)
      ∷ wall_out (codes "  ")
      ∷ wall_in
      ∷ cell blue (codes "HTTP: ") 7 s.http_alive
      ∷ cell cyan (column ++ codes "HTTPS: ") 6 s.https_alive
      ∷ cell magenta (column ++ codes "SOCKS5: ") 6 s.socks5_alive
      ∷ cell yellow (column ++ codes "SOCKS4: ") 6 s.socks4_alive
      ∷ (white, codes "                 ")
      ∷ wall_out []
      ∷ wall_in
      ∷ cell green (codes "Elite: ") 8 s.elite_alive
      ∷ cell yellow (column ++ codes "Anonymous: ") 5 s.anonymous_alive
      ∷ cell red (column ++ codes "Transparent: ") 4 s.transparent_alive
      ∷ (white, codes "                   ")
      ∷ wall_out []
      ∷ []

  -- The rows with the countries and with the bar, whose halves are given.
  unfoldable pub tail_rows : Prints → Text → Float64 → Text × Text → List Piece
  unfolding pad_right
  tail_rows d countries rate (before, after) =
      wall_in
      ∷ (white, codes "Top: " ++ pad_right 61 countries)
      ∷ wall_out []
      ∷ wall_in
      ∷ (white, codes "Speed [")
      ∷ (green, before)
      ∷ (dim, after)
      ∷ (white, codes "] ")
      ∷ (green, d.whole_number rate ++ codes "/s")
      ∷ wall_out (codes "     ")
      ∷ (cyan, codes "  " ++ rule 154 157 70)
      ∷ []

  abbrev pub with_bar :
      List Piece → (Text × Text → List Piece) → Option (Text × Text) → Option (List Piece)
  with_bar rows tail none = none
  with_bar rows tail (some b) = some (rows ++ tail b)

  -- `printDashboard` at the time `now`, after the cursor is moved to the corner; `none` is a panic.
  unfoldable pub print_dashboard : Prints → (ℤ → Float64) → Time → Stats → Option (List Piece)
  unfolding speed bar_length speed_bar head_rows counter_rows tail_rows get_top_countries
  print_dashboard d minutes now s =
      let rate = speed f now s in
      with_bar
        ((plain, 27 ∷ codes "[H")
          ∷ (head_rows d minutes (pos now -ℤ pos s.start_time) rate ++ counter_rows d s))
        (tail_rows d (get_top_countries 6 s.country_counts) rate) (speed_bar (bar_length rate))

  abbrev pub with_stats : Prints → (ℤ → Float64) → Time → Option Stats → Option (Stats × List Piece)
  unfolding print_dashboard
  with_stats d minutes now none = none
  with_stats d minutes now (some s) = Option.map (λ ps. (s, ps)) (print_dashboard d minutes now s)

  -- A tick of the goroutine of `StartLiveDashboard`.
  unfoldable pub dashboard_tick :
      Prints → (ℤ → Float64) → Time → Stats → Option (Stats × List Piece)
  unfolding push_history_point
  dashboard_tick d minutes now s = with_stats d minutes now (push_history_point f now s)

-- The interval of `StartLiveDashboard`
unfoldable pub dashboard_interval : ℤ → ℤ
dashboard_interval interval = if leb_ℤ interval (pos 0) then pos 500_000_000 else interval
