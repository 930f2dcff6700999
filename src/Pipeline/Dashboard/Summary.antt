-- ===== src/Pipeline/Dashboard/Summary.antt =====
-- pkg/pipeline/dashboard.go, PrintFinalSummary.
use go_proxy.Base.{ℕ, List, [], ◌∷◌, ◌++◌}
use go_proxy.Base.Text.{Text, codes, format_nat, itoa}
use go_proxy.Base.Assoc.{Map}
use go_proxy.Model.Stats.{Snapshot}
use go_proxy.Pipeline.Dashboard.Pieces.{
  plain, cyan, green, yellow, red, Piece, Prints, repeat_text, frame, top_entries, join_entries,
}

-- The line with the countries of `PrintFinalSummary`
unfoldable pub summary_countries : Map ℕ → List Piece
unfolding top_entries join_entries
summary_countries [] = []
summary_countries (c ∷ cs) =
    (plain, codes "  " ++ (repeat_text 61 (226 ∷ 148 ∷ 128 ∷ []) ++ 10 ∷ []))
    ∷ (plain, codes "  Top Countries   : ")
    ∷ (yellow, join_entries (codes ": ") (codes " | ") (top_entries 10 (c ∷ cs)) ++ 10 ∷ [])
    ∷ []

abbrev line_of : Text → Text → Text
line_of name value = name ++ (value ++ 10 ∷ [])

-- `PrintFinalSummary` of a snapshot
unfoldable pub print_final_summary : Prints → Snapshot → List Piece
unfolding summary_countries format_nat itoa
print_final_summary d s =
    (plain, 10 ∷ [])
    ∷ (
      cyan,
      frame 148
          ++ (repeat_text 22 (frame 144)
              ++ (codes "  SCAN COMPLETE  "
                  ++ (repeat_text 22 (frame 144) ++ (frame 151 ++ 10 ∷ [])))),
    )
    ∷ (plain, line_of (codes "  Total Queued    : ") (format_nat s.total_queued))
    ∷ (plain, line_of (codes "  Total Scanned   : ") (format_nat s.total_scanned))
    ∷ (green, line_of (codes "  Total Alive     : ") (format_nat s.total_alive))
    ∷ (red, line_of (codes "  Total Dead      : ") (format_nat s.total_dead))
    ∷ (
      plain,
      line_of (codes "  Throughput      : ") (d.two_decimals s.speed_ips_sec ++ codes " IPs/sec"),
    )
    ∷ (plain, line_of (codes "  Duration        : ") (itoa s.uptime_seconds ++ codes " seconds"))
    ∷ (plain, codes "  " ++ (repeat_text 61 (226 ∷ 148 ∷ 128 ∷ []) ++ 10 ∷ []))
    ∷ (
      plain,
      line_of (codes "  Protocols       : ") (
          codes "HTTP: "
          ++ format_nat s.http_alive
          ++ codes " | HTTPS: "
          ++ format_nat s.https_alive
          ++ codes " | SOCKS5: "
          ++ format_nat s.socks5_alive
          ++ codes " | SOCKS4: "
          ++ format_nat s.socks4_alive),
    )
    ∷ (
      plain,
      line_of (codes "  Anonymity       : ") (
          codes "Elite: "
          ++ format_nat s.elite_alive
          ++ codes " | Anonymous: "
          ++ format_nat s.anonymous_alive
          ++ codes " | Transparent: "
          ++ format_nat s.transparent_alive),
    )
    ∷ (summary_countries s.top_countries
        ++ (cyan, frame 154 ++ (repeat_text 62 (frame 144) ++ (frame 157 ++ 10 ∷ []))) ∷ [])
