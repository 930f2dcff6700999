-- ===== src/Commands/Scan/Tests.antt =====
-- The theorems on a scan at a concrete input.
use go_proxy.Base.{◌≡◌, refl, true, false, none, some, List, [], ◌∷◌}
use go_proxy.Base.Text.{codes, text_eq, ne_of_text_eq}
use go_proxy.Model.Proxy.{http, socks5, protocol_text}
use go_proxy.Model.Stats.{new_stats}
use go_proxy.Storage.Table.{Row, Table, row_of}
use go_proxy.Samples.{whole_numbers, machine, proxy_of, result_of}
use go_proxy.Commands.Scan.Defs.{ScanEvent, checked, received, ticked, run_scan, finish_scan}
use go_proxy.Storage.Exporter.{Exporter}
use go_proxy.Commands.Scan.Files.{Exports, finish_scan-Exports}
use go_proxy.Commands.Scan.Delivery.{live_checks, starting, Delivers, finish_scan-Delivers}

abbrev scanned : List ScanEvent
scanned =
    checked 7 (result_of http true)
    ∷ received 8
    ∷ checked 9 (result_of http false)
    ∷ checked 10 (result_of socks5 true)
    ∷ ticked 11
    ∷ checked 12 (result_of http true)
    ∷ []

abbrev http_row : Row
http_row = row_of (proxy_of (codes "1.2.3.4") 80 http true)

abbrev empty_table : Table
empty_table = record { rows = []; next_id = 1 }

-- Two of the four checks are successful ones of HTTP.
two_live_checks : live_checks whole_numbers http_row scanned ≡ 2
unfolding row_of text_eq protocol_text
two_live_checks = refl

finish_scan-Delivers_example : Delivers whole_numbers http_row scanned empty_table (
    finish_scan whole_numbers machine true 13
      (run_scan whole_numbers machine true scanned (starting (new_stats 0) none empty_table)))
finish_scan-Delivers_example =
    finish_scan-Delivers whole_numbers machine 13 scanned (new_stats 0) none empty_table http_row

-- An output directory without files.
abbrev new_output : Exporter
new_output = record {
  split_by_country = true;
  split_by_type = true;
  save_json = true;
  has_csv = false;
  handles = [];
  files = [];
}

finish_scan-Exports_example :
    Exports whole_numbers
      (codes "alive.txt")
      scanned
      new_output
      (starting (new_stats 0) (some new_output) empty_table)
      (finish_scan whole_numbers machine false 13 (
        run_scan whole_numbers machine false scanned
          (starting (new_stats 0) (some new_output) empty_table)))
unfolding text_eq
finish_scan-Exports_example =
    finish_scan-Exports whole_numbers machine false 13 (codes "alive.txt") refl
      (ne_of_text_eq _ _ refl) (ne_of_text_eq _ _ refl) scanned
      (starting (new_stats 0) (some new_output) empty_table) new_output refl
