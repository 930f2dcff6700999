-- ===== src/Storage/Tests.antt =====
-- Tests of pkg/storage, and its theorems at concrete inputs.
use mathlib.Core.List.{reverse}
use go_proxy.Base.{
  ◌+◌, ◌≤◌, ◌≡◌, refl, Bool, true, false, not, Option, none, some, List, [], ◌∷◌, ◌++◌, arith,
  length, All,
}
use go_proxy.Base.Int.{pos}
use go_proxy.Base.Text.{codes, text_eq, ne_of_text_eq}
use go_proxy.Base.Assoc.{lookup}
use go_proxy.Model.Proxy.{Proxy, protocol_text}
use go_proxy.Samples.{whole_numbers, live_proxy, dead_proxy, machine}
use go_proxy.Storage.Table.{
  select_rows, limit_of, count_by_country, Row, Table, row_of, stamp, same_key, upsert, flush_rows,
  purge_dead_proxies, ProxyFilter,
}
use go_proxy.Storage.Table.Upsert.{
  IsValid, merge_all, lives, tally, failures_in_a_row, find, flush_rows-IsValid, merge_all-counts,
}
use go_proxy.Storage.Table.Batch.{IsCell, updates_of, flush_rows-IsCell}
use go_proxy.Storage.Table.Purge.{Purges, purge_dead_proxies-Purges}
use go_proxy.Storage.Table.Search.{Meets, IsRanked, select_rows_sound}
use go_proxy.Storage.Table.Countries.{IsRanking, limit_or_ten, count_by_country-IsRanking}
use go_proxy.Storage.Setup.{
  Statement, add_judge_count, add_speed_kbps, schema, execute_all, execute_each, init_schema,
}
use go_proxy.Storage.Committer.{close}
use go_proxy.Storage.Committer.Conservation.{
  Action, submit, received, ticked, flushed, run, submitted, empty_store, failures, log_batch,
  log_single, close_commits_all,
}
use go_proxy.Storage.Committer.Conservation
use go_proxy.Storage.Exporter.{Exporter, content, sync_alive_files}
use go_proxy.Storage.Exporter.Lines.{lines_for}
use go_proxy.Storage.Exporter.Contents.{
  synced, live_entries, write_each, content-sync_alive_files, write_each-eq-sync_alive_files,
}

abbrev no_rows : Table
no_rows = record { rows = []; next_id = 1 }

abbrev batch : List Proxy
batch = live_proxy ∷ dead_proxy ∷ live_proxy ∷ []

abbrev stored : Table
stored = flush_rows whole_numbers 9 batch no_rows

no_rows-IsValid : IsValid no_rows
no_rows-IsValid = record { unique = tt; below = tt }

two_rows : length stored.rows ≡ 2
unfolding flush_rows upsert row_of stamp same_key text_eq protocol_text
two_rows = refl

abbrev checks : List Row
checks = row_of live_proxy ∷ row_of dead_proxy ∷ row_of dead_proxy ∷ []

merge_all-counts_example :
    ((merge_all whole_numbers (row_of live_proxy) checks).success_checks
      ≡ (row_of live_proxy).success_checks + tally lives checks)
    × ((merge_all whole_numbers (row_of live_proxy) checks).failed_checks
        ≡ (row_of live_proxy).failed_checks + tally (λ x. not (lives x)) checks)
    × ((merge_all whole_numbers (row_of live_proxy) checks).consecutive_fail
        ≡ failures_in_a_row (row_of live_proxy).consecutive_fail (reverse checks))
unfolding row_of
merge_all-counts_example = merge_all-counts whole_numbers (row_of live_proxy) checks (omega arith)

purge_dead_proxies-Purges_example : Purges 5 100 9 stored (purge_dead_proxies 5 100 9 stored)
purge_dead_proxies-Purges_example = purge_dead_proxies-Purges 5 100 9 stored stored-IsValid
  where
    stored-IsValid : IsValid stored
    stored-IsValid = flush_rows-IsValid whole_numbers 9 batch no_rows no_rows-IsValid

flush_rows-IsCell_example :
    IsCell whole_numbers stored.next_id
      (find (row_of live_proxy) stored.rows)
      (updates_of (row_of live_proxy) 20 batch)
      (find (row_of live_proxy) (flush_rows whole_numbers 20 batch stored).rows)
flush_rows-IsCell_example = flush_rows-IsCell whole_numbers 20 (row_of live_proxy) batch stored

abbrev vietnamese : ProxyFilter
vietnamese = record {
  protocol = codes "all";
  country_code = codes "vn";
  anonymity = [];
  min_score = pos 50;
  max_latency = pos 0;
  only_alive = true;
  limit = pos 20;
  offset = pos 0;
}

abbrev actions : List Action
actions =
    submit 1 live_proxy
    ∷ submit 2 dead_proxy
    ∷ received 3
    ∷ ticked 4
    ∷ submit 5 live_proxy
    ∷ flushed 6
    ∷ []

abbrev is_live : Proxy → Bool
is_live p = p.is_alive

-- The first transaction to come fails.
close_commits_all_example :
    let s = close log_batch log_single 9 (run actions (empty_store (false ∷ []))) in
    (s.queue ≡ [])
    × (s.buffer ≡ [])
    × (Conservation.tally is_live s.db.committed + Conservation.tally_lists is_live s.db.lost
        ≡ Conservation.tally is_live (submitted actions))
    × (length s.db.lost + failures s.db.fates ≡ 1)
close_commits_all_example = close_commits_all is_live (false ∷ []) 9 actions

abbrev output : Exporter
output = record {
  split_by_country = true;
  split_by_type = true;
  save_json = true;
  has_csv = false;
  handles = [];
  files = [];
}

content-sync_alive_files_example :
    content (codes "fast.txt") (sync_alive_files machine batch output)
    ≡ synced
        (lines_for (codes "fast.txt") (live_entries true true batch))
        (content (codes "fast.txt") output)
content-sync_alive_files_example =
    content-sync_alive_files machine (codes "fast.txt") batch output refl

write_each-eq-sync_alive_files_example :
    content (codes "countries/VN.txt") (write_each machine (live_proxy ∷ []) output)
    ≡ content (codes "countries/VN.txt") (sync_alive_files machine (live_proxy ∷ []) output)
unfolding text_eq lookup
write_each-eq-sync_alive_files_example =
    write_each-eq-sync_alive_files machine (codes "countries/VN.txt") refl (ne_of_text_eq _ _ refl)
      (ne_of_text_eq _ _ refl) (live_proxy ∷ []) output refl (refl, tt)

-- The columns exist already, so the migrations fail, and the store opens all the same.
migrated_before : Statement → List Statement → Option (List Statement)
migrated_before add_judge_count d = none
migrated_before add_speed_kbps d = none
migrated_before s d = some (d ++ s ∷ [])

schema_of_old_file : init_schema migrated_before [] ≡ some schema
unfolding init_schema execute_all execute_each migrated_before
schema_of_old_file = refl

count_by_country-IsRanking_example :
    IsRanking (limit_or_ten (pos 2)) stored (count_by_country (pos 2) stored)
count_by_country-IsRanking_example = count_by_country-IsRanking (pos 2) stored

select_rows_sound_example :
    All (Meets vietnamese) (select_rows vietnamese stored)
    × IsRanked (select_rows vietnamese stored)
    × (length (select_rows vietnamese stored) ≤ limit_of vietnamese)
select_rows_sound_example = select_rows_sound vietnamese stored
