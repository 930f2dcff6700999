-- ===== src/Storage/Table/Defs.antt =====
-- pkg/storage/sqlite.go: the rows, and the statements that write them. A statement is read as SQL
-- defines it; the time of the call is an argument.
use go_proxy.Base.{
  ℕ, ◌+◌, Bool, true, false, not, ◌&&◌, ◌||◌, List, [], ◌∷◌, ltb, leb, ◌==◌, if◌then◌else◌, filter,
  length,
}
use go_proxy.Base.Int.{ℤ, pos, eqb_ℤ}
use go_proxy.Base.Text.{Text, text_eq}
use go_proxy.Base.Float.{Float64, FloatOps}
use go_proxy.Model.Proxy.{Time, is_zero_time, Proxy, protocol_text, anonymity_text}

pub record Row : Type 0 where
  pub id : ℕ
  pub ip : Text
  pub port : ℤ
  pub protocol : Text
  pub anonymity : Text
  pub country : Text
  pub country_code : Text
  pub city : Text
  pub asn : Text
  pub org : Text
  pub latency_ms : ℤ
  pub ssl : ℕ
  pub target_ok : ℕ
  pub score : ℤ
  pub uptime_percent : Float64
  pub success_checks : ℕ
  pub failed_checks : ℕ
  pub consecutive_fail : ℕ
  pub judge_count : ℕ
  pub speed_kbps : Float64
  pub last_alive : Time
  pub last_checked : Time
  pub first_seen : Time
  pub is_alive : ℕ

pub record Table : Type 0 where
  pub rows : List Row
  pub next_id : ℕ

-- UNIQUE(ip, port, protocol)
unfoldable pub same_key : Row → Row → Bool
same_key a b = text_eq a.ip b.ip && eqb_ℤ a.port b.port && text_eq a.protocol b.protocol

abbrev pub int_of_bool : Bool → ℕ
int_of_bool true = 1
int_of_bool false = 0

-- The assignments to the proxy that come before the statement.
unfoldable pub stamp : Time → Proxy → Proxy
stamp now p = record p {
  first_seen = if is_zero_time p.first_seen then now else p.first_seen;
  last_checked = now;
  last_alive = if p.is_alive then now else p.last_alive;
}

-- The values of the INSERT, with the defaults of the columns that it does not name.
unfoldable pub row_of : Proxy → Row
row_of p = record {
  id = 0;
  ip = p.ip;
  port = p.port;
  protocol = protocol_text p.protocol;
  anonymity = anonymity_text p.anonymity;
  country = p.country;
  country_code = p.country_code;
  city = p.city;
  asn = p.asn;
  org = p.org;
  latency_ms = p.latency_ms;
  ssl = int_of_bool p.ssl;
  target_ok = int_of_bool p.target_ok;
  score = p.score;
  uptime_percent = p.uptime_percent;
  success_checks = p.success_checks;
  failed_checks = p.failed_checks;
  consecutive_fail = p.consecutive_fail;
  judge_count = 1;
  speed_kbps = 0;
  last_alive = p.last_alive;
  last_checked = p.last_checked;
  first_seen = p.first_seen;
  is_alive = int_of_bool p.is_alive;
}

-- CASE WHEN excluded.is_alive = v THEN 1 ELSE 0 END
abbrev pub alive_case : ℕ → Row → ℕ
alive_case v x = if x.is_alive == v then 1 else 0

-- ON CONFLICT DO UPDATE: the row `r` of the table, given the row `x` that was to be inserted.
unfoldable pub merge : FloatOps → Row → Row → Row
merge f r x = record r {
  anonymity = x.anonymity;
  country = x.country;
  country_code = x.country_code;
  city = x.city;
  asn = x.asn;
  org = x.org;
  latency_ms = x.latency_ms;
  ssl = x.ssl;
  target_ok = x.target_ok;
  score = x.score;
  success_checks = r.success_checks + alive_case 1 x;
  failed_checks = r.failed_checks + alive_case 0 x;
  consecutive_fail = if x.is_alive == 1 then 0 else r.consecutive_fail + 1;
  uptime_percent = f.round2 (
      f.mul
        (f.div (f.of_int (pos (r.success_checks + alive_case 1 x)))
          (f.of_int (pos (r.success_checks + r.failed_checks + 1))))
        (f.decimal 1000 1));
  last_alive = if x.is_alive == 1 then x.last_alive else r.last_alive;
  last_checked = x.last_checked;
  is_alive = x.is_alive;
}

-- The rows after the statement: the row with the key of `x` is merged with `x`, or `x` comes last
-- with the next id.
unfoldable pub upsert_rows : FloatOps → ℕ → Row → List Row → List Row
upsert_rows f next x [] = record x { id = next } ∷ []
upsert_rows f next x (r ∷ rs) =
    if same_key r x then merge f r x ∷ rs else r ∷ upsert_rows f next x rs

unfoldable pub upsert : FloatOps → Row → Table → Table
unfolding upsert_rows
upsert f x t = record { rows = upsert_rows f t.next_id x t.rows; next_id = t.next_id + 1 }

-- The loop of `flushBatch` over the proxies of a batch.
unfoldable pub flush_rows : FloatOps → Time → List Proxy → Table → Table
flush_rows f now [] t = t
flush_rows f now (p ∷ ps) t = flush_rows f now ps (upsert f (row_of (stamp now p)) t)

-- `flushBatch`: the transaction commits, or nothing of it is written (Begin, Prepare or Commit
-- returns an error, and the batch is dropped).
unfoldable pub flush_batch : FloatOps → Bool → Time → List Proxy → Table → Table
unfolding flush_rows
flush_batch f commits now [] t = t
flush_batch f commits now (p ∷ ps) t = if commits then flush_rows f now (p ∷ ps) t else t

-- `commitSingleProxy`: the new table, and whether the error is nil.
unfoldable pub commit_single_proxy : FloatOps → Bool → Time → Proxy → Table → Table × Bool
commit_single_proxy f commits now p t =
    if commits then (upsert f (row_of (stamp now p)) t, true) else (t, false)

-- The WHERE clause of `PurgeDeadProxies`, for the cutoff `now - older_than`.
unfoldable pub is_purged : ℕ → ℕ → Time → Row → Bool
is_purged max_fail older_than now r =
    r.is_alive == 0 && (leb max_fail r.consecutive_fail || ltb (r.last_alive + older_than) now)

-- `PurgeDeadProxies`: the new table and the number of rows deleted.
unfoldable pub purge_dead_proxies : ℕ → ℕ → Time → Table → Table × ℕ
unfolding is_purged
purge_dead_proxies max_fail older_than now t = (
  record t { rows = filter (λ r. not (is_purged max_fail older_than now r)) t.rows },
  length (filter (is_purged max_fail older_than now) t.rows),
)
