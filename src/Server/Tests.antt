-- ===== src/Server/Tests.antt =====
-- Tests of pkg/server, and its theorems at concrete inputs.
use go_proxy.Base.{◌≡◌, refl, true, none, All, [], ◌∷◌}
use go_proxy.Base.Int.{pos}
use go_proxy.Base.Text.{Text, text_eq, is_space, codes, contains, cut, is_digit}
use go_proxy.Net.Header.{Header}
use go_proxy.Net.Ip.{parse_ip}
use go_proxy.Net.Public.{is_public_ip}
use go_proxy.Storage.Table.{Table, flush_rows}
use go_proxy.Samples.{whole_numbers, live_proxy, dead_proxy}
use go_proxy.Protocol.Judge.Defs.{names_public_ip, extract_azenv_ip}
use go_proxy.Server.Pool.{found, limit_or, handle_random}
use go_proxy.Server.Check.{test_target}
use go_proxy.Server.Routes.{stats_history, dashboard, route_of, api_address}
use go_proxy.Base.Assoc.{lookup}
use go_proxy.Server.Pool.Random.{IsRandomAnswer, handle_random-IsRandomAnswer}
use go_proxy.Server.Echo.{azenv_body, judge_azenv_body, azenv_name}
use go_proxy.Server.Echo.Readback.{IsPlain, extract_azenv_ip-azenv_body}

-- A request without parameters.
abbrev no_query : Text → Text
no_query name = []

abbrev pool_table : Table
pool_table =
    flush_rows whole_numbers 9 (live_proxy ∷ dead_proxy ∷ []) (record { rows = []; next_id = 1 })

handle_random-IsRandomAnswer_example :
    IsRandomAnswer no_query pool_table (handle_random no_query 7 (found pool_table))
handle_random-IsRandomAnswer_example = handle_random-IsRandomAnswer no_query 7 pool_table

abbrev client : Text
client = codes "8.8.8.8"

abbrev fields : Header
fields = (codes "User-Agent", codes "curl" ∷ []) ∷ []

client_is_public : names_public_ip client ≡ true
unfolding names_public_ip parse_ip is_public_ip
client_is_public = refl

client-IsPlain : All IsPlain client
unfolding is_space
client-IsPlain = (
  (refl, refl),
  (
    (refl, refl),
    ((refl, refl), ((refl, refl), ((refl, refl), ((refl, refl), ((refl, refl), tt))))),
  ),
)

extract_azenv_ip-azenv_body_example :
    (extract_azenv_ip (azenv_body client fields) ≡ client)
    × (extract_azenv_ip (judge_azenv_body client fields) ≡ client)
extract_azenv_ip-azenv_body_example =
    extract_azenv_ip-azenv_body client fields client-IsPlain client_is_public

field_name : azenv_name (codes "User-Agent") ≡ codes "HTTP_USER_AGENT"
unfolding azenv_name
field_name = refl

-- A port that is no port is taken as it is.
port_not_tested : (test_target (λ s. none) (codes "1.2.3.4:99999")).port ≡ pos 99999
unfolding test_target contains cut is_digit
port_not_tested = refl

limit_too_large : limit_or (pos 100) (pos 5000) (pos 5001) ≡ pos 100
limit_too_large = refl

history_is_no_prefix : route_of (codes "/api/v1/stats/history") ≡ stats_history
unfolding route_of lookup text_eq
history_is_no_prefix = refl

other_paths : route_of (codes "/api/v1/top/") ≡ dashboard
unfolding route_of lookup text_eq
other_paths = refl

any_interface : api_address [] ≡ codes ":8080"
unfolding api_address
any_interface = refl
