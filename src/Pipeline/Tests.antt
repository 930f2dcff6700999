-- ===== src/Pipeline/Tests.antt =====
-- Tests of pkg/pipeline, and its theorems at concrete inputs.
use go_proxy.Base.{All, ◌≡◌, refl, false, none, some, List, [], ◌∷◌, arith}
use go_proxy.Base.Int.{pos}
use go_proxy.Base.Text.{Text, codes, text_eq, trim_space, is_digit, is_space, itoa}
use go_proxy.Model.Proxy.{http, protocol_text, address, url_string}
use go_proxy.Samples.{live_proxy}
use go_proxy.Pipeline.Jobs.Readback.{IsHostByte, parse_line_to_job-url_string}
use go_proxy.Pipeline.Jobs.Defs.{Parsers, parse_line_to_job}
use go_proxy.Pipeline.Jobs.Forms.{IsJobOf, parse_line_to_job-IsJobOf}
use go_proxy.Base.Assoc.{lookup, insert}
use go_proxy.Pipeline.Dedup.{Deduplicator, new_deduplicator, check_and_set, fnv32}
use go_proxy.Pipeline.Dedup.Shards.{
  IsValid, last_seen, unexpired, check_and_set-IsValid, Decides, check_and_set-Decides,
  new_deduplicator-IsValid,
}
use go_proxy.Pipeline.Dedup.Window.{Event, request, tick, run, accepted_once}

abbrev fresh : Deduplicator
fresh = new_deduplicator (pos 100)

abbrev target : Text
target = codes "1.2.3.4:80:http"

-- The published value of the hash of "a".
fnv32_a : fnv32 (codes "a") ≡ 0xe40c292c
unfolding fnv32
fnv32_a = refl

check_and_set-Decides_example : Decides 7 target fresh (check_and_set 7 target fresh)
check_and_set-Decides_example =
    check_and_set-Decides 7 target fresh (new_deduplicator-IsValid (pos 100))

abbrev between : List Event
between = request 20 (codes "5.6.7.8:80:http") ∷ tick 30 ∷ request 40 target ∷ []

accepted_once_example :
    (check_and_set 99 target (run between (check_and_set 7 target fresh).1)).0 ≡ false
unfolding check_and_set new_deduplicator fnv32 lookup
accepted_once_example =
    accepted_once 7 99 target between fresh (new_deduplicator-IsValid (pos 100)) refl (omega arith)
      (omega arith)

once : Deduplicator
once = (check_and_set 7 target fresh).1

once-IsValid : IsValid once
unfolding once
once-IsValid = check_and_set-IsValid 7 target fresh (new_deduplicator-IsValid (pos 100))

expired_at_107 : unexpired once.window 107 (last_seen once target) ≡ none
unfolding once check_and_set new_deduplicator fnv32 lookup insert text_eq
expired_at_107 = refl

-- A reader of addresses for the tests: no URL, and one host with its port.
abbrev parsers : Parsers
parsers = record {
  parse_url = λ s. some (codes "HTTP", codes "1.2.3.4:99999");
  split_host_port = λ s. some (codes "1.2.3.4", codes "99999");
}

-- The port of an address with a scheme is not tested.
big_port :
    parse_line_to_job parsers (codes "HTTP://1.2.3.4:99999") (pos 80) http
    ≡ some (record { ip = codes "1.2.3.4"; port = pos 99999; protocol = http })
unfolding parse_line_to_job text_eq is_digit
big_port = refl

parse_line_to_job-IsJobOf_example :
    IsJobOf parsers
      (trim_space (codes "HTTP://1.2.3.4:99999"))
      (pos 80)
      http
      (record { ip = codes "1.2.3.4"; port = pos 99999; protocol = http })
parse_line_to_job-IsJobOf_example =
    parse_line_to_job-IsJobOf parsers (codes "HTTP://1.2.3.4:99999") (pos 80) http
      (record { ip = codes "1.2.3.4"; port = pos 99999; protocol = http }) big_port

-- A reader that splits the lines of the live proxy of the samples.
abbrev live_parsers : Parsers
live_parsers = record {
  parse_url = λ s. some (codes "socks5", codes "1.2.3.4:1080");
  split_host_port = λ s. some (codes "1.2.3.4", codes "1080");
}

port_in_print : itoa (pos 1080) ≡ codes "1080"
unfolding itoa
port_in_print = refl

host-IsHostByte : All IsHostByte (codes "1.2.3.4")
unfolding is_space
host-IsHostByte = (
  (refl, refl),
  (
    (refl, refl),
    ((refl, refl), ((refl, refl), ((refl, refl), ((refl, refl), ((refl, refl), tt))))),
  ),
)

split_live :
    live_parsers.split_host_port (address live_proxy) ≡ some (live_proxy.ip, itoa (pos 1080))
split_live = rw port_in_print refl

url_live :
    live_parsers.parse_url (url_string live_proxy)
    ≡ some (protocol_text live_proxy.protocol, address live_proxy)
unfolding address protocol_text
url_live = rw port_in_print refl

parse_line_to_job-url_string_example :
    (parse_line_to_job live_parsers (address live_proxy) (pos 80) http
      ≡ some (record { ip = live_proxy.ip; port = live_proxy.port; protocol = http }))
    × (parse_line_to_job live_parsers (url_string live_proxy) (pos 80) http
        ≡ some
            (record { ip = live_proxy.ip; port = live_proxy.port; protocol = live_proxy.protocol }))
parse_line_to_job-url_string_example =
    parse_line_to_job-url_string live_parsers live_proxy 1080 (pos 80) http tt refl (omega arith)
      (omega arith) (omega arith) host-IsHostByte split_live url_live
