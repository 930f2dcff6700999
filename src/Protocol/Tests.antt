-- ===== src/Protocol/Tests.antt =====
-- Tests of pkg/protocol, and its theorems at concrete inputs.
use go_proxy.Base.{◌≡◌, ◌≢◌, ◌↔◌, refl, Bool, true, false, none, some, List, [], ◌∷◌, ◌++◌, length}
use go_proxy.Base.Int.{pos}
use go_proxy.Base.Text.{Text, codes, text_eq, ne_of_text_eq}
use go_proxy.Model.Proxy.{socks4}
use go_proxy.Samples.Network.{no_json, plain_packages, conn_with, socks4_conn, socks4_world}
use go_proxy.Net.Ip.{v4}
use go_proxy.Net.Public.{is_public_ip, IsReserved, is_public_ip-IsReserved}
use go_proxy.Protocol.Conn.{dial_failed, Conn, Run, failed, done}
use go_proxy.Protocol.Judge.Defs.{validate_judge_response, html_page}
use go_proxy.Protocol.Judge.Echo.{IsAccepted, validate_judge_response-IsAccepted}
use go_proxy.Protocol.Socks.Defs.{check_socks5, check_socks4, socks4_request, tunnel_probe}
use go_proxy.Protocol.Socks.Exchange.{Exchanged, IsHttpAnswer}
use go_proxy.Net.Ip.{byte_at}
use go_proxy.Protocol.Socks.Sound.{
  IsSocks5Dialogue, check_socks5-IsSocks5Dialogue, check_socks4_done,
}
use go_proxy.Protocol.Tunnel.Defs.{Response, judge_target, http_request, check_http}
use go_proxy.Protocol.Tunnel.Answer.{IsJudgement, check_http-IsJudgement}
use go_proxy.Protocol.Detect.Defs.{
  ok, err, detect_protocol, probe_protocol, probe_timeout, probe_order,
}
use go_proxy.Protocol.Detect.First.{IsFirst, detect_protocol-IsFirst}

abbrev plain_ip : Text
plain_ip = codes " 8.8.4.4 "

abbrev azenv_page : Text
azenv_page = codes "<html><pre>" ++ 10 ∷ (codes "REMOTE_ADDR = 1.2.3.4" ++ 10 ∷ codes "</pre>")

abbrev socks5_conn : Conn
socks5_conn = conn_with (
    (5 ∷ 0 ∷ 5 ∷ [])
    ∷ (0 ∷ 0 ∷ 1 ∷ 10 ∷ 0 ∷ 0 ∷ 1 ∷ 0 ∷ [])
    ∷ (80 ∷ [])
    ∷ codes "HTTP/1.1 301"
    ∷ [])

abbrev is_done : {A : Type 0} → Run A → Bool
is_done (failed e c) = false
is_done (done a c) = true

socks5_runs : is_done (check_socks5 (codes "1.1.1.1") 80 socks5_conn) ≡ true
unfolding check_socks5
socks5_runs = refl

-- The test for HTTP/ fails when only four bytes arrive at first.
short_first_segment :
    is_done (
      check_socks4 (codes "1.1.1.1") 80 (
        conn_with
          ((0 ∷ 90 ∷ 0 ∷ 80 ∷ 1 ∷ 1 ∷ 1 ∷ 1 ∷ []) ∷ codes "HTTP" ∷ codes "/1.1 200 OK" ∷ [])))
    ≡ false
unfolding check_socks4
short_first_segment = refl

html_rejected : validate_judge_response no_json [] (codes "<html>1.2.3.4") ≡ some html_page
unfolding validate_judge_response
html_rejected = refl

azenv_accepted : validate_judge_response no_json [] azenv_page ≡ none
unfolding validate_judge_response
azenv_accepted = refl

is_public_ip-IsReserved_example :
    (is_public_ip (some (v4 100 64 0 1)) ≡ false) ↔ IsReserved 100 64 0 1
is_public_ip-IsReserved_example = is_public_ip-IsReserved 100 64 0 1

validate_judge_response-IsAccepted_example :
    (validate_judge_response no_json [] plain_ip ≡ none) ↔ IsAccepted no_json [] plain_ip
validate_judge_response-IsAccepted_example = validate_judge_response-IsAccepted no_json [] plain_ip

-- The connection after a run.
abbrev after : {A : Type 0} → Run A → Conn
after (failed e c) = c
after (done a c) = c

abbrev target : Text
target = codes "1.1.1.1"

target_nonempty : target ≢ []
unfolding text_eq
target_nonempty = ne_of_text_eq target [] refl

socks5_done :
    check_socks5 target 80 socks5_conn ≡ done (pos 120) (after (check_socks5 target 80 socks5_conn))
unfolding check_socks5
socks5_done = refl

check_socks5-IsSocks5Dialogue_example :
    IsSocks5Dialogue target 80 socks5_conn (after (check_socks5 target 80 socks5_conn))
check_socks5-IsSocks5Dialogue_example =
    check_socks5-IsSocks5Dialogue target 80 socks5_conn (after (check_socks5 target 80 socks5_conn))
      (pos 120) target_nonempty socks5_done

socks4_done :
    check_socks4 target 80 socks4_conn ≡ done (pos 120) (after (check_socks4 target 80 socks4_conn))
unfolding check_socks4
socks4_done = refl

check_socks4_done_example :
    (reply : Text) × ((answer : Text) × ((length reply ≡ 8)
        × (byte_at 1 reply ≡ 90)
        × IsHttpAnswer answer
        × Exchanged socks4_conn
            (after (check_socks4 target 80 socks4_conn))
            (reply ++ answer)
            (socks4_request target 80 ∷ tunnel_probe ∷ [])))
check_socks4_done_example =
    check_socks4_done target 80 socks4_conn (after (check_socks4 target 80 socks4_conn)) (pos 120)
      target_nonempty socks4_done

http_conn : Conn
http_conn = conn_with (plain_ip ∷ [])

http_done :
    check_http plain_packages [] http_conn
    ≡ done (pos 120, plain_ip, []) (after (check_http plain_packages [] http_conn))
unfolding check_http http_conn
http_done = refl

check_http-IsJudgement_example :
    (r : Response) × ((rest : List Text) × ((plain_packages.read_response
            (codes "GET")
            http_conn.incoming
          ≡ some (r, rest))
        × IsJudgement no_json r [] plain_ip
        × ((after (check_http plain_packages [] http_conn)).sent
            ≡ http_conn.sent ++ http_request (judge_target plain_packages []) ∷ [])))
check_http-IsJudgement_example =
    check_http-IsJudgement plain_packages [] http_conn
      (after (check_http plain_packages [] http_conn)) (pos 120) plain_ip [] http_done

detects_socks4 :
    detect_protocol socks4_world plain_packages [] (pos 1080) [] (pos 5_000_000_000)
    ≡ ok (socks4, pos 120, [])
unfolding detect_protocol
detects_socks4 = refl

-- On port 443 SOCKS4 is not tried.
misses_socks4 :
    detect_protocol socks4_world plain_packages [] (pos 443) [] (pos 5_000_000_000)
    ≡ err dial_failed
unfolding detect_protocol
misses_socks4 = refl

detect_protocol-IsFirst_example :
    (detect_protocol socks4_world plain_packages [] (pos 1080) [] (pos 5_000_000_000)
      ≡ ok (socks4, pos 120, []))
    ↔ IsFirst socks4_world
        (λ p.
          probe_protocol socks4_world plain_packages p [] [] (probe_timeout (pos 5_000_000_000)))
        (probe_order (pos 1080))
        socks4
        (pos 120)
        []
detect_protocol-IsFirst_example =
    detect_protocol-IsFirst socks4_world plain_packages [] (pos 1080) [] (pos 5_000_000_000) socks4
      (pos 120) []
