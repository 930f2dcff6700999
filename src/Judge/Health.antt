-- ===== src/Judge/Health.antt =====
-- pkg/judge/judge.go, GetHostPublicIP, ResolveJudgeURL, NewEvaluator, checkAllJudges,
-- extractIPFromBody and GetMyPublicIP.
use go_proxy.Base.{
  Bool, true, false, not, ◌&&◌, Option, none, some, List, [], ◌∷◌, ◌++◌, if◌then◌else◌,
}
use go_proxy.Base.Int.{ℤ, pos}
use go_proxy.Base.Float.{FloatOps}
use go_proxy.Base.Text.{
  Text, codes, is_empty, has_prefix, trim_prefix_byte, trim_space, cut, replace_all,
}
use go_proxy.Net.Ip.{Ip, parse_ip}
use go_proxy.Protocol.Judge.Defs.{Json}
use go_proxy.Judge.Defs.{JudgeEntry}

-- A network interface: whether its address is a loopback address or has 4 bytes, and its text.
pub record Interface : Type 0 where
  pub loopback : Bool
  pub four_bytes : Bool
  pub text : Text

abbrev pub parses : Option Ip → Bool
parses none = false
parses (some ip) = true

-- The loop over the interfaces.
unfoldable pub interface_address : List Interface → Text
interface_address [] = codes "127.0.0.1"
interface_address (i ∷ is) =
    let rest = interface_address is in if not i.loopback && i.four_bytes then i.text else rest

-- `GetHostPublicIP` the first time: what the endpoints answer with status 200, in their order,
-- and the interfaces (none on an error).
unfoldable pub get_host_public_ip : List (Option Text) → List Interface → Text
unfolding interface_address parse_ip trim_space
get_host_public_ip [] interfaces = interface_address interfaces
get_host_public_ip (none ∷ answers) interfaces = get_host_public_ip answers interfaces
get_host_public_ip (some body ∷ answers) interfaces =
    let rest = get_host_public_ip answers interfaces in
    if parses (parse_ip (trim_space body)) then trim_space body else rest

abbrev pub port_or_default : Text → Text
port_or_default port = if is_empty port then codes "8080" else port

-- `ResolveJudgeURL`; `public_ip` is the value of GetHostPublicIP.
unfoldable pub resolve_judge_url : Text → Text → Text → Text
unfolding trim_space trim_prefix_byte has_prefix replace_all
resolve_judge_url public_ip raw server_port =
    let url = trim_space raw in
    let port = port_or_default (trim_prefix_byte b':' server_port) in
    if is_empty url
    then []
    else if has_prefix url (codes "/")
    then codes "http://" ++ (public_ip ++ (b':' ∷ (port ++ url)))
    else replace_all
        (replace_all (replace_all url (codes "{MY_IP}") public_ip) (codes "{HOST}") public_ip)
        (codes "{PORT}") port

-- The addresses of a list that are not empty once they are resolved.
unfoldable pub resolve_all : Text → Text → List Text → List Text
unfolding resolve_judge_url
resolve_all public_ip port [] = []
resolve_all public_ip port (u ∷ us) =
    let rest = resolve_all public_ip port us in
    let url = resolve_judge_url public_ip u port in if is_empty url then rest else url ∷ rest

-- The list of `NewEvaluator`: without judges it is that of the own server, and the custom judge
-- is dropped.
unfoldable pub judge_urls : Text → Text → List Text → Text → List Text
unfolding resolve_all resolve_judge_url
judge_urls public_ip port [] custom =
    resolve_judge_url public_ip (codes "/json") port
    ∷ resolve_judge_url public_ip (codes "/judge") port
    ∷ resolve_judge_url public_ip (codes "/ip") port
    ∷ []
judge_urls public_ip port (u ∷ us) custom = resolve_all public_ip port (custom ∷ u ∷ us)

abbrev pub new_entries : List Text → List JudgeEntry
new_entries [] = []
new_entries (u ∷ us) = record { url = u; latency_ms = pos 500; healthy = true } ∷ new_entries us

-- The judges of `NewEvaluator`.
unfoldable pub new_evaluator : Text → List Text → Text → Text → List JudgeEntry
unfolding judge_urls
new_evaluator public_ip judges custom server_addr =
    new_entries (judge_urls public_ip (port_or_default server_addr) judges custom)

-- The goroutine of `checkAllJudges` for a judge: the milliseconds until its answer, or `none` for
-- an error or a status from 400 on.
unfoldable pub check_judge : FloatOps → Option ℤ → JudgeEntry → JudgeEntry
check_judge f none j = record j { healthy = false }
check_judge f (some ms) j = record j {
  latency_ms =
      f.to_int (
        f.add (f.mul (f.decimal 3 1) (f.of_int ms))
          (f.mul (f.decimal 7 1) (f.of_int j.latency_ms)));
  healthy = true;
}

-- `checkAllJudges`, where `ask` gives the answers of the judges.
unfoldable pub check_all_judges : FloatOps → (Text → Option ℤ) → List JudgeEntry → List JudgeEntry
unfolding check_judge
check_all_judges f ask [] = []
check_all_judges f ask (j ∷ js) = check_judge f (ask j.url) j ∷ check_all_judges f ask js

abbrev pub plain_address : Text → Text
plain_address s = if parses (parse_ip s) then s else []

abbrev pub address_of_fields : Option (Text × Text) → Text → Text
address_of_fields none s = plain_address s
address_of_fields (some (ip, origin)) s =
    if not (is_empty origin)
    then trim_space (cut b',' origin).0
    else if not (is_empty ip)
    then trim_space ip
    else plain_address s

-- `extractIPFromBody`
unfoldable pub extract_ip_from_body : Json → Text → Text
unfolding trim_space cut parse_ip
extract_ip_from_body json body = address_of_fields (json.unmarshal_judge body) (trim_space body)

abbrev pub address_of_answer : Json → Option Text → Text
address_of_answer json none = []
address_of_answer json (some body) = extract_ip_from_body json body

-- The loop of `GetMyPublicIP`, where `ask` gives the bodies of the answers.
unfoldable pub first_answer : Json → (Text → Option Text) → List JudgeEntry → Text
unfolding extract_ip_from_body
first_answer json ask [] = []
first_answer json ask (j ∷ js) =
    let rest = first_answer json ask js in
    let ip = address_of_answer json (ask j.url) in
    if j.healthy && not (is_empty ip) then ip else rest

-- What the evaluator knows of its address, and whether it has asked.
pub record OwnAddress : Type 0 where
  pub my_ip : Text
  pub asked : Bool

-- `GetMyPublicIP`: the judges are asked once.
unfoldable pub get_my_public_ip :
    Json → (Text → Option Text) → List JudgeEntry → OwnAddress → Text × OwnAddress
unfolding first_answer
get_my_public_ip json ask js o =
    if not (is_empty o.my_ip)
    then (o.my_ip, o)
    else if o.asked
    then (o.my_ip, o)
    else (let ip = first_answer json ask js in (ip, record { my_ip = ip; asked = true }))
