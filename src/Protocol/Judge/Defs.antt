-- ===== src/Protocol/Judge/Defs.antt =====
-- pkg/protocol/protocol.go, validateJudgeResponse and extractAzenvIP.
use go_proxy.Base.{
  ℕ, Bool, true, false, not, ◌&&◌, ◌||◌, Option, none, some, List, [], ◌∷◌, ltb, ◌==◌,
  if◌then◌else◌, length, any,
}
use go_proxy.Base.Text.{
  Text, codes, is_empty, has_prefix, contains, trim_space, trim_cutset, to_lower, cut, split,
}
use go_proxy.Base.Assoc.{Map, lookup}
use go_proxy.Net.Ip.{parse_ip}
use go_proxy.Net.Public.{is_public_ip}
use go_proxy.Net.Header.{Header, header_get}

-- Why a response is a false positive.
pub data Rejection : Type 0 where
  too_short : ℕ → Rejection
  session_cookie : Text → Rejection
  html_page no_echo : Rejection

pub data JsonValue : Type 0 where
  string : Text → JsonValue
  not_string : JsonValue

-- What the code uses of encoding/json: the fields ip and origin of an object, and an object
-- with its fields; `none` is an error.
pub record Json : Type 0 where
  pub unmarshal_judge : Text → Option (Text × Text)
  pub unmarshal_map : Text → Option (Map JsonValue)

-- `isPublicIP(net.ParseIP(s))`
unfoldable pub names_public_ip : Text → Bool
unfolding parse_ip is_public_ip
names_public_ip s = is_public_ip (parse_ip s)

abbrev pub azenv_cutset : Text
azenv_cutset = b'"' ∷ 39 ∷ 32 ∷ 13 ∷ 9 ∷ []

abbrev pub is_azenv_name : Text → Bool
is_azenv_name l = has_prefix l (codes "REMOTE_ADDR") || has_prefix l (codes "HTTP_CLIENT_IP")

-- The value of a line that has the name, without white space and quotes.
unfoldable pub azenv_address : Text → Text
unfolding trim_space trim_cutset
azenv_address v = trim_cutset azenv_cutset (trim_space v)

abbrev pub azenv_value : Bool → Option Text → Text
azenv_value false value = []
azenv_value true none = []
azenv_value true (some v) = if names_public_ip (azenv_address v) then azenv_address v else []

-- One line of `extractAzenvIP`: the address, or the empty text.
unfoldable pub azenv_line : Text → Text
unfolding has_prefix trim_space cut names_public_ip azenv_address
azenv_line l = azenv_value (is_azenv_name (trim_space l)) (cut b'=' (trim_space l)).1

unfoldable pub first_address : List Text → Text
unfolding azenv_line
first_address [] = []
first_address (l ∷ ls) =
    let ip = azenv_line l in let rest = first_address ls in if not (is_empty ip) then ip else rest

-- `extractAzenvIP`
unfoldable pub extract_azenv_ip : Text → Text
unfolding split first_address
extract_azenv_ip body = first_address (split 10 body)

abbrev pub cookie_marks : List Text
cookie_marks =
    codes "session"
    ∷ codes "xsrf"
    ∷ codes "token"
    ∷ codes "phpsessid"
    ∷ codes "laravel"
    ∷ codes "asp.net"
    ∷ []

abbrev pub html_starts : List Text
html_starts = codes "<!doctype" ∷ codes "<html" ∷ codes "<head" ∷ codes "<body" ∷ []

abbrev pub html_marks : List Text
html_marks = codes "<title>" ∷ codes "<script" ∷ codes "<style" ∷ codes "<div" ∷ codes "<p>" ∷ []

unfoldable pub has_session_cookie : Text → Bool
unfolding contains to_lower
has_session_cookie cookie =
    not (is_empty cookie) && any (λ mark. contains (to_lower cookie) mark) cookie_marks

unfoldable pub looks_like_html : Text → Bool
unfolding has_prefix contains
looks_like_html lower =
    any (λ start. has_prefix lower start) html_starts
    || any (λ mark. contains lower mark) html_marks

-- The address in the fields ip and origin: of several origins the first.
unfoldable pub judge_address : Text → Text → Text
unfolding cut trim_space
judge_address ip origin = trim_space (if is_empty ip then first_origin (cut b',' origin) else ip)
  where
    first_origin : Text × Option Text → Text
    first_origin (_, none) = origin
    first_origin (before, some _) = if is_empty before then origin else trim_space before

abbrev pub echo_keys : List Text
echo_keys =
    codes "ip" ∷ codes "origin" ∷ codes "query" ∷ codes "client_ip" ∷ codes "remote_addr" ∷ []

unfoldable pub key_echoes : Map JsonValue → Text → Bool
unfolding names_public_ip trim_space lookup
key_echoes m k = elim (lookup k m) [ some (string v) ↦ names_public_ip (trim_space v) | _ ↦ false ]

abbrev pub judge_echoes : Option (Text × Text) → Bool
judge_echoes none = false
judge_echoes (some (ip, origin)) = names_public_ip (judge_address ip origin)

abbrev pub keys_echo : Option (Map JsonValue) → Bool
keys_echo none = false
keys_echo (some m) = any (key_echoes m) echo_keys

-- Layer 2: the two ways to read a JSON object.
unfoldable pub json_echoes : Json → Text → Bool
unfolding judge_address names_public_ip key_echoes
json_echoes json s = judge_echoes (json.unmarshal_judge s) || keys_echo (json.unmarshal_map s)

abbrev pub starts_with_brace : Text → Bool
starts_with_brace [] = false
starts_with_brace (c ∷ _) = c == b'{'

abbrev pub plain_cutset : Text
plain_cutset = b'"' ∷ 39 ∷ 13 ∷ 10 ∷ 9 ∷ 32 ∷ []

-- The layers of the filter, on the length of the trimmed body and on what each layer finds: a
-- session cookie, an HTML page, an AZENV line, a JSON object that names a public address, a body
-- that is one. `none` is nil.
unfoldable pub judge_layers : ℕ → Text → Bool → Bool → Bool → Bool → Bool → Option Rejection
judge_layers n cookie session html azenv object plain =
    if ltb n 4
    then some (too_short n)
    else if session
    then some (session_cookie cookie)
    else if html
    then (if azenv then none else some html_page)
    else if object
    then none
    else if plain
    then none
    else if azenv
    then none
    else some no_echo

-- `validateJudgeResponse`
unfoldable pub validate_judge_response : Json → Header → Text → Option Rejection
unfolding trim_space header_get has_session_cookie to_lower looks_like_html extract_azenv_ip
    json_echoes names_public_ip trim_cutset judge_layers
validate_judge_response json headers body =
    let trimmed = trim_space body in
    let cookie = header_get (codes "Set-Cookie") headers in
    judge_layers (length trimmed) cookie (has_session_cookie cookie)
      (looks_like_html (to_lower trimmed)) (not (is_empty (extract_azenv_ip trimmed)))
      (starts_with_brace trimmed && json_echoes json trimmed)
      (names_public_ip (trim_cutset plain_cutset trimmed))
