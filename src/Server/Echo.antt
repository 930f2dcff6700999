-- ===== src/Server/Echo.antt =====
-- The judges of this program: handleJudgeJSON, handleJudgeIP and handleJudgeAZENV of
-- pkg/server/server.go, and the handlers of pkg/judge/server.go. A header is listed in the order
-- in which its map is ranged over.
pub mod Readback
use go_proxy.Base.{ℕ, Option, none, some, List, [], ◌∷◌, ◌++◌}
use go_proxy.Base.Text.{Text, codes, to_upper, replace_all}
use go_proxy.Base.Assoc.{Map, insert}
use go_proxy.Model.Proxy.{Time}
use go_proxy.Net.Header.{Header}
use go_proxy.Server.Response.{
  Response, server_echo, judge_echo, judge_status, text, json, json_response, text_response,
  content_type,
}

-- `getClientIP`: the host of the remote address, as `net.SplitHostPort` gives it, or all of it.
abbrev pub get_client_ip : (Text → Option (Text × Text)) → Text → Text
get_client_ip split remote = host_of (split remote)
  where
    host_of : Option (Text × Text) → Text
    host_of none = remote
    host_of (some (host, port)) = host

abbrev no_cache : Text → Map Text
no_cache kind =
    (codes "Content-Type", kind)
    ∷ (codes "Cache-Control", codes "no-cache, no-store, must-revalidate")
    ∷ []

-- The map of first values that `handleJudgeJSON` builds.
unfoldable pub first_values : Header → Map Text → Map Text
unfolding insert
first_values [] m = m
first_values ((k, []) ∷ h) m = first_values h m
first_values ((k, v ∷ vs) ∷ h) m = first_values h (insert k v m)

-- `handleJudgeJSON` at the time `now`; `ip` is the address of the client.
unfoldable pub handle_judge_json : Text → Header → Time → Response
unfolding first_values
handle_judge_json ip h now = record {
  status = 200;
  header = no_cache (codes "application/json");
  body = json (server_echo ip (first_values h []) now);
}

-- `handleJudgeIP`
unfoldable pub handle_judge_ip : Text → Response
handle_judge_ip ip = record {
  status = 200;
  header = no_cache (codes "text/plain");
  body = text (ip ++ 10 ∷ []);
}

-- The name of a field in the AZENV format.
unfoldable pub azenv_name : Text → Text
unfolding to_upper replace_all
azenv_name k = codes "HTTP_" ++ to_upper (replace_all k (codes "-") (codes "_"))

-- `fmt.Sprintf("%s = %s\n", name, value)`
abbrev pub azenv_field : Text → Text → Text
azenv_field name value = name ++ (codes " = " ++ (value ++ 10 ∷ []))

-- The lines of `handleJudgeAZENV` after the first.
unfoldable pub first_value_lines : Header → Text
unfolding azenv_name
first_value_lines [] = []
first_value_lines ((k, []) ∷ h) = first_value_lines h
first_value_lines ((k, v ∷ vs) ∷ h) = azenv_field (azenv_name k) v ++ first_value_lines h

-- The body of `handleJudgeAZENV`.
unfoldable pub azenv_body : Text → Header → Text
unfolding first_value_lines
azenv_body ip h = codes "REMOTE_ADDR = " ++ (ip ++ (10 ∷ first_value_lines h))

-- `handleJudgeAZENV`
unfoldable pub handle_judge_azenv : Text → Header → Response
unfolding azenv_body
handle_judge_azenv ip h = record {
  status = 200;
  header = no_cache (codes "text/plain");
  body = text (azenv_body ip h);
}

-- `strings.Join(v, ", ")`
abbrev pub join_values : List Text → Text
join_values [] = []
join_values (v ∷ []) = v
join_values (v ∷ w ∷ vs) = v ++ (codes ", " ++ join_values (w ∷ vs))

-- The lines of /azenv.php of the judge server after the first.
unfoldable pub all_value_lines : Header → Text
unfolding azenv_name
all_value_lines [] = []
all_value_lines ((k, vs) ∷ h) = azenv_field (azenv_name k) (join_values vs) ++ all_value_lines h

-- What /azenv.php of the judge server prints.
unfoldable pub judge_azenv_body : Text → Header → Text
unfolding all_value_lines
judge_azenv_body ip h = codes "REMOTE_ADDR = " ++ (ip ++ (10 ∷ all_value_lines h))

-- The handlers that `StartJudgeServer` registers.
pub data Endpoint : Type 0 where
  ip_endpoint json_endpoint azenv_endpoint root_endpoint : Endpoint

unfoldable pub serve_judge : Endpoint → Text → Header → Time → Response
unfolding judge_azenv_body
serve_judge ip_endpoint ip h now = text_response ip
serve_judge json_endpoint ip h now = json_response (judge_echo ip h now)
serve_judge azenv_endpoint ip h now = text_response (judge_azenv_body ip h)
serve_judge root_endpoint ip h now = json_response (judge_status ip)
