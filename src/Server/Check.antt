-- ===== src/Server/Check.antt =====
-- pkg/server/server.go, handleTest: the check of one address on demand.
use go_proxy.Base.{◌&&◌, Option, none, some, [], if◌then◌else◌}
use go_proxy.Base.Int.{ℤ, pos, ltb_ℤ}
use go_proxy.Base.Text.{Text, codes, is_empty, contains, trim_space, to_lower, cut, atoi}
use go_proxy.Model.Proxy.{Protocol, unknown, protocol_of_text}
use go_proxy.Model.Config.{default_config}
use go_proxy.Checker.Defs.{Env, check_ip_port}
use go_proxy.Server.Response.{checked, Response, json_response, http_error}

-- What `handleTest` reads from its parameter.
pub record Target : Type 0 where
  pub host : Text
  pub port : ℤ
  pub protocol : Protocol

-- The scheme, the host name and the port of an address, as `url.Parse` gives them.
abbrev pub target_of_url : Option (Text × Text × Text) → Target
target_of_url none = record { host = []; port = pos 8080; protocol = unknown }
target_of_url (some (scheme, host, port)) = record {
  host = host;
  port =
      if (atoi port).valid && ltb_ℤ (pos 0) (atoi port).value then (atoi port).value else pos 8080;
  protocol = protocol_of_text (to_lower scheme);
}

-- `strings.SplitN(target, ":", 2)`
abbrev pub target_of_pair : Text × Option Text → Target
target_of_pair (host, none) = record { host = host; port = pos 8080; protocol = unknown }
target_of_pair (host, some port) = record {
  host = host;
  port = (atoi port).value;
  protocol = unknown;
}

unfoldable pub test_target : (Text → Option (Text × Text × Text)) → Text → Target
unfolding contains cut atoi protocol_of_text to_lower
test_target parse_url target =
    if contains target (codes "://")
    then target_of_url (parse_url target)
    else target_of_pair (cut b':' target)

-- `handleTest`; the world and the value of `net.JoinHostPort` depend on the target.
unfoldable pub handle_test :
    (Text → Option (Text × Text × Text)) → (Target → Env × Text) → (Text → Text) → Response
unfolding test_target check_ip_port default_config trim_space
handle_test parse_url env get =
    let target = trim_space (get (codes "proxy")) in
    let t = test_target parse_url target in
    if is_empty target
    then http_error
        (codes "Missing 'proxy' (e.g. ?proxy=socks5://1.2.3.4:1080 or ?proxy=1.2.3.4:8080)") 400
    else json_response
        (checked (check_ip_port (env t).0 default_config (env t).1 t.host t.port t.protocol))
