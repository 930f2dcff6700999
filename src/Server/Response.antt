-- ===== src/Server/Response.antt =====
-- What the handlers of pkg/server and pkg/judge write: http.ResponseWriter and http.Error.
use go_proxy.Base.{ℕ, List, [], ◌∷◌, ◌++◌}
use go_proxy.Base.Int.{ℤ}
use go_proxy.Base.Text.{Text, codes}
use go_proxy.Base.Assoc.{Map}
use go_proxy.Base.{Option}
use go_proxy.Model.Proxy.{Time, Proxy, CheckResult}
use go_proxy.Model.Stats.{HistoryPoint, Snapshot}

-- The values that handlers give to encoding/json.
pub data Payload : Type 0 where
  page : ℕ → ℤ → List Proxy → Payload
  top_page : ℕ → List Proxy → Payload
  one_proxy : Proxy → Payload
  proxy_list : List Proxy → Payload
  checked : CheckResult → Payload
  stats_of : ℕ → Option Snapshot → Time → Payload
  history : List HistoryPoint → Payload
  breakdown : Map ℕ → Map ℕ → Map ℕ → Payload
  server_echo : Text → Map Text → Time → Payload
  judge_echo : Text → Map (List Text) → Time → Payload
  judge_status : Text → Payload

pub data Body : Type 0 where
  text : Text → Body
  json : Payload → Body

-- The status, the fields of the header that the handler sets, and the body.
pub record Response : Type 0 where
  pub status : ℕ
  pub header : Map Text
  pub body : Body

-- A field `Content-Type`.
abbrev pub content_type : Text → Map Text
content_type t = (codes "Content-Type", t) ∷ []

abbrev pub json_response : Payload → Response
json_response p = record {
  status = 200;
  header = content_type (codes "application/json");
  body = json p;
}

abbrev pub text_response : Text → Response
text_response t = record { status = 200; header = content_type (codes "text/plain"); body = text t }

-- `http.Error(w, message, code)`
abbrev pub http_error : Text → ℕ → Response
http_error message code = record {
  status = code;
  header =
      (codes "Content-Type", codes "text/plain; charset=utf-8")
      ∷ (codes "X-Content-Type-Options", codes "nosniff")
      ∷ [];
  body = text (message ++ 10 ∷ []);
}

-- The lines that `fmt.Fprintln` writes.
abbrev pub print_lines : List Text → Text
print_lines [] = []
print_lines (l ∷ ls) = l ++ (10 ∷ print_lines ls)
