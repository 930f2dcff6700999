-- ===== src/Protocol/Tunnel/Answer.antt =====
-- pkg/protocol/protocol.go: what a proxy that passes CheckHTTP or CheckHTTPS has answered.
use mathlib.Core.Path.{ap₂}
use go_proxy.Base.{
  ◌≡◌, refl, sym, ap, ◌∙◌, true, not, Option, none, some, List, [], ◌∷◌, ◌++◌, not_elim,
}
use go_proxy.Base.Int.{ℤ, pos, eqb_ℤ}
use go_proxy.Base.Text.{Text, codes}
use go_proxy.Net.Header.{Header}
use go_proxy.Protocol.Conn.{Conn, done, write, bad_status}
use go_proxy.Protocol.Judge.Defs.{Json, Rejection, validate_judge_response}
use go_proxy.Protocol.Judge.Echo.{IsAccepted, validate_judge_response-IsAccepted}
use go_proxy.Protocol.Socks.Exchange.{
  and_then_done, done_value, done_conn, guard_done, write_done, write_keeps,
}
use go_proxy.Protocol.Tunnel.Defs.{
  Response, Packages, received, receive_response, judge_target, http_request, judged, judge_body,
  judge_response, check_http,
}

received_done :
    (o : Option (Response × List Text)) (c c1 : Conn) (r : Response)
    → received o c ≡ done r c1
    → ((rest : List Text) × (o ≡ some (r, rest))) × (c1.sent ≡ c.sent)
received_done none c c1 r h = cc
received_done (some (q, rest)) c c1 r h =
    ((rest, ap (λ t. some (t, rest)) (done_value h)), ap (λ (d : Conn). d.sent) (sym (done_conn h)))

judged_done :
    (o : Option Rejection) (r : Response) (b body : Text) (c c' : Conn) (latency : ℤ)
    (headers : Header)
    → judged o r b c ≡ done (latency, body, headers) c'
    → (o ≡ none) × (b ≡ body) × (r.header ≡ headers) × (c'.sent ≡ c.sent)
judged_done (some e) r b body c c' latency headers h = cc
judged_done none r b body c c' latency headers h = (
  refl,
  ap (λ t. t.1) (done_value h),
  ap (λ t. t.2) (done_value h),
  ap (λ (d : Conn). d.sent) (sym (done_conn h)),
)

-- A response of status 200 whose body the filter on judges' responses accepts.
pub record IsJudgement (json : Json) (r : Response) (headers : Header) (body : Text) : Type 0 where
  pub status : eqb_ℤ r.status (pos 200) ≡ true
  pub header : r.header ≡ headers
  pub content : r.body ≡ some body
  pub accepted : IsAccepted json headers body

judge_body_done :
    (pkg : Packages) (r : Response) (o : Option Text) (body : Text) (c c' : Conn) (latency : ℤ)
    (headers : Header)
    → judge_body pkg r o c ≡ done (latency, body, headers) c'
    → (o ≡ some body) × (r.header ≡ headers) × IsAccepted pkg.json headers body × (c'.sent ≡ c.sent)
judge_body_done pkg r none body c c' latency headers h = cc
judge_body_done pkg r (some b) body c c' latency headers h =
    let (valid, same, header, sent) =
      judged_done (validate_judge_response pkg.json r.header b) r b body c c' latency headers h in
    (
      ap some same,
      header,
      (validate_judge_response-IsAccepted pkg.json headers body).0
          (sym (ap₂ (validate_judge_response pkg.json) header same) ∙ valid),
      sent,
    )

-- When CheckHTTP succeeds, the response that it read on the connection has status 200, and the
-- filter on judges' responses accepts the body and the headers, which CheckHTTP returns. What it
-- has written is the request to the judge.
pub check_http-IsJudgement :
    (pkg : Packages) (judge_url : Text) (c c' : Conn) (latency : ℤ) (body : Text) (headers : Header)
    → check_http pkg judge_url c ≡ done (latency, body, headers) c'
    → (r : Response) × ((rest : List Text) × ((pkg.read_response (codes "GET") c.incoming
            ≡ some (r, rest))
          × IsJudgement pkg.json r headers body
          × (c'.sent ≡ c.sent ++ http_request (judge_target pkg judge_url) ∷ [])))
unfolding check_http receive_response judge_response
check_http-IsJudgement pkg judge_url c c' latency body headers h =
    let request = http_request (judge_target pkg judge_url) in
    let (u, (c1, w, h1)) = and_then_done (write request c) _ (latency, body, headers) c' h in
    let wrote = write_done request c c1 u w in
    let (r, (c2, e2, h2)) =
      and_then_done (receive_response pkg (codes "GET") c1) _ (latency, body, headers) c' h1 in
    let ((rest, read), sent2) =
      received_done (pkg.read_response (codes "GET") c1.incoming) c1 c2 r e2 in
    let (status, h3) =
      guard_done (not (eqb_ℤ r.status (pos 200))) _ (bad_status r.status) c2 c'
        (latency, body, headers) h2 in
    let (content, header, accepted, sent3) =
      judge_body_done pkg r r.body body c2 c' latency headers h3 in
    (
      r,
      (
        rest,
        (
          ap (pkg.read_response (codes "GET")) (write_keeps request c c1 u w) ∙ read,
          record {
            status = not_elim _ status;
            header = header;
            content = content;
            accepted = accepted;
          },
          sent3 ∙ sent2 ∙ wrote.was_sent,
        ),
      ),
    )
