-- ===== src/Judge/Defs.antt =====
-- pkg/judge/judge.go, PickJudge, extractIPFromBody and EvaluateAnonymity.
use go_proxy.Base.{
  Bool, true, false, not, ◌&&◌, ◌||◌, Option, none, some, List, [], ◌∷◌, any, if◌then◌else◌,
}
use go_proxy.Base.Int.{ℤ, ltb_ℤ}
use go_proxy.Base.Text.{Text, codes, is_empty, contains, to_upper}
use go_proxy.Model.Proxy.{Anonymity, transparent, anonymous, elite}
use go_proxy.Net.Header.{Header, header_get}

pub record JudgeEntry : Type 0 where
  pub url : Text
  pub latency_ms : ℤ
  pub healthy : Bool

-- `best == nil || j.latencyMs < best.latencyMs`
unfoldable pub improves : JudgeEntry → Option JudgeEntry → Bool
improves j none = true
improves j (some best) = ltb_ℤ j.latency_ms best.latency_ms

-- The best judge after `j`: first whether `j` is healthy, then whether it is better.
abbrev pub choose : Bool → Bool → JudgeEntry → Option JudgeEntry → Option JudgeEntry
choose false better j best = best
choose true true j best = some j
choose true false j best = best

-- The loop of `PickJudge`.
unfoldable pub pick_from : Option JudgeEntry → List JudgeEntry → Option JudgeEntry
unfolding improves
pick_from best [] = best
pick_from best (j ∷ js) = pick_from (choose j.healthy (improves j best) j best) js

abbrev pub first_url : Text → List JudgeEntry → Text
first_url fallback [] = fallback
first_url fallback (j ∷ js) = j.url

abbrev pub url_or_first : Text → List JudgeEntry → Option JudgeEntry → Text
url_or_first fallback js none = first_url fallback js
url_or_first fallback js (some best) = best.url

-- `PickJudge`; the fallback is the address of the server's own judge.
unfoldable pub pick_judge : Text → List JudgeEntry → Text
unfolding pick_from
pick_judge fallback js = url_or_first fallback js (pick_from none js)

abbrev pub proxy_headers : List Text
proxy_headers =
    codes "Via"
    ∷ codes "X-Forwarded-For"
    ∷ codes "X-Forwarded-Proto"
    ∷ codes "X-Forwarded-Host"
    ∷ codes "X-Proxy-ID"
    ∷ codes "Forwarded"
    ∷ codes "Proxy-Connection"
    ∷ codes "X-Real-IP"
    ∷ codes "Client-IP"
    ∷ codes "X-BlueCoat-Via"
    ∷ codes "X-Client-IP"
    ∷ codes "HTTP-X-Forwarded-For"
    ∷ codes "X-Cluster-Client-IP"
    ∷ codes "X-Original-Forwarded-For"
    ∷ codes "True-Client-IP"
    ∷ codes "CF-Connecting-IP"
    ∷ codes "X-ProxyUser-Ip"
    ∷ codes "WL-Proxy-Client-IP"
    ∷ []

abbrev pub azenv_markers : List Text
azenv_markers =
    codes "HTTP_VIA"
    ∷ codes "HTTP_X_FORWARDED_FOR"
    ∷ codes "HTTP_PROXY_CONNECTION"
    ∷ codes "HTTP_X_REAL_IP"
    ∷ codes "HTTP_CLIENT_IP"
    ∷ codes "HTTP_FORWARDED"
    ∷ codes "HTTP_X_CLUSTER_CLIENT_IP"
    ∷ []

-- Whether a value of a header or the body has the address in it.
unfoldable pub leaks : Text → Header → Text → Bool
unfolding contains
leaks my_ip headers body =
    any (λ field. any (λ value. contains value my_ip) field.1) headers || contains body my_ip

unfoldable pub names_header : Header → Text → Bool
unfolding header_get
names_header headers h = not (is_empty (header_get h headers))

unfoldable pub has_marker : Text → Text → Bool
unfolding contains
has_marker upper marker = contains upper marker

-- The three steps of `EvaluateAnonymity`, on what each finds.
unfoldable pub anonymity_level : Bool → Bool → Bool → Anonymity
anonymity_level leak header marker =
    if leak then transparent else if header then anonymous else if marker then anonymous else elite

-- `EvaluateAnonymity`; `my_ip` is the value of `GetMyPublicIP`.
unfoldable pub evaluate_anonymity : Text → Header → Text → Anonymity
unfolding leaks names_header to_upper has_marker anonymity_level
evaluate_anonymity my_ip headers body =
    anonymity_level (not (is_empty my_ip) && leaks my_ip headers body)
      (any (names_header headers) proxy_headers) (any (has_marker (to_upper body)) azenv_markers)
