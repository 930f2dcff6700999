-- ===== src/Protocol/Judge/Echo.antt =====
-- pkg/protocol/protocol.go, validateJudgeResponse: which responses it accepts.
use go_proxy.Base.{
  ℕ, ◌≤◌, ◌≡◌, ◌↔◌, ◌⊎◌, inl, inr, refl, sym, ap, ◌∙◌, some_inj, Bool, true, false, not, ◌&&◌,
  Option, none, some, List, [], ◌∷◌, arith, length, if◌then◌else◌, false_of_not, true_of_not,
  and_true, and_true_left, and_true_right, or_split, or_left, or_right, Somewhere, any-Somewhere,
  Bool-cases,
}
use go_proxy.Base.Text.{Text, codes, is_empty, trim_space, trim_cutset, to_lower, cut, split}
use go_proxy.Base.Assoc.{Map}
use go_proxy.Net.Header.{Header, header_get}
use go_proxy.Protocol.Judge.Defs.{
  JsonValue, Json, names_public_ip, is_azenv_name, azenv_address, azenv_value, azenv_line,
  first_address, extract_azenv_ip, judge_address, key_echoes, judge_echoes, keys_echo, json_echoes,
  echo_keys, has_session_cookie, looks_like_html, starts_with_brace, plain_cutset, judge_layers,
  validate_judge_response,
}

-- A line REMOTE_ADDR or HTTP_CLIENT_IP whose value is a public address.
abbrev pub IsAzenvEcho : Text → Type 0
IsAzenvEcho l =
    (is_azenv_name (trim_space l) ≡ true)
    × ((v : Text) × ((cut b'=' (trim_space l)).1 ≡ some v)
        × (names_public_ip (azenv_address v) ≡ true))

no_public_ip_empty : names_public_ip [] ≡ false
unfolding names_public_ip go_proxy.Net.Ip.parse_ip go_proxy.Net.Public.is_public_ip
no_public_ip_empty = refl

public_nonempty : (s : Text) → names_public_ip s ≡ true → is_empty s ≡ false
public_nonempty [] h = cc no_public_ip_empty
public_nonempty (c ∷ s) h = refl

if_true : (b : Bool) (s t : Text) → b ≡ true → (if b then s else t) ≡ s
if_true b s t h = rw h refl

if_false : (b : Bool) (s t : Text) → b ≡ false → (if b then s else t) ≡ t
if_false b s t h = rw h refl

first_nonempty :
    (ip rest : Text)
    → is_empty (if not (is_empty ip) then ip else rest) ≡ (is_empty ip && is_empty rest)
first_nonempty [] rest = refl
first_nonempty (c ∷ s) rest = refl

azenv_value_lem :
    (named : Bool) (value : Option Text)
    → (is_empty (azenv_value named value) ≡ false) ↔ (
        (named ≡ true)
        × ((v : Text) × (value ≡ some v) × (names_public_ip (azenv_address v) ≡ true)))
azenv_value_lem false value = ((λ e. cc), λ h. cc (h.0))
azenv_value_lem true none = ((λ e. cc), λ h. cc (h.1.1))
azenv_value_lem true (some v) = (
  (λ e. elim (Bool-cases (names_public_ip (azenv_address v))) [
    | inl h ↦ (refl, (v, refl, h))
    | inr h ↦ cc (ap is_empty (if_false (names_public_ip (azenv_address v)) (azenv_address v) [] h))
  ]),
  λ h.
      let public : names_public_ip (azenv_address v) ≡ true =
        ap (λ t. names_public_ip (azenv_address t)) (some_inj h.1.1) ∙ h.1.2 in
      ap is_empty (if_true (names_public_ip (azenv_address v)) (azenv_address v) [] public)
      ∙ public_nonempty (azenv_address v) public,
)

azenv_line-IsAzenvEcho : (l : Text) → (is_empty (azenv_line l) ≡ false) ↔ IsAzenvEcho l
unfolding azenv_line
azenv_line-IsAzenvEcho l =
    azenv_value_lem (is_azenv_name (trim_space l)) (cut b'=' (trim_space l)).1

first_address-Somewhere :
    (ls : List Text) → (is_empty (first_address ls) ≡ false) ↔ Somewhere IsAzenvEcho ls
unfolding first_address
first_address-Somewhere [] = ((λ e. cc), λ x. elim x [ ])
first_address-Somewhere (l ∷ ls) =
    let line = azenv_line-IsAzenvEcho l in
    let rest = first_address-Somewhere ls in
    let both : is_empty (first_address (l ∷ ls))
        ≡ (is_empty (azenv_line l) && is_empty (first_address ls)) =
      first_nonempty (azenv_line l) (first_address ls) in
    elim (Bool-cases (is_empty (azenv_line l))) [
      | inl e ↦
          let same : is_empty (first_address (l ∷ ls)) ≡ is_empty (first_address ls) =
            both ∙ ap (λ b. b && is_empty (first_address ls)) e in
          (
            (λ h. inr (rest.0 (sym same ∙ h))),
            λ x. elim x [ inl y ↦ cc (e, line.1 y) | inr y ↦ same ∙ rest.1 y ],
          )
      | inr e ↦ ((λ _. inl (line.0 e)), λ _. both ∙ ap (λ b. b && is_empty (first_address ls)) e)
    ]

-- A JSON object names a public address: in ip or the first origin, or under one of five keys.
pub data IsJsonEcho (json : Json) (s : Text) : Type 0 where
  by_judge :
      {ip origin : Text}
      → json.unmarshal_judge s ≡ some (ip, origin)
      → names_public_ip (judge_address ip origin) ≡ true
      → IsJsonEcho json s
  by_key :
      {m : Map JsonValue}
      → json.unmarshal_map s ≡ some m
      → Somewhere (λ k. key_echoes m k ≡ true) echo_keys
      → IsJsonEcho json s

from_judge :
    (json : Json) (s : Text) (o : Option (Text × Text))
    → json.unmarshal_judge s ≡ o
    → judge_echoes o ≡ true
    → IsJsonEcho json s
from_judge json s none e h = cc
from_judge json s (some (ip, origin)) e h = by_judge e h

from_map :
    (json : Json) (s : Text) (o : Option (Map JsonValue))
    → json.unmarshal_map s ≡ o
    → keys_echo o ≡ true
    → IsJsonEcho json s
from_map json s none e h = cc
from_map json s (some m) e h = by_key e ((any-Somewhere (key_echoes m) echo_keys).0 h)

json_echoes-IsJsonEcho : (json : Json) (s : Text) → (json_echoes json s ≡ true) ↔ IsJsonEcho json s
unfolding json_echoes
json_echoes-IsJsonEcho json s = (
  (λ h.
      elim (or_split (judge_echoes (json.unmarshal_judge s)) (keys_echo (json.unmarshal_map s)) h) [
        | inl j ↦ from_judge json s (json.unmarshal_judge s) refl j
        | inr k ↦ from_map json s (json.unmarshal_map s) refl k
      ]),
  λ x. elim x [
    | by_judge e h ↦ or_left _ _ (ap judge_echoes e ∙ h)
    | by_key {m} e h ↦ or_right _ _ (ap keys_echo e ∙ (any-Somewhere (key_echoes m) echo_keys).1 h)
  ],
)

-- A trimmed body that names the public address of the client.
pub data IsEcho (json : Json) (s : Text) : Type 0 where
  address_line : Somewhere IsAzenvEcho (split 10 s) → IsEcho json s
  object :
      looks_like_html (to_lower s) ≡ false
      → starts_with_brace s ≡ true
      → IsJsonEcho json s
      → IsEcho json s
  plain :
      looks_like_html (to_lower s) ≡ false
      → names_public_ip (trim_cutset plain_cutset s) ≡ true
      → IsEcho json s

pub record IsAccepted (json : Json) (headers : Header) (body : Text) : Type 0 where
  long_enough : 4 ≤ length (trim_space body)
  no_session : has_session_cookie (header_get (codes "Set-Cookie") headers) ≡ false
  echo : IsEcho json (trim_space body)

judge_layers_lem :
    (n : ℕ) (cookie : Text) (session html line json_ip plain_ip : Bool)
    → (judge_layers n cookie session html line json_ip plain_ip ≡ none) ↔ (
        (4 ≤ n)
        × (session ≡ false)
        × ((line ≡ true)
            ⊎ (((html ≡ false) × (json_ip ≡ true)) ⊎ ((html ≡ false) × (plain_ip ≡ true)))))
unfolding judge_layers
judge_layers_lem n cookie session html line json_ip plain_ip = ground arith

-- validateJudgeResponse returns nil exactly on a response that is accepted: a trimmed body of 4
-- bytes or more, no session cookie, and an echo of a public address, which in an HTML page can
-- only be an AZENV line, and elsewhere also a JSON field or the whole body.
pub validate_judge_response-IsAccepted :
    (json : Json) (headers : Header) (body : Text)
    → (validate_judge_response json headers body ≡ none) ↔ IsAccepted json headers body
unfolding validate_judge_response extract_azenv_ip
validate_judge_response-IsAccepted json headers body =
    let s = trim_space body in
    let layers =
      judge_layers_lem (length s) (header_get (codes "Set-Cookie") headers)
        (has_session_cookie (header_get (codes "Set-Cookie") headers))
        (looks_like_html (to_lower s)) (not (is_empty (extract_azenv_ip s)))
        (starts_with_brace s && json_echoes json s)
        (names_public_ip (trim_cutset plain_cutset s)) in
    (
      (λ h.
          let l = layers.0 h in
          record {
            long_enough = l.0;
            no_session = l.1;
            echo = elim l.2 [
              | inl a ↦ address_line ((first_address-Somewhere (split 10 s)).0 (false_of_not a))
              | inr (inl (h, o)) ↦
                  object h (and_true_left _ _ o)
                    ((json_echoes-IsJsonEcho json s).0 (and_true_right _ _ o))
              | inr (inr (h, p)) ↦ plain h p
            ];
          }),
      λ x. layers.1 (
        x.long_enough,
        x.no_session,
        elim x.echo [
          | address_line a ↦ inl (true_of_not ((first_address-Somewhere (split 10 s)).1 a))
          | object h b j ↦ inr (inl (h, and_true b ((json_echoes-IsJsonEcho json s).1 j)))
          | plain h p ↦ inr (inr (h, p))
        ],
      ),
    )
