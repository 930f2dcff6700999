-- ===== src/Server/Echo/Readback.antt =====
-- handleJudgeAZENV, /azenv.php of pkg/judge/server.go and extractAzenvIP of
-- pkg/protocol/protocol.go: the address of the client, written and read back.
use go_proxy.Base.{
  ℕ, ◌≡◌, refl, ap, ◌∙◌, true, false, not, [], ◌∷◌, ◌++◌, ◌==◌, arith, any, All, if◌then◌else◌,
}
use go_proxy.Base.Text.{
  Text, codes, is_empty, is_space, has_prefix, trim_by, trim_space, trim_cutset, drop_while, cut,
  split,
}
use go_proxy.Base.Trim.{HasNone, drop_while-stops, trim_by-kept, split-append}
use go_proxy.Net.Header.{Header}
use go_proxy.Net.Ip.{parse_ip}
use go_proxy.Net.Public.{is_public_ip}
use go_proxy.Protocol.Judge.Defs.{
  names_public_ip, azenv_cutset, is_azenv_name, azenv_address, azenv_value, azenv_line,
  first_address, extract_azenv_ip,
}
use go_proxy.Server.Echo.{first_value_lines, all_value_lines, azenv_body, judge_azenv_body}

-- The byte is neither white space nor a quote.
abbrev pub IsPlain : ℕ → Type 0
IsPlain c = (is_space c ≡ false) × (any (λ x. x == c) azenv_cutset ≡ false)

abbrev label : Text
label = codes "REMOTE_ADDR = "

plain-no_space : (s : Text) → All IsPlain s → HasNone is_space s
plain-no_space [] h = tt
plain-no_space (c ∷ s) h = (h.0.0, plain-no_space s h.1)

plain-no_quote : (s : Text) → All IsPlain s → HasNone (λ c. any (λ x. x == c) azenv_cutset) s
plain-no_quote [] h = tt
plain-no_quote (c ∷ s) h = (h.0.1, plain-no_quote s h.1)

not_newline : (c : ℕ) → is_space c ≡ false → (c == 10) ≡ false
unfolding is_space
not_newline c h = ground arith

plain-no_newline : (s : Text) → All IsPlain s → All (λ c. (c == 10) ≡ false) s
plain-no_newline [] h = tt
plain-no_newline (c ∷ s) h = (not_newline c h.0.0, plain-no_newline s h.1)

trim_space-plain : (b : ℕ) (s : Text) → All IsPlain (b ∷ s) → trim_space (32 ∷ b ∷ s) ≡ b ∷ s
unfolding trim_space trim_by drop_while is_space
trim_space-plain b s h =
    trim_by-kept is_space [] b s (drop_while-stops is_space b s h.0.0) (plain-no_space (b ∷ s) h)

azenv_address-plain : (b : ℕ) (s : Text) → All IsPlain (b ∷ s) → azenv_address (32 ∷ b ∷ s) ≡ b ∷ s
unfolding azenv_address trim_cutset
azenv_address-plain b s h =
    ap (trim_cutset azenv_cutset) (trim_space-plain b s h)
    ∙ trim_by-kept (λ c. any (λ x. x == c) azenv_cutset) [] b s
        (drop_while-stops (λ c. any (λ x. x == c) azenv_cutset) b s h.0.1)
        (plain-no_quote (b ∷ s) h)

trim_space-line :
    (b : ℕ) (s : Text) → All IsPlain (b ∷ s) → trim_space (label ++ b ∷ s) ≡ label ++ b ∷ s
unfolding trim_space
trim_space-line b s h =
    trim_by-kept is_space label b s (drop_while-stops is_space b'R' _ refl)
      (plain-no_space (b ∷ s) h)

azenv_line-written :
    (b : ℕ) (s : Text)
    → All IsPlain (b ∷ s)
    → names_public_ip (b ∷ s) ≡ true
    → azenv_line (label ++ b ∷ s) ≡ b ∷ s
unfolding azenv_line has_prefix cut
azenv_line-written b s h public =
    ap (λ t. azenv_value (is_azenv_name t) (cut b'=' t).1) (trim_space-line b s h)
    ∙ ap (λ t. if names_public_ip t then t else []) (azenv_address-plain b s h)
    ∙ rw public refl

label-no_newline :
    (s : Text) → All (λ c. (c == 10) ≡ false) s → All (λ c. (c == 10) ≡ false) (label ++ s)
label-no_newline s h = (
  refl,
  (
    refl,
    (
      refl,
      (refl, (refl, (refl, (refl, (refl, (refl, (refl, (refl, (refl, (refl, (refl, h))))))))))),
    ),
  ),
)

first_line :
    (ip rest : Text)
    → All IsPlain ip
    → names_public_ip ip ≡ true
    → extract_azenv_ip (label ++ (ip ++ 10 ∷ rest)) ≡ ip
unfolding extract_azenv_ip first_address names_public_ip parse_ip is_public_ip
first_line [] rest h public = cc
first_line (b ∷ s) rest h public =
    ap first_address (
      split-append 10 (label ++ b ∷ s) rest (label-no_newline (b ∷ s) (plain-no_newline (b ∷ s) h)))
    ∙ ap (λ t. if not (is_empty t) then t else first_address (split 10 rest))
        (azenv_line-written b s h public)

-- The address that the two AZENV judges of the program write is the address that the client reads
-- from their answer, whatever the fields of the request are: if it is the text of a public
-- address without white space or quotes.
pub extract_azenv_ip-azenv_body :
    (ip : Text) (h : Header)
    → All IsPlain ip
    → names_public_ip ip ≡ true
    → (extract_azenv_ip (azenv_body ip h) ≡ ip) × (extract_azenv_ip (judge_azenv_body ip h) ≡ ip)
unfolding azenv_body judge_azenv_body
extract_azenv_ip-azenv_body ip h plain public = (
  first_line ip (first_value_lines h) plain public,
  first_line ip (all_value_lines h) plain public,
)
