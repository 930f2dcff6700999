-- ===== src/Net/Ip.antt =====
-- `net.IP`: parsing an address and classifying it. A 16-byte address that maps an IPv4 address is
-- that IPv4 address, as it is to `To4`.

use go_proxy.Base.{
  ℕ, zero, suc, ◌+◌, ◌-◌, ◌*◌, ◌/◌, ◌%◌, Bool, true, false, not, ◌&&◌, ◌||◌, Option, none, some,
  List, [], ◌∷◌, ◌++◌, ltb, leb, ◌==◌, if◌then◌else◌, length, replicate, take, drop,
}
use go_proxy.Base.Text.{Text, split, digits_value, text_eq, is_empty}

pub data Ip : Type 0 where
  v4 : ℕ → ℕ → ℕ → ℕ → Ip
  -- the 16 bytes
  v6 : List ℕ → Ip

-- One decimal field of an IPv4 address: no sign, no leading zero, at most 255.
unfoldable pub ipv4_field : Text → Option ℕ
unfolding digits_value
ipv4_field [] = none
ipv4_field (c ∷ s) = elim (digits_value 0 (c ∷ s)) [
  | none ↦ none
  | some n ↦ if (c == b'0' && not (is_empty s)) || ltb 255 n then none else some n
]

abbrev four_fields : Option ℕ → Option ℕ → Option ℕ → Option ℕ → Option Ip
four_fields (some a) (some b) (some c) (some d) = some (v4 a b c d)
four_fields _ _ _ _ = none

abbrev ipv4_of_fields : List Text → Option Ip
ipv4_of_fields (a ∷ b ∷ c ∷ d ∷ []) =
    four_fields (ipv4_field a) (ipv4_field b) (ipv4_field c) (ipv4_field d)
ipv4_of_fields _ = none

unfoldable pub parse_ipv4 : Text → Option Ip
unfolding ipv4_field split
parse_ipv4 s = ipv4_of_fields (split b'.' s)

abbrev hex_digit : ℕ → Option ℕ
hex_digit c =
    if leb b'0' c && leb c b'9'
    then some (c - b'0')
    else if leb b'a' c && leb c b'f'
    then some (c - b'a' + 10)
    else if leb b'A' c && leb c b'F'
    then some (c - b'A' + 10)
    else none

-- The hexadecimal digits at the start of a text: their number, their value, and the rest.
unfoldable pub hex_run : ℕ → ℕ → Text → ℕ × ℕ × Text
hex_run n acc [] = (n, acc, [])
hex_run n acc (c ∷ s) = elim (hex_digit c) [
  | none ↦ (n, acc, c ∷ s)
  | some d ↦ hex_run (n + 1) (acc * 16 + d) s
]

-- The bytes read so far, with the place of the ellipsis if there was one.
unfoldable pub expand : List ℕ → Option ℕ → Option (List ℕ)
expand bytes none = if length bytes == 16 then some bytes else none
expand bytes (some at) =
    if ltb (length bytes) 16
    then some (take at bytes ++ (replicate (16 - length bytes) 0 ++ drop at bytes))
    else none

abbrev bytes_of : Option Ip → Option (List ℕ)
bytes_of (some (v4 a b c d)) = some (a ∷ b ∷ c ∷ d ∷ [])
bytes_of _ = none

-- What follows a group: the end, one colon, or two.
pub data Separator : Type 0 where
  end broken : Separator
  colon ellipsis : Text → Separator

abbrev separator : Text → Separator
separator [] = end
separator (c ∷ []) = broken
separator (c ∷ d ∷ s) =
    if not (c == b':') then broken else if d == b':' then ellipsis s else colon (d ∷ s)

abbrev starts_with_dot : Text → Bool
starts_with_dot [] = false
starts_with_dot (c ∷ _) = c == b'.'

-- The loop over the groups, on fuel; 8 groups fill an address.
unfoldable pub groups : ℕ → Text → List ℕ → Option ℕ → Option (List ℕ)
unfolding hex_run parse_ipv4 expand
groups zero s bytes at = none
groups (suc f) s bytes at =
    let (n, acc, rest) = hex_run 0 0 s in
    let bytes' = bytes ++ acc / 256 ∷ acc % 256 ∷ [] in
    let after_colon = λ (t : Text). groups f t bytes' at in
    let after_ellipsis = λ (t : Text). groups f t bytes' (some (length bytes')) in
    if leb 16 (length bytes) || n == 0 || ltb 4 n
    then none
    else if starts_with_dot rest
    then (if (ltb (length bytes) 12 || ltb 12 (length bytes)) && not (is_some at)
          || ltb 12 (length bytes)
        then none
        else elim (bytes_of (parse_ipv4 s)) [ none ↦ none | some last ↦ expand (bytes ++ last) at ])
    else elim (separator rest) [
      | end ↦ expand bytes' at
      | broken ↦ none
      | colon t ↦ after_colon t
      | ellipsis t ↦
          if is_some at
          then none
          else if is_empty t
          then expand bytes' (some (length bytes'))
          else after_ellipsis t
    ]
  where
    is_some : Option ℕ → Bool
    is_some none = false
    is_some (some _) = true

-- A text that begins with an ellipsis, or another.
abbrev ipv6_bytes : Text → Option (List ℕ)
ipv6_bytes s = elim (separator s) [
  | ellipsis t ↦ if is_empty t then some (replicate 16 0) else groups 9 t [] (some 0)
  | _ ↦ groups 9 s [] none
]

-- An IPv4 address mapped into 16 bytes counts as the IPv4 address.
unfoldable pub ip_of_bytes : List ℕ → Ip
unfolding text_eq
ip_of_bytes bytes =
    if text_eq (take 12 bytes) (replicate 10 0 ++ 255 ∷ 255 ∷ [])
    then last_four (drop 12 bytes)
    else v6 bytes
  where
    last_four : List ℕ → Ip
    last_four (a ∷ b ∷ c ∷ d ∷ []) = v4 a b c d
    last_four _ = v6 bytes

unfoldable pub parse_ipv6 : Text → Option Ip
unfolding groups ip_of_bytes
parse_ipv6 s = elim (ipv6_bytes s) [ none ↦ none | some bytes ↦ some (ip_of_bytes bytes) ]

-- `net.ParseIP`: the first dot or colon decides; a zone is refused.
unfoldable pub parse_from : Text → Text → Option Ip
unfolding parse_ipv4 parse_ipv6
parse_from s [] = none
parse_from s (c ∷ t) =
    let rest = parse_from s t in
    if c == b'.'
    then parse_ipv4 s
    else if c == b':'
    then parse_ipv6 s
    else if c == b'%'
    then none
    else rest

unfoldable pub parse_ip : Text → Option Ip
unfolding parse_from
parse_ip s = parse_from s s

abbrev pub byte_at : ℕ → List ℕ → ℕ
byte_at i [] = 0
byte_at zero (b ∷ bs) = b
byte_at (suc i) (b ∷ bs) = byte_at i bs

-- The predicates of `net.IP`. A mask that keeps the upper bits of a byte is a division.
unfoldable pub is_loopback : Ip → Bool
unfolding text_eq
is_loopback (v4 a b c d) = a == 127
is_loopback (v6 bytes) = text_eq bytes (replicate 15 0 ++ 1 ∷ [])

unfoldable pub is_private : Ip → Bool
is_private (v4 a b c d) = a == 10 || (a == 172 && b / 16 == 1) || (a == 192 && b == 168)
is_private (v6 bytes) = byte_at 0 bytes / 2 == 126

unfoldable pub is_unspecified : Ip → Bool
unfolding text_eq
is_unspecified (v4 a b c d) = a == 0 && b == 0 && c == 0 && d == 0
is_unspecified (v6 bytes) = text_eq bytes (replicate 16 0)

unfoldable pub is_multicast : Ip → Bool
is_multicast (v4 a b c d) = a / 16 == 14
is_multicast (v6 bytes) = byte_at 0 bytes == 255

unfoldable pub is_link_local_unicast : Ip → Bool
is_link_local_unicast (v4 a b c d) = a == 169 && b == 254
is_link_local_unicast (v6 bytes) = byte_at 0 bytes == 254 && byte_at 1 bytes / 64 == 2

unfoldable pub is_link_local_multicast : Ip → Bool
is_link_local_multicast (v4 a b c d) = a == 224 && b == 0 && c == 0
is_link_local_multicast (v6 bytes) = byte_at 0 bytes == 255 && byte_at 1 bytes % 16 == 2
