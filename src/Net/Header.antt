-- ===== src/Net/Header.antt =====
-- `http.Header`: fields by their canonical names.
use go_proxy.Base.{Bool, true, Option, some, List, [], ◌∷◌, ◌==◌, if◌then◌else◌}
use go_proxy.Base.Text.{Text, lower_byte, upper_byte}
use go_proxy.Base.Assoc.{Map, lookup}

abbrev pub Header : Type 0
Header = Map (List Text)

-- `textproto.CanonicalMIMEHeaderKey`: a capital first and after each dash, small letters else.
unfoldable pub canonical_from : Bool → Text → Text
unfolding lower_byte upper_byte
canonical_from upper [] = []
canonical_from upper (c ∷ s) =
    (if upper then upper_byte c else lower_byte c) ∷ canonical_from (c == b'-') s

abbrev first_or_empty : Option (List Text) → Text
first_or_empty (some (v ∷ _)) = v
first_or_empty _ = []

-- `headers.Get(name)`
unfoldable pub header_get : Text → Header → Text
unfolding canonical_from lookup
header_get name h = first_or_empty (lookup (canonical_from true name) h)
