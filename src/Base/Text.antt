-- ===== src/Base/Text.antt =====
-- Go's strings and byte slices as lists of bytes, with what the program uses of the packages
-- strings, bytes and strconv. White space and letter case are those of ASCII.
use Prim.Native.Char.{code}
use Prim.Native.String.{String}
use mathlib.Core.List.{reverse}
use go_proxy.Base.{
  ℕ, zero, suc, ◌+◌, ◌-◌, ◌*◌, ◌/◌, ◌%◌, ◌^◌, ◌≡◌, refl, ◌≢◌, ◌↔◌, Bool, true, false, ◌&&◌, ◌||◌,
  Option, none, some, List, [], ◌∷◌, ◌++◌, map, arith, ltb, leb, ◌==◌, if◌then◌else◌, any, length,
}
use go_proxy.Base.Int.{ℤ, pos, negsuc}

abbrev pub Text : Type 0
Text = List ℕ

-- The bytes of an ASCII literal.
abbrev pub codes : String → Text
codes String.[] = []
codes (String.◌∷◌ c s) = code c ∷ codes s

-- `a == b`
unfoldable pub text_eq : Text → Text → Bool
text_eq [] [] = true
text_eq [] (_ ∷ _) = false
text_eq (_ ∷ _) [] = false
text_eq (a ∷ s) (b ∷ t) = a == b && text_eq s t

pub text_eq_iff : (s t : Text) → (text_eq s t ≡ true) ↔ (s ≡ t)
unfolding text_eq
text_eq_iff [] [] = ground arith
text_eq_iff [] (b ∷ t) = ground arith
text_eq_iff (a ∷ s) [] = ground arith
text_eq_iff (a ∷ s) (b ∷ t) = ground (arith, text_eq_iff s t)

-- Texts that the test tells apart are different.
pub ne_of_text_eq : (s t : Text) → text_eq s t ≡ false → s ≢ t
ne_of_text_eq s t h = λ e. ground (arith, (text_eq_iff s t).1 e)

pub text_eq_refl : (s : Text) → text_eq s s ≡ true
text_eq_refl s = (text_eq_iff s s).1 refl

abbrev pub is_empty : Text → Bool
is_empty [] = true
is_empty (_ ∷ _) = false

-- `strings.HasPrefix(s, prefix)`
unfoldable pub has_prefix : Text → Text → Bool
has_prefix s [] = true
has_prefix [] (_ ∷ _) = false
has_prefix (a ∷ s) (b ∷ p) = a == b && has_prefix s p

-- `strings.Contains(s, sub)`
unfoldable pub contains : Text → Text → Bool
unfolding has_prefix
contains [] sub = has_prefix [] sub
contains (a ∷ s) sub = has_prefix (a ∷ s) sub || contains s sub

-- `strings.TrimPrefix(s, prefix)` for a prefix of one byte
unfoldable pub trim_prefix_byte : ℕ → Text → Text
trim_prefix_byte c [] = []
trim_prefix_byte c (a ∷ s) = if a == c then s else a ∷ s

-- Drops the leading bytes that pass the test.
unfoldable pub drop_while : (ℕ → Bool) → Text → Text
drop_while p [] = []
drop_while p (a ∷ s) = if p a then drop_while p s else a ∷ s

-- `strings.TrimFunc(s, p)`
unfoldable pub trim_by : (ℕ → Bool) → Text → Text
unfolding drop_while
trim_by p s = reverse (drop_while p (reverse (drop_while p s)))

-- tab, line feed, vertical tab, form feed, carriage return and space
unfoldable pub is_space : ℕ → Bool
is_space c = leb 9 c && leb c 13 || c == 32

-- `strings.TrimSpace(s)`
unfoldable pub trim_space : Text → Text
unfolding trim_by is_space
trim_space s = trim_by is_space s

-- `strings.Trim(s, cutset)`
unfoldable pub trim_cutset : Text → Text → Text
unfolding trim_by
trim_cutset cutset s = trim_by (λ c. any (λ x. x == c) cutset) s

-- `strings.ToLower`, `strings.ToUpper`
unfoldable pub lower_byte : ℕ → ℕ
lower_byte c = if leb b'A' c && leb c b'Z' then c + 32 else c

unfoldable pub upper_byte : ℕ → ℕ
upper_byte c = if leb b'a' c && leb c b'z' then c - 32 else c

unfoldable pub to_lower : Text → Text
unfolding lower_byte
to_lower = map lower_byte

unfoldable pub to_upper : Text → Text
unfolding upper_byte
to_upper = map upper_byte

-- The bytes before the first `c`, and those after it if there is one.
unfoldable pub cut : ℕ → Text → Text × Option Text
cut c [] = ([], none)
cut c (a ∷ s) =
    let (before, after) = cut c s in if a == c then ([], some s) else (a ∷ before, after)

-- `strings.Split(s, sep)` for a separator of one byte; the result is never empty
unfoldable pub split : ℕ → Text → List Text
split c [] = [] ∷ []
split c (a ∷ s) = elim (split c s) [
  | [] ↦ [] ∷ []
  | part ∷ parts ↦ if a == c then [] ∷ part ∷ parts else (a ∷ part) ∷ parts
]

-- `strings.ReplaceAll(s, old, new)`, as bytes to be skipped and the rest of the text
replace_from : Text → Text → ℕ → Text → Text
unfolding has_prefix
replace_from old new k [] = []
replace_from old new (suc k) (a ∷ s) = replace_from old new k s
replace_from old new zero (a ∷ s) =
    if has_prefix (a ∷ s) old
    then new ++ replace_from old new (length old - 1) s
    else a ∷ replace_from old new 0 s

unfoldable pub replace_all : Text → Text → Text → Text
unfolding replace_from
replace_all s old new = replace_from old new 0 s

-- The decimal digits of a number, in front of `rest`; the fuel is the number itself.
unfoldable pub digits_from : ℕ → ℕ → Text → Text
digits_from zero n rest = (n % 10 + b'0') ∷ rest
digits_from (suc f) n rest =
    let more = digits_from f (n / 10) ((n % 10 + b'0') ∷ rest) in
    if ltb n 10 then (n + b'0') ∷ rest else more

unfoldable pub format_nat : ℕ → Text
unfolding digits_from
format_nat n = digits_from n n []

-- `strconv.Itoa(i)` and the verb %d
unfoldable pub itoa : ℤ → Text
unfolding format_nat
itoa (pos n) = format_nat n
itoa (negsuc n) = b'-' ∷ format_nat (n + 1)

unfoldable pub is_digit : ℕ → Bool
is_digit c = leb b'0' c && leb c b'9'

-- The number that a text of decimal digits stands for; `none` where another byte occurs.
unfoldable pub digits_value : ℕ → Text → Option ℕ
unfolding is_digit
digits_value acc [] = some acc
digits_value acc (c ∷ s) =
    let rest = digits_value (acc * 10 + (c - b'0')) s in if is_digit c then rest else none

-- What `strconv.Atoi(s)` returns: the value, and whether the error is nil. The value is 0 after
-- a syntax error and the nearest 64-bit integer after a range error.
pub record Parsed : Type 0 where
  pub value : ℤ
  pub valid : Bool

abbrev syntax_error : Parsed
syntax_error = record { value = pos 0; valid = false }

unfoldable pub signed_value : Bool → Text → Parsed
signed_value minus [] = syntax_error
signed_value minus (c ∷ s) = elim (digits_value 0 (c ∷ s)) [
  | none ↦ syntax_error
  | some n ↦
      if minus
      then if n == 0
        then record { value = pos 0; valid = true }
        else if leb n (2 ^ 63)
        then record { value = negsuc (n - 1); valid = true }
        else record { value = negsuc (2 ^ 63 - 1); valid = false }
      else if ltb n (2 ^ 63)
      then record { value = pos n; valid = true }
      else record { value = pos (2 ^ 63 - 1); valid = false }
]

unfoldable pub atoi : Text → Parsed
unfolding signed_value digits_value
atoi [] = syntax_error
atoi (c ∷ s) =
    if c == b'-'
    then signed_value true s
    else if c == b'+'
    then signed_value false s
    else signed_value false (c ∷ s)
