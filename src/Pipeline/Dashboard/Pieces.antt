-- ===== src/Pipeline/Dashboard/Pieces.antt =====
-- pkg/pipeline/dashboard.go: the pieces of text that are printed, with their colours, which the
-- package color writes. A text is its UTF-8 bytes.
use go_proxy.Base.{
  ℕ, zero, suc, ◌+◌, ◌-◌, ◌%◌, Bool, not, ◌&&◌, Option, none, some, [], ◌∷◌, ◌++◌, ltb, leb,
  if◌then◌else◌, length, take, drop, filter, replicate,
}
use go_proxy.Base.Int.{ℤ, pos, negsuc}
use go_proxy.Base.Float.{Float64}
use go_proxy.Base.Text.{Text, codes, format_nat, itoa}
use go_proxy.Base.Counts.{order_counts}
use go_proxy.Base.Assoc.{Map}

-- The attributes that the report gives to the package color; `plain` is fmt itself.
pub data Colour : Type 0 where
  plain bold cyan green yellow red magenta blue white dim : Colour

abbrev pub Piece : Type 0
Piece = Colour × Text

-- What the report uses of fmt: %.0f, %.1f and %.2f.
pub record Prints : Type 0 where
  pub whole_number : Float64 → Text
  pub one_decimal : Float64 → Text
  pub two_decimals : Float64 → Text

-- A byte that starts a character, for the widths of fmt.
abbrev starts_rune : ℕ → Bool
starts_rune b = not (leb 128 b && ltb b 192)

-- `%-10s` and `%-10d` of a text, for a width
unfoldable pub pad_right : ℕ → Text → Text
pad_right width s = s ++ replicate (width - length (filter starts_rune s)) 32

abbrev pub repeat_text : ℕ → Text → Text
repeat_text zero s = []
repeat_text (suc n) s = s ++ repeat_text n s

-- The characters of the frame and the bar.
abbrev pub frame : ℕ → Text
frame last = 226 ∷ 149 ∷ last ∷ []

abbrev pub wall : Text
wall = frame 145

abbrev pub column : Text
column = 226 ∷ 148 ∷ 130 ∷ 32 ∷ []

abbrev pub rule : ℕ → ℕ → ℕ → Text
rule left right n = frame left ++ (repeat_text n (frame 144) ++ (frame right ++ 10 ∷ []))

abbrev pub full_block : Text
full_block = 226 ∷ 150 ∷ 136 ∷ []

abbrev pub light_block : Text
light_block = 226 ∷ 150 ∷ 145 ∷ []

-- `int(x) % 60`
unfoldable pub mod_sixty : ℤ → ℤ
mod_sixty (pos n) = pos (n % 60)
mod_sixty (negsuc n) = opposite ((n + 1) % 60)
  where
    opposite : ℕ → ℤ
    opposite zero = pos 0
    opposite (suc m) = negsuc m

-- `%02d`
unfoldable pub two_digits : ℤ → Text
unfolding itoa
two_digits (pos n) = if ltb n 10 then b'0' ∷ format_nat n else format_nat n
two_digits (negsuc n) = itoa (negsuc n)

abbrev pub halves : ℕ → Text → Text × Text
halves n s = (take n s, drop n s)

-- The bar of 50 blocks, of which the first `n` are full, cut after `n` bytes: `speedBar[:barLen]`
-- and `speedBar[barLen:]`. `none` is the panic of a negative count.
unfoldable pub speed_bar : ℤ → Option (Text × Text)
speed_bar (negsuc n) = none
speed_bar (pos n) = some (halves n (repeat_text n full_block ++ repeat_text (50 - n) light_block))

-- The entries that `getTopCountries` and `PrintFinalSummary` list.
unfoldable pub top_entries : ℕ → Map ℕ → Map ℕ
unfolding order_counts
top_entries n countries = take n (order_counts countries)

-- `strings.Join` of the entries, with the separator of a name and its count in front.
unfoldable pub join_entries : Text → Text → Map ℕ → Text
unfolding format_nat
join_entries colon separator [] = []
join_entries colon separator ((k, n) ∷ []) = k ++ (colon ++ format_nat n)
join_entries colon separator ((k, n) ∷ e ∷ es) =
    k ++ (colon ++ (format_nat n ++ (separator ++ join_entries colon separator (e ∷ es))))

-- `getTopCountries`; the dash is that of an empty map.
unfoldable pub get_top_countries : ℕ → Map ℕ → Text
unfolding top_entries join_entries
get_top_countries n [] = 226 ∷ 128 ∷ 148 ∷ []
get_top_countries n (c ∷ cs) = join_entries (codes ":") (codes "  ") (top_entries n (c ∷ cs))
