-- ===== src/Pipeline/Dashboard/Line.antt =====
-- pkg/pipeline/pipeline.go, printAliveLine: the line on the terminal for a live proxy.
use go_proxy.Base.{List, [], ◌∷◌, ◌++◌, if◌then◌else◌}
use go_proxy.Base.Text.{Text, codes, is_empty, to_upper, itoa}
use go_proxy.Model.Proxy.{Proxy, Anonymity, elite, transparent, anonymity_text, url_string}
use go_proxy.Pipeline.Dashboard.Pieces.{
  plain, green, yellow, red, magenta, blue, cyan, Colour, Piece, pad_right,
}

-- The colour of the level of anonymity.
abbrev level_colour : Anonymity → Colour
level_colour elite = green
level_colour transparent = red
level_colour _ = yellow

-- A text in brackets, with a blank after it.
abbrev in_brackets : Text → Text
in_brackets s = b'[' ∷ (s ++ codes "] ")

-- `printAliveLine`; the two words in Vietnamese are their UTF-8 bytes.
unfoldable pub print_alive_line : Proxy → List Piece
unfolding pad_right url_string to_upper anonymity_text itoa
print_alive_line p =
    (green, codes "[+] S" ++ 225 ∷ 187 ∷ 144 ∷ codes "NG ")
    ∷ (plain, pad_right 26 (url_string p) ++ 32 ∷ [])
    ∷ (level_colour p.anonymity, in_brackets (to_upper (anonymity_text p.anonymity)))
    ∷ (cyan, in_brackets (itoa p.latency_ms ++ codes "ms"))
    ∷ ((if is_empty p.country_code then [] else (magenta, in_brackets p.country_code) ∷ [])
        ++ (if p.ssl then (green, codes "[SSL] ") ∷ [] else [])
        ++ (blue, 196 ∷ 144 ∷ 105 ∷ 225 ∷ 187 ∷ 131 ∷ codes "m:" ++ itoa p.score ++ 10 ∷ []) ∷ [])
