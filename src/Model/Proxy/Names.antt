-- ===== src/Model/Proxy/Names.antt =====
-- Protocol names: reading a name and printing it again.
use go_proxy.Base.{◌≡◌, arith}
use go_proxy.Base.Text.{Text, codes, text_eq_iff}
use go_proxy.Model.Proxy.{protocol_text, protocol_of_text}

-- Printing the protocol that a string stands for gives the string back.
pub protocol_text-of_text : (s : Text) → protocol_text (protocol_of_text s) ≡ s
unfolding protocol_text protocol_of_text
protocol_text-of_text s = ground (
  arith,
  text_eq_iff s (codes "http"),
  text_eq_iff s (codes "https"),
  text_eq_iff s (codes "socks4"),
  text_eq_iff s (codes "socks4a"),
  text_eq_iff s (codes "socks5"),
  text_eq_iff s (codes "unknown"),
)
