-- ===== src/Pipeline/Jobs/Readback.antt =====
-- pkg/model/proxy.go, Address, and pkg/pipeline/pipeline.go, parseLineToJob: an address, written
-- and read back.
use go_proxy.Base.{
  ℕ, ◌≤◌, ◌<◌, ◌≡◌, refl, sym, ap, ◌∙◌, Bool, true, false, ◌==◌, Option, none, some, [], ◌∷◌, ◌++◌,
  All, length, arith, if◌then◌else◌, append_assoc_right,
}
use go_proxy.Base.Int.{ℤ, pos}
use go_proxy.Base.Text.{
  Text, text_eq, to_lower, codes, is_digit, is_space, contains, has_prefix, trim_space, trim_by,
  drop_while, itoa, format_nat,
}
use go_proxy.Base.Trim.{drop_while-stops, trim_by-kept}
use go_proxy.Base.Digits.{IsDigit, format_nat-IsDigit, length-format_nat, atoi-format_nat}
use go_proxy.Net.Ip.{parse_ip}
use go_proxy.Model.Proxy.{
  Protocol, http, https, socks4, socks4a, socks5, unknown, other, Proxy, protocol_text,
  protocol_of_text, address, url_string,
}
use go_proxy.Pipeline.Jobs.Defs.{
  Job, Parsers, is_port_number, job_of_ip, or_else, parse_line_to_job,
}

-- A byte of a host without colons and white space.
abbrev pub IsHostByte : ℕ → Type 0
IsHostByte c = (is_space c ≡ false) × ((c == b':') ≡ false)

digit-no_space : (c : ℕ) → IsDigit c → is_space c ≡ false
unfolding is_digit is_space
digit-no_space c h = ground (arith, h)

digits-no_space : (s : Text) → All IsDigit s → All (λ c. is_space c ≡ false) s
digits-no_space [] h = tt
digits-no_space (c ∷ s) h = (digit-no_space c h.0, digits-no_space s h.1)

digits-no_scheme : (d : Text) → All IsDigit d → contains d (codes "://") ≡ false
unfolding contains has_prefix is_digit
digits-no_scheme [] h = refl
digits-no_scheme (c ∷ d) h = ground (arith, h.0, digits-no_scheme d h.1)

port-no_slash : (d : Text) → All IsDigit d → has_prefix d (codes "//") ≡ false
unfolding has_prefix is_digit
port-no_slash [] h = refl
port-no_slash (c ∷ d) h = ground (arith, h.0)

pair-no_scheme :
    (host d : Text)
    → All IsHostByte host
    → All IsDigit d
    → contains (host ++ b':' ∷ d) (codes "://") ≡ false
unfolding contains has_prefix
pair-no_scheme [] d h k = ground (arith, port-no_slash d k, digits-no_scheme d k)
pair-no_scheme (c ∷ host) d h k = ground (arith, h.0.1, pair-no_scheme host d h.1 k)

pair-has_colon : (host d : Text) → contains (host ++ b':' ∷ d) (codes ":") ≡ true
unfolding contains has_prefix
pair-has_colon [] d = refl
pair-has_colon (c ∷ host) d = ground (arith, pair-has_colon host d)

-- A line that ends with digits and starts with another byte than white space is not trimmed.
line-kept :
    (line front d : Text)
    → line ≡ front ++ d
    → drop_while is_space line ≡ line
    → 0 < length d
    → All IsDigit d
    → trim_space line ≡ line
unfolding trim_space
line-kept line front [] e s l k = absurd (omega (arith, l))
line-kept line front (b ∷ d) e s l k =
    ap (trim_by is_space) e
    ∙ trim_by-kept is_space front b d (ap (drop_while is_space) (sym e) ∙ s ∙ e)
        (digits-no_space (b ∷ d) k)
    ∙ sym e

first_passes :
    (b : Bool) (j : Job) (later : Option Job)
    → b ≡ true
    → or_else (if b then some j else none) later ≡ some j
first_passes true j later h = refl
first_passes false j later h = cc

read_pair :
    (ps : Parsers) (host : Text) (n : ℕ) (default_port : ℤ) (proto : Protocol)
    → 0 < n
    → n ≤ 65535
    → 0 < length host
    → All IsHostByte host
    → ps.split_host_port (host ++ b':' ∷ format_nat n) ≡ some (host, format_nat n)
    → parse_line_to_job ps (host ++ b':' ∷ format_nat n) default_port proto
      ≡ some (record { ip = host; port = pos n; protocol = proto })
unfolding parse_line_to_job
read_pair ps [] n default_port proto positive small l h split = absurd (omega (arith, l))
read_pair ps (c ∷ host) n default_port proto positive small l h split =
    let digits = format_nat-IsDigit n in
    rw
      (
        line-kept ((c ∷ host) ++ b':' ∷ format_nat n) ((c ∷ host) ++ b':' ∷ []) (format_nat n)
            (sym (append_assoc_right (c ∷ host) (b':' ∷ []) (format_nat n)))
            (drop_while-stops is_space c _ h.0.0) (length-format_nat n) digits,
        pair-no_scheme (c ∷ host) (format_nat n) h digits,
        pair-has_colon (c ∷ host) (format_nat n),
        split,
        atoi-format_nat n (omega (arith, small)),
      )
      (first_passes (is_port_number (record { value = pos n; valid = true })) _
        (job_of_ip ((c ∷ host) ++ b':' ∷ format_nat n) default_port proto
          (parse_ip ((c ∷ host) ++ b':' ∷ format_nat n)))
        (ground (arith, positive, small)))

prefix_passes : (s t : Text) → has_prefix (s ++ t) s ≡ true
unfolding has_prefix
prefix_passes [] t = refl
prefix_passes (c ∷ s) t = ground (arith, prefix_passes s t)

contains-prefix : (s sub : Text) → has_prefix s sub ≡ true → contains s sub ≡ true
unfolding contains
contains-prefix [] sub h = h
contains-prefix (c ∷ s) sub h = rw h refl

contains-append : (front sub rest : Text) → contains (front ++ (sub ++ rest)) sub ≡ true
unfolding contains
contains-append [] sub rest = contains-prefix (sub ++ rest) sub (prefix_passes sub rest)
contains-append (c ∷ front) sub rest = ground (arith, contains-append front sub rest)

-- The names of the protocols that the program knows.
abbrev pub IsNamed : Protocol → Type 0
IsNamed (other s) = ⊥
IsNamed p = Unit

protocol_text-kept :
    (p : Protocol)
    → IsNamed p
    → (protocol_of_text (to_lower (protocol_text p)) ≡ p)
      × ((s : Text) → drop_while is_space (protocol_text p ++ s) ≡ protocol_text p ++ s)
unfolding protocol_text protocol_of_text to_lower text_eq drop_while is_space
protocol_text-kept http h = (refl, λ s. refl)
protocol_text-kept https h = (refl, λ s. refl)
protocol_text-kept socks4 h = (refl, λ s. refl)
protocol_text-kept socks4a h = (refl, λ s. refl)
protocol_text-kept socks5 h = (refl, λ s. refl)
protocol_text-kept unknown h = (refl, λ s. refl)
protocol_text-kept (other s) h = elim h [ ]

read_url :
    (ps : Parsers) (t : Protocol) (host : Text) (n : ℕ) (default_port : ℤ) (proto : Protocol)
    → IsNamed t
    → n ≤ 65535
    → 0 < length host
    → ps.parse_url (protocol_text t ++ (codes "://" ++ (host ++ b':' ∷ format_nat n)))
      ≡ some (protocol_text t, host ++ b':' ∷ format_nat n)
    → ps.split_host_port (host ++ b':' ∷ format_nat n) ≡ some (host, format_nat n)
    → parse_line_to_job ps
        (protocol_text t ++ (codes "://" ++ (host ++ b':' ∷ format_nat n)))
        default_port
        proto
      ≡ some (record { ip = host; port = pos n; protocol = t })
unfolding parse_line_to_job
read_url ps t [] n default_port proto named small l parse split = absurd (omega (arith, l))
read_url ps t (c ∷ host) n default_port proto named small l parse split =
    let digits = format_nat n in
    let line = protocol_text t ++ (codes "://" ++ ((c ∷ host) ++ b':' ∷ digits)) in
    let front = protocol_text t ++ (codes "://" ++ ((c ∷ host) ++ b':' ∷ [])) in
    let (same, starts) = protocol_text-kept t named in
    let ends : line ≡ front ++ digits =
      ap (λ s. protocol_text t ++ (codes "://" ++ s))
        (sym (append_assoc_right (c ∷ host) (b':' ∷ []) digits))
      ∙ sym (
          append_assoc_right (protocol_text t) (codes "://" ++ ((c ∷ host) ++ b':' ∷ [])) digits) in
    rw
      (
        line-kept line front digits ends (starts _) (length-format_nat n) (format_nat-IsDigit n),
        contains-append (protocol_text t) (codes "://") ((c ∷ host) ++ b':' ∷ digits),
        parse,
        split,
        atoi-format_nat n (omega (arith, small)),
        same,
      )
      refl

url_string-parts :
    (p : Proxy) → url_string p ≡ protocol_text p.protocol ++ (codes "://" ++ address p)
unfolding address url_string
url_string-parts p =
    append_assoc_right (protocol_text p.protocol ++ codes "://") p.ip (b':' ∷ itoa p.port)
    ∙ append_assoc_right (protocol_text p.protocol) (codes "://") (p.ip ++ b':' ∷ itoa p.port)

-- What the program writes for a proxy it reads back as the job of the proxy. Let the protocol be
-- one of those that it knows, the port one from 1 to 65535, and the host a text without colons
-- and white space that is not empty; let net.SplitHostPort split the address at its colon, and
-- url.Parse give the scheme and the address of the URL. Then parseLineToJob gives the host and the
-- port for the line with the address, with the default protocol, and for the line with the URL
-- with the protocol of the proxy.
pub parse_line_to_job-url_string :
    (ps : Parsers) (p : Proxy) (n : ℕ) (default_port : ℤ) (proto : Protocol)
    → IsNamed p.protocol
    → p.port ≡ pos n
    → 0 < n
    → n ≤ 65535
    → 0 < length p.ip
    → All IsHostByte p.ip
    → ps.split_host_port (address p) ≡ some (p.ip, itoa p.port)
    → ps.parse_url (url_string p) ≡ some (protocol_text p.protocol, address p)
    → (parse_line_to_job ps (address p) default_port proto
        ≡ some (record { ip = p.ip; port = p.port; protocol = proto }))
      × (parse_line_to_job ps (url_string p) default_port proto
          ≡ some (record { ip = p.ip; port = p.port; protocol = p.protocol }))
unfolding address itoa
parse_line_to_job-url_string ps p n default_port proto named port positive small l h split parse =
    let parts = url_string-parts p in
    let parse_parts = ap ps.parse_url (sym parts) ∙ parse in
    (
      rw port (read_pair ps p.ip n default_port proto positive small l h (rw port at split)),
      ap (λ s. parse_line_to_job ps s default_port proto) parts
          ∙ rw port (
              read_url ps p.protocol p.ip n default_port proto named small l
                (rw port at parse_parts) (rw port at split)),
    )
