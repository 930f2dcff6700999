-- ===== src/Pipeline/Jobs/Defs.antt =====
-- pkg/pipeline/pipeline.go, parseLineToJob.
use go_proxy.Base.{Bool, ◌&&◌, Option, none, some, if◌then◌else◌}
use go_proxy.Base.Int.{ℤ, pos, ltb_ℤ, leb_ℤ}
use go_proxy.Base.Text.{Text, codes, contains, is_empty, trim_space, to_lower, Parsed, atoi}
use go_proxy.Model.Proxy.{Protocol, protocol_of_text}
use go_proxy.Net.Ip.{Ip, parse_ip}

pub record Job : Type 0 where
  pub ip : Text
  pub port : ℤ
  pub protocol : Protocol

-- What the code uses of net/url and net: the scheme and the host of an address, and the host and
-- the port of a text; `none` is an error.
pub record Parsers : Type 0 where
  pub parse_url : Text → Option (Text × Text)
  pub split_host_port : Text → Option (Text × Text)

abbrev pub is_port_number : Parsed → Bool
is_port_number p = p.valid && (ltb_ℤ (pos 0) p.value && leb_ℤ p.value (pos 65535))

-- The form of an address with a scheme; a port that is no number becomes the value of Atoi.
abbrev pub job_of_host : ℤ → Protocol → Text → Option (Text × Text) → Job
job_of_host default_port proto host none = record {
  ip = host;
  port = default_port;
  protocol = proto;
}
job_of_host default_port proto host (some (h, p)) = record {
  ip = h;
  port = (atoi p).value;
  protocol = proto;
}

abbrev pub job_of_url : Parsers → ℤ → Option (Text × Text) → Option Job
job_of_url ps default_port none = none
job_of_url ps default_port (some (scheme, host)) =
    if is_empty host
    then none
    else some (
        job_of_host default_port (protocol_of_text (to_lower scheme)) host
          (ps.split_host_port host))

-- The form of a host and a port.
abbrev pub job_of_pair : Protocol → Option (Text × Text) → Option Job
job_of_pair proto none = none
job_of_pair proto (some (h, p)) =
    if is_port_number (atoi p)
    then some (record { ip = h; port = (atoi p).value; protocol = proto })
    else none

-- The form of an address alone.
abbrev pub job_of_ip : Text → ℤ → Protocol → Option Ip → Option Job
job_of_ip line default_port proto none = none
job_of_ip line default_port proto (some ip) = some (record {
  ip = line;
  port = if leb_ℤ default_port (pos 0) then pos 8080 else default_port;
  protocol = proto;
})

abbrev pub or_else : Option Job → Option Job → Option Job
or_else (some j) later = some j
or_else none later = later

-- `parseLineToJob`; `none` is the error.
unfoldable pub parse_line_to_job : Parsers → Text → ℤ → Protocol → Option Job
unfolding trim_space contains to_lower protocol_of_text atoi parse_ip
parse_line_to_job ps text default_port proto =
    let line = trim_space text in
    let by_url =
      if contains line (codes "://")
      then job_of_url ps default_port (ps.parse_url line)
      else none in
    let by_pair =
      if contains line (codes ":") then job_of_pair proto (ps.split_host_port line) else none in
    or_else by_url (or_else by_pair (job_of_ip line default_port proto (parse_ip line)))
