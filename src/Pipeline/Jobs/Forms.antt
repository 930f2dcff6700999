-- ===== src/Pipeline/Jobs/Forms.antt =====
-- pkg/pipeline/pipeline.go, parseLineToJob: the forms of a line and their jobs.
use go_proxy.Base.{
  ◌≡◌, ◌≢◌, ◌⊎◌, inl, inr, refl, Bool, true, false, Option, none, some, some_inj, [], ◌∷◌,
  if◌then◌else◌, arith, and_true_left, and_true_right,
}
use mathlib.Core.Path.{subst}
use go_proxy.Base.Int.{ℤ, pos, ltb_ℤ, leb_ℤ}
use go_proxy.Base.Text.{Text, codes, contains, trim_space, to_lower, atoi}
use go_proxy.Model.Proxy.{Protocol, protocol_of_text}
use go_proxy.Net.Ip.{Ip, parse_ip}
use go_proxy.Pipeline.Jobs.Defs.{
  Job, Parsers, is_port_number, job_of_host, job_of_url, job_of_pair, job_of_ip, or_else,
  parse_line_to_job,
}

-- Why the form of an address with a scheme does not apply.
pub data NoUrl (ps : Parsers) (line : Text) : Type 0 where
  no_scheme : contains line (codes "://") ≡ false → NoUrl ps line
  not_parsed : ps.parse_url line ≡ none → NoUrl ps line
  no_host : (scheme : Text) → ps.parse_url line ≡ some (scheme, []) → NoUrl ps line

-- Why the form of a host and a port does not apply.
pub data NoPair (ps : Parsers) (line : Text) : Type 0 where
  no_colon : contains line (codes ":") ≡ false → NoPair ps line
  not_split : ps.split_host_port line ≡ none → NoPair ps line
  bad_port :
      (host p : Text)
      → ps.split_host_port line ≡ some (host, p)
      → is_port_number (atoi p) ≡ false
      → NoPair ps line

-- The address and the port of a job, from the host of an address with a scheme.
pub data IsEndpoint (ps : Parsers) (host : Text) (default_port : ℤ) (j : Job) : Type 0 where
  host_alone :
      ps.split_host_port host ≡ none
      → j.ip ≡ host
      → j.port ≡ default_port
      → IsEndpoint ps host default_port j
  host_and_port :
      (p : Text)
      → ps.split_host_port host ≡ some (j.ip, p)
      → j.port ≡ (atoi p).value
      → IsEndpoint ps host default_port j

-- The job of a line without white space around it, by the form that the line has.
pub data IsJobOf (ps : Parsers) (line : Text) (default_port : ℤ) (proto : Protocol) (j : Job)
    : Type 0 where
  url :
      (scheme host : Text)
      → contains line (codes "://") ≡ true
      → ps.parse_url line ≡ some (scheme, host)
      → host ≢ []
      → j.protocol ≡ protocol_of_text (to_lower scheme)
      → IsEndpoint ps host default_port j
      → IsJobOf ps line default_port proto j
  pair :
      (p : Text)
      → NoUrl ps line
      → contains line (codes ":") ≡ true
      → ps.split_host_port line ≡ some (j.ip, p)
      → (atoi p).valid ≡ true
      → j.port ≡ (atoi p).value
      → ltb_ℤ (pos 0) j.port ≡ true
      → leb_ℤ j.port (pos 65535) ≡ true
      → j.protocol ≡ proto
      → IsJobOf ps line default_port proto j
  address :
      NoUrl ps line
      → NoPair ps line
      → j.ip ≡ line
      → parse_ip line ≢ none
      → j.port ≡ (if leb_ℤ default_port (pos 0) then pos 8080 else default_port)
      → ltb_ℤ (pos 0) j.port ≡ true
      → j.protocol ≡ proto
      → IsJobOf ps line default_port proto j

or_else_split :
    (a b : Option Job) (j : Job) → or_else a b ≡ some j → (a ≡ some j) ⊎ ((a ≡ none) × (b ≡ some j))
or_else_split (some i) b j h = inl h
or_else_split none b j h = inr (refl, h)

under_test :
    (b : Bool) (o : Option Job) (j : Job)
    → (if b then o else none) ≡ some j
    → (b ≡ true) × (o ≡ some j)
under_test true o j h = (refl, h)
under_test false o j h = cc

not_under_test :
    (b : Bool) (o : Option Job) → (if b then o else none) ≡ none → (b ≡ false) ⊎ (o ≡ none)
not_under_test true o h = inr h
not_under_test false o h = inl refl

tested : (b : Bool) (i j : Job) → (if b then some i else none) ≡ some j → (b ≡ true) × (i ≡ j)
tested true i j h = (refl, some_inj h)
tested false i j h = cc

not_tested : (b : Bool) (i : Job) → (if b then some i else none) ≡ none → b ≡ false
not_tested true i h = cc
not_tested false i h = refl

positive_port : (d : ℤ) → ltb_ℤ (pos 0) (if leb_ℤ d (pos 0) then pos 8080 else d) ≡ true
positive_port d = ground arith

module _ (ps : Parsers) (line : Text) (default_port : ℤ) (proto : Protocol) where
  job_of_host-IsEndpoint :
      (host : Text) (q : Protocol) (o : Option (Text × Text))
      → ps.split_host_port host ≡ o
      → IsEndpoint ps host default_port (job_of_host default_port q host o)
        × ((job_of_host default_port q host o).protocol ≡ q)
  job_of_host-IsEndpoint host q none e = (host_alone e refl refl, refl)
  job_of_host-IsEndpoint host q (some (h, p)) e = (host_and_port p e refl, refl)

  url-IsJobOf :
      (j : Job) (o : Option (Text × Text))
      → contains line (codes "://") ≡ true
      → ps.parse_url line ≡ o
      → job_of_url ps default_port o ≡ some j
      → IsJobOf ps line default_port proto j
  url-IsJobOf j none c e h = cc
  url-IsJobOf j (some (scheme, [])) c e h = cc
  url-IsJobOf j (some (scheme, x ∷ xs)) c e h =
      let host = x ∷ xs in
      let q = protocol_of_text (to_lower scheme) in
      let (point, same) = job_of_host-IsEndpoint host q (ps.split_host_port host) refl in
      subst (λ i. IsJobOf ps line default_port proto i) (some_inj h)
        (url scheme host c e (λ n. cc) same point)

  none-NoUrl :
      (o : Option (Text × Text))
      → ps.parse_url line ≡ o
      → job_of_url ps default_port o ≡ none
      → NoUrl ps line
  none-NoUrl none e h = not_parsed e
  none-NoUrl (some (scheme, [])) e h = no_host scheme e
  none-NoUrl (some (scheme, x ∷ xs)) e h = cc

  by_url-NoUrl :
      (if contains line (codes "://") then job_of_url ps default_port (ps.parse_url line) else none)
        ≡ none
      → NoUrl ps line
  by_url-NoUrl h = elim (not_under_test _ _ h) [
    | inl e ↦ no_scheme e
    | inr e ↦ none-NoUrl (ps.parse_url line) refl e
  ]

  pair-IsJobOf :
      (j : Job) (o : Option (Text × Text))
      → NoUrl ps line
      → contains line (codes ":") ≡ true
      → ps.split_host_port line ≡ o
      → job_of_pair proto o ≡ some j
      → IsJobOf ps line default_port proto j
  pair-IsJobOf j none u c e h = cc
  pair-IsJobOf j (some (host, p)) u c e h =
      let (t, same) = tested (is_port_number (atoi p)) _ j h in
      let range = and_true_right (atoi p).valid _ t in
      subst (λ i. IsJobOf ps line default_port proto i) same
        (pair p u c e (and_true_left (atoi p).valid _ t) refl
          (and_true_left (ltb_ℤ (pos 0) (atoi p).value) _ range)
          (and_true_right (ltb_ℤ (pos 0) (atoi p).value) _ range) refl)

  none-NoPair :
      (o : Option (Text × Text))
      → ps.split_host_port line ≡ o
      → job_of_pair proto o ≡ none
      → NoPair ps line
  none-NoPair none e h = not_split e
  none-NoPair (some (host, p)) e h = bad_port host p e (not_tested (is_port_number (atoi p)) _ h)

  by_pair-NoPair :
      (if contains line (codes ":") then job_of_pair proto (ps.split_host_port line) else none)
        ≡ none
      → NoPair ps line
  by_pair-NoPair h = elim (not_under_test _ _ h) [
    | inl e ↦ no_colon e
    | inr e ↦ none-NoPair (ps.split_host_port line) refl e
  ]

  address-IsJobOf :
      (j : Job) (o : Option Ip)
      → NoUrl ps line
      → NoPair ps line
      → parse_ip line ≡ o
      → job_of_ip line default_port proto o ≡ some j
      → IsJobOf ps line default_port proto j
  address-IsJobOf j none u n e h = cc
  address-IsJobOf j (some ip) u n e h =
      subst (λ i. IsJobOf ps line default_port proto i) (some_inj h)
        (address u n refl (λ m. cc (e, m)) refl (positive_port default_port) refl)

-- A job of parseLineToJob is that of the first form that applies to the line without the white
-- space around it: with "://" and a host in the address, the protocol is that of the scheme and
-- the port, which is not tested, that of the host or the default one; else, with a colon, a host
-- and a number from 1 to 65535, these and the default protocol; else the line is an IP address,
-- with the default port (8080 if that is not positive) and the default protocol.
pub parse_line_to_job-IsJobOf :
    (ps : Parsers) (text : Text) (default_port : ℤ) (proto : Protocol) (j : Job)
    → parse_line_to_job ps text default_port proto ≡ some j
    → IsJobOf ps (trim_space text) default_port proto j
unfolding parse_line_to_job
parse_line_to_job-IsJobOf ps text default_port proto j h =
    let line = trim_space text in
    elim (or_else_split _ _ j h) [
      | inl a ↦
          let (c, made) = under_test (contains line (codes "://")) _ j a in
          url-IsJobOf ps line default_port proto j (ps.parse_url line) c refl made
      | inr (a, b) ↦
          let u = by_url-NoUrl ps line default_port proto a in
          elim (or_else_split _ _ j b) [
            | inl p ↦
                let (c, made) = under_test (contains line (codes ":")) _ j p in
                pair-IsJobOf ps line default_port proto j (ps.split_host_port line) u c refl made
            | inr (p, d) ↦
                address-IsJobOf ps line default_port proto j (parse_ip line) u
                  (by_pair-NoPair ps line default_port proto p) refl d
          ]
    ]
