-- ===== src/Protocol/Detect/First.antt =====
-- pkg/protocol/protocol.go, DetectProtocol: the protocol that it returns.
use go_proxy.Base.{
  ◌≡◌, ◌↔◌, ◌⊎◌, inl, inr, refl, sym, ap, ◌∙◌, true, false, Option, none, some, List, [], ◌∷◌,
  Bool-cases,
}
use go_proxy.Base.Int.{ℤ}
use go_proxy.Base.Text.{Text}
use go_proxy.Model.Proxy.{Protocol}
use go_proxy.Protocol.Conn.{ProbeError, cancelled}
use go_proxy.Protocol.Tunnel.Defs.{Packages}
use go_proxy.Protocol.Detect.Defs.{
  Result, ok, err, World, try_all, PortKind, socks_port, tls_port, http_port, any_port, port_kind,
  order_for, probe_order, probe_protocol, probe_timeout, detect_protocol,
}

-- The protocol is the first of the list whose probe succeeds, the probes before it all fail, and
-- the context is not done before any of these.
pub data IsFirst (w : World) (probe : Protocol → Result (ℤ × Text))
    : List Protocol → Protocol → ℤ → Text → Type 0 where
  here :
      {p q : Protocol} {ps : List Protocol} {latency : ℤ} {body : Text}
      → p ≡ q
      → w.done_before p ≡ false
      → probe p ≡ ok (latency, body)
      → IsFirst w probe (p ∷ ps) q latency body
  later :
      {p q : Protocol} {ps : List Protocol} {latency : ℤ} {body : Text} {e : ProbeError}
      → w.done_before p ≡ false
      → probe p ≡ err e
      → IsFirst w probe ps q latency body
      → IsFirst w probe (p ∷ ps) q latency body

Result-cases :
    {A : Type 0} (r : Result A) → ((a : A) × (r ≡ ok a)) ⊎ ((e : ProbeError) × (r ≡ err e))
Result-cases (ok a) = inl (a, refl)
Result-cases (err e) = inr (e, refl)

-- There was a probe or there will be one.
HasProbe : Option ProbeError → List Protocol → Type 0
HasProbe none [] = ⊥
HasProbe none (p ∷ ps) = Unit
HasProbe (some e) ps = Unit

order_for-HasProbe : (kind : PortKind) → HasProbe none (order_for kind)
unfolding HasProbe
order_for-HasProbe socks_port = tt
order_for-HasProbe tls_port = tt
order_for-HasProbe http_port = tt
order_for-HasProbe any_port = tt

probe_order-HasProbe : (port : ℤ) → HasProbe none (probe_order port)
unfolding probe_order
probe_order-HasProbe port = order_for-HasProbe (port_kind port)

ok_inj : {A : Type 0} {a b : A} → ok a ≡ ok b → a ≡ b
ok_inj e = cc

module _ (w : World) (probe : Protocol → Result (ℤ × Text)) where
  try_all_done :
      (p : Protocol) (ps : List Protocol) (last : Option ProbeError)
      → w.done_before p ≡ true
      → try_all w probe last (p ∷ ps) ≡ err cancelled
  unfolding try_all
  try_all_done p ps none d = rw d refl
  try_all_done p ps (some l) d = rw d refl

  try_all_found :
      (p : Protocol) (ps : List Protocol) (last : Option ProbeError) (a : ℤ × Text)
      → w.done_before p ≡ false
      → probe p ≡ ok a
      → try_all w probe last (p ∷ ps) ≡ ok (p, a.0, a.1)
  unfolding try_all
  try_all_found p ps none a d s = rw (d, s) refl
  try_all_found p ps (some l) a d s = rw (d, s) refl

  try_all_failed :
      (p : Protocol) (ps : List Protocol) (last : Option ProbeError) (e : ProbeError)
      → w.done_before p ≡ false
      → probe p ≡ err e
      → try_all w probe last (p ∷ ps) ≡ try_all w probe (some e) ps
  unfolding try_all
  try_all_failed p ps none e d s = rw (d, s) refl
  try_all_failed p ps (some l) e d s = rw (d, s) refl

  try_all-IsFirst :
      (ps : List Protocol) (last : Option ProbeError) (q : Protocol) (latency : ℤ) (body : Text)
      → HasProbe last ps
      → try_all w probe last ps ≡ ok (q, latency, body)
      → IsFirst w probe ps q latency body
  unfolding try_all HasProbe
  try_all-IsFirst [] none q latency body f e = elim f [ ]
  try_all-IsFirst [] (some l) q latency body f e = cc
  try_all-IsFirst (p ∷ ps) last q latency body f e = elim (Bool-cases (w.done_before p)) [
    | inl d ↦ cc (try_all_done p ps last d)
    | inr d ↦ elim (Result-cases (probe p)) [
      | inl (a, s) ↦
          let same = ok_inj (sym (try_all_found p ps last a d s) ∙ e) in
          here (ap (λ t. t.0) same) d (s ∙ ap (λ t. ok (t.1, t.2)) same)
      | inr (x, s) ↦
          later d s (
            try_all-IsFirst ps (some x) q latency body tt
              (sym (try_all_failed p ps last x d s) ∙ e))
    ]
  ]

  try_all_finds :
      (ps : List Protocol) (last : Option ProbeError) (q : Protocol) (latency : ℤ) (body : Text)
      → IsFirst w probe ps q latency body
      → try_all w probe last ps ≡ ok (q, latency, body)
  try_all_finds [] last q latency body x = elim x [ ]
  try_all_finds (p ∷ ps) last q latency body (here e d s) =
      try_all_found p ps last (latency, body) d s ∙ ap (λ r. ok (r, latency, body)) e
  try_all_finds (p ∷ ps) last q latency body (later d s r) =
      try_all_failed p ps last _ d s ∙ try_all_finds ps (some _) q latency body r

-- DetectProtocol returns a protocol, with its latency and body, exactly when it is the first, in
-- the order for the port, whose probe with the timeout, of 3.5 seconds at most, succeeds: the
-- probes before it have failed, and the context was not done before any of them.
pub detect_protocol-IsFirst :
    (w : World) (pkg : Packages) (addr : Text) (port : ℤ) (judge_url : Text) (timeout : ℤ)
    (q : Protocol) (latency : ℤ) (body : Text)
    → (detect_protocol w pkg addr port judge_url timeout ≡ ok (q, latency, body))
      ↔ IsFirst w
          (λ p. probe_protocol w pkg p addr judge_url (probe_timeout timeout))
          (probe_order port)
          q
          latency
          body
unfolding detect_protocol
detect_protocol-IsFirst w pkg addr port judge_url timeout q latency body =
    let probe = λ (p : Protocol). probe_protocol w pkg p addr judge_url (probe_timeout timeout) in
    (
      (λ h.
          try_all-IsFirst w probe (probe_order port) none q latency body (probe_order-HasProbe port)
            h),
      try_all_finds w probe (probe_order port) none q latency body,
    )
