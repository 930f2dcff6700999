-- ===== src/Protocol/Socks/Exchange.antt =====
-- pkg/protocol/protocol.go: what the parts of a run that ends well have read and written.
use mathlib.Core.Path.{subst}
use go_proxy.Base.{
  ℕ, zero, suc, ◌-◌, ◌≤◌, ◌≡◌, ◌⊎◌, inl, inr, refl, sym, ap, ◌∙◌, Bool, true, false, Option, none,
  some, List, [], ◌∷◌, ◌++◌, arith, if◌then◌else◌, length, replicate, append_assoc_right,
  append-nil_right,
}
use go_proxy.Base.Int.{ℤ}
use go_proxy.Base.Text.{Text, codes, has_prefix}
use go_proxy.Protocol.Conn.{
  Conn, Run, failed, done, ProbeError, and_then, write_with, read_to, write, read, read_at_least,
  not_http,
}
use go_proxy.Protocol.Socks.Defs.{tunnel_probe, probe_tunnel}
use go_proxy.Protocol.Socks.Reading.{stream, read_at_least-Reads}

-- From one connection to the other the code has read the bytes and written the frames.
pub record Exchanged (c c' : Conn) (received : Text) (frames : List Text) : Type 0 where
  pub was_read : received ++ stream c'.incoming ≡ stream c.incoming
  pub was_sent : c'.sent ≡ c.sent ++ frames

pub Exchanged-trans :
    {c c1 c2 : Conn} (r r1 : Text) (f f1 : List Text)
    → Exchanged c c1 r f
    → Exchanged c1 c2 r1 f1
    → Exchanged c c2 (r ++ r1) (f ++ f1)
Exchanged-trans {c} {c1} {c2} r r1 f f1 a b = record {
  was_read =
      append_assoc_right r r1 (stream c2.incoming) ∙ ap (λ t. r ++ t) b.was_read ∙ a.was_read;
  was_sent = b.was_sent ∙ ap (λ t. t ++ f1) a.was_sent ∙ append_assoc_right c.sent f f1;
}

-- A run that ends well had a first part that ended well.
pub and_then_done :
    {A B : Type 0} (r : Run A) (k : A → Conn → Run B) (b : B) (c : Conn)
    → and_then r k ≡ done b c
    → (a : A) × ((c1 : Conn) × (r ≡ done a c1) × (k a c1 ≡ done b c))
and_then_done (failed e c1) k b c h = cc
and_then_done (done a c1) k b c h = (a, (c1, refl, h))

pub done_value : {A : Type 0} {a b : A} {c d : Conn} → done a c ≡ done b d → a ≡ b
done_value h = cc

pub done_conn : {A : Type 0} {a b : A} {c d : Conn} → done a c ≡ done b d → c ≡ d
done_conn h = cc

write_with-Exchanged :
    (n : ℕ) (bytes : Text) (c c1 : Conn) (u : Unit)
    → write_with n bytes c ≡ done u c1
    → Exchanged c c1 [] (bytes ∷ [])
write_with-Exchanged zero bytes c c1 u h = cc
write_with-Exchanged (suc n) bytes c c1 u h =
    subst (λ d. Exchanged c d [] (bytes ∷ [])) (done_conn h)
      (record { was_read = refl; was_sent = refl })

read_to-Exchanged :
    (o : Option (Text × List Text)) (room least : ℕ) (c c1 : Conn) (bytes : Text)
    → least ≤ room
    → read_at_least room least c.incoming ≡ o
    → read_to o c ≡ done bytes c1
    → Exchanged c c1 bytes [] × (least ≤ length bytes) × (length bytes ≤ room)
read_to-Exchanged none room least c c1 bytes l e h = cc
read_to-Exchanged (some (b, rest)) room least c c1 bytes l e h =
    let r = read_at_least-Reads room least c.incoming b rest l e in
    let start : Exchanged c (record c { incoming = rest }) b []
        × (least ≤ length b)
        × (length b ≤ room) =
      (
        record { was_read = r.bytes_then_rest; was_sent = sym (append-nil_right c.sent) },
        r.at_least,
        r.at_most,
      ) in
    subst (λ d. Exchanged c d bytes [] × (least ≤ length bytes) × (length bytes ≤ room))
      (done_conn h)
      (subst
        (λ t.
          Exchanged c (record c { incoming = rest }) t [] × (least ≤ length t) × (length t ≤ room))
        (done_value h) start)

pub write_done :
    (bytes : Text) (c c1 : Conn) (u : Unit)
    → write bytes c ≡ done u c1
    → Exchanged c c1 [] (bytes ∷ [])
unfolding write
write_done bytes c c1 u h = write_with-Exchanged c.writable bytes c c1 u h

pub read_done :
    (room least : ℕ) (c c1 : Conn) (bytes : Text)
    → least ≤ room
    → read room least c ≡ done bytes c1
    → Exchanged c c1 bytes [] × (least ≤ length bytes) × (length bytes ≤ room)
unfolding read
read_done room least c c1 bytes l h =
    read_to-Exchanged (read_at_least room least c.incoming) room least c c1 bytes l refl h

-- The bytes of an answer begin like an HTTP response.
abbrev pub IsHttpAnswer : Text → Type 0
IsHttpAnswer t =
    (4 ≤ length t)
    × (length t ≤ 12)
    × (has_prefix (t ++ replicate (12 - length t) 0) (codes "HTTP/") ≡ true)

pub guard_done :
    {A : Type 0} (b : Bool) (r : Run A) (e : ProbeError) (c c1 : Conn) (a : A)
    → (if b then failed e c else r) ≡ done a c1
    → (b ≡ false) × (r ≡ done a c1)
guard_done true r e c c1 a h = cc
guard_done false r e c c1 a h = (refl, h)

test_done :
    {A : Type 0} (b : Bool) (r : Run A) (e : ProbeError) (c c1 : Conn) (a : A)
    → (if b then r else failed e c) ≡ done a c1
    → (b ≡ true) × (r ≡ done a c1)
test_done true r e c c1 a h = (refl, h)
test_done false r e c c1 a h = cc

pub if_split :
    {A : Type 0} (b : Bool) (r s : Run A) (t : Run A)
    → (if b then r else s) ≡ t
    → ((b ≡ true) × (r ≡ t)) ⊎ ((b ≡ false) × (s ≡ t))
if_split true r s t h = inl (refl, h)
if_split false r s t h = inr (refl, h)

pub probe_tunnel_done :
    (c c' : Conn) (latency : ℤ)
    → probe_tunnel c ≡ done latency c'
    → (answer : Text) × (Exchanged c c' answer (tunnel_probe ∷ []) × IsHttpAnswer answer)
unfolding probe_tunnel
probe_tunnel_done c c' latency h =
    let (u, (c1, w, h1)) = and_then_done (write tunnel_probe c) _ latency c' h in
    let (answer, (c2, r, h2)) = and_then_done (read 12 4 c1) _ latency c' h1 in
    let got = read_done 12 4 c1 c2 answer (omega arith) r in
    let test = test_done _ (done c2.latency c2) not_http c2 c' latency h2 in
    let ends : c2 ≡ c' = done_conn test.1 in
    (
      answer,
      (
        subst (λ d. Exchanged c d answer (tunnel_probe ∷ [])) ends
            (Exchanged-trans [] answer (tunnel_probe ∷ []) [] (write_done tunnel_probe c c1 u w)
              got.0),
        (got.1, got.2, test.0),
      ),
    )

write_with_keeps :
    (n : ℕ) (bytes : Text) (c c1 : Conn) (u : Unit)
    → write_with n bytes c ≡ done u c1
    → c.incoming ≡ c1.incoming
write_with_keeps zero bytes c c1 u h = cc
write_with_keeps (suc n) bytes c c1 u h = ap (λ (d : Conn). d.incoming) (done_conn h)

-- A write reads nothing.
pub write_keeps :
    (bytes : Text) (c c1 : Conn) (u : Unit) → write bytes c ≡ done u c1 → c.incoming ≡ c1.incoming
unfolding write
write_keeps bytes c c1 u h = write_with_keeps c.writable bytes c c1 u h
