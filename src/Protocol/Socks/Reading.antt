-- ===== src/Protocol/Socks/Reading.antt =====
-- pkg/protocol/protocol.go: reads from segments, as reads from the bytes that they hold.
use go_proxy.Base.{
  ℕ, ◌-◌, ◌≤◌, ◌<◌, ◌≡◌, refl, sym, ap, ◌∙◌, some, some_inj, List, [], ◌∷◌, ◌++◌, arith, leb,
  length, length-append, length-take, Option-cases, take, drop, take-drop, Bool-cases, leb→le, inl,
  inr, append_assoc_right,
}
use mathlib.Core.Path.{subst}
use go_proxy.Base.Text.{Text}
use go_proxy.Protocol.Conn.{in_front, read_at_least}

-- The bytes that the segments hold.
abbrev pub stream : List Text → Text
stream [] = []
stream (s ∷ rest) = s ++ stream rest

-- What a read returns and what it leaves are the bytes that were there, and it returns between
-- `min` and `cap` bytes.
pub record Reads (cap least : ℕ) (segments : List Text) (bytes : Text) (rest : List Text)
    : Type 0 where
  pub bytes_then_rest : bytes ++ stream rest ≡ stream segments
  pub at_least : least ≤ length bytes
  pub at_most : length bytes ≤ cap

split_front : (s rest : Text) (n : ℕ) → take n s ++ (drop n s ++ rest) ≡ s ++ rest
split_front s rest n =
    sym (append_assoc_right (take n s) (drop n s) rest) ∙ ap (λ t. t ++ rest) (take-drop n s)

Reads-at_once :
    (room least : ℕ) (s : Text) (more : List Text)
    → least ≤ room
    → least ≤ length s
    → Reads room least (s ∷ more) (take room s) (drop room s ∷ more)
Reads-at_once room least s more h l = record {
  bytes_then_rest = split_front s (stream more) room;
  at_least = omega (arith, length-take room s);
  at_most = omega (arith, length-take room s);
}

Reads-later :
    (room least : ℕ) (s : Text) (more : List Text) (bytes : Text) (rest : List Text)
    → length s < least
    → least ≤ room
    → Reads (room - length s) (least - length s) more bytes rest
    → Reads room least (s ∷ more) (s ++ bytes) rest
Reads-later room least s more bytes rest l h r = record {
  bytes_then_rest = append_assoc_right s bytes (stream rest) ∙ ap (λ t. s ++ t) r.bytes_then_rest;
  at_least = omega (arith, length-append s bytes, r.at_least);
  at_most = omega (arith, length-append s bytes, r.at_most);
}

pub read_at_least-Reads :
    (room least : ℕ) (segments : List Text) (bytes : Text) (rest : List Text)
    → least ≤ room
    → read_at_least room least segments ≡ some (bytes, rest)
    → Reads room least segments bytes rest
unfolding read_at_least
read_at_least-Reads room least [] bytes rest h e = cc
read_at_least-Reads room least (s ∷ more) bytes rest h e =
    let more_read = read_at_least (room - length s) (least - length s) more in
    elim (Bool-cases (leb least (length s))) [
      | inl l ↦
          let now : read_at_least room least (s ∷ more) ≡ some (take room s, drop room s ∷ more) =
            rw l refl in
          subst (λ (t : Text × List Text). Reads room least (s ∷ more) t.0 t.1)
            (some_inj (sym now ∙ e)) (Reads-at_once room least s more h (leb→le least (length s) l))
      | inr l ↦
          let on : read_at_least room least (s ∷ more) ≡ in_front s more_read = rw l refl in
          elim (Option-cases more_read) [
            | inl n ↦ cc (on, ap (in_front s) n)
            | inr (a, found) ↦
                subst (λ (t : Text × List Text). Reads room least (s ∷ more) t.0 t.1)
                  (some_inj (sym (on ∙ ap (in_front s) found) ∙ e))
                  (Reads-later room least s more a.0 a.1 (ground (arith, l)) h (
                    read_at_least-Reads (room - length s) (least - length s) more a.0 a.1
                      (omega arith) found))
          ]
    ]
