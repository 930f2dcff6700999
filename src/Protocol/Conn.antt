-- ===== src/Protocol/Conn.antt =====
-- pkg/protocol/protocol.go: a connection as the code sees it in one run, the packages it calls,
-- and its errors.
use go_proxy.Base.{
  ℕ, zero, suc, ◌-◌, Option, none, some, List, [], ◌∷◌, ◌++◌, leb, if◌then◌else◌, length, take,
  drop,
}
use go_proxy.Base.Int.{ℤ}
use go_proxy.Base.Text.{Text}
use go_proxy.Protocol.Judge.Defs.{Rejection}

-- The segments that will arrive, how many writes will succeed, what was written, and the time
-- since the start when the last answer is there.
pub record Conn : Type 0 where
  pub incoming : List Text
  pub writable : ℕ
  pub sent : List Text
  pub latency : ℤ

abbrev pub in_front : Text → Option (Text × List Text) → Option (Text × List Text)
in_front s none = none
in_front s (some (bytes, rest)) = some (s ++ bytes, rest)

-- `io.ReadAtLeast(conn, buf, min)` with `room = len(buf)`; a segment that is longer than the
-- buffer stays for the next read.
unfoldable pub read_at_least : ℕ → ℕ → List Text → Option (Text × List Text)
read_at_least room least [] = none
read_at_least room least (s ∷ rest) =
    let more = read_at_least (room - length s) (least - length s) rest in
    if leb least (length s) then some (take room s, drop room s ∷ rest) else in_front s more

-- What one probe may return as its error.
pub data ProbeError : Type 0 where
  dial_failed write_failed read_failed bad_version no_method refused not_http : ProbeError
  bad_status : ℤ → ProbeError
  body_failed handshake_failed cancelled unsupported : ProbeError
  false_positive : Rejection → ProbeError

-- Running a piece of the dialogue: an error, with the connection as it is then, or a value.
pub data Run (A : Type 0) : Type 0 where
  failed : ProbeError → Conn → Run A
  done : A → Conn → Run A

abbrev pub and_then : {A B : Type 0} → Run A → (A → Conn → Run B) → Run B
and_then (failed e c) k = failed e c
and_then (done a c) k = k a c

abbrev pub write_with : ℕ → Text → Conn → Run Unit
write_with zero bytes c = failed write_failed c
write_with (suc n) bytes c = done tt (record c { writable = n; sent = c.sent ++ bytes ∷ [] })

-- `conn.Write`
unfoldable pub write : Text → Conn → Run Unit
write bytes c = write_with c.writable bytes c

abbrev pub read_to : Option (Text × List Text) → Conn → Run Text
read_to none c = failed read_failed c
read_to (some (bytes, rest)) c = done bytes (record c { incoming = rest })

-- `io.ReadAtLeast` and `io.ReadFull`
unfoldable pub read : ℕ → ℕ → Conn → Run Text
unfolding read_at_least
read room least c = read_to (read_at_least room least c.incoming) c
