-- ===== src/Checker/Score/Defs.antt =====
-- pkg/checker/checker.go, CalculateScore. The stages are those that the code numbers, each from
-- the score so far.
use go_proxy.Base.{ℕ, ◌+◌, Bool, ltb, if◌then◌else◌}
use go_proxy.Base.Int.{ℤ, pos, ltb_ℤ, ◌-ℤ◌}
use go_proxy.Base.Float.{Float64, FloatOps}
use go_proxy.Model.Proxy.{
  Time, is_zero_time, Protocol, http, https, socks4, socks4a, socks5, unknown, other, Anonymity,
  elite, transparent, anonymous, unknown_level, Proxy,
}

module _ (f : FloatOps) where
  -- A constant without decimals.
  abbrev pub whole : ℕ → Float64
  whole n = f.decimal n 0

  -- 1: at most 45 off for the latency
  unfoldable pub latency_stage : Proxy → Float64 → Float64
  latency_stage p score =
      if ltb_ℤ (pos 0) p.latency_ms
      then (let penalty =
            f.div
              (f.mul (whole 45)
                (f.log10 (f.add (f.div (f.of_int p.latency_ms) (whole 100)) (whole 1))))
              (f.log10 (whole 51)) in
          f.sub score (if f.lt (whole 45) penalty then whole 45 else penalty))
      else score

  -- 2
  unfoldable pub anonymity_stage : Anonymity → Float64 → Float64
  anonymity_stage elite score = f.add score (whole 8)
  anonymity_stage transparent score = f.sub score (whole 30)
  anonymity_stage anonymous score = score
  anonymity_stage unknown_level score = score

  -- 3
  unfoldable pub protocol_stage : Protocol → Float64 → Float64
  protocol_stage socks5 score = f.add score (whole 10)
  protocol_stage https score = f.add score (whole 6)
  protocol_stage socks4 score = f.add score (whole 4)
  protocol_stage socks4a score = f.add score (whole 4)
  protocol_stage http score = score
  protocol_stage unknown score = score
  protocol_stage (other s) score = score

  -- 4
  unfoldable pub ssl_stage : Bool → Float64 → Float64
  ssl_stage ssl score = if ssl then f.add score (whole 6) else score

  -- 5
  unfoldable pub failure_stage : ℕ → Float64 → Float64
  failure_stage fails score =
      if ltb 0 fails
      then f.sub score
          (f.min_of (whole 50) (f.mul (f.pow (whole 2) (f.of_int (pos fails))) (whole 8)))
      else score

  -- 6
  unfoldable pub history_stage : ℕ → ℕ → Float64 → Float64
  history_stage successes failures score =
      if ltb 2 (successes + failures)
      then (let rate = f.div (f.of_int (pos successes)) (f.of_int (pos (successes + failures))) in
          f.sub score (f.mul (f.sub (whole 1) rate) (whole 30)))
      else score

  -- 7
  unfoldable pub decay_stage : Time → Time → Float64 → Float64
  decay_stage now last_alive score =
      if is_zero_time last_alive
      then score
      else (let hours = f.hours (pos now -ℤ pos last_alive) in
          if f.lt (whole 0) hours
          then f.sub score (
              f.mul (f.sub (whole 1) (f.exp (f.div (f.sub (whole 0) hours) (whole 24)))) (whole 25))
          else score)

  -- 8
  unfoldable pub judge_stage : ℕ → Float64 → Float64
  judge_stage judges score =
      if ltb 1 judges
      then (let bonus = f.mul (f.of_int (pos judges -ℤ pos 1)) (whole 3) in
          f.add score (if f.lt (whole 10) bonus then whole 10 else bonus))
      else score

  -- The score before it is clamped.
  unfoldable pub raw_score : Time → Proxy → Float64
  unfolding latency_stage anonymity_stage protocol_stage ssl_stage failure_stage history_stage
      decay_stage judge_stage
  raw_score now p = judge_stage p.judge_count (
      decay_stage now p.last_alive (
        history_stage p.success_checks p.failed_checks (
          failure_stage p.consecutive_fail (
            ssl_stage p.ssl (
              protocol_stage p.protocol
                (anonymity_stage p.anonymity (latency_stage p (whole 100))))))))

  unfoldable pub clamp : Float64 → Float64
  clamp score =
      let upper = if f.lt (whole 100) score then whole 100 else score in
      if f.lt upper (whole 0) then whole 0 else upper

  -- `CalculateScore` at the time `now`
  unfoldable pub calculate_score : Time → Proxy → ℤ
  unfolding raw_score clamp
  calculate_score now p = f.to_int (f.round (clamp (raw_score now p)))
