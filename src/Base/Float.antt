-- ===== src/Base/Float.antt =====
-- Go's float64 values, which the model keeps as bit patterns, and the operations on them that
-- the program calls (IEEE arithmetic and the package math). The operations are a parameter.
use go_proxy.Base.{ℕ, Bool}
use go_proxy.Base.Int.{ℤ}

abbrev pub Float64 : Type 0
Float64 = ℕ

pub record FloatOps : Type 0 where
  -- `float64(n)`
  pub of_int : ℤ → Float64
  pub add : Float64 → Float64 → Float64
  pub sub : Float64 → Float64 → Float64
  pub mul : Float64 → Float64 → Float64
  pub div : Float64 → Float64 → Float64
  -- `a < b`
  pub lt : Float64 → Float64 → Bool
  -- `int64(x)`
  pub to_int : Float64 → ℤ
  -- the seconds and the hours of a duration in nanoseconds
  pub seconds : ℤ → Float64
  pub hours : ℤ → Float64
  -- a decimal constant, as its digits without the point and the number of decimals
  pub decimal : ℕ → ℕ → Float64
  pub log10 : Float64 → Float64
  pub exp : Float64 → Float64
  pub pow : Float64 → Float64 → Float64
  pub min_of : Float64 → Float64 → Float64
  pub round : Float64 → Float64
  -- ROUND(x, 2) of SQL
  pub round2 : Float64 → Float64
