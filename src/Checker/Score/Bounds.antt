-- ===== src/Checker/Score/Bounds.antt =====
-- pkg/checker/checker.go, CalculateScore: the range of the score.
use go_proxy.Base.{◌≡◌, refl, Bool, true, false, if◌then◌else◌}
use go_proxy.Base.Int.{pos, ◌≤ℤ◌}
use go_proxy.Base.Float.{Float64, FloatOps}
use go_proxy.Model.Proxy.{Time, Proxy}
use go_proxy.Checker.Score.Defs.{whole, raw_score, clamp, calculate_score}

-- What float64 and the package math do with numbers from 0 to 100: the constants compare as the
-- numbers do, a number that is neither below 0 nor above 100 rounds to one of the integers 0 to
-- 100, and NaN is no number.
pub record RoundsPercents (f : FloatOps) (IsNumber : Float64 → Type 0) : Type 0 where
  pub zero_number : IsNumber (f.decimal 0 0)
  pub hundred_number : IsNumber (f.decimal 100 0)
  pub zero_irrefl : f.lt (f.decimal 0 0) (f.decimal 0 0) ≡ false
  pub zero_below : f.lt (f.decimal 100 0) (f.decimal 0 0) ≡ false
  pub hundred_irrefl : f.lt (f.decimal 100 0) (f.decimal 100 0) ≡ false
  pub rounds :
      (x : Float64)
      → IsNumber x
      → f.lt x (f.decimal 0 0) ≡ false
      → f.lt (f.decimal 100 0) x ≡ false
      → (pos 0 ≤ℤ f.to_int (f.round x)) × (f.to_int (f.round x) ≤ℤ pos 100)

module _ (f : FloatOps) (IsNumber : Float64 → Type 0) (laws : RoundsPercents f IsNumber) where
  -- The number is in the range.
  record IsPercent (x : Float64) : Type 0 where
    number : IsNumber x
    not_negative : f.lt x (f.decimal 0 0) ≡ false
    not_above : f.lt (f.decimal 100 0) x ≡ false

  clamp_below :
      (x : Float64)
      → IsNumber x
      → f.lt (f.decimal 100 0) x ≡ false
      → IsPercent (if f.lt x (whole f 0) then whole f 0 else x)
  clamp_below x n h = go (f.lt x (whole f 0)) refl
    where
      go : (b : Bool) → f.lt x (whole f 0) ≡ b → IsPercent (if b then whole f 0 else x)
      go true e = record {
        number = laws.zero_number;
        not_negative = laws.zero_irrefl;
        not_above = laws.zero_below;
      }
      go false e = record { number = n; not_negative = e; not_above = h }

  clamp-IsPercent : (x : Float64) → IsNumber x → IsPercent (clamp f x)
  unfolding clamp
  clamp-IsPercent x n = go (f.lt (whole f 100) x) refl
    where
      go :
          (b : Bool)
          → f.lt (whole f 100) x ≡ b
          → IsPercent (
              if f.lt (if b then whole f 100 else x) (whole f 0)
              then whole f 0
              else (if b then whole f 100 else x))
      go true e = clamp_below (whole f 100) laws.hundred_number laws.hundred_irrefl
      go false e = clamp_below x n e

  -- CalculateScore returns an integer from 0 to 100 for every proxy whose score before the clamp
  -- is a number, if float64 and the package math round numbers from 0 to 100 as they should.
  pub calculate_score_bounded :
      (now : Time) (p : Proxy)
      → IsNumber (raw_score f now p)
      → (pos 0 ≤ℤ calculate_score f now p) × (calculate_score f now p ≤ℤ pos 100)
  unfolding calculate_score
  calculate_score_bounded now p n =
      let c = clamp-IsPercent (raw_score f now p) n in
      laws.rounds (clamp f (raw_score f now p)) c.number c.not_negative c.not_above
