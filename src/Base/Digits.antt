-- ===== src/Base/Digits.antt =====
-- Numbers in print: what strconv.Atoi reads of the digits that strconv.Itoa writes.
use go_proxy.Base.{
  ℕ, zero, suc, ◌+◌, ◌*◌, ◌/◌, ◌%◌, ◌^◌, ◌≤◌, ◌<◌, ◌≡◌, ap, ◌∙◌, inl, inr, true, false, some, [],
  ◌∷◌, ltb, All, length, arith, Bool-cases,
}
use go_proxy.Base.Int.{pos}
use go_proxy.Base.Text.{Text, digits_from, format_nat, is_digit, digits_value, signed_value, atoi}

abbrev pub IsDigit : ℕ → Type 0
IsDigit c = is_digit c ≡ true

n-IsDigit : (n : ℕ) → n < 10 → IsDigit (n + b'0')
unfolding is_digit
n-IsDigit n h = ground (arith, h)

digits_value-cons :
    (acc n : ℕ) (rest : Text)
    → n < 10
    → digits_value acc ((n + b'0') ∷ rest) ≡ digits_value (acc * 10 + n) rest
unfolding digits_value
digits_value-cons acc n rest h = rw (n-IsDigit n h) (ap (λ m. digits_value m rest) (omega arith))

digits_value-digits_from :
    (f n : ℕ) (rest : Text) → n ≤ f → digits_value 0 (digits_from f n rest) ≡ digits_value n rest
unfolding digits_from
digits_value-digits_from zero n rest h =
    digits_value-cons 0 (n % 10) rest (omega arith)
    ∙ ap (λ m. digits_value m rest) (omega (arith, h))
digits_value-digits_from (suc f) n rest h = elim (Bool-cases (ltb n 10)) [
  | inl e ↦
      rw e (
        digits_value-cons 0 n rest (ground (arith, e))
        ∙ ap (λ m. digits_value m rest) (omega arith))
  | inr e ↦ rw e (
      digits_value-digits_from f (n / 10) ((n % 10 + b'0') ∷ rest) (ground (arith, h, e))
      ∙ digits_value-cons (n / 10) (n % 10) rest (omega arith)
      ∙ ap (λ m. digits_value m rest) (omega arith))
]

digits_from-IsDigit :
    (f n : ℕ) (rest : Text) → n ≤ f → All IsDigit rest → All IsDigit (digits_from f n rest)
unfolding digits_from
digits_from-IsDigit zero n rest h k = (n-IsDigit (n % 10) (omega arith), k)
digits_from-IsDigit (suc f) n rest h k = elim (Bool-cases (ltb n 10)) [
  | inl e ↦ rw e (n-IsDigit n (ground (arith, e)), k)
  | inr e ↦ rw e (
      digits_from-IsDigit f (n / 10) ((n % 10 + b'0') ∷ rest) (ground (arith, h, e))
        (n-IsDigit (n % 10) (omega arith), k))
]

length-digits_from : (f n : ℕ) (rest : Text) → 0 < length (digits_from f n rest)
unfolding digits_from
length-digits_from zero n rest = omega arith
length-digits_from (suc f) n rest =
    ground (arith, length-digits_from f (n / 10) ((n % 10 + b'0') ∷ rest))

pub format_nat-IsDigit : (n : ℕ) → All IsDigit (format_nat n)
unfolding format_nat
format_nat-IsDigit n = digits_from-IsDigit n n [] (omega arith) tt

pub length-format_nat : (n : ℕ) → 0 < length (format_nat n)
unfolding format_nat
length-format_nat n = length-digits_from n n []

signed : (t : Text) → 0 < length t → All IsDigit t → atoi t ≡ signed_value false t
unfolding atoi is_digit
signed [] l h = absurd (omega (arith, l))
signed (c ∷ s) l h = ground (arith, h.0)

pub atoi-digits :
    (t : Text) (n : ℕ)
    → 0 < length t
    → All IsDigit t
    → digits_value 0 t ≡ some n
    → n < 2 ^ 63
    → atoi t ≡ record { value = pos n; valid = true }
unfolding signed_value
atoi-digits [] n l h v small = absurd (omega (arith, l))
atoi-digits (c ∷ s) n l h v small =
    signed (c ∷ s) l h ∙ rw (v, signed_value) (ground (arith, small))

pub atoi-format_nat :
    (n : ℕ) → n < 2 ^ 63 → atoi (format_nat n) ≡ record { value = pos n; valid = true }
unfolding format_nat digits_value
atoi-format_nat n small =
    atoi-digits (format_nat n) n (length-format_nat n) (format_nat-IsDigit n)
      (digits_value-digits_from n n [] (omega arith)) small
