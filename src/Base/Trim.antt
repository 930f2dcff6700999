-- ===== src/Base/Trim.antt =====
-- Texts that strings.TrimFunc and strings.Split leave as they are.
use mathlib.Core.List.{reverse, reverse_aux}
use go_proxy.Base.{
  ◌≡◌, refl, sym, ap, ◌∙◌, Bool, false, List, [], ◌∷◌, ◌++◌, ℕ, ◌==◌, arith, if◌then◌else◌, All,
  append-nil_right,
}
use go_proxy.Base.Text.{Text, drop_while, trim_by, split}

reverse_aux-append :
    (front s r : Text) → reverse_aux (front ++ s) r ≡ reverse_aux s (reverse_aux front r)
reverse_aux-append [] s r = refl
reverse_aux-append (a ∷ front) s r = reverse_aux-append front s (a ∷ r)

reverse_aux-reverse_aux : (s r t : Text) → reverse_aux (reverse_aux s r) t ≡ reverse_aux r (s ++ t)
reverse_aux-reverse_aux [] r t = refl
reverse_aux-reverse_aux (a ∷ s) r t = reverse_aux-reverse_aux s (a ∷ r) t

reverse-reverse : (s : Text) → reverse (reverse s) ≡ s
reverse-reverse s = reverse_aux-reverse_aux s [] [] ∙ append-nil_right s

module _ (p : ℕ → Bool) where
  -- The text has no byte that passes the test.
  abbrev pub HasNone : Text → Type 0
  HasNone s = All (λ c. p c ≡ false) s

  pub drop_while-stops : (b : ℕ) (s : Text) → p b ≡ false → drop_while p (b ∷ s) ≡ b ∷ s
  unfolding drop_while
  drop_while-stops b s h = rw h refl

  drop_while-reverse_aux :
      (s : Text) (b : ℕ) (r : Text)
      → p b ≡ false
      → HasNone s
      → drop_while p (reverse_aux s (b ∷ r)) ≡ reverse_aux s (b ∷ r)
  drop_while-reverse_aux [] b r h k = drop_while-stops b r h
  drop_while-reverse_aux (a ∷ s) b r h k = drop_while-reverse_aux s a (b ∷ r) k.0 k.1

  -- A text that starts and ends with other bytes is not trimmed.
  pub trim_by-kept :
      (front : Text) (b : ℕ) (s : Text)
      → drop_while p (front ++ b ∷ s) ≡ front ++ b ∷ s
      → HasNone (b ∷ s)
      → trim_by p (front ++ b ∷ s) ≡ front ++ b ∷ s
  unfolding trim_by
  trim_by-kept front b s h k =
      let back = drop_while-reverse_aux s b (reverse_aux front []) k.0 k.1 in
      let turned = reverse_aux-append front (b ∷ s) [] in
      ap (λ t. reverse (drop_while p (reverse t))) h
      ∙ ap (λ t. reverse (drop_while p t)) turned
      ∙ ap reverse back
      ∙ ap reverse (sym turned)
      ∙ reverse-reverse (front ++ b ∷ s)

-- The part before the first separator.
pub split-append :
    (c : ℕ) (s rest : Text)
    → All (λ a. (a == c) ≡ false) s
    → split c (s ++ c ∷ rest) ≡ s ∷ split c rest
unfolding split
split-append c [] rest h = go (split c rest)
  where
    go :
        (parts : List Text)
        → elim parts [
          | [] ↦ [] ∷ []
          | part ∷ more ↦ if c == c then [] ∷ part ∷ more else (c ∷ part) ∷ more
        ]
          ≡ [] ∷ parts
    go [] = refl
    go (part ∷ more) = ground arith
split-append c (a ∷ s) rest h = rw (split-append c s rest h.1, h.0) refl
