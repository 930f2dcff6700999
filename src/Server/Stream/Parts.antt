-- ===== src/Server/Stream/Parts.antt =====
-- Sequences of events without some of their elements.
use go_proxy.Base.{◌≡◌, refl, List, [], ◌∷◌, ◌++◌, inl, inr, ◌⊎◌}
use go_proxy.Base.Text.{Text}

-- `xs` is `ys` without some of its elements.
abbrev pub IsPartOf : List Text → List Text → Type 0
IsPartOf [] ys = Unit
IsPartOf (x ∷ xs) [] = ⊥
IsPartOf (x ∷ xs) (y ∷ ys) = ((x ≡ y) × IsPartOf xs ys) ⊎ IsPartOf (x ∷ xs) ys

IsPartOf-cons : (xs : List Text) (y : Text) (ys : List Text) → IsPartOf xs ys → IsPartOf xs (y ∷ ys)
IsPartOf-cons [] y ys h = tt
IsPartOf-cons (x ∷ xs) y ys h = inr h

-- One more element at the end of both, or of the whole.
pub IsPartOf-append :
    (xs ys : List Text) (e : Text) → IsPartOf xs ys → IsPartOf (xs ++ e ∷ []) (ys ++ e ∷ [])
IsPartOf-append [] [] e h = inl (refl, tt)
IsPartOf-append [] (y ∷ ys) e h = inr (IsPartOf-append [] ys e tt)
IsPartOf-append (x ∷ xs) [] e h = absurd h
IsPartOf-append (x ∷ xs) (y ∷ ys) e (inl (q, h)) = inl (q, IsPartOf-append xs ys e h)
IsPartOf-append (x ∷ xs) (y ∷ ys) e (inr h) = inr (IsPartOf-append (x ∷ xs) ys e h)

pub IsPartOf-longer : (xs ys : List Text) (e : Text) → IsPartOf xs ys → IsPartOf xs (ys ++ e ∷ [])
IsPartOf-longer [] ys e h = tt
IsPartOf-longer (x ∷ xs) [] e h = absurd h
IsPartOf-longer (x ∷ xs) (y ∷ ys) e (inl (q, h)) = inl (q, IsPartOf-longer xs ys e h)
IsPartOf-longer (x ∷ xs) (y ∷ ys) e (inr h) = inr (IsPartOf-longer (x ∷ xs) ys e h)

-- One element less in the middle.
pub IsPartOf-without :
    (us vs ys : List Text) (e : Text) → IsPartOf (us ++ e ∷ vs) ys → IsPartOf (us ++ vs) ys
IsPartOf-without [] vs [] e h = absurd h
IsPartOf-without [] vs (y ∷ ys) e (inl (q, h)) = IsPartOf-cons vs y ys h
IsPartOf-without [] vs (y ∷ ys) e (inr h) = IsPartOf-cons vs y ys (IsPartOf-without [] vs ys e h)
IsPartOf-without (a ∷ us) vs [] e h = absurd h
IsPartOf-without (a ∷ us) vs (y ∷ ys) e (inl (q, h)) = inl (q, IsPartOf-without us vs ys e h)
IsPartOf-without (a ∷ us) vs (y ∷ ys) e (inr h) = inr (IsPartOf-without (a ∷ us) vs ys e h)
