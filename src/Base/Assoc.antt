-- ===== src/Base/Assoc.antt =====
-- A Go map with string keys, as an association list.
use go_proxy.Base.{◌≡◌, refl, ap, true, Option, none, some, List, [], ◌∷◌, arith, if◌then◌else◌}
use go_proxy.Base.Text.{Text, text_eq, text_eq_iff, text_eq_refl}

abbrev pub Map {ℓ} : Type ℓ → Type ℓ
Map V = List (Text × V)

module _ {ℓ} {V : Type ℓ} where
  -- `v, ok := m[k]`
  unfoldable pub lookup : Text → Map V → Option V
  lookup k [] = none
  lookup k ((j, v) ∷ m) = if text_eq j k then some v else lookup k m

  -- `m[k] = v`
  unfoldable pub insert : Text → V → Map V → Map V
  insert k v [] = (k, v) ∷ []
  insert k v ((j, w) ∷ m) = if text_eq j k then (k, v) ∷ m else (j, w) ∷ insert k v m

  pub lookup-insert :
      (k j : Text) (v : V) (m : Map V)
      → lookup j (insert k v m) ≡ (if text_eq k j then some v else lookup j m)
  unfolding lookup insert
  lookup-insert k j v [] = refl
  lookup-insert k j v ((i, w) ∷ m) =
      ground (arith, text_eq_iff k j, text_eq_iff i k, text_eq_iff i j, lookup-insert k j v m)

  -- `delete(m, k)`
  unfoldable pub erase : Text → Map V → Map V
  erase k [] = []
  erase k ((j, w) ∷ m) = if text_eq j k then erase k m else (j, w) ∷ erase k m

  pub lookup-erase :
      (k j : Text) (m : Map V) → lookup j (erase k m) ≡ (if text_eq k j then none else lookup j m)
  unfolding lookup erase
  lookup-erase k j [] = ground arith
  lookup-erase k j ((i, w) ∷ m) =
      ground (arith, text_eq_iff k j, text_eq_iff i k, text_eq_iff i j, lookup-erase k j m)

  pub lookup-insert_self : (k : Text) (v : V) (m : Map V) → lookup k (insert k v m) ≡ some v
  lookup-insert_self k v m = simp (lookup-insert, text_eq_refl)

module _ {ℓ} {V : Type ℓ} where
  -- No key is listed twice.
  abbrev pub HasUniqueKeys : Map V → Type ℓ
  HasUniqueKeys [] = Unit
  HasUniqueKeys ((k, v) ∷ m) = (lookup k m ≡ none) × HasUniqueKeys m

  pub insert-HasUniqueKeys :
      (k : Text) (v : V) (m : Map V) → HasUniqueKeys m → HasUniqueKeys (insert k v m)
  unfolding lookup insert
  insert-HasUniqueKeys k v [] h = (refl, tt)
  insert-HasUniqueKeys k v ((j, w) ∷ m) h = ground (
    arith,
    text_eq_iff j k,
    text_eq_iff k j,
    lookup-insert k j v m,
    insert-HasUniqueKeys k v m h.1,
  )

  -- The value at one key is not that at another.
  pub lookup-congr : (k j : Text) (m : Map V) → text_eq k j ≡ true → lookup k m ≡ lookup j m
  lookup-congr k j m e = ap (λ t. lookup t m) ((text_eq_iff k j).0 e)
