-- ===== src/Judge/Level.antt =====
-- pkg/judge/judge.go, EvaluateAnonymity: what each level means.
use go_proxy.Base.{
  ◌≡◌, ◌↔◌, ◌⊎◌, inl, inr, refl, false_of_not, true_of_not, and_true, and_true_left, and_true_right,
  or_split, or_left, or_right, Bool, true, false, not, ◌&&◌, [], ◌∷◌, any, arith, Somewhere,
  any-Somewhere,
}
use go_proxy.Base.Text.{Text, contains, is_empty, to_upper}
use go_proxy.Model.Proxy.{Anonymity, transparent, anonymous, elite}
use go_proxy.Net.Header.{Header}
use go_proxy.Judge.Defs.{
  proxy_headers, azenv_markers, leaks, names_header, has_marker, anonymity_level,
  evaluate_anonymity,
}

-- The address of this host is known and occurs in a value of a header or in the body.
abbrev pub IsLeaked : Text → Header → Text → Type 0
IsLeaked my_ip headers body =
    (is_empty my_ip ≡ false)
    × (Somewhere (λ field. Somewhere (λ v. contains v my_ip ≡ true) field.1) headers
        ⊎ (contains body my_ip ≡ true))

-- A header of a proxy is set, or the body in capitals has a marker of AZENV.
abbrev pub IsRevealed : Header → Text → Type 0
IsRevealed headers body =
    Somewhere (λ h. names_header headers h ≡ true) proxy_headers
    ⊎ Somewhere (λ m. has_marker (to_upper body) m ≡ true) azenv_markers

pub record Levels (level : Anonymity) (leaked revealed : Type 0) : Type 0 where
  pub transparent_when : (level ≡ transparent) ↔ leaked
  pub anonymous_when : (level ≡ anonymous) ↔ (revealed × (leaked → ⊥))
  pub elite_when : (level ≡ elite) ↔ ((revealed → ⊥) × (leaked → ⊥))

field_leaks :
    (my_ip : Text) (headers : Header)
    → (any (λ field. any (λ value. contains value my_ip) field.1) headers ≡ true)
      ↔ Somewhere (λ field. Somewhere (λ v. contains v my_ip ≡ true) field.1) headers
field_leaks my_ip [] = ground arith
field_leaks my_ip (f ∷ fs) =
    ground (arith, any-Somewhere (λ v. contains v my_ip) f.1, field_leaks my_ip fs)

not_equal : (a : Bool) → a ≡ true → a ≡ false → ⊥
not_equal a h g = cc

Levels-transparent : (l r : Type 0) → l → Levels transparent l r
Levels-transparent l r x = record {
  transparent_when = ((λ _. x), λ _. refl);
  anonymous_when = ((λ e. cc), λ y. absurd (y.1 x));
  elite_when = ((λ e. cc), λ y. absurd (y.1 x));
}

Levels-anonymous : (l r : Type 0) → (l → ⊥) → r → Levels anonymous l r
Levels-anonymous l r n x = record {
  transparent_when = ((λ e. cc), λ y. absurd (n y));
  anonymous_when = ((λ _. (x, n)), λ _. refl);
  elite_when = ((λ e. cc), λ y. absurd (y.0 x));
}

Levels-elite : (l r : Type 0) → (l → ⊥) → (r → ⊥) → Levels elite l r
Levels-elite l r n m = record {
  transparent_when = ((λ e. cc), λ y. absurd (n y));
  anonymous_when = ((λ e. cc), λ y. absurd (m y.0));
  elite_when = ((λ _. (m, n)), λ _. refl);
}

absent : (b : Bool) (p : Type 0) → (b ≡ true) ↔ p → b ≡ false → p → ⊥
absent b p e f x = not_equal b (e.1 x) f

Levels-anonymity_level :
    (leak header marker : Bool) (leaked by_header by_marker : Type 0)
    → (leak ≡ true) ↔ leaked
    → (header ≡ true) ↔ by_header
    → (marker ≡ true) ↔ by_marker
    → Levels (anonymity_level leak header marker) leaked (by_header ⊎ by_marker)
unfolding anonymity_level
Levels-anonymity_level true h m l bh bm el eh em = Levels-transparent l (bh ⊎ bm) (el.0 refl)
Levels-anonymity_level false true m l bh bm el eh em =
    Levels-anonymous l (bh ⊎ bm) (absent false l el refl) (inl (eh.0 refl))
Levels-anonymity_level false false true l bh bm el eh em =
    Levels-anonymous l (bh ⊎ bm) (absent false l el refl) (inr (em.0 refl))
Levels-anonymity_level false false false l bh bm el eh em =
    Levels-elite l (bh ⊎ bm) (absent false l el refl)
      (λ x. elim x [ inl y ↦ absent false bh eh refl y | inr y ↦ absent false bm em refl y ])

leaks-IsLeaked :
    (my_ip : Text) (headers : Header) (body : Text)
    → ((not (is_empty my_ip) && leaks my_ip headers body) ≡ true) ↔ IsLeaked my_ip headers body
unfolding leaks
leaks-IsLeaked my_ip headers body =
    let fields = field_leaks my_ip headers in
    let by_field = any (λ field. any (λ value. contains value my_ip) field.1) headers in
    (
      (λ h. (
        false_of_not (and_true_left (not (is_empty my_ip)) _ h),
        elim (or_split by_field _ (and_true_right (not (is_empty my_ip)) _ h)) [
          | inl f ↦ inl (fields.0 f)
          | inr b ↦ inr b
        ],
      )),
      λ x.
          and_true (true_of_not x.0)
            (elim x.1 [ inl f ↦ or_left by_field _ (fields.1 f) | inr b ↦ or_right by_field _ b ]),
    )

-- EvaluateAnonymity calls a proxy transparent exactly when the address of this host is known and
-- leaks through a header or the body; anonymous exactly when it does not leak but a header or a
-- marker of a proxy is there; and elite exactly when there is neither.
pub evaluate_anonymity-Levels :
    (my_ip : Text) (headers : Header) (body : Text)
    → Levels
        (evaluate_anonymity my_ip headers body)
        (IsLeaked my_ip headers body)
        (IsRevealed headers body)
unfolding evaluate_anonymity
evaluate_anonymity-Levels my_ip headers body =
    Levels-anonymity_level (not (is_empty my_ip) && leaks my_ip headers body)
      (any (names_header headers) proxy_headers) (any (has_marker (to_upper body)) azenv_markers)
      (IsLeaked my_ip headers body) (Somewhere (λ h. names_header headers h ≡ true) proxy_headers)
      (Somewhere (λ m. has_marker (to_upper body) m ≡ true) azenv_markers)
      (leaks-IsLeaked my_ip headers body) (any-Somewhere (names_header headers) proxy_headers)
      (any-Somewhere (has_marker (to_upper body)) azenv_markers)
