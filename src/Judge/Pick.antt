-- ===== src/Judge/Pick.antt =====
-- pkg/judge/judge.go, PickJudge: the judge that is picked.
use go_proxy.Base.{
  ◌≡◌, ◌⊎◌, inl, inr, refl, sym, ap, ◌∙◌, some_inj, Bool, true, false, Option, none, some, List, [],
  ◌∷◌, arith, All, Somewhere,
}
use go_proxy.Base.Int.{ℤ, ltb_ℤ}
use go_proxy.Base.Text.{Text}
use go_proxy.Judge.Defs.{
  JudgeEntry, improves, choose, pick_from, url_or_first, first_url, pick_judge,
}

-- A healthy judge is not faster than the one that is picked.
abbrev pub IsNotFaster : JudgeEntry → JudgeEntry → Type 0
IsNotFaster best j = j.healthy ≡ true → ltb_ℤ j.latency_ms best.latency_ms ≡ false

-- What the loop ends with, from the best judge so far.
pub data IsPick (best : Option JudgeEntry) (js : List JudgeEntry) : Option JudgeEntry → Type 0 where
  nothing : best ≡ none → All (λ j. j.healthy ≡ false) js → IsPick best js none
  fastest :
      (p : JudgeEntry)
      → (best ≡ some p) ⊎ Somewhere (λ j. (j ≡ p) × (j.healthy ≡ true)) js
      → All (IsNotFaster p) js
      → ((b : JudgeEntry) → best ≡ some b → ltb_ℤ b.latency_ms p.latency_ms ≡ false)
      → IsPick best js (some p)

ltb_ℤ-trans : (a b c : ℤ) → ltb_ℤ a b ≡ false → ltb_ℤ b c ≡ false → ltb_ℤ a c ≡ false
ltb_ℤ-trans a b c g h = ground arith

ltb_ℤ_asym : (a b c : ℤ) → ltb_ℤ a b ≡ true → ltb_ℤ a c ≡ false → ltb_ℤ b c ≡ false
ltb_ℤ_asym a b c g h = ground arith

ltb_same : (a : ℤ) → ltb_ℤ a a ≡ false
ltb_same a = ground arith

ltb_ℤ_irrefl : (a b : JudgeEntry) → b ≡ a → ltb_ℤ a.latency_ms b.latency_ms ≡ false
ltb_ℤ_irrefl a b e =
    let same : b.latency_ms ≡ a.latency_ms = ap (λ (j : JudgeEntry). j.latency_ms) e in
    ap (λ t. ltb_ℤ a.latency_ms t) same ∙ ltb_same a.latency_ms

-- A judge that is skipped cannot be faster than the one that is picked.
IsPick-skip :
    (best : Option JudgeEntry) (j : JudgeEntry) (js : List JudgeEntry) (r : Option JudgeEntry)
    → ((best ≡ none) → j.healthy ≡ false)
    → ((p : JudgeEntry)
        → ((b : JudgeEntry) → best ≡ some b → ltb_ℤ b.latency_ms p.latency_ms ≡ false)
        → IsNotFaster p j)
    → IsPick best js r
    → IsPick best (j ∷ js) r
IsPick-skip best j js none f g (nothing e a) = nothing e (f e, a)
IsPick-skip best j js (some _) f g (fastest q o a k) =
    fastest q (elim o [ inl e ↦ inl e | inr s ↦ inr (inr s) ]) (g q k, a) k

IsPick-take :
    (best : Option JudgeEntry) (j : JudgeEntry) (js : List JudgeEntry) (r : Option JudgeEntry)
    → j.healthy ≡ true
    → improves j best ≡ true
    → IsPick (some j) js r
    → IsPick best (j ∷ js) r
unfolding improves
IsPick-take best j js none h i (nothing e a) = cc
IsPick-take best j js (some _) h i (fastest q o a k) =
    fastest q (elim o [ inl e ↦ inr (inl (some_inj e, h)) | inr s ↦ inr (inr s) ])
      ((λ _. k j refl), a)
      (λ b e.
        let better : ltb_ℤ j.latency_ms b.latency_ms ≡ true = ap (improves j) (sym e) ∙ i in
        ltb_ℤ_asym j.latency_ms b.latency_ms q.latency_ms better (k j refl))

IsPick-choose :
    (best : Option JudgeEntry) (j : JudgeEntry) (js : List JudgeEntry) (r : Option JudgeEntry)
    (healthy better : Bool)
    → j.healthy ≡ healthy
    → improves j best ≡ better
    → IsPick (choose healthy better j best) js r
    → IsPick best (j ∷ js) r
unfolding improves
IsPick-choose best j js r false better h i x =
    IsPick-skip best j js r (λ _. h) (λ q k t. cc (h, t)) x
IsPick-choose best j js r true true h i x = IsPick-take best j js r h i x
IsPick-choose none j js r true false h i x = cc
IsPick-choose (some b) j js r true false h i x =
    IsPick-skip (some b) j js r (λ e. cc)
      (λ q k t. ltb_ℤ-trans j.latency_ms b.latency_ms q.latency_ms i (k b refl)) x

pick_from-IsPick :
    (best : Option JudgeEntry) (js : List JudgeEntry) → IsPick best js (pick_from best js)
unfolding pick_from
pick_from-IsPick none [] = nothing refl tt
pick_from-IsPick (some b) [] = fastest b (inl refl) tt (λ c e. ltb_ℤ_irrefl c b (some_inj e))
pick_from-IsPick best (j ∷ js) =
    IsPick-choose best j js _ j.healthy (improves j best) refl refl
      (pick_from-IsPick (choose j.healthy (improves j best) j best) js)

-- What PickJudge returns: the address of a healthy judge that no healthy judge is faster than;
-- or, where no judge is healthy, that of the first judge, or the fallback where there is none.
pub data IsPicked (fallback : Text) (js : List JudgeEntry) : Text → Type 0 where
  best_of :
      (p : JudgeEntry)
      → Somewhere (λ j. (j ≡ p) × (j.healthy ≡ true)) js
      → All (IsNotFaster p) js
      → IsPicked fallback js p.url
  first_of : All (λ j. j.healthy ≡ false) js → IsPicked fallback js (first_url fallback js)

picked :
    (fallback : Text) (js : List JudgeEntry) (r : Option JudgeEntry)
    → IsPick none js r
    → IsPicked fallback js (url_or_first fallback js r)
picked fallback js none (nothing e a) = first_of a
picked fallback js (some _) (fastest q o a k) = best_of q (elim o [ inl e ↦ cc | inr s ↦ s ]) a

-- PickJudge picks a healthy judge that no healthy judge is faster than; where no judge is
-- healthy it returns the first, or the fallback where there is none.
pub pick_judge-IsPicked :
    (fallback : Text) (js : List JudgeEntry) → IsPicked fallback js (pick_judge fallback js)
unfolding pick_judge
pick_judge-IsPicked fallback js = picked fallback js (pick_from none js) (pick_from-IsPick none js)
