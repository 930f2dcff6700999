-- ===== src/Judge/Rounds.antt =====
-- pkg/judge/judge.go, healthLoop and PickJudge: the judge that is picked after the rounds of checks.
use go_proxy.Base.{
  ◌≡◌, inl, inr, refl, ap, ◌∙◌, sym, true, false, Option, none, some, List, [], ◌∷◌, ◌++◌, All,
  Somewhere,
}
use go_proxy.Base.Int.{ℤ}
use go_proxy.Base.Text.{Text}
use go_proxy.Base.Float.{FloatOps}
use go_proxy.Judge.Defs.{JudgeEntry, pick_judge}
use go_proxy.Judge.Health.{check_judge, check_all_judges}
use go_proxy.Judge.Pick.{IsPicked, best_of, first_of, pick_judge-IsPicked}

-- The rounds of `healthLoop`: at the start, and every minute. A round is what the judges answer.
unfoldable pub health_loop : FloatOps → List (Text → Option ℤ) → List JudgeEntry → List JudgeEntry
unfolding check_all_judges
health_loop f [] js = js
health_loop f (ask ∷ rounds) js = health_loop f rounds (check_all_judges f ask js)

-- None of the judges has answered.
abbrev pub IsSilent : (Text → Option ℤ) → List JudgeEntry → Type 0
IsSilent ask js = All (λ j. ask j.url ≡ none) js

module _ (f : FloatOps) (ask : Text → Option ℤ) where
  checked_url : (o : Option ℤ) (j : JudgeEntry) → (check_judge f o j).url ≡ j.url
  unfolding check_judge
  checked_url none j = refl
  checked_url (some ms) j = refl

  checked_healthy :
      (o : Option ℤ) (j : JudgeEntry)
      → (check_judge f o j).healthy ≡ true
      → (ms : ℤ) × (o ≡ some ms)
  unfolding check_judge
  checked_healthy none j h = cc
  checked_healthy (some ms) j h = (ms, refl)

  checked_unhealthy :
      (o : Option ℤ) (j : JudgeEntry) → (check_judge f o j).healthy ≡ false → o ≡ none
  unfolding check_judge
  checked_unhealthy none j h = refl
  checked_unhealthy (some ms) j h = cc

  healthy-answered :
      (p : JudgeEntry) (js : List JudgeEntry)
      → Somewhere (λ j. (j ≡ p) × (j.healthy ≡ true)) (check_all_judges f ask js)
      → (ms : ℤ) × (ask p.url ≡ some ms)
  unfolding check_all_judges
  healthy-answered p [] h = absurd h
  healthy-answered p (j ∷ js) (inl (e, h)) =
      let (ms, answer) = checked_healthy (ask j.url) j h in
      let same : j.url ≡ p.url =
        sym (checked_url (ask j.url) j) ∙ ap (λ (c : JudgeEntry). c.url) e in
      (ms, ap ask (sym same) ∙ answer)
  healthy-answered p (j ∷ js) (inr h) = healthy-answered p js h

  unhealthy-IsSilent :
      (js : List JudgeEntry)
      → All (λ j. j.healthy ≡ false) (check_all_judges f ask js)
      → IsSilent ask js
  unfolding check_all_judges
  unhealthy-IsSilent [] h = tt
  unhealthy-IsSilent (j ∷ js) h = (checked_unhealthy (ask j.url) j h.0, unhealthy-IsSilent js h.1)

  -- What a pick after a round says of the answers of the round: it has answered, or none has.
  pub data IsAnswering (js : List JudgeEntry) : Text → Type 0 where
    answers : (url : Text) (ms : ℤ) → ask url ≡ some ms → IsAnswering js url
    silent : (url : Text) → IsSilent ask js → IsAnswering js url

  picked_from :
      (fallback : Text) (js : List JudgeEntry) (url : Text)
      → IsPicked fallback (check_all_judges f ask js) url
      → IsAnswering js url
  picked_from fallback js _ (best_of p s a) =
      let (ms, e) = healthy-answered p js s in answers p.url ms e
  picked_from fallback js _ (first_of a) = silent _ (unhealthy-IsSilent js a)

health_loop-append :
    (f : FloatOps) (rounds : List (Text → Option ℤ)) (ask : Text → Option ℤ) (js : List JudgeEntry)
    → health_loop f (rounds ++ ask ∷ []) js ≡ check_all_judges f ask (health_loop f rounds js)
unfolding health_loop
health_loop-append f [] ask js = refl
health_loop-append f (round ∷ rounds) ask js =
    health_loop-append f rounds ask (check_all_judges f round js)

checked-IsSilent :
    (f : FloatOps) (round ask : Text → Option ℤ) (js : List JudgeEntry)
    → IsSilent ask (check_all_judges f round js)
    → IsSilent ask js
unfolding check_all_judges
checked-IsSilent f round ask [] h = tt
checked-IsSilent f round ask (j ∷ js) h =
    (ap ask (sym (checked_url f round (round j.url) j)) ∙ h.0, checked-IsSilent f round ask js h.1)

rounds-IsSilent :
    (f : FloatOps) (rounds : List (Text → Option ℤ)) (ask : Text → Option ℤ) (js : List JudgeEntry)
    → IsSilent ask (health_loop f rounds js)
    → IsSilent ask js
unfolding health_loop
rounds-IsSilent f [] ask js h = h
rounds-IsSilent f (round ∷ rounds) ask js h =
    checked-IsSilent f round ask js (rounds-IsSilent f rounds ask (check_all_judges f round js) h)

-- After any number of rounds of health checks, whatever the latencies have become, PickJudge
-- returns the address of a judge that has answered in the last round, unless none of the judges
-- has answered in it.
pub pick_judge-IsAnswering :
    (f : FloatOps) (rounds : List (Text → Option ℤ)) (ask : Text → Option ℤ) (fallback : Text)
    (js : List JudgeEntry)
    → IsAnswering f ask js (pick_judge fallback (health_loop f (rounds ++ ask ∷ []) js))
pick_judge-IsAnswering f rounds ask fallback js =
    let before = health_loop f rounds js in
    rw (health_loop-append f rounds ask js) (
      go _ (
        picked_from f ask fallback before _
          (pick_judge-IsPicked fallback (check_all_judges f ask before))))
  where
    go : (url : Text) → IsAnswering f ask (health_loop f rounds js) url → IsAnswering f ask js url
    go _ (answers url ms e) = answers url ms e
    go _ (silent url s) = silent url (rounds-IsSilent f rounds ask js s)
