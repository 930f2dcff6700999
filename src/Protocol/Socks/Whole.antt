-- ===== src/Protocol/Socks/Whole.antt =====
-- pkg/protocol/protocol.go: a read of as many bytes as have arrived succeeds, however they are cut
-- into segments.
use mathlib.Core.Path.{subst}
use go_proxy.Base.{
  ℕ, ◌-◌, ◌≤◌, ◌<◌, ◌≡◌, refl, sym, ap, ◌∙◌, some, List, [], ◌∷◌, ◌++◌, arith, leb, length, take,
  drop, take-drop, length-drop, Bool-cases, leb→le, inl, inr, true, false,
}
use go_proxy.Base.Text.{Text}
use go_proxy.Protocol.Conn.{in_front, read_at_least}
use go_proxy.Protocol.Socks.Reading.{stream}

cons_parts : {x y : ℕ} {xs ys : Text} → x ∷ xs ≡ y ∷ ys → (x ≡ y) × (xs ≡ ys)
cons_parts e = (cc, cc)

-- Of two ways to cut a text the shorter front is a prefix of the longer one.
pub prefix_parts :
    (a b s t : Text)
    → s ++ t ≡ a ++ b
    → length a ≤ length s
    → (take (length a) s ≡ a) × (drop (length a) s ++ t ≡ b)
prefix_parts [] b s t e h = (refl, e)
prefix_parts (x ∷ a) b [] t e h = absurd (omega (arith, h))
prefix_parts (x ∷ a) b (y ∷ s) t e h =
    let (first, others) = cons_parts e in
    let (front, back) = prefix_parts a b s t others (omega (arith, h)) in (cc (first, front), back)

-- A read of the bytes `a`: it leaves `b`, and the segments after them as they are.
pub record ReadsWhole (n : ℕ) (a b : Text) (segments tail : List Text) : Type 0 where
  pub rest : List Text
  pub left : stream rest ≡ b
  pub reads : read_at_least n n (segments ++ tail) ≡ some (a, rest ++ tail)

whole_now :
    (a b s : Text) (more tail : List Text)
    → length a ≤ length s
    → leb (length a) (length s) ≡ true
    → s ++ stream more ≡ a ++ b
    → ReadsWhole (length a) a b (s ∷ more) tail
unfolding read_at_least
whole_now a b s more tail h l e =
    let (front, back) = prefix_parts a b s (stream more) e h in
    record {
      rest = drop (length a) s ∷ more;
      left = back;
      reads = rw l (ap (λ t. some (t, drop (length a) s ∷ (more ++ tail))) front);
    }

whole_later :
    (a b s : Text) (more tail : List Text)
    → leb (length a) (length s) ≡ false
    → take (length s) a ≡ s
    → ReadsWhole (length a - length s) (drop (length s) a) b more tail
    → ReadsWhole (length a) a b (s ∷ more) tail
unfolding read_at_least
whole_later a b s more tail l front r = record {
  rest = r.rest;
  left = r.left;
  reads = rw l (
      ap (in_front s) r.reads
      ∙ ap (λ t. some (t, r.rest ++ tail))
          (ap (λ t. t ++ drop (length s) a) (sym front) ∙ take-drop (length s) a));
}

pub read_at_least-ReadsWhole :
    (a b : Text) (segments tail : List Text)
    → 0 < length a
    → stream segments ≡ a ++ b
    → ReadsWhole (length a) a b segments tail
read_at_least-ReadsWhole [] b segments tail h e = absurd (omega (arith, h))
read_at_least-ReadsWhole (x ∷ a) b [] tail h e = cc
read_at_least-ReadsWhole (x ∷ a) b (s ∷ more) tail h e =
    elim (Bool-cases (leb (length (x ∷ a)) (length s))) [
      | inl l ↦ whole_now (x ∷ a) b s more tail (leb→le _ _ l) l e
      | inr l ↦
          let shorter : length s < length (x ∷ a) = ground (arith, l) in
          let (front, back) =
            prefix_parts s (stream more) (x ∷ a) b (sym e) (omega (arith, shorter)) in
          let left = length-drop (length s) (x ∷ a) in
          whole_later (x ∷ a) b s more tail l front (
            subst (λ n. ReadsWhole n (drop (length s) (x ∷ a)) b more tail) left
              (read_at_least-ReadsWhole (drop (length s) (x ∷ a)) b more tail
                (omega (arith, left, shorter)) (sym back)))
    ]
