-- ===== src/Base/Counts.antt =====
-- Counts by name in falling order, as `sort.Slice` and ORDER BY cnt DESC give them. Equal counts,
-- for which both leave the order open, stay in the order in which they are listed.
use mathlib.Core.List.{Perm}
use mathlib.Core.List.Perm
use go_proxy.Base.{
  ℕ, zero, suc, ◌≤◌, ◌≡◌, refl, [], ◌∷◌, ◌++◌, arith, ltb, if◌then◌else◌, All, take, drop,
  take-drop, length, length-take, min, Bool-cases, inl, inr, ap,
}
use go_proxy.Base.Text.{Text}
use go_proxy.Base.Assoc.{Map}

unfoldable pub insert_count : Text × ℕ → Map ℕ → Map ℕ
insert_count x [] = x ∷ []
insert_count x (y ∷ ys) = if ltb x.1 y.1 then y ∷ insert_count x ys else x ∷ y ∷ ys

unfoldable pub order_counts : Map ℕ → Map ℕ
unfolding insert_count
order_counts [] = []
order_counts (x ∷ xs) = insert_count x (order_counts xs)

-- No count of the list is above `x`.
abbrev pub IsAbove : Text × ℕ → Text × ℕ → Type 0
IsAbove x y = y.1 ≤ x.1

abbrev pub IsFalling : Map ℕ → Type 0
IsFalling [] = Unit
IsFalling (x ∷ xs) = All (IsAbove x) xs × IsFalling xs

IsAbove-trans :
    (x y : Text × ℕ) (ys : Map ℕ) → IsAbove x y → All (IsAbove y) ys → All (IsAbove x) ys
IsAbove-trans x y [] h k = tt
IsAbove-trans x y (z ∷ zs) h k = (omega (arith, h, k.0), IsAbove-trans x y zs h k.1)

IsAbove-insert_count :
    (z x : Text × ℕ) (ys : Map ℕ)
    → IsAbove z x
    → All (IsAbove z) ys
    → All (IsAbove z) (insert_count x ys)
unfolding insert_count
IsAbove-insert_count z x [] h k = (h, tt)
IsAbove-insert_count z x (y ∷ ys) h k = elim (Bool-cases (ltb x.1 y.1)) [
  | inl e ↦ rw e (k.0, IsAbove-insert_count z x ys h k.1)
  | inr e ↦ rw e (h, k)
]

insert_count-IsFalling : (x : Text × ℕ) (ys : Map ℕ) → IsFalling ys → IsFalling (insert_count x ys)
unfolding insert_count
insert_count-IsFalling x [] h = (tt, tt)
insert_count-IsFalling x (y ∷ ys) h = elim (Bool-cases (ltb x.1 y.1)) [
  | inl e ↦
      rw e (IsAbove-insert_count y x ys (ground (arith, e)) h.0, insert_count-IsFalling x ys h.1)
  | inr e ↦
      let top : IsAbove x y = ground (arith, e) in rw e ((top, IsAbove-trans x y ys top h.0), h)
]

pub order_counts-IsFalling : (xs : Map ℕ) → IsFalling (order_counts xs)
unfolding order_counts
order_counts-IsFalling [] = tt
order_counts-IsFalling (x ∷ xs) =
    insert_count-IsFalling x (order_counts xs) (order_counts-IsFalling xs)

insert_count-perm : (x : Text × ℕ) (ys : Map ℕ) → Perm (insert_count x ys) (x ∷ ys)
unfolding insert_count
insert_count-perm x [] = Perm.refl (x ∷ [])
insert_count-perm x (y ∷ ys) = elim (Bool-cases (ltb x.1 y.1)) [
  | inl e ↦ rw e (Perm.trans (Perm.cons y (insert_count-perm x ys)) (Perm.swap x y ys))
  | inr e ↦ rw e (Perm.refl (x ∷ y ∷ ys))
]

pub order_counts-perm : (xs : Map ℕ) → Perm (order_counts xs) xs
unfolding order_counts
order_counts-perm [] = Perm.refl []
order_counts-perm (x ∷ xs) =
    Perm.trans (insert_count-perm x (order_counts xs)) (Perm.cons x (order_counts-perm xs))

-- The list splits into `top`, in falling order and of at most `n` entries, and the others, none
-- of which has a higher count; with fewer entries than `n` there are no others.
pub record IsTop (n : ℕ) (all top : Map ℕ) : Type 0 where
  pub others : Map ℕ
  pub every : Perm (top ++ others) all
  pub falling : IsFalling top
  pub size : length top ≡ min n (length all)
  pub highest : All (λ x. All (IsAbove x) others) top

All-drop_counts : (P : Text × ℕ → Type 0) (n : ℕ) (xs : Map ℕ) → All P xs → All P (drop n xs)
All-drop_counts P zero xs h = h
All-drop_counts P (suc n) [] h = tt
All-drop_counts P (suc n) (x ∷ xs) h = All-drop_counts P n xs h.1

All-take_counts : (P : Text × ℕ → Type 0) (n : ℕ) (xs : Map ℕ) → All P xs → All P (take n xs)
All-take_counts P zero xs h = tt
All-take_counts P (suc n) [] h = tt
All-take_counts P (suc n) (x ∷ xs) h = (h.0, All-take_counts P n xs h.1)

take-IsFalling : (n : ℕ) (xs : Map ℕ) → IsFalling xs → IsFalling (take n xs)
take-IsFalling zero xs h = tt
take-IsFalling (suc n) [] h = tt
take-IsFalling (suc n) (x ∷ xs) h = (All-take_counts (IsAbove x) n xs h.0, take-IsFalling n xs h.1)

take-highest :
    (n : ℕ) (xs : Map ℕ) → IsFalling xs → All (λ x. All (IsAbove x) (drop n xs)) (take n xs)
take-highest zero xs h = tt
take-highest (suc n) [] h = tt
take-highest (suc n) (x ∷ xs) h = (All-drop_counts (IsAbove x) n xs h.0, take-highest n xs h.1)

length-insert_count : (x : Text × ℕ) (ys : Map ℕ) → length (insert_count x ys) ≡ suc (length ys)
unfolding insert_count
length-insert_count x [] = refl
length-insert_count x (y ∷ ys) = elim (Bool-cases (ltb x.1 y.1)) [
  | inl e ↦ rw e (ap suc (length-insert_count x ys))
  | inr e ↦ rw e refl
]

length-order_counts : (xs : Map ℕ) → length (order_counts xs) ≡ length xs
unfolding order_counts
length-order_counts [] = refl
length-order_counts (x ∷ xs) =
    omega (arith, length-insert_count x (order_counts xs), length-order_counts xs)

-- The first entries of the ordered list are the highest.
pub take-order_counts-IsTop : (n : ℕ) (xs : Map ℕ) → IsTop n xs (take n (order_counts xs))
take-order_counts-IsTop n xs =
    let sorted = order_counts-IsFalling xs in
    record {
      others = drop n (order_counts xs);
      every = rw (take-drop n (order_counts xs)) (order_counts-perm xs);
      falling = take-IsFalling n (order_counts xs) sorted;
      size = omega (arith, length-take n (order_counts xs), length-order_counts xs);
      highest = take-highest n (order_counts xs) sorted;
    }
