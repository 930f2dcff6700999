-- ===== src/Storage/Table/Search.antt =====
-- pkg/storage/sqlite.go, QueryProxies: what the rows of an answer satisfy.
use mathlib.Core.List.{Perm}
use mathlib.Core.List.Perm
use go_proxy.Base.{
  ℕ, zero, suc, ◌+◌, ◌≤◌, ◌≡◌, ◌⊎◌, inl, inr, refl, ap, Bool, true, false, not, ◌&&◌, ◌||◌, List,
  [], ◌∷◌, arith, ◌==◌, All, filter, All-filter, length, take, drop, length-take, Bool-cases,
}
use go_proxy.Base.Int.{pos, ◌≤ℤ◌, pos_part, ltb_ℤ, leb_ℤ}
use go_proxy.Base.Text.{Text, codes, text_eq, text_eq_iff, to_upper}
use go_proxy.Storage.Table.Defs.{Row, Table}
use go_proxy.Storage.Table.Query.{
  ProxyFilter, is_set, matches, ranks_before, insert_ranked, order_rows, limit_of, select_rows,
}

-- A text filter asks for nothing when it is empty or "all".
abbrev IsFree : Text → Type 0
IsFree s = (s ≡ []) ⊎ (s ≡ codes "all")

-- What a filter asks of a row.
pub record Meets (q : ProxyFilter) (r : Row) : Type 0 where
  pub alive : q.only_alive ≡ true → r.is_alive ≡ 1
  pub protocol : IsFree q.protocol ⊎ (r.protocol ≡ q.protocol)
  pub country : IsFree q.country_code ⊎ (r.country_code ≡ to_upper q.country_code)
  pub anonymity : IsFree q.anonymity ⊎ (r.anonymity ≡ q.anonymity)
  pub score : (q.min_score ≤ℤ pos 0) ⊎ (q.min_score ≤ℤ r.score)
  pub latency : (q.max_latency ≤ℤ pos 0) ⊎ (r.latency_ms ≤ℤ q.max_latency)

-- One text filter of the WHERE clause.
IsFree-or_equal :
    (s have want : Text) → (not (is_set s) || text_eq have want) ≡ true → IsFree s ⊎ (have ≡ want)
IsFree-or_equal [] have want h = inl (inl refl)
IsFree-or_equal (c ∷ s) have want h =
    ground (arith, text_eq_iff (c ∷ s) (codes "all"), text_eq_iff have want)

-- The six parts of the WHERE clause.
parts :
    (a b c d e g : Bool)
    → (a && b && c && d && e && g) ≡ true
    → (a ≡ true) × (b ≡ true) × (c ≡ true) × (d ≡ true) × (e ≡ true) × (g ≡ true)
parts a b c d e g h = ground arith

matches-Meets : (q : ProxyFilter) (r : Row) → matches q r ≡ true → Meets q r
unfolding matches
matches-Meets q r h =
    let (h1, h2, h3, h4, h5, h6) =
      parts (not q.only_alive || r.is_alive == 1)
        (not (is_set q.protocol) || text_eq r.protocol q.protocol)
        (not (is_set q.country_code) || text_eq r.country_code (to_upper q.country_code))
        (not (is_set q.anonymity) || text_eq r.anonymity q.anonymity)
        (not (ltb_ℤ (pos 0) q.min_score) || leb_ℤ q.min_score r.score)
        (not (ltb_ℤ (pos 0) q.max_latency) || leb_ℤ r.latency_ms q.max_latency) h in
    record {
      alive = λ e. ground (arith, h1);
      protocol = IsFree-or_equal q.protocol r.protocol q.protocol h2;
      country = IsFree-or_equal q.country_code r.country_code (to_upper q.country_code) h3;
      anonymity = IsFree-or_equal q.anonymity r.anonymity q.anonymity h4;
      score = ground (arith, h5);
      latency = ground (arith, h6);
    }

-- The order of an answer: a higher score first, and at equal scores a lower latency first.
abbrev pub RanksBefore : Row → Row → Type 0
RanksBefore a b = (b.score ≤ℤ a.score) × (a.score ≤ℤ b.score → a.latency_ms ≤ℤ b.latency_ms)

abbrev pub IsRanked : List Row → Type 0
IsRanked [] = Unit
IsRanked (r ∷ rs) = All (RanksBefore r) rs × IsRanked rs

ranks_before-true : (a b : Row) → ranks_before a b ≡ true → RanksBefore a b
unfolding ranks_before
ranks_before-true a b h = (ground arith, λ e. ground arith)

ranks_before-false : (a b : Row) → ranks_before a b ≡ false → RanksBefore b a
unfolding ranks_before
ranks_before-false a b h = (ground arith, λ e. ground arith)

RanksBefore-trans : (a b c : Row) → RanksBefore a b → RanksBefore b c → RanksBefore a c
RanksBefore-trans a b c h k =
    (omega arith, λ e. let ab = h.1 (omega arith) in let bc = k.1 (omega arith) in omega arith)

All-RanksBefore-trans :
    (a b : Row) (rs : List Row) → RanksBefore a b → All (RanksBefore b) rs → All (RanksBefore a) rs
All-RanksBefore-trans a b [] h k = tt
All-RanksBefore-trans a b (r ∷ rs) h k =
    (RanksBefore-trans a b r h k.0, All-RanksBefore-trans a b rs h k.1)

All-insert_ranked {κ} :
    (P : Row → Type κ) (x : Row) (rs : List Row) → P x → All P rs → All P (insert_ranked x rs)
unfolding insert_ranked
All-insert_ranked P x [] p h = (p, tt)
All-insert_ranked P x (r ∷ rs) p h = elim (Bool-cases (ranks_before x r)) [
  | inl e ↦ rw e (p, h)
  | inr e ↦ rw e (h.0, All-insert_ranked P x rs p h.1)
]

insert_ranked-IsRanked : (x : Row) (rs : List Row) → IsRanked rs → IsRanked (insert_ranked x rs)
unfolding insert_ranked
insert_ranked-IsRanked x [] h = (tt, tt)
insert_ranked-IsRanked x (r ∷ rs) h = elim (Bool-cases (ranks_before x r)) [
  | inl e ↦ let xr = ranks_before-true x r e in rw e ((xr, All-RanksBefore-trans x r rs xr h.0), h)
  | inr e ↦ rw e (
    All-insert_ranked (RanksBefore r) x rs (ranks_before-false x r e) h.0,
    insert_ranked-IsRanked x rs h.1,
  )
]

pub order_rows-IsRanked : (rs : List Row) → IsRanked (order_rows rs)
unfolding order_rows
order_rows-IsRanked [] = tt
order_rows-IsRanked (r ∷ rs) = insert_ranked-IsRanked r (order_rows rs) (order_rows-IsRanked rs)

All-order_rows {κ} : (P : Row → Type κ) (rs : List Row) → All P rs → All P (order_rows rs)
unfolding order_rows
All-order_rows P [] h = tt
All-order_rows P (r ∷ rs) h = All-insert_ranked P r (order_rows rs) h.0 (All-order_rows P rs h.1)

-- Ordering loses and repeats no row.
insert_ranked-perm : (x : Row) (rs : List Row) → Perm (insert_ranked x rs) (x ∷ rs)
unfolding insert_ranked
insert_ranked-perm x [] = Perm.refl (x ∷ [])
insert_ranked-perm x (r ∷ rs) = elim (Bool-cases (ranks_before x r)) [
  | inl e ↦ rw e (Perm.refl (x ∷ r ∷ rs))
  | inr e ↦ rw e (Perm.trans (Perm.cons r (insert_ranked-perm x rs)) (Perm.swap x r rs))
]

pub order_rows-perm : (rs : List Row) → Perm (order_rows rs) rs
unfolding order_rows
order_rows-perm [] = Perm.refl []
order_rows-perm (r ∷ rs) =
    Perm.trans (insert_ranked-perm r (order_rows rs)) (Perm.cons r (order_rows-perm rs))

module _ {κ} (P : Row → Type κ) where
  All-take : (n : ℕ) (rs : List Row) → All P rs → All P (take n rs)
  All-take zero rs h = tt
  All-take (suc n) [] h = tt
  All-take (suc n) (r ∷ rs) h = (h.0, All-take n rs h.1)

  All-drop : (n : ℕ) (rs : List Row) → All P rs → All P (drop n rs)
  All-drop zero rs h = h
  All-drop (suc n) [] h = tt
  All-drop (suc n) (r ∷ rs) h = All-drop n rs h.1

take-IsRanked : (n : ℕ) (rs : List Row) → IsRanked rs → IsRanked (take n rs)
take-IsRanked zero rs h = tt
take-IsRanked (suc n) [] h = tt
take-IsRanked (suc n) (r ∷ rs) h = (All-take (RanksBefore r) n rs h.0, take-IsRanked n rs h.1)

drop-IsRanked : (n : ℕ) (rs : List Row) → IsRanked rs → IsRanked (drop n rs)
drop-IsRanked zero rs h = h
drop-IsRanked (suc n) [] h = tt
drop-IsRanked (suc n) (r ∷ rs) h = drop-IsRanked n rs h.1

pub All-map {κ ν} :
    {P : Row → Type κ} {Q : Row → Type ν} (f : (r : Row) → P r → Q r) (rs : List Row)
    → All P rs
    → All Q rs
All-map f [] h = tt
All-map f (r ∷ rs) h = (f r h.0, All-map f rs h.1)

All-filter_kept {κ} :
    (P : Row → Type κ) (p : Row → Bool) (rs : List Row) → All P rs → All P (filter p rs)
All-filter_kept P p [] h = tt
All-filter_kept P p (r ∷ rs) h = elim (Bool-cases (p r)) [
  | inl e ↦ rw e (h.0, All-filter_kept P p rs h.1)
  | inr e ↦ rw e (All-filter_kept P p rs h.1)
]

-- What holds of all rows holds of those of an answer.
pub All-select_rows {κ} :
    (P : Row → Type κ) (q : ProxyFilter) (t : Table) → All P t.rows → All P (select_rows q t)
unfolding select_rows
All-select_rows P q t h =
    let rows = filter (matches q) t.rows in
    All-take P (limit_of q) (drop (pos_part q.offset) (order_rows rows)) (
      All-drop P (pos_part q.offset) (order_rows rows)
        (All-order_rows P rows (All-filter_kept P (matches q) t.rows h)))

-- The rows that match, in their order.
pub order_rows-Meets :
    (q : ProxyFilter) (t : Table) → All (Meets q) (order_rows (filter (matches q) t.rows))
order_rows-Meets q t =
    let rows = filter (matches q) t.rows in
    All-order_rows (Meets q) rows (All-map (matches-Meets q) rows (All-filter (matches q) t.rows))

-- Every row of an answer meets the filter, the answer is in order (higher scores first, lower
-- latencies first at equal scores), and it has at most as many rows as the limit, 100 where the
-- filter sets none.
pub select_rows_sound :
    (q : ProxyFilter) (t : Table)
    → All (Meets q) (select_rows q t)
      × IsRanked (select_rows q t)
      × (length (select_rows q t) ≤ limit_of q)
unfolding select_rows
select_rows_sound q t =
    let rows = filter (matches q) t.rows in
    let found = drop (pos_part q.offset) (order_rows rows) in
    (
      All-take (Meets q) (limit_of q) found
          (All-drop (Meets q) (pos_part q.offset) (order_rows rows) (order_rows-Meets q t)),
      take-IsRanked (limit_of q) found
          (drop-IsRanked (pos_part q.offset) (order_rows rows) (order_rows-IsRanked rows)),
      omega (arith, length-take (limit_of q) found),
    )

pub take_all : (n : ℕ) (rs : List Row) → length rs ≤ n → take n rs ≡ rs
take_all zero [] h = refl
take_all zero (r ∷ rs) h = absurd (omega arith)
take_all (suc n) [] h = refl
take_all (suc n) (r ∷ rs) h = ap (λ l. r ∷ l) (take_all n rs (omega arith))

length-insert_ranked : (x : Row) (rs : List Row) → length (insert_ranked x rs) ≡ length rs + 1
unfolding insert_ranked
length-insert_ranked x [] = omega arith
length-insert_ranked x (r ∷ rs) = ground (arith, length-insert_ranked x rs)

pub length-order_rows : (rs : List Row) → length (order_rows rs) ≡ length rs
unfolding order_rows
length-order_rows [] = refl
length-order_rows (r ∷ rs) =
    omega (arith, length-insert_ranked r (order_rows rs), length-order_rows rs)

-- A query without an offset whose limit is no less than the number of matching rows returns each
-- of them exactly once.
select_rows_complete :
    (q : ProxyFilter) (t : Table)
    → pos_part q.offset ≡ 0
    → length (filter (matches q) t.rows) ≤ limit_of q
    → Perm (select_rows q t) (filter (matches q) t.rows)
unfolding select_rows
select_rows_complete q t start fits =
    let rows = filter (matches q) t.rows in
    rw (start, take_all (limit_of q) (order_rows rows) (omega (arith, length-order_rows rows)))
      (order_rows-perm rows)
