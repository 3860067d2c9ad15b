-- ===== src/Common/Sort.antt =====
-- `sorted(rows, key=...)`, stable, and `min(rows, key=...)`, for any strict total order.
use growtrics_challenge.Common.Tests.{if◌then◌else◌, Bool-cases}
use growtrics_challenge.Common.Lists.{All, All-map, In, length}
use growtrics_challenge.Common.Order.{Order}
use mathlib.Core.Path.{◌≡◌, ap, sym, refl}
use mathlib.Core.Logic.{inl, inr, ◌≢◌, ◌⊎◌}
use mathlib.Core.Bool.{true, false}
use mathlib.Core.List.{List, [], ◌∷◌, Perm}
use mathlib.Core.List.Perm
use native.Mathlib.Omega.{arith}
use Prim.Native.Nat.{suc}

module _ {A K : Type 0} (o : Order K) (key : A → K) where
  -- An element goes before the first one that is not strictly smaller, so equal keys keep their
  -- order.
  insert_by : A → List A → List A
  insert_by a [] = a ∷ []
  insert_by a (b ∷ l) = if o.lt (key b) (key a) then b ∷ insert_by a l else a ∷ b ∷ l

  unfoldable pub sort_by : List A → List A
  unfolding insert_by
  sort_by [] = []
  sort_by (a ∷ l) = insert_by a (sort_by l)

  -- `min` keeps the first of the smallest.
  unfoldable pub min_by : A → List A → A
  min_by best [] = best
  min_by best (a ∷ l) = min_by (if o.lt (key a) (key best) then a else best) l

  -- Nothing before a row has a larger key than the row.
  abbrev pub Sorted : List A → Type 0
  Sorted [] = Unit
  Sorted (a ∷ l) = All (λ b. o.lt (key b) (key a) ≡ false) l × Sorted l

  -- Each key is strictly before all the later ones.
  abbrev pub StrictSorted : List A → Type 0
  StrictSorted [] = Unit
  StrictSorted (a ∷ l) = All (λ b. o.lt (key a) (key b) ≡ true) l × StrictSorted l

  abbrev pub DistinctKeys : List A → Type 0
  DistinctKeys [] = Unit
  DistinctKeys (a ∷ l) = All (λ b. key a ≢ key b) l × DistinctKeys l

  All-insert_by : (P : A → Type 0) (a : A) (l : List A) → P a → All P l → All P (insert_by a l)
  unfolding insert_by
  All-insert_by P a [] p h = (p, tt)
  All-insert_by P a (b ∷ l) p h = elim (Bool-cases (o.lt (key b) (key a))) [
    | inl e ↦ rw e (h.0, All-insert_by P a l p h.1)
    | inr e ↦ rw e (p, h)
  ]

  pub All-sort_by : (P : A → Type 0) (l : List A) → All P l → All P (sort_by l)
  unfolding sort_by
  All-sort_by P [] h = tt
  All-sort_by P (a ∷ l) h = All-insert_by P a (sort_by l) h.0 (All-sort_by P l h.1)

  insert_by-perm : (a : A) (l : List A) → Perm (insert_by a l) (a ∷ l)
  unfolding insert_by
  insert_by-perm a [] = Perm.refl (a ∷ [])
  insert_by-perm a (b ∷ l) = elim (Bool-cases (o.lt (key b) (key a))) [
    | inl e ↦ rw e (Perm.trans (Perm.cons b (insert_by-perm a l)) (Perm.swap a b l))
    | inr e ↦ rw e (Perm.refl (a ∷ b ∷ l))
  ]

  pub sort_by-perm : (l : List A) → Perm (sort_by l) l
  unfolding sort_by
  sort_by-perm [] = Perm.refl []
  sort_by-perm (a ∷ l) = Perm.trans (insert_by-perm a (sort_by l)) (Perm.cons a (sort_by-perm l))

  -- A strictly smaller key is not larger, and what is not larger than it is not larger either.
  lt_asym : (a b : K) → o.lt a b ≡ true → o.lt b a ≡ false
  lt_asym a b h = elim (Bool-cases (o.lt b a)) [
    | inl k ↦ cc (o.trans a b a h k, o.irrefl a)
    | inr k ↦ k
  ]

  not_lt_trans : (a b c : K) → o.lt b a ≡ false → o.lt c b ≡ false → o.lt c a ≡ false
  not_lt_trans a b c h k = elim (Bool-cases (o.lt c a)) [
    | inr g ↦ g
    | inl g ↦ elim (Bool-cases (o.lt a b)) [
      | inl f ↦ cc (o.trans c a b g f)
      | inr f ↦ let e : a ≡ b = o.total a b f h in cc (k, ap (o.lt c) e)
    ]
  ]

  Sorted-insert_by : (a : A) (l : List A) → Sorted l → Sorted (insert_by a l)
  unfolding insert_by
  Sorted-insert_by a [] h = (tt, tt)
  Sorted-insert_by a (b ∷ l) h = elim (Bool-cases (o.lt (key b) (key a))) [
    | inl e ↦ rw e (
      All-insert_by (λ c. o.lt (key c) (key b) ≡ false) a l (lt_asym (key b) (key a) e) h.0,
      Sorted-insert_by a l h.1,
    )
    | inr e ↦ rw e (((e, All-map (λ c k. not_lt_trans (key a) (key b) (key c) e k) l h.0)), h)
  ]

  pub Sorted-sort_by : (l : List A) → Sorted (sort_by l)
  unfolding sort_by
  Sorted-sort_by [] = tt
  Sorted-sort_by (a ∷ l) = Sorted-insert_by a (sort_by l) (Sorted-sort_by l)

  DistinctKeys-insert_by :
      (a : A) (l : List A)
      → All (λ b. key a ≢ key b) l
      → DistinctKeys l
      → DistinctKeys (insert_by a l)
  unfolding insert_by
  DistinctKeys-insert_by a [] h d = (tt, tt)
  DistinctKeys-insert_by a (b ∷ l) h d = elim (Bool-cases (o.lt (key b) (key a))) [
    | inl e ↦ rw e (
      All-insert_by (λ c. key b ≢ key c) a l (λ q. h.0 (sym q)) d.0,
      DistinctKeys-insert_by a l h.1 d.1,
    )
    | inr e ↦ rw e (h, d)
  ]

  DistinctKeys-sort_by : (l : List A) → DistinctKeys l → DistinctKeys (sort_by l)
  unfolding sort_by
  DistinctKeys-sort_by [] d = tt
  DistinctKeys-sort_by (a ∷ l) d =
      DistinctKeys-insert_by a (sort_by l) (All-sort_by (λ b. key a ≢ key b) l d.0)
        (DistinctKeys-sort_by l d.1)

  strict : (a b : K) → o.lt b a ≡ false → a ≢ b → o.lt a b ≡ true
  strict a b h ne = elim (Bool-cases (o.lt a b)) [
    | inl e ↦ e
    | inr e ↦ absurd (ne (o.total a b e h))
  ]

  All-strict :
      (a : A) (l : List A)
      → All (λ b. o.lt (key b) (key a) ≡ false) l
      → All (λ b. key a ≢ key b) l
      → All (λ b. o.lt (key a) (key b) ≡ true) l
  All-strict a [] h d = tt
  All-strict a (b ∷ l) h d = (strict (key a) (key b) h.0 d.0, All-strict a l h.1 d.1)

  strict_of_distinct : (l : List A) → Sorted l → DistinctKeys l → StrictSorted l
  strict_of_distinct [] s d = tt
  strict_of_distinct (a ∷ l) s d = (All-strict a l s.0 d.0, strict_of_distinct l s.1 d.1)

  pub StrictSorted-sort_by : (l : List A) → DistinctKeys l → StrictSorted (sort_by l)
  StrictSorted-sort_by l d =
      strict_of_distinct (sort_by l) (Sorted-sort_by l) (DistinctKeys-sort_by l d)

  -- The least element stands in the list, and no key is smaller than its key.
  pub min_by-In : (best : A) (l : List A) (m : A) → min_by best l ≡ m → In m (best ∷ l)
  unfolding min_by
  min_by-In best [] m q = inl (sym q)
  min_by-In best (a ∷ l) m q = elim (Bool-cases (o.lt (key a) (key best))) [
    | inl e ↦ inr (min_by-In a l m (rw e at q))
    | inr e ↦ elim (min_by-In best l m (rw e at q)) [ inl r ↦ inl r | inr i ↦ inr (inr i) ]
  ]

  pub min_by-least :
      (best : A) (l : List A) (m : A)
      → min_by best l ≡ m
      → All (λ a. o.lt (key a) (key m) ≡ false) (best ∷ l)
  unfolding min_by
  min_by-least best [] m q = (rw q (o.irrefl (key m)), tt)
  min_by-least best (a ∷ l) m q = elim (Bool-cases (o.lt (key a) (key best))) [
    | inl e ↦
        let h = min_by-least a l m (rw e at q) in
        (not_lt_trans (key m) (key a) (key best) h.0 (lt_asym _ _ e), h)
    | inr e ↦
        let h = min_by-least best l m (rw e at q) in
        (h.0, (not_lt_trans (key m) (key best) (key a) h.0 e, h.1))
  ]

  length-insert_by : (a : A) (l : List A) → length (insert_by a l) ≡ suc (length l)
  unfolding insert_by
  length-insert_by a [] = refl
  length-insert_by a (b ∷ l) = ground (arith, length-insert_by a l)

  pub length-sort_by : (l : List A) → length (sort_by l) ≡ length l
  unfolding sort_by
  length-sort_by [] = refl
  length-sort_by (a ∷ l) = omega (arith, length-insert_by a (sort_by l), length-sort_by l)

  In-insert_by : (m a : A) (l : List A) → In m (a ∷ l) → In m (insert_by a l)
  unfolding insert_by
  In-insert_by m a [] i = i
  In-insert_by m a (b ∷ l) i = elim (Bool-cases (o.lt (key b) (key a))) [
    | inl e ↦ rw e (elim i [
      | inl q ↦ inr (In-insert_by m a l (inl q))
      | inr (inl q) ↦ inl q
      | inr (inr j) ↦ inr (In-insert_by m a l (inr j))
    ])
    | inr e ↦ rw e i
  ]

  pub In-sort_by : (m : A) (l : List A) → In m l → In m (sort_by l)
  unfolding sort_by
  In-sort_by m [] i = i
  In-sort_by m (a ∷ l) (inl q) = In-insert_by m a (sort_by l) (inl q)
  In-sort_by m (a ∷ l) (inr i) = In-insert_by m a (sort_by l) (inr (In-sort_by m l i))

  In-of_insert_by : (m a : A) (l : List A) → In m (insert_by a l) → In m (a ∷ l)
  unfolding insert_by
  In-of_insert_by m a [] i = i
  In-of_insert_by m a (b ∷ l) i = elim (Bool-cases (o.lt (key b) (key a))) [
    | inl e ↦
        let j : (m ≡ b) ⊎ In m (insert_by a l) = rw e at i in
        elim j [
          | inl q ↦ inr (inl q)
          | inr k ↦ elim (In-of_insert_by m a l k) [ inl q ↦ inl q | inr g ↦ inr (inr g) ]
        ]
    | inr e ↦ rw e at i
  ]

  pub In-of_sort_by : (m : A) (l : List A) → In m (sort_by l) → In m l
  unfolding sort_by
  In-of_sort_by m [] i = i
  In-of_sort_by m (a ∷ l) i = elim (In-of_insert_by m a (sort_by l) i) [
    | inl q ↦ inl q
    | inr j ↦ inr (In-of_sort_by m l j)
  ]
