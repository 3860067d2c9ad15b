-- ===== src/Common/Lists.antt =====
-- Lists measured by native numbers, predicates on lists by recursion, and Python's comprehensions.
use Prim.Native.Nat.{ℕ, zero, suc, ◌+◌, ◌≤◌}
use mathlib.Core.Path.{◌≡◌, refl}
use mathlib.Core.Logic.{◌⊎◌, inl, inr}
use mathlib.Core.List.{List, [], ◌∷◌, ◌++◌}
use mathlib.Core.Bool.{Bool, true, false}
use native.Mathlib.Omega.{arith}
use growtrics_challenge.Common.Tests.{if◌then◌else◌}

module _ {ℓ} {A : Type ℓ} where
  abbrev pub length : List A → ℕ
  length [] = 0
  length (x ∷ xs) = suc (length xs)

  abbrev pub take : ℕ → List A → List A
  take zero xs = []
  take (suc n) [] = []
  take (suc n) (x ∷ xs) = x ∷ take n xs

  abbrev pub drop : ℕ → List A → List A
  drop zero xs = xs
  drop (suc n) [] = []
  drop (suc n) (x ∷ xs) = drop n xs

  -- `[x for x in xs if p(x)]`
  abbrev pub keep_if : (A → Bool) → List A → List A
  keep_if p [] = []
  keep_if p (x ∷ xs) = let rest = keep_if p xs in if p x then x ∷ rest else rest

  -- `sum(1 for x in xs if p(x))`
  abbrev pub count_if : (A → Bool) → List A → ℕ
  count_if p [] = 0
  count_if p (x ∷ xs) = let rest = count_if p xs in if p x then suc rest else rest

  pub length-append : (xs ys : List A) → length (xs ++ ys) ≡ length xs + length ys
  length-append [] ys = omega arith
  length-append (x ∷ xs) ys = omega (arith, length-append xs ys)

  pub length-take-le : (n : ℕ) (xs : List A) → length (take n xs) ≤ n
  length-take-le zero xs = omega arith
  length-take-le (suc n) [] = omega arith
  length-take-le (suc n) (x ∷ xs) = omega (arith, length-take-le n xs)

module _ {ℓ κ} {A : Type ℓ} where
  abbrev pub All : (A → Type κ) → List A → Type κ
  All P [] = Unit
  All P (x ∷ xs) = P x × All P xs

  pub All-map : {P Q : A → Type κ} → ((x : A) → P x → Q x) → (xs : List A) → All P xs → All Q xs
  All-map f [] h = tt
  All-map f (x ∷ xs) h = (f x h.0, All-map f xs h.1)

  pub All-append : (P : A → Type κ) (xs ys : List A) → All P xs → All P ys → All P (xs ++ ys)
  All-append P [] ys hx hy = hy
  All-append P (x ∷ xs) ys hx hy = (hx.0, All-append P xs ys hx.1 hy)

  pub All-take : (P : A → Type κ) (n : ℕ) (xs : List A) → All P xs → All P (take n xs)
  All-take P zero xs h = tt
  All-take P (suc n) [] h = tt
  All-take P (suc n) (x ∷ xs) h = (h.0, All-take P n xs h.1)

module _ {A : Type 0} where
  -- `x` stands in the list.
  abbrev pub In : A → List A → Type 0
  In a [] = ⊥
  In a (x ∷ xs) = (a ≡ x) ⊎ In a xs

  pub All_in : (P : A → Type 0) (xs : List A) (a : A) → All P xs → In a xs → P a
  All_in P [] a h i = absurd i
  All_in P (x ∷ xs) a h (inl e) = rw e h.0
  All_in P (x ∷ xs) a h (inr i) = All_in P xs a h.1 i

  -- What holds of each element that stands in the list holds of all.
  pub All_of : (P : A → Type 0) (xs : List A) → ((a : A) → In a xs → P a) → All P xs
  All_of P [] f = tt
  All_of P (x ∷ xs) f = (f x (inl refl), All_of P xs (λ a i. f a (inr i)))

  pub In-keep_if : (p : A → Bool) (xs : List A) (a : A) → p a ≡ true → In a xs → In a (keep_if p xs)
  In-keep_if p [] a h i = i
  In-keep_if p (x ∷ xs) a h (inl e) = ground arith
  In-keep_if p (x ∷ xs) a h (inr i) = ground (arith, In-keep_if p xs a h i)

  pub In-of_keep_if :
      (p : A → Bool) (xs : List A) (a : A) → In a (keep_if p xs) → In a xs × (p a ≡ true)
  In-of_keep_if p [] a i = absurd i
  In-of_keep_if p (x ∷ xs) a i = split (p x) refl i (λ j. In-of_keep_if p xs a j)
    where
      split :
          (b : Bool)
          → p x ≡ b
          → In a (if b then x ∷ keep_if p xs else keep_if p xs)
          → (In a (keep_if p xs) → In a xs × (p a ≡ true))
          → In a (x ∷ xs) × (p a ≡ true)
      split true e (inl q) rec = (inl q, rw q e)
      split true e (inr j) rec = (inr (rec j).0, (rec j).1)
      split false e j rec = (inr (rec j).0, (rec j).1)
