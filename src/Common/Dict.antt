-- ===== src/Common/Dict.antt =====
-- Python's `dict` with `str` keys, in insertion order.
use growtrics_challenge.Common.Tests.{if◌then◌else◌, Bool-cases}
use growtrics_challenge.Common.Lists.{In, All}
use growtrics_challenge.Common.Text.{Str, str_eq, str_eq_iff, str_eq_refl, eq_of_str_eq}
use mathlib.Core.Path.{◌≡◌, refl, ap, sym, ◌∙◌}
use mathlib.Core.Bool.{true}
use mathlib.Core.Logic.{inl, inr}
use mathlib.Core.Option.{Option, none, some}
use mathlib.Core.List.{List, [], ◌∷◌}
use native.Mathlib.Omega.{arith}

abbrev pub Dict {ℓ} : Type ℓ → Type ℓ
Dict V = List (Str × V)

module _ {V : Type 0} where
  -- `d.get(k)`
  unfoldable pub lookup : Str → Dict V → Option V
  lookup k [] = none
  lookup k ((j, v) ∷ d) = if str_eq j k then some v else lookup k d

  -- `d[k] = v`: a key that is there keeps its place, a new one goes last.
  unfoldable pub put : Str → V → Dict V → Dict V
  put k v [] = (k, v) ∷ []
  put k v ((j, w) ∷ d) = if str_eq j k then (j, v) ∷ d else (j, w) ∷ put k v d

  -- `del d[k]`
  unfoldable pub remove : Str → Dict V → Dict V
  remove k [] = []
  remove k ((j, v) ∷ d) = let rest = remove k d in if str_eq j k then rest else (j, v) ∷ rest

  -- `d.values()`
  abbrev pub values : Dict V → List V
  values [] = []
  values ((k, v) ∷ d) = v ∷ values d

  pub lookup-put :
      (k j : Str) (v : V) (d : Dict V)
      → lookup j (put k v d) ≡ (if str_eq k j then some v else lookup j d)
  unfolding lookup put
  lookup-put k j v [] = refl
  lookup-put k j v ((i, w) ∷ d) =
      ground (arith, str_eq_iff k j, str_eq_iff i k, str_eq_iff i j, lookup-put k j v d)

  pub lookup-remove :
      (k j : Str) (d : Dict V) → lookup j (remove k d) ≡ (if str_eq k j then none else lookup j d)
  unfolding lookup remove
  lookup-remove k j [] = ground arith
  lookup-remove k j ((i, w) ∷ d) =
      ground (arith, str_eq_iff k j, str_eq_iff i k, str_eq_iff i j, lookup-remove k j d)

  pub lookup-put_self : (k : Str) (v : V) (d : Dict V) → lookup k (put k v d) ≡ some v
  lookup-put_self k v d = ground (arith, lookup-put k k v d, str_eq_refl k)

  pub lookup-remove_self : (k : Str) (d : Dict V) → lookup k (remove k d) ≡ none
  lookup-remove_self k d = ground (arith, lookup-remove k k d, str_eq_refl k)

  -- Every entry satisfies `P`.
  abbrev pub Entries : (Str → V → Type 0) → Dict V → Type 0
  Entries P [] = Unit
  Entries P ((k, v) ∷ d) = P k v × Entries P d

  pub Entries-map :
      (P Q : Str → V → Type 0) (d : Dict V)
      → ((k : Str) (v : V) → P k v → Q k v)
      → Entries P d
      → Entries Q d
  Entries-map P Q [] f h = tt
  Entries-map P Q ((k, v) ∷ d) f h = (f k v h.0, Entries-map P Q d f h.1)

  pub Entries-lookup :
      (P : Str → V → Type 0) (k : Str) (d : Dict V) {v : V}
      → Entries P d
      → lookup k d ≡ some v
      → P k v
  unfolding lookup
  Entries-lookup P k [] h e = cc
  Entries-lookup P k ((j, w) ∷ d) {v} h e = elim (Bool-cases (str_eq j k)) [
    | inl q ↦ let g : w ≡ v = ground arith in rw (← g, ← eq_of_str_eq j k q) h.0
    | inr q ↦ Entries-lookup P k d h.1 (rw q at e)
  ]

  pub Entries-put :
      (P : Str → V → Type 0) (k : Str) (v : V) (d : Dict V)
      → P k v
      → Entries P d
      → Entries P (put k v d)
  unfolding put
  Entries-put P k v [] p h = (p, tt)
  Entries-put P k v ((j, w) ∷ d) p h = elim (Bool-cases (str_eq j k)) [
    | inl q ↦ rw q (rw (eq_of_str_eq j k q) p, h.1)
    | inr q ↦ rw q (h.0, Entries-put P k v d p h.1)
  ]

  pub Entries-remove :
      (P : Str → V → Type 0) (k : Str) (d : Dict V) → Entries P d → Entries P (remove k d)
  unfolding remove
  Entries-remove P k [] h = tt
  Entries-remove P k ((j, w) ∷ d) h = elim (Bool-cases (str_eq j k)) [
    | inl q ↦ rw q (Entries-remove P k d h.1)
    | inr q ↦ rw q (h.0, Entries-remove P k d h.1)
  ]

  -- A row that is looked up is among the values.
  pub In-values : (k : Str) (d : Dict V) {v : V} → lookup k d ≡ some v → In v (values d)
  unfolding lookup
  In-values k [] e = cc
  In-values k ((j, w) ∷ d) {v} e = elim (Bool-cases (str_eq j k)) [
    | inl q ↦ inl (ground arith)
    | inr q ↦ inr (In-values k d (rw q at e))
  ]

  -- No key stands twice.
  abbrev pub Unique : Dict V → Type 0
  Unique [] = Unit
  Unique ((k, v) ∷ d) = (lookup k d ≡ none) × Unique d

  pub Unique-put : (k : Str) (v : V) (d : Dict V) → Unique d → Unique (put k v d)
  unfolding put lookup
  Unique-put k v [] h = (refl, tt)
  Unique-put k v ((j, w) ∷ d) h = elim (Bool-cases (str_eq j k)) [
    | inl q ↦ rw q h
    | inr q ↦
        rw q
          (ground (arith, lookup-put k j v d, str_eq_iff k j, str_eq_iff j k), Unique-put k v d h.1)
  ]

  pub Unique-remove : (k : Str) (d : Dict V) → Unique d → Unique (remove k d)
  unfolding remove lookup
  Unique-remove k [] h = tt
  Unique-remove k ((j, w) ∷ d) h = elim (Bool-cases (str_eq j k)) [
    | inl q ↦ rw q (Unique-remove k d h.1)
    | inr q ↦ rw q (ground (arith, lookup-remove k j d), Unique-remove k d h.1)
  ]

  -- What holds of every row that can be looked up holds of every entry.
  pub Entries-of_lookup :
      (P : Str → V → Type 0) (d : Dict V)
      → Unique d
      → ((k : Str) (v : V) → lookup k d ≡ some v → P k v)
      → Entries P d
  unfolding lookup
  Entries-of_lookup P [] u h = tt
  Entries-of_lookup P ((j, w) ∷ d) u h = (
    h j w (ground (arith, str_eq_refl j)),
    Entries-of_lookup P d u.1 (λ k v e. h k v (later k v e)),
  )
    where
      later : (k : Str) (v : V) → lookup k d ≡ some v → lookup k ((j, w) ∷ d) ≡ some v
      later k v e = elim (Bool-cases (str_eq j k)) [
        | inl q ↦ absurd (cc (e, u.0, ap (λ z. lookup z d) (eq_of_str_eq j k q)))
        | inr q ↦ rw (q, lookup) e
      ]

  -- In a table whose rows carry their key, a value is found under its key.
  pub lookup_of_In :
      (key : V → Str) (d : Dict V) (v : V)
      → Unique d
      → Entries (λ k w. k ≡ key w) d
      → In v (values d)
      → lookup (key v) d ≡ some v
  unfolding lookup
  lookup_of_In key [] v u h i = absurd i
  lookup_of_In key ((j, w) ∷ d) v u h (inl e) =
      let q : str_eq j (key v) ≡ true = (str_eq_iff j (key v)).1 (h.0 ∙ ap key (sym e)) in
      rw q (ap some (sym e))
  lookup_of_In key ((j, w) ∷ d) v u h (inr i) = elim (Bool-cases (str_eq j (key v))) [
    | inl q ↦
        absurd (
          cc (u.0, lookup_of_In key d v u.1 h.1 i, ap (λ z. lookup z d) (eq_of_str_eq j (key v) q)))
    | inr q ↦ rw q (lookup_of_In key d v u.1 h.1 i)
  ]

  pub Entries-values : (P : V → Type 0) (d : Dict V) → Entries (λ k v. P v) d → All P (values d)
  Entries-values P [] h = tt
  Entries-values P ((k, v) ∷ d) h = (h.0, Entries-values P d h.1)
