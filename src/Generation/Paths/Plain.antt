-- ===== src/Generation/Paths/Plain.antt =====
-- What `normalise_rel_path` accepts.
use growtrics_challenge.Common.{
  ℕ, ◌≤◌, ◌≡◌, refl, sym, ap, ◌∙◌, Bool, true, false, List, [], ◌∷◌, All, All-map, length,
  if◌then◌else◌, Bool-cases, arith, inl, inr, ◌==◌, ==_iff,
}
use growtrics_challenge.Common.Text.{Str, codes, str_eq, eq_of_str_eq, IsAlphanumeric, IsNameChar}
use growtrics_challenge.Common.Split.{split_on, onto_first}
use growtrics_challenge.Domain.Contracts.{harvest_root}
use growtrics_challenge.Domain.Ids.{all_chars, join_with}
use growtrics_challenge.Effects.{ok}
use growtrics_challenge.Effects.Pure.{returned}
use growtrics_challenge.Generation.Paths.{
  is_name_char, is_component, check_components, check_shape, first_is, normalise_rel_path,
  starts_with,
}

join-onto_first :
    (sep c : ℕ) (parts : List Str) (s : Str)
    → join_with (sep ∷ []) parts ≡ s
    → join_with (sep ∷ []) (onto_first c parts) ≡ c ∷ s
unfolding join_with
join-onto_first sep c [] s h = ap (λ l. c ∷ l) h
join-onto_first sep c (part ∷ []) s h = ap (λ l. c ∷ l) h
join-onto_first sep c (part ∷ next ∷ parts) s h = ap (λ l. c ∷ l) h

join-empty :
    (sep : ℕ) (parts : List Str) (s : Str)
    → (parts ≡ [] → ⊥)
    → join_with (sep ∷ []) parts ≡ s
    → join_with (sep ∷ []) ([] ∷ parts) ≡ sep ∷ s
unfolding join_with
join-empty sep [] s some_part h = absurd (some_part refl)
join-empty sep (part ∷ parts) s some_part h = ap (λ l. sep ∷ l) h

split_on-nonempty : (sep : ℕ) (s : Str) → split_on sep s ≡ [] → ⊥
unfolding split_on
split_on-nonempty sep [] e = absurd (cc e)
split_on-nonempty sep (c ∷ cs) e = some_part (c == sep) (split_on sep cs) e
  where
    some_part : (b : Bool) (rest : List Str) → (if b then [] ∷ rest else onto_first c rest) ≡ [] → ⊥
    some_part true rest q = absurd (cc q)
    some_part false [] q = absurd (cc q)
    some_part false (part ∷ parts) q = absurd (cc q)

-- Joining what a text splits into gives the text back.
join-split_on : (sep : ℕ) (s : Str) → join_with (sep ∷ []) (split_on sep s) ≡ s
unfolding split_on join_with
join-split_on sep [] = refl
join-split_on sep (c ∷ cs) = elim (Bool-cases (c == sep)) [
  | inl e ↦ rw e (
      join-empty sep (split_on sep cs) cs (split_on-nonempty sep cs) (join-split_on sep cs)
      ∙ ap (λ x. x ∷ cs) (sym ((==_iff c sep).0 e)))
  | inr e ↦ rw e (join-onto_first sep c (split_on sep cs) cs (join-split_on sep cs))
]

-- A letter or a digit, and at most 63 letters, digits, dots, underscores and dashes after it.
abbrev pub IsPlainName : Str → Type 0
IsPlainName [] = ⊥
IsPlainName (c ∷ cs) = IsAlphanumeric c × (length cs ≤ 63) × All IsNameChar cs

abbrev pub IsRooted : List Str → Type 0
IsRooted [] = ⊥
IsRooted (part ∷ parts) = part ≡ harvest_root

-- Between two and four plain names, the first of them the harvest root.
pub record IsPlainPath (path : Str) : Type 0 where
  pub components : List Str
  pub joined : path ≡ join_with (b'/' ∷ []) components
  pub plain : All IsPlainName components
  pub rooted : IsRooted components
  pub at_least : 2 ≤ length components
  pub at_most : length components ≤ 4

All-IsNameChar : (cs : Str) → all_chars is_name_char cs ≡ true → All IsNameChar cs
All-IsNameChar [] e = tt
All-IsNameChar (c ∷ cs) e = (ground arith, All-IsNameChar cs (ground arith))

IsPlainName-component : (part : Str) → is_component part ≡ true → IsPlainName part
unfolding is_component
IsPlainName-component [] e = absurd (cc e)
IsPlainName-component (c ∷ cs) e =
    let rest : all_chars is_name_char cs ≡ true = ground arith in
    (ground arith, ground arith, All-IsNameChar cs rest)

IsRooted-first : (parts : List Str) → first_is harvest_root parts ≡ true → IsRooted parts
IsRooted-first [] e = absurd (cc e)
IsRooted-first (part ∷ parts) e = eq_of_str_eq part harvest_root e

check_components-All :
    (parts : List Str)
    → check_components parts ≡ ok tt
    → All (λ part. is_component part ≡ true) parts
unfolding check_components
check_components-All [] h = tt
check_components-All (part ∷ parts) h = elim (Bool-cases (str_eq part (codes ".."))) [
  | inl up ↦ absurd (cc (rw up at h))
  | inr down ↦ elim (Bool-cases (is_component part)) [
    | inl plain ↦ (plain, check_components-All parts (rw (down, plain) at h))
    | inr odd ↦ absurd (cc (rw (down, odd) at h))
  ]
]

check_shape-eq-ok :
    (parts : List Str) (path : Str)
    → check_shape parts ≡ ok path
    → (path ≡ join_with (b'/' ∷ []) parts)
      × (first_is harvest_root parts ≡ true)
      × (2 ≤ length parts)
      × (length parts ≤ 4)
unfolding check_shape
check_shape-eq-ok parts path h = ground arith

-- A path that is accepted is the claimed text unchanged, and it is two to four names, the first of
-- them the harvest root, each a letter or a digit with at most 63 letters, digits, dots,
-- underscores and dashes after it: relative, with no `..` and no name that starts with a dot.
pub normalise_rel_path-IsPlainPath :
    (raw path : Str) → normalise_rel_path raw ≡ ok path → (path ≡ raw) × IsPlainPath path
unfolding normalise_rel_path
normalise_rel_path-IsPlainPath raw path h = elim (Bool-cases (starts_with b'/' raw)) [
  | inl absolute ↦ absurd (cc (rw absolute at h))
  | inr relative ↦
      let chain = rw relative at h in
      let (_, checked, shaped) =
        returned (check_components (split_on b'/' raw)) (λ _. check_shape (split_on b'/' raw))
          chain in
      let (joined, rooted, at_least, at_most) = check_shape-eq-ok (split_on b'/' raw) path shaped in
      (
        joined ∙ join-split_on b'/' raw,
        record {
          components = split_on b'/' raw;
          joined = joined;
          plain =
              All-map IsPlainName-component (split_on b'/' raw)
                (check_components-All (split_on b'/' raw) checked);
          rooted = IsRooted-first (split_on b'/' raw) rooted;
          at_least = at_least;
          at_most = at_most;
        },
      )
]
