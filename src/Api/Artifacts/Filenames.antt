-- ===== src/Api/Artifacts/Filenames.antt =====
-- The name that a download puts into a header, whatever the name of the artifact is.
use growtrics_challenge.Common.{
  ℕ, ◌≤◌, ◌≡◌, ◌≢◌, refl, Bool, true, [], ◌∷◌, length, take, keep_if, All, All-take, All-map,
  length-take-le, Bool-cases, inl, inr, ◌==◌, arith,
}
use growtrics_challenge.Common.Text.{Str, IsNameChar}
use growtrics_challenge.Api.Artifacts.{
  filename_safe, filename_max_chars, filename_fallback, without_dots, or_fallback, safe_filename,
}

abbrev FirstIsNoDot : Str → Type 0
FirstIsNoDot [] = ⊥
FirstIsNoDot (c ∷ cs) = c ≢ b'.'

-- It has at least one character and at most the maximum, each of them allowed, the first no dot.
pub record IsSafe (name : Str) : Type 0 where
  pub first : FirstIsNoDot name
  pub short : length name ≤ 96
  pub allowed : All IsNameChar name

IsNameChar-safe : (c : ℕ) → filename_safe c ≡ true → IsNameChar c
IsNameChar-safe c e = ground arith

-- What the filter keeps.
keep_if-All : (p : ℕ → Bool) (s : Str) → All (λ c. p c ≡ true) (keep_if p s)
keep_if-All p [] = tt
keep_if-All p (c ∷ cs) = elim (Bool-cases (p c)) [
  | inl e ↦ rw (e, e) (refl, keep_if-All p cs)
  | inr e ↦ rw e (keep_if-All p cs)
]

fallback : All IsNameChar filename_fallback
fallback =
    All-map IsNameChar-safe filename_fallback
      (refl, (refl, (refl, (refl, (refl, (refl, (refl, (refl, tt))))))))

without_dots-IsSafe :
    (s : Str)
    → length s ≤ filename_max_chars
    → All IsNameChar s
    → IsSafe (or_fallback (without_dots s))
unfolding without_dots
without_dots-IsSafe [] h k = record {
  first = ground arith;
  short = omega arith;
  allowed = fallback;
}
without_dots-IsSafe (c ∷ cs) h k = elim (Bool-cases (c == b'.')) [
  | inl e ↦ rw e (without_dots-IsSafe cs (omega (arith, h)) k.1)
  | inr e ↦ rw e (record { first = ground (arith, e); short = h; allowed = k })
]

-- Whatever the name of an artifact is, the name that goes into the header of its download has at
-- least one character and at most 96, each of them a letter, a digit, a dot, an underscore or a
-- dash, and the first no dot.
pub safe_filename-IsSafe : (filename : Str) → IsSafe (safe_filename filename)
unfolding safe_filename
safe_filename-IsSafe filename =
    let kept = keep_if filename_safe filename in
    without_dots-IsSafe (take filename_max_chars kept) (length-take-le filename_max_chars kept) (
      All-take IsNameChar filename_max_chars kept
        (All-map IsNameChar-safe kept (keep_if-All filename_safe filename)))
