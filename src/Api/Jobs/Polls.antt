-- ===== src/Api/Jobs/Polls.antt =====
-- A client that polls with the tag of an answer it has.
use growtrics_challenge.Common.{
  ℕ, suc, zero, ◌/◌, ◌≤◌, ◌≡◌, ◌≢◌, ◌↔◌, refl, ap, ◌∙◌, true, false, some, [], ◌∷◌, ◌++◌, All,
  All-append, All-map, Bool-cases, inl, inr, ltb, arith,
}
use growtrics_challenge.Common.Split.{split_on, strip_prefix}
use growtrics_challenge.Common.Text.{Str, codes, str_eq, str_eq_iff, decimal, digits_of}
use growtrics_challenge.Access.{strip, strip_start, strip_end}
use growtrics_challenge.Api.Jobs.{
  JobService, ListsArtifacts, Response, without_weak, if_none_match_hits, poll_job, with_body,
}
use growtrics_challenge.Api.Views.{etag_for}
use growtrics_challenge.Domain.Ids.Joined.{decimal_injective}
use growtrics_challenge.Domain.Json.{Json}
use growtrics_challenge.Domain.Records.{AccessScope, JobRecord}
use growtrics_challenge.Effects.{ok}
use growtrics_challenge.Intake.Sanitiser.{Unicode}
use growtrics_challenge.Storage.State.{World}
use mathlib.Core.List.{append_cancel_left, append_cancel_right}

abbrev IsDigit : ℕ → Type 0
IsDigit c = (48 ≤ c) × (c ≤ 57)

digits-IsDigit : (fuel n : ℕ) (acc : Str) → All IsDigit acc → All IsDigit (digits_of fuel n acc)
unfolding digits_of
digits-IsDigit zero n acc h = h
digits-IsDigit (suc fuel) n acc h = elim (Bool-cases (ltb n 10)) [
  | inl e ↦ rw e ((omega arith, ground arith), h)
  | inr e ↦ rw e (digits-IsDigit fuel (n / 10) _ ((omega arith, omega arith), h))
]

split_on-none : (sep : ℕ) (s : Str) → All (λ c. c ≢ sep) s → split_on sep s ≡ s ∷ []
unfolding split_on
split_on-none sep [] h = refl
split_on-none sep (c ∷ cs) h = ground (arith, split_on-none sep cs h.1)

-- The tag is the same text in every position that the comparison reads it from.
abbrev digits : JobRecord → Str
digits job = decimal job.version

no_comma : (job : JobRecord) → All (λ c. c ≢ b',') (etag_for job)
unfolding etag_for decimal
no_comma job =
    let spelled = digits-IsDigit (suc job.version) job.version [] tt in
    (
      ground arith,
      (
        ground arith,
        (
          ground arith,
          All-append (λ c. c ≢ b',') (digits job) (codes "\"")
              (All-map (λ c d. ground (arith, d)) (digits job) spelled) (ground arith, tt),
        ),
      ),
    )

module _ (u : Unicode) where
  strip_end-last :
      (s : Str) (c : ℕ) → u.is_space c ≡ false → strip_end u (s ++ (c ∷ [])) ≡ s ++ (c ∷ [])
  unfolding strip_end
  strip_end-last [] c h = rw h refl
  strip_end-last (x ∷ []) c h = rw (h) refl
  strip_end-last (x ∷ y ∷ s) c h = rw (strip_end-last (y ∷ s) c h) refl

  strip-etag :
      (job : JobRecord)
      → u.is_space b'W' ≡ false
      → u.is_space b'"' ≡ false
      → strip u (etag_for job) ≡ etag_for job
  unfolding strip strip_start etag_for
  strip-etag job w q = rw w (strip_end-last (codes "W/\"" ++ decimal job.version) b'"' q)

  same_tag :
      (a b : JobRecord)
      → (str_eq (without_weak (etag_for a)) (without_weak (etag_for b)) ≡ true)
        ↔ (a.version ≡ b.version)
  unfolding etag_for strip_prefix
  same_tag a b = (
    λ h.
        (let e = (str_eq_iff (without_weak (etag_for a)) (without_weak (etag_for b))).0 h in
          let d =
            append_cancel_left (codes "\"") (digits a ++ codes "\"") (digits b ++ codes "\"") e in
          decimal_injective a.version b.version
            (append_cancel_right (digits a) (digits b) (codes "\"") d)),
    λ e.
        (str_eq_iff (without_weak (etag_for a)) (without_weak (etag_for b))).1
          (ap (λ n. b'"' ∷ (decimal n ++ codes "\"")) e),
  )

  hits_one :
      (c : ℕ) (cs etag : Str)
      → strip u (c ∷ cs) ≡ c ∷ cs
      → All (λ x. x ≢ b',') (c ∷ cs)
      → str_eq (c ∷ cs) (codes "*") ≡ false
      → if_none_match_hits u (some (c ∷ cs)) etag
        ≡ str_eq (without_weak (c ∷ cs)) (without_weak etag)
  unfolding if_none_match_hits
  hits_one c cs etag bare whole other =
      rw (bare, other, split_on-none b',' (c ∷ cs) whole, bare) (ground arith)

  hits-etag :
      (a b : JobRecord)
      → u.is_space b'W' ≡ false
      → u.is_space b'"' ≡ false
      → if_none_match_hits u (some (etag_for a)) (etag_for b)
        ≡ str_eq (without_weak (etag_for a)) (without_weak (etag_for b))
  unfolding etag_for str_eq
  hits-etag a b w q =
      hits_one b'W' (codes "/\"" ++ (digits a ++ codes "\"")) (etag_for b) (strip-etag a w q)
        (no_comma a) refl

  module _ (instant : ℕ → Json) (jobs : JobService) (artifacts : ListsArtifacts) where
    -- A poll of a job that can be read, with the tag of an answer about a job, where neither `W`
    -- nor a quotation mark is a space: it is answered that nothing was modified exactly when the
    -- two have the same version, and with the body of a poll without a tag otherwise.
    pub poll_job_lem :
        (seen job : JobRecord) (job_id : Str) (scope : AccessScope) (w t : World)
        → u.is_space b'W' ≡ false
        → u.is_space b'"' ≡ false
        → jobs.get scope job_id w ≡ (ok job, t)
        → (seen.version ≡ job.version
            → poll_job instant jobs artifacts u (some (etag_for seen)) job_id scope w
              ≡ (ok (Response.not_modified (etag_for job)), t))
          × (seen.version ≢ job.version
              → poll_job instant jobs artifacts u (some (etag_for seen)) job_id scope w
                ≡ with_body instant jobs artifacts scope job t)
    unfolding poll_job
    poll_job_lem seen job job_id scope w t space quote read = (
      λ e.
          (let hit = hits-etag seen job space quote ∙ (same_tag seen job).1 e in
            rw (read, hit) refl),
      λ d. elim (Bool-cases (str_eq (without_weak (etag_for seen)) (without_weak (etag_for job)))) [
        | inl e ↦ absurd (d ((same_tag seen job).0 e))
        | inr e ↦ (let miss = hits-etag seen job space quote ∙ e in rw (read, miss) refl)
      ],
    )
