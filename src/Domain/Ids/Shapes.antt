-- ===== src/Domain/Ids/Shapes.antt =====
-- The derived ids against the patterns of their kinds.
use growtrics_challenge.Common.{ℕ, ◌≡◌, refl, ap, Bool, true, [], ◌∷◌, ◌++◌, length}
use growtrics_challenge.Common.Split.{strip_prefix-append}
use growtrics_challenge.Common.Text.{Str, decimal}
use growtrics_challenge.Effects.{Result, ok}
use growtrics_challenge.Effects.Pure.{◌>>=◌}
use growtrics_challenge.Domain.Ids.{
  Uuid, derive, derive_job_id, derive_brief_id, derive_artifact_id, derive_work_item_id,
  derive_trace_id, derive_session_id, matches_id, is_body_char, is_job_id, is_artifact_id,
  is_brief_id, is_trace_id, is_work_item_id, is_session_id, all_chars, join_id_parts,
}
use growtrics_challenge.Domain.Ids.Crockford.{encode_crockford-body}

matches_id-append :
    (p s : Str)
    → length s ≡ 26
    → all_chars is_body_char s ≡ true
    → matches_id p is_body_char 26 26 (p ++ s) ≡ true
unfolding matches_id
matches_id-append p s len chars = rw (strip_prefix-append p s, matches_id) (rw (len, chars) refl)

module _ (u : Uuid) where
  -- What a derivation returns, when it has the shape of its prefix.
  abbrev pub Derives : Result Str → (Str → Bool) → Type 0
  Derives r is_id = (s : Str) × (r ≡ ok s) × (is_id s ≡ true)

  derive_shape :
      (namespace prefix name : Str)
      → Derives (derive u namespace prefix name) (matches_id prefix is_body_char 26 26)
  unfolding derive
  derive_shape namespace prefix name =
      let (s, e, len, chars) =
        encode_crockford-body (u.uuid5 namespace name) (u.length-uuid5 namespace name) in
      (
        prefix ++ s,
        ap (λ r. r >>= λ body. ok (prefix ++ body)) e,
        matches_id-append prefix s len chars,
      )

  -- For any `uuid5` that returns sixteen bytes, every derivation of the id spine succeeds and its
  -- id matches the pattern of its kind.
  pub derived_shapes :
      (key job hash : Str) (attempt : ℕ)
      → Derives (derive_job_id u key) is_job_id
        × Derives (derive_brief_id u job) is_brief_id
        × Derives (derive_artifact_id u job hash) is_artifact_id
        × Derives (derive_work_item_id u job) is_work_item_id
        × Derives (derive_trace_id u job attempt) is_trace_id
        × Derives (derive_session_id u job attempt) is_session_id
  unfolding derive_job_id derive_brief_id derive_artifact_id derive_work_item_id derive_trace_id
      derive_session_id is_job_id is_brief_id is_artifact_id is_work_item_id is_trace_id
      is_session_id
  derived_shapes key job hash attempt = (
    derive_shape _ _ key,
    derive_shape _ _ job,
    derive_shape _ _ (join_id_parts (job ∷ hash ∷ [])),
    derive_shape _ _ job,
    derive_shape _ _ (join_id_parts (job ∷ decimal attempt ∷ [])),
    derive_shape _ _ (join_id_parts (job ∷ decimal attempt ∷ [])),
  )
