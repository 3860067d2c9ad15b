-- ===== src/Storage/Rows/RoundTrip.antt =====
-- What is written is what is read back.
use growtrics_challenge.Common.{
  ℕ, ◌≡◌, refl, Option, none, some, List, [], ◌∷◌, map, if◌then◌else◌, ◌==◌,
}
use growtrics_challenge.Common.Dict.{lookup}
use growtrics_challenge.Common.Split.{split_on}
use growtrics_challenge.Common.Text.{Str, str_eq}
use growtrics_challenge.Domain.Records.{
  ContextItem, JobConstraints, StoredRequest, BriefRecord, FailureRecord, JobRecord, ArtifactRecord,
}
use growtrics_challenge.Domain.Enums.{ReadingLevel}
use growtrics_challenge.Domain.Values.{
  status_of_value, stage_of_value, code_of_value, role_of_value, audience_of_value,
  verdict_of_value, kind_of_value, level_of_value, profile_of_value,
}
use growtrics_challenge.Effects.{ok}
use growtrics_challenge.Storage.Rows.{
  Value, Row, Params, nullable, or_null, as_text, as_time, field_at, constraints_json,
  constraints_from_json, context_items_json, context_items_from_json, context_items_from,
  context_item_from_json, level_json, level_from_json, request_columns, brief_columns,
  artifact_columns, job_columns,
}
use growtrics_challenge.Storage.Rows.Jobs.{
  IsoForm, failure_json, failure_from_json, failure_in, job_params, job_from_row,
}
use growtrics_challenge.Storage.Rows.Records.{
  request_params, request_from_row, brief_params, brief_from_row, artifact_params,
  artifact_from_row,
}

-- `, ` is between two names.
abbrev pub without_space : Str → Str
without_space [] = []
without_space (c ∷ cs) = if c == 32 then cs else c ∷ cs

abbrev pub or_default : Option Value → Value
or_default none = Value.null
or_default (some value) = value

-- What the database returns of these columns for a row that was inserted with the parameters, each
-- into the column of its name.
unfoldable pub returned_row : Str → Params → Row
returned_row columns params =
    map (λ name. or_default (lookup (without_space name) params)) (split_on b',' columns)

nullable_text :
    (found : Option Str) → nullable as_text (or_null (λ s. Value.text s) found) ≡ ok found
nullable_text none = refl
nullable_text (some s) = refl

level-read : (level : Option ReadingLevel) → level_from_json (level_json level) ≡ ok level
level-read none = refl
level-read (some level) = rw (level_of_value level) refl

constraints-read : (c : JobConstraints) → constraints_from_json (constraints_json c) ≡ ok c
unfolding constraints_from_json field_at str_eq
constraints-read c = rw (level-read c.reading_level) refl

items-read :
    (items : List ContextItem) → context_items_from_json (context_items_json items) ≡ ok items
unfolding context_items_from context_item_from_json field_at str_eq
items-read [] = refl
items-read (item ∷ items) = rw (kind_of_value item.kind, items-read items) refl

request-read :
    (r : StoredRequest) → request_from_row (returned_row request_columns (request_params r)) ≡ ok r
unfolding request_from_row returned_row split_on lookup str_eq
request-read r = refl

brief-read : (b : BriefRecord) → brief_from_row (returned_row brief_columns (brief_params b)) ≡ ok b
unfolding brief_from_row returned_row split_on lookup str_eq
brief-read b =
    rw (nullable_text b.concept_id, items-read b.context_items, constraints-read b.constraints) refl

nullable_time : (found : Option ℕ) → nullable as_time (or_null (λ t. Value.time t) found) ≡ ok found
nullable_time none = refl
nullable_time (some t) = refl

artifact-read :
    (r : ArtifactRecord)
    → artifact_from_row (returned_row artifact_columns (artifact_params r)) ≡ ok r
unfolding artifact_from_row returned_row split_on lookup str_eq
artifact-read r =
    rw
      (
        nullable_text r.chat_context_id,
        role_of_value r.role,
        audience_of_value r.audience,
        nullable_text r.rel_path,
        verdict_of_value r.scan_verdict,
        nullable_time r.published_at,
      )
      refl

module _ (iso : IsoForm) where
  failure-read :
      (failure : Option FailureRecord)
      → failure_from_json iso (failure_json iso failure) ≡ ok failure
  unfolding failure_from_json failure_in field_at str_eq
  failure-read none = refl
  failure-read (some failure) =
      rw
        (
          code_of_value failure.code,
          stage_of_value failure.stage,
          iso.fromisoformat-isoformat failure.occurred_at,
        )
        refl

  job-read :
      (job : JobRecord) → job_from_row iso (returned_row job_columns (job_params iso job)) ≡ ok job
  unfolding job_from_row returned_row split_on lookup str_eq
  job-read job =
      rw
        (
          nullable_text job.chat_context_id,
          status_of_value job.status,
          stage_of_value job.stage,
          profile_of_value job.profile,
          constraints-read job.constraints,
          failure-read job.failure,
          nullable_text job.artifact_id,
          nullable_text job.brief_id,
        )
        refl

  -- A request, a job, a brief and an artifact: from the row that has, under each column of the
  -- column list of the table, what the parameters hold under its name, the record is read back as
  -- it was, for an ISO form of instants that reads back what it writes.
  pub rows_read_back :
      (request : StoredRequest) (job : JobRecord) (brief : BriefRecord) (artifact : ArtifactRecord)
      → (request_from_row (returned_row request_columns (request_params request)) ≡ ok request)
        × (job_from_row iso (returned_row job_columns (job_params iso job)) ≡ ok job)
        × (brief_from_row (returned_row brief_columns (brief_params brief)) ≡ ok brief)
        × (artifact_from_row (returned_row artifact_columns (artifact_params artifact))
            ≡ ok artifact)
  rows_read_back request job brief artifact =
      (request-read request, job-read job, brief-read brief, artifact-read artifact)
