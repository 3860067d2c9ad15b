-- ===== src/Api/Views.antt =====
-- src/app/api/schemas: the documents of jobs and of artifacts, as pydantic serialises them, and the
-- refusal of a percent over a hundred. An instant is written by pydantic's own form of it.
use growtrics_challenge.Common.{ℕ, Option, none, some, List, [], ◌∷◌, ◌++◌, if◌then◌else◌, ltb}
use growtrics_challenge.Common.Text.{Str, codes, decimal}
use growtrics_challenge.Domain.Enums.{
  StageName, ReadingLevel, role_value, profile_value, level_value,
}
use growtrics_challenge.Domain.Errors.{Error}
use growtrics_challenge.Domain.Json.{Json, document, items_of}
use growtrics_challenge.Domain.Records.{FailureRecord, JobConstraints, JobRecord, ArtifactRecord}
use growtrics_challenge.Domain.Values.{status_value, stage_value, code_value}
use growtrics_challenge.Effects.{Result, ok, err}
use growtrics_challenge.Effects.Pure.{◌>>=◌}
use growtrics_challenge.Intake.Service.{get_of}

abbrev pub schema_version : Str
schema_version = codes "1.0"

-- `STAGE_STEP`
abbrev pub stage_step : StageName → Str × Str
stage_step StageName.intake = (codes "intake", codes "reading the request")
stage_step StageName.admission = (codes "admit", codes "checking capacity")
stage_step StageName.placement = (codes "place", codes "finding a worker")
stage_step StageName.preparing = (codes "prepare", codes "writing the brief")
stage_step StageName.generating = (codes "generate", codes "rendering")
stage_step StageName.collecting = (codes "collect", codes "harvesting output")
stage_step StageName.verifying = (codes "verify", codes "checking output")
stage_step StageName.publishing = (codes "publish", codes "storing the lesson")
stage_step StageName.done = (codes "done", codes "finished")
stage_step StageName.failed = (codes "failed", codes "stopped")

abbrev pub self_link : Str → Str
self_link job_id = codes "/v1/jobs/" ++ job_id

abbrev pub artifacts_link : Str → Str
artifacts_link job_id = codes "/v1/artifacts?job_id=" ++ job_id

abbrev pub content_url_for : Str → Str
content_url_for artifact_id = codes "/v1/artifacts/" ++ (artifact_id ++ codes "/content")

unfoldable pub etag_for : JobRecord → Str
etag_for job = codes "W/\"" ++ (decimal job.version ++ codes "\"")

abbrev pub text_or_null : Option Str → Json
text_or_null none = Json.null
text_or_null (some s) = Json.text s

-- `float(value)` of a number, which keeps its value; a boolean is none.
abbrev pub duration_of : Json → Json
duration_of (Json.number n) = Json.number n
duration_of (Json.negative n) = Json.negative n
duration_of (Json.real x) = Json.real x
duration_of _ = Json.null

unfoldable pub duration_from_probe : Json → Json
duration_from_probe probe = duration_of (get_of (codes "duration_s") Json.null probe)

-- `ProgressView`, whose percent is between 0 and 100.
unfoldable pub progress_view : JobRecord → Result Json
progress_view job =
    if ltb 100 job.progress_percent
    then err Error.value_error
    else ok (
        document (
          (codes "percent", Json.number job.progress_percent)
          ∷ (codes "step", Json.text (stage_step job.stage).0)
          ∷ (codes "message", Json.text (stage_step job.stage).1)
          ∷ []))

abbrev pub level_view : Option ReadingLevel → Json
level_view none = Json.null
level_view (some level) = Json.text (level_value level)

abbrev pub constraints_view : JobConstraints → Json
constraints_view constraints = document (
    (codes "max_duration_s", Json.number constraints.max_duration_s)
    ∷ (codes "language", Json.text constraints.language)
    ∷ (codes "reading_level", level_view constraints.reading_level)
    ∷ [])

-- `PageView`
abbrev pub page_view : List Json → Option Str → Json
page_view items next_cursor = document (
    (codes "schema_version", Json.text schema_version)
    ∷ (codes "items", Json.array (items_of items))
    ∷ (codes "next_cursor", text_or_null next_cursor)
    ∷ [])

module _ (instant : ℕ → Json) where
  abbrev pub failure_view : Option FailureRecord → Json
  failure_view none = Json.null
  failure_view (some failure) = document (
      (codes "code", Json.text (code_value failure.code))
      ∷ (codes "stage", Json.text (stage_value failure.stage))
      ∷ (codes "message", Json.text failure.message)
      ∷ (codes "retryable", Json.boolean failure.retryable)
      ∷ (codes "occurred_at", instant failure.occurred_at)
      ∷ (codes "trace_id", Json.text failure.trace_id)
      ∷ [])

  -- `ArtifactSummaryView.from_record`
  unfoldable pub artifact_summary : ArtifactRecord → Json
  artifact_summary r = document (
      (codes "artifact_id", Json.text r.artifact_id)
      ∷ (codes "role", Json.text (role_value r.role))
      ∷ (codes "media_type", Json.text r.mime)
      ∷ (codes "size_bytes", Json.number r.size_bytes)
      ∷ (codes "duration_s", duration_from_probe r.probe)
      ∷ (codes "poster_url", Json.null)
      ∷ (codes "content_url", Json.text (content_url_for r.artifact_id))
      ∷ (codes "created_at", instant r.created_at)
      ∷ [])

  abbrev pub summary_or_null : Option ArtifactRecord → Json
  summary_or_null none = Json.null
  summary_or_null (some r) = artifact_summary r

  -- `JobView.from_record`
  unfoldable pub job_view : JobRecord → Option ArtifactRecord → Result Json
  job_view job artifact = do
    progress ← progress_view job
    ok (
        document (
          (codes "schema_version", Json.text schema_version)
          ∷ (codes "job_id", Json.text job.job_id)
          ∷ (codes "request_key", Json.text job.request_key)
          ∷ (codes "chat_context_id", text_or_null job.chat_context_id)
          ∷ (codes "status", Json.text (status_value job.status))
          ∷ (codes "stage", Json.text (stage_value job.stage))
          ∷ (codes "attempt", Json.number job.attempt)
          ∷ (codes "progress", progress)
          ∷ (codes "profile", Json.text (profile_value job.profile))
          ∷ (codes "contract_version", Json.text job.contract_version)
          ∷ (codes "constraints", constraints_view job.constraints)
          ∷ (codes "failure", failure_view job.failure)
          ∷ (codes "artifact", summary_or_null artifact)
          ∷ (codes "created_at", instant job.created_at)
          ∷ (codes "updated_at", instant job.updated_at)
          ∷ (
            codes "links",
            document (
                (codes "self", Json.text (self_link job.job_id))
                ∷ (codes "artifacts", Json.text (artifacts_link job.job_id))
                ∷ []),
          )
          ∷ []))

  -- `JobEventView.from_record`
  unfoldable pub job_event_view : JobRecord → Result Json
  job_event_view job = do
    progress ← progress_view job
    ok (
        document (
          (codes "schema_version", Json.text schema_version)
          ∷ (codes "job_id", Json.text job.job_id)
          ∷ (codes "status", Json.text (status_value job.status))
          ∷ (codes "stage", Json.text (stage_value job.stage))
          ∷ (codes "progress", progress)
          ∷ (codes "version", Json.number job.version)
          ∷ (codes "updated_at", instant job.updated_at)
          ∷ []))
