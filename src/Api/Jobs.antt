-- ===== src/Api/Jobs.antt =====
-- src/app/api/routers/jobs.py, with the request of src/app/api/schemas/requests.py as pydantic has
-- validated it: submission, the polling of a job, and the listing.
pub mod Polls
use growtrics_challenge.Common.{
  ℕ, Bool, true, false, ◌||◌, Option, none, some, List, [], ◌∷◌, ◌++◌, if◌then◌else◌,
}
use growtrics_challenge.Common.Split.{split_on, strip_prefix}
use growtrics_challenge.Common.Text.{Str, codes, str_eq}
use growtrics_challenge.Access.{strip}
use growtrics_challenge.Api.Views.{
  schema_version, etag_for, job_view, self_link, artifact_summary, page_view,
}
use growtrics_challenge.Domain.Enums.{ProfileId, ReadingLevel}
use growtrics_challenge.Domain.Errors.{Error, ErrorCode}
use growtrics_challenge.Domain.Json.{Json, document, items_of}
use growtrics_challenge.Domain.Records.{
  AccessScope, ContextItem, JobConstraints, SubmitJobCommand, JobRecord, ArtifactRecord, Cursor,
  Page,
}
use growtrics_challenge.Effects.Exec.{pure, raise, lift, ◌>>=◌}
use growtrics_challenge.Effects.{Result, ok, err}
use growtrics_challenge.Effects.Pure as Pure
use growtrics_challenge.Intake.Sanitiser.{Unicode}
use growtrics_challenge.Storage.State.{Action}

pub record JobOptionsIn : Type 0 where
  pub profile : ProfileId
  pub max_duration_s : ℕ
  pub language : Str
  pub reading_level : Option ReadingLevel

pub record CreateJobRequest : Type 0 where
  pub instruction : Str
  pub context : List ContextItem
  pub options : JobOptionsIn
  pub chat_context_id : Option Str

unfoldable pub to_command : CreateJobRequest → SubmitJobCommand
to_command request = record {
  instruction = request.instruction;
  context = request.context;
  constraints = record {
    max_duration_s = request.options.max_duration_s;
    language = request.options.language;
    reading_level = request.options.reading_level;
  };
  profile = request.options.profile;
  chat_context_id = request.chat_context_id;
}

-- The ports of src/app/api/ports.py that the routers call.
pub record JobService : Type 0 where
  pub submit : AccessScope → SubmitJobCommand → Json → Action JobRecord
  pub get : AccessScope → Str → Action JobRecord
  pub list : AccessScope → Option Cursor → ℕ → Action (Page JobRecord)

-- `ArtifactService.list`
abbrev pub ListsArtifacts : Type 0
ListsArtifacts = AccessScope → Option Str → Option Cursor → ℕ → Action (Page ArtifactRecord)

-- A response, by the header that it sets and its body.
pub data Response : Type 0 where
  accepted : Str → Json → Response
  found : Str → Json → Response
  not_modified : Str → Response

abbrev pub artifacts_per_job_scan : ℕ
artifacts_per_job_scan = 24

abbrev pub or_whole : Str → Option Str → Str
or_whole s none = s
or_whole s (some rest) = rest

-- `s.removeprefix("W/")`
abbrev pub without_weak : Str → Str
without_weak s = or_whole s (strip_prefix (codes "W/") s)

abbrev pub record_of : Str → List ArtifactRecord → Option ArtifactRecord
record_of artifact_id [] = none
record_of artifact_id (r ∷ rs) =
    let rest = record_of artifact_id rs in if str_eq r.artifact_id artifact_id then some r else rest

unfoldable pub primary_artifact :
    ListsArtifacts → AccessScope → JobRecord → Option Str → Action (Option ArtifactRecord)
primary_artifact artifacts scope job none = pure none
primary_artifact artifacts scope job (some artifact_id) = do
  page ← artifacts scope (some job.job_id) none artifacts_per_job_scan
  pure (record_of artifact_id page.items)

module _ (u : Unicode) where
  abbrev pub any_candidate : Str → List Str → Bool
  any_candidate wanted [] = false
  any_candidate wanted (candidate ∷ candidates) =
      str_eq (without_weak (strip u candidate)) wanted || any_candidate wanted candidates

  -- `_if_none_match_hits`
  unfoldable pub if_none_match_hits : Option Str → Str → Bool
  if_none_match_hits none etag = false
  if_none_match_hits (some []) etag = false
  if_none_match_hits (some (c ∷ cs)) etag =
      if str_eq (strip u (c ∷ cs)) (codes "*")
      then true
      else any_candidate (without_weak etag) (split_on b',' (c ∷ cs))

module _ (instant : ℕ → Json) (jobs : JobService) (artifacts : ListsArtifacts) where
  abbrev pub fields_of_body : Json → Action Json
  fields_of_body (Json.object fields) = pure (Json.object fields)
  fields_of_body _ = raise (
      Error.domain ErrorCode.invalid_request
        ((codes "field", codes "body") ∷ (codes "rule", codes "object") ∷ []))

  unfoldable pub submit_job : CreateJobRequest → Json → AccessScope → Action Response
  submit_job payload parsed scope = do
    raw_body ← fields_of_body parsed
    job ← jobs.submit scope (to_command payload) raw_body
    view ← lift (job_view instant job none)
    pure (Response.accepted (self_link job.job_id) view)

  unfoldable pub with_body : AccessScope → JobRecord → Action Response
  unfolding primary_artifact
  with_body scope job = do
    artifact ← primary_artifact artifacts scope job job.artifact_id
    view ← lift (job_view instant job artifact)
    pure (Response.found (etag_for job) view)

  unfoldable pub poll_job : Unicode → Option Str → Str → AccessScope → Action Response
  unfolding with_body if_none_match_hits
  poll_job u if_none_match job_id scope = do
    job ← jobs.get scope job_id
    (if if_none_match_hits u if_none_match (etag_for job)
        then pure (Response.not_modified (etag_for job))
        else with_body scope job)

  unfoldable pub views_of : List JobRecord → Result (List Json)
  views_of [] = ok []
  views_of (job ∷ rest) =
      Pure.◌>>=◌ (job_view instant job none)
        (λ view. Pure.◌>>=◌ (views_of rest) (λ views. ok (view ∷ views)))

  unfoldable pub list_jobs_page : AccessScope → Option Cursor → ℕ → Action Json
  unfolding views_of
  list_jobs_page scope cursor limit = do
    page ← jobs.list scope cursor limit
    items ← lift (views_of page.items)
    pure (page_view items page.next_cursor)
