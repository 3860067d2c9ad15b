-- ===== src/Orchestration/Service.antt =====
-- src/app/orchestration/service.py: admission, submission and the reads of jobs.
pub mod Admission
use growtrics_challenge.Common.{
  ℕ, ◌≤◌, Bool, true, false, Option, none, some, List, [], ◌∷◌, min, ltb, leb, if◌then◌else◌,
}
use growtrics_challenge.Common.Text.{Str, codes, decimal}
use growtrics_challenge.Domain.Enums.{JobStatus, StageName}
use growtrics_challenge.Domain.Errors.{Error, ErrorCode}
use growtrics_challenge.Domain.Ids.{Uuid, mint_request_key, derive_job_id, derive_work_item_id}
use growtrics_challenge.Domain.Json.{Json}
use growtrics_challenge.Domain.Records.{
  AccessScope, Cursor, JobRecord, Page, StoredRequest, SubmitJobCommand,
}
use growtrics_challenge.Effects.{Result, ok, err}
use growtrics_challenge.Effects.Exec.{pure, raise, lift, ◌>>=◌, ◌>>◌}
use growtrics_challenge.Storage.State.{Submission, World, Action, now}
use growtrics_challenge.Storage.Jobs.{count_active, get_job, list_jobs}
use growtrics_challenge.Storage.Submission.{commit_submission}
use growtrics_challenge.Orchestration.Policy.{percent_for}

-- The limit is a natural number here; the source refuses one below zero as it does zero.
unfoldable pub clamp_limit : ℕ → ℕ → Result ℕ
clamp_limit limit max_limit =
    if ltb limit 1
    then err (
        Error.domain ErrorCode.invalid_request
          ((codes "field", codes "limit") ∷ (codes "expected", codes "at least 1") ∷ []))
    else ok (min limit max_limit)

abbrev pub too_many : ℕ → Error
too_many max_active =
    Error.domain ErrorCode.too_many_active_jobs ((codes "limit", decimal max_active) ∷ [])

check_active : ℕ → ℕ → Action (Unit {0})
check_active max_active active w =
    (if leb max_active active then err (too_many max_active) else ok tt, w)

-- `ActiveJobLimit.admit`
unfoldable pub admit : ℕ → AccessScope → Action (Unit {0})
unfolding check_active
admit max_active scope = do
  active ← count_active scope scope.principal_id
  check_active max_active active

abbrev pub default_contract_version : Str
default_contract_version = codes "v1"

abbrev pub initial_stage : StageName
initial_stage = StageName.intake

abbrev pub new_job : Str → Str → AccessScope → SubmitJobCommand → ℕ → ℕ → JobRecord
new_job request_key job_id scope command percent at = record {
  job_id = job_id;
  request_key = request_key;
  principal_id = scope.principal_id;
  chat_context_id = command.chat_context_id;
  status = JobStatus.queued;
  stage = initial_stage;
  attempt = 0;
  progress_percent = percent;
  profile = command.profile;
  contract_version = default_contract_version;
  constraints = command.constraints;
  failure = none;
  artifact_id = none;
  brief_id = none;
  version = 0;
  created_at = at;
  updated_at = at;
}

-- The three rows of a request.
abbrev pub new_submission : JobRecord → Str → Json → Submission
new_submission job item_id raw = record {
  request = record {
    request_key = job.request_key;
    principal_id = job.principal_id;
    raw = raw;
    received_at = job.created_at;
  };
  job = job;
  work_item = record {
    item_id = item_id;
    job_id = job.job_id;
    available_at = job.created_at;
    created_at = job.created_at;
  };
}

write_rows : JobRecord → Str → Json → Action JobRecord
write_rows job item_id raw = do commit_submission none (new_submission job item_id raw); pure job

module _ (u : Uuid) where
  -- `SubmitJob.execute` behind the admission, with the random bytes of the request key.
  unfoldable pub place : List ℕ → AccessScope → SubmitJobCommand → Json → Action JobRecord
  unfolding write_rows
  place entropy scope command raw = do
    request_key ← lift (mint_request_key entropy)
    job_id ← lift (derive_job_id u request_key)
    at ← now
    percent ← lift (percent_for initial_stage)
    item_id ← lift (derive_work_item_id u job_id)
    write_rows (new_job request_key job_id scope command percent at) item_id raw

  unfoldable pub submit : ℕ → List ℕ → AccessScope → SubmitJobCommand → Json → Action JobRecord
  unfolding place
  submit max_active entropy scope command raw = do
    admit max_active scope
    place entropy scope command raw

some_job : Option JobRecord → Action JobRecord
some_job none = raise (Error.domain ErrorCode.job_not_found [])
some_job (some job) = pure job

-- `QueryJob.execute`
unfoldable pub query_job : AccessScope → Str → Action JobRecord
unfolding some_job
query_job scope job_id = do found ← get_job scope job_id; some_job found

-- `ListJobs.execute`
unfoldable pub query_jobs :
    (Cursor → Str) → ℕ → AccessScope → Option Cursor → ℕ → Action (Page JobRecord)
query_jobs token max_limit scope cursor limit = do
  size ← lift (clamp_limit limit max_limit)
  list_jobs token scope cursor size
