-- ===== src/Orchestration/Runner.antt =====
-- `JobRunner` of src/app/orchestration/engine/runner.py: one claimed item through four steps, with
-- every status written here. A `try` body is an action on the variables that its handler reads, the
-- job in hand and the stage, beside the state of the world.
pub mod Stages
pub mod Finish
pub mod Redelivery
pub mod Frame
use growtrics_challenge.Common.{
  ℕ, Bool, true, false, Option, none, some, List, [], ◌∷◌, if◌then◌else◌,
}
use growtrics_challenge.Common.Text.{Str, codes}
use growtrics_challenge.Domain.Enums.{JobStatus, StageName, is_terminal}
use growtrics_challenge.Domain.Errors.{ErrorCode, Error, error_catalog}
use growtrics_challenge.Domain.Ids.{Uuid, derive_trace_id, derive_session_id}
use growtrics_challenge.Domain.Records.{
  StoredRequest, BriefRecord, FailureRecord, JobRecord, ClaimedWorkItem, ArtifactRecord,
}
use growtrics_challenge.Effects.{Result, ok, err}
use growtrics_challenge.Effects.Exec.{Exec, pure, raise, lift, ◌>>=◌, ◌>>◌}
use growtrics_challenge.Storage.State.{JobTransition, World, Action, now}
use growtrics_challenge.Storage.Jobs.{load_request, load_for_run, apply_transition}
use growtrics_challenge.Orchestration.Policy.{percent_for, classify_failure}
use growtrics_challenge.Orchestration.Ports.{Steps, GenerationOutcome, HarvestOutcome}

pub record Run : Type 0 where
  pub job : JobRecord
  pub stage : StageName
  pub world : World

abbrev pub Attempt : Type 0 → Type 0
Attempt A = Exec Run A

-- A call that reads neither variable.
abbrev pub on_world : {A : Type 0} → Action A → Attempt A
on_world m r = ((m r.world).0, record r { world = (m r.world).1 })

-- `job = await self._jobs.apply_transition(...)`
unfoldable pub assign : StageName → Run → Result JobRecord × World → Result (Unit {0}) × Run
assign stage r (ok job, w) = (ok tt, record { job = job; stage = stage; world = w })
assign stage r (err e, w) = (err e, record r { world = w })

abbrev pub entering : JobRecord → StageName → Option Str → ℕ → JobTransition
entering job stage brief_id percent = record {
  job_id = job.job_id;
  expected_version = job.version;
  status = JobStatus.running;
  stage = stage;
  progress_percent = percent;
  brief_id = brief_id;
  artifact_id = none;
  failure = none;
}

-- `job = await self._enter(job, stage, ...)`, then `stage = stage`.
unfoldable pub enter : StageName → Option Str → Attempt (Unit {0})
unfolding assign
enter stage brief_id = do
  percent ← lift (percent_for stage)
  (λ r. assign stage r (apply_transition (entering r.job stage brief_id percent) r.world))

abbrev pub succeeding : JobRecord → Str → ℕ → JobTransition
succeeding job artifact_id percent = record {
  job_id = job.job_id;
  expected_version = job.version;
  status = JobStatus.succeeded;
  stage = StageName.done;
  progress_percent = percent;
  brief_id = none;
  artifact_id = some artifact_id;
  failure = none;
}

unfoldable pub succeed : Str → Attempt JobRecord
succeed artifact_id = do
  percent ← lift (percent_for StageName.done)
  (λ r. on_world (apply_transition (succeeding r.job artifact_id percent)) r)

abbrev pub failing : JobRecord → FailureRecord → JobTransition
failing job failure = record {
  job_id = job.job_id;
  expected_version = job.version;
  status = JobStatus.failed;
  stage = StageName.failed;
  progress_percent = job.progress_percent;
  brief_id = none;
  artifact_id = none;
  failure = some failure;
}

abbrev pub failure_of : Error → StageName → Str → ℕ → FailureRecord
failure_of e stage trace_id at =
    let verdict = classify_failure e in
    record {
      code = verdict.code;
      stage = stage;
      message = (error_catalog verdict.code).message;
      retryable = verdict.retryable;
      occurred_at = at;
      trace_id = trace_id;
    }

-- `_fail`, from the `except` clause.
unfoldable pub fail : Run → Str → Error → Action JobRecord
fail r trace_id e = do at ← now; apply_transition (failing r.job (failure_of e r.stage trace_id at))

unfoldable pub require_request : Option StoredRequest → Attempt StoredRequest
require_request none = raise (
    Error.domain ErrorCode.generation_failed
      ((codes "reason", codes "stored request is missing") ∷ []))
require_request (some request) = pure request

module _ (u : Uuid) (steps : Steps) where
  -- The calls of the four steps, on the job in hand.
  abbrev pub seal_step : StoredRequest → Attempt BriefRecord
  seal_step request r = on_world (steps.seal r.job.job_id request r.job.constraints r.job.profile) r

  abbrev pub generate_step : Str → Str → BriefRecord → Attempt GenerationOutcome
  generate_step session_id trace_id brief r =
      on_world (steps.generate session_id trace_id brief r.job.constraints r.job.profile) r

  abbrev pub harvest_step : GenerationOutcome → Attempt HarvestOutcome
  harvest_step outcome r =
      on_world
        (steps.harvest r.job.job_id r.job.principal_id r.job.chat_context_id r.job.profile
          r.job.constraints.max_duration_s outcome)
        r

  -- The body of the `try`, from its last paragraph to its first.
  unfoldable pub from_publishing : HarvestOutcome → Attempt JobRecord
  from_publishing harvested = do
    enter StageName.publishing none
    primary ← on_world (steps.publish harvested.primary)
    succeed primary.artifact_id

  unfoldable pub from_collecting : GenerationOutcome → Attempt JobRecord
  from_collecting outcome = do
    enter StageName.collecting none
    harvested ← harvest_step outcome
    from_publishing harvested

  unfoldable pub from_generating : Str → Str → BriefRecord → Attempt JobRecord
  from_generating session_id trace_id brief = do
    enter StageName.generating (some brief.brief_id)
    outcome ← generate_step session_id trace_id brief
    from_collecting outcome

  unfoldable pub from_request : Str → Str → Option StoredRequest → Attempt JobRecord
  from_request session_id trace_id found = do
    request ← require_request found
    brief ← seal_step request
    from_generating session_id trace_id brief

  unfoldable pub pipeline : Str → Str → Attempt JobRecord
  pipeline session_id trace_id = do
    enter StageName.preparing none
    found ← (λ r. on_world (load_request r.job.request_key) r)
    from_request session_id trace_id found

  -- The `except` clause, or the result.
  unfoldable pub handle : Str → Result JobRecord × Run → Result JobRecord × World
  handle trace_id (ok job, r) = (ok job, r.world)
  handle trace_id (err e, r) = fail r trace_id e r.world

  unfoldable pub run_job : JobRecord → Action JobRecord
  unfolding handle
  run_job job = do
    trace_id ← lift (derive_trace_id u job.job_id job.attempt)
    session_id ← lift (derive_session_id u job.job_id job.attempt)
    (λ w. handle trace_id (
        pipeline session_id trace_id
          (record { job = job; stage = StageName.preparing; world = w })))

  unfoldable pub run_found : Option JobRecord → Action (Option JobRecord)
  run_found none = pure none
  run_found (some job) =
      let live = (do done ← run_job job; pure (some done)) in
      if is_terminal job.status then pure (some job) else live

  unfoldable pub run : ClaimedWorkItem → Action (Option JobRecord)
  unfolding run_found
  run item = do found ← load_for_run item.job_id; run_found found
