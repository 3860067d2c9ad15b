-- ===== src/Orchestration/Sweeper.antt =====
-- src/app/orchestration/engine/sweeper.py: one pass over the queue and the job table. The ticker
-- around it, an asyncio task that repeats it, is left out.
pub mod GivingUp
pub mod Batch
pub mod Pending
pub mod Swept
pub mod Passes
pub mod Tick
use growtrics_challenge.Common.{
  ℕ, ◌+◌, Bool, true, false, Option, none, some, List, [], ◌∷◌, if◌then◌else◌,
}
use growtrics_challenge.Common.Text.{Str}
use growtrics_challenge.Domain.Enums.{JobStatus, StageName, is_terminal}
use growtrics_challenge.Domain.Errors.{ErrorCode, error_catalog}
use growtrics_challenge.Domain.Ids.{Uuid, derive_trace_id, derive_work_item_id}
use growtrics_challenge.Domain.Records.{FailureRecord, JobRecord, ClaimedWorkItem}
use growtrics_challenge.Effects.{ok, err}
use growtrics_challenge.Effects.Exec.{pure, lift, ◌>>=◌, ◌>>◌}
use growtrics_challenge.Storage.State.{World, Action, JobTransition, now, earlier}
use growtrics_challenge.Storage.Jobs.{load_for_run, list_untouched_since, apply_transition}
use growtrics_challenge.Storage.Queue.{reclaim, exhausted, discard}

pub record SweepThresholds : Type 0 where
  pub pending_max_seconds : ℕ
  pub stale_after_seconds : ℕ
  pub max_claims : ℕ
  pub batch_limit : ℕ

pub record SweepReport : Type 0 where
  pub pending_failed : ℕ
  pub stale_failed : ℕ
  pub leases_reclaimed : ℕ

abbrev pub timed_out : JobRecord → Str → ℕ → FailureRecord
timed_out job trace_id at = record {
  code = ErrorCode.job_timed_out;
  stage = job.stage;
  message = (error_catalog ErrorCode.job_timed_out).message;
  retryable = false;
  occurred_at = at;
  trace_id = trace_id;
}

abbrev pub giving_up : JobRecord → FailureRecord → JobTransition
giving_up job failure = record {
  job_id = job.job_id;
  expected_version = job.version;
  status = JobStatus.failed;
  stage = StageName.failed;
  progress_percent = job.progress_percent;
  brief_id = none;
  artifact_id = none;
  failure = some failure;
}

module _ (u : Uuid) where
  -- `_give_up_on`
  unfoldable pub give_up_on : JobRecord → ℕ → Action Bool
  give_up_on job at =
      let give_up = do
        trace_id ← lift (derive_trace_id u job.job_id job.attempt)
        moved ← apply_transition (giving_up job (timed_out job trace_id at))
        item_id ← lift (derive_work_item_id u job.job_id)
        removed ← discard item_id
        pure true
      in if is_terminal job.status then pure false else give_up

  abbrev pub counted : ℕ → Bool → ℕ
  counted failed gave_up = if gave_up then failed + 1 else failed

  -- The loop over the jobs that a query found.
  unfoldable pub fail_each : List JobRecord → ℕ → ℕ → Action ℕ
  unfolding give_up_on
  fail_each [] at failed = pure failed
  fail_each (job ∷ jobs) at failed = do
    gave_up ← give_up_on job at
    fail_each jobs at (counted failed gave_up)

  unfoldable pub fail_pending_jobs : SweepThresholds → Action ℕ
  unfolding fail_each
  fail_pending_jobs thresholds = do
    at ← now
    cutoff ← lift (earlier at thresholds.pending_max_seconds)
    waiting ← list_untouched_since JobStatus.queued cutoff thresholds.batch_limit
    fail_each waiting at 0

  give_up_on_found : Option JobRecord → ℕ → Action Bool
  give_up_on_found none at = pure false
  give_up_on_found (some job) at = give_up_on job at

  drop_unless : Bool → Str → Action (Unit {0})
  drop_unless true item_id w = (ok tt, w)
  drop_unless false item_id w = (do removed ← discard item_id; pure tt) w

  -- One lapsed item that has burned every worker it gets: whether a job was given up on.
  unfoldable pub fail_item : ClaimedWorkItem → ℕ → Action Bool
  unfolding give_up_on_found drop_unless
  fail_item item at = do
    job ← load_for_run item.job_id
    gave_up ← give_up_on_found job at
    drop_unless gave_up item.item_id
    pure gave_up

  unfoldable pub fail_items : List ClaimedWorkItem → ℕ → ℕ → Action ℕ
  unfolding fail_item
  fail_items [] at failed = pure failed
  fail_items (item ∷ items) at failed = do
    gave_up ← fail_item item at
    fail_items items at (counted failed gave_up)

  unfoldable pub fail_stale_jobs : SweepThresholds → Action ℕ
  unfolding fail_items fail_each
  fail_stale_jobs thresholds = do
    at ← now
    items ← exhausted at thresholds.max_claims
    failed ← fail_items items at 0
    cutoff ← lift (earlier at thresholds.stale_after_seconds)
    stale ← list_untouched_since JobStatus.running cutoff thresholds.batch_limit
    fail_each stale at failed

  unfoldable pub reclaim_expired_leases : SweepThresholds → Action ℕ
  reclaim_expired_leases thresholds = do at ← now; reclaim at thresholds.max_claims

  unfoldable pub sweep_once : SweepThresholds → Action SweepReport
  unfolding fail_pending_jobs fail_stale_jobs reclaim_expired_leases
  sweep_once thresholds = do
    pending ← fail_pending_jobs thresholds
    stale ← fail_stale_jobs thresholds
    reclaimed ← reclaim_expired_leases thresholds
    pure (record { pending_failed = pending; stale_failed = stale; leases_reclaimed = reclaimed })
