-- ===== src/Orchestration/Policy.antt =====
-- src/app/orchestration/engine/policy.py (the lease predicate is in Storage/Queue), and
-- `percent_for` of src/app/domain/enums.py.
use growtrics_challenge.Common.{ℕ, ◌≡◌, Bool, false, Option, none, some, arith, ◌⊎◌}
use growtrics_challenge.Domain.Enums.{StageName, stage_percent}
use growtrics_challenge.Domain.Errors.{ErrorCode, Error, error_catalog}
use growtrics_challenge.Effects.{Result, ok, err}

percent_of : Option ℕ → Result ℕ
percent_of none = err Error.value_error
percent_of (some percent) = ok percent

unfoldable pub percent_for : StageName → Result ℕ
unfolding percent_of
percent_for stage = percent_of (stage_percent stage)

pub record FailureVerdict : Type 0 where
  pub code : ErrorCode
  pub retryable : Bool

verdict_by : ErrorCode → Option ℕ → FailureVerdict
verdict_by code none = record { code = code; retryable = false }
verdict_by code (some status) = record { code = ErrorCode.generation_failed; retryable = false }

unfoldable pub classify_failure : Error → FailureVerdict
unfolding verdict_by
classify_failure (Error.domain code details) = verdict_by code (error_catalog code).http_status
classify_failure e = record { code = ErrorCode.generation_failed; retryable = false }

-- Whatever a step raises, the code recorded on the job is `GENERATION_FAILED` or `JOB_TIMED_OUT`,
-- which have no HTTP status in the catalog, and the failure is not retryable.
pub classify_failure_job_code :
    (e : Error)
    → ((error_catalog (classify_failure e).code).http_status ≡ none)
      × ((classify_failure e).retryable ≡ false)
      × (((classify_failure e).code ≡ ErrorCode.generation_failed)
          ⊎ ((classify_failure e).code ≡ ErrorCode.job_timed_out))
unfolding classify_failure
classify_failure_job_code e = ground arith
