-- ===== src/Storage/Rows/Jobs.antt =====
-- The rows of the `jobs` table of src/app/storage/sql/rows.py, with the failure that a row holds.
use growtrics_challenge.Common.{ℕ, ◌≡◌, Option, none, some, [], ◌∷◌}
use growtrics_challenge.Common.Text.{Str, codes}
use growtrics_challenge.Domain.Enums.{profile_value}
use growtrics_challenge.Domain.Errors.{Error}
use growtrics_challenge.Domain.Json.{Json, document}
use growtrics_challenge.Domain.Records.{FailureRecord, JobRecord}
use growtrics_challenge.Domain.Values.{
  status_value, stage_value, code_value, member_of, statuses, stages, error_codes, profiles,
}
use growtrics_challenge.Effects.{Result, ok, err}
use growtrics_challenge.Effects.Pure.{◌>>=◌}
use growtrics_challenge.Storage.Rows.{
  Value, Row, Params, as_text, as_int, as_time, as_json, nullable, or_null, entry_at, text_of,
  boolean_of, constraints_json, constraints_from_json,
}

-- `datetime.isoformat` and `datetime.fromisoformat`; no answer where the latter raises.
pub record IsoForm : Type 0 where
  pub isoformat : ℕ → Str
  pub fromisoformat : Str → Option ℕ
  pub fromisoformat-isoformat : (t : ℕ) → fromisoformat (isoformat t) ≡ some t

abbrev pub instant : Option ℕ → Result ℕ
instant none = err Error.value_error
instant (some t) = ok t

module _ (iso : IsoForm) where
  abbrev pub failure_json : Option FailureRecord → Value
  failure_json none = Value.null
  failure_json (some failure) = Value.jsonb (
      document (
        (codes "code", Json.text (code_value failure.code))
        ∷ (codes "stage", Json.text (stage_value failure.stage))
        ∷ (codes "message", Json.text failure.message)
        ∷ (codes "retryable", Json.boolean failure.retryable)
        ∷ (codes "occurred_at", Json.text (iso.isoformat failure.occurred_at))
        ∷ (codes "trace_id", Json.text failure.trace_id)
        ∷ []))

  unfoldable pub failure_in : Json → Result FailureRecord
  failure_in raw = do
    code ← entry_at (codes "code") raw >>= text_of >>= member_of code_value error_codes
    stage ← entry_at (codes "stage") raw >>= text_of >>= member_of stage_value stages
    message ← entry_at (codes "message") raw >>= text_of
    retryable ← entry_at (codes "retryable") raw >>= boolean_of
    occurred_text ← entry_at (codes "occurred_at") raw >>= text_of
    occurred_at ← instant (iso.fromisoformat occurred_text)
    trace_id ← entry_at (codes "trace_id") raw >>= text_of
    ok (record {
      code = code;
      stage = stage;
      message = message;
      retryable = retryable;
      occurred_at = occurred_at;
      trace_id = trace_id;
    })

  unfoldable pub failure_from_json : Value → Result (Option FailureRecord)
  unfolding failure_in
  failure_from_json Value.null = ok none
  failure_from_json value = do raw ← as_json value; failure ← failure_in raw; ok (some failure)

  unfoldable pub job_from_row : Row → Result JobRecord
  unfolding failure_from_json
  job_from_row
        (c0 ∷ c1 ∷ c2 ∷ c3 ∷ c4 ∷ c5 ∷ c6 ∷ c7 ∷ c8 ∷ c9 ∷ c10 ∷ c11 ∷ c12 ∷ c13 ∷ c14 ∷ c15 ∷ c16
          ∷ []) =
      do
        job_id ← as_text c0
        request_key ← as_text c1
        principal_id ← as_text c2
        chat_context_id ← nullable as_text c3
        status ← as_text c4 >>= member_of status_value statuses
        stage ← as_text c5 >>= member_of stage_value stages
        attempt ← as_int c6
        progress_percent ← as_int c7
        profile ← as_text c8 >>= member_of profile_value profiles
        contract_version ← as_text c9
        constraints ← as_json c10 >>= constraints_from_json
        failure ← failure_from_json c11
        artifact_id ← nullable as_text c12
        brief_id ← nullable as_text c13
        version ← as_int c14
        created_at ← as_time c15
        updated_at ← as_time c16
        ok (record {
          job_id = job_id;
          request_key = request_key;
          principal_id = principal_id;
          chat_context_id = chat_context_id;
          status = status;
          stage = stage;
          attempt = attempt;
          progress_percent = progress_percent;
          profile = profile;
          contract_version = contract_version;
          constraints = constraints;
          failure = failure;
          artifact_id = artifact_id;
          brief_id = brief_id;
          version = version;
          created_at = created_at;
          updated_at = updated_at;
        })
  job_from_row _ = err Error.value_error

  abbrev pub job_params : JobRecord → Params
  job_params job =
      (codes "job_id", Value.text job.job_id)
      ∷ (codes "request_key", Value.text job.request_key)
      ∷ (codes "principal_id", Value.text job.principal_id)
      ∷ (codes "chat_context_id", or_null Value.text job.chat_context_id)
      ∷ (codes "status", Value.text (status_value job.status))
      ∷ (codes "stage", Value.text (stage_value job.stage))
      ∷ (codes "attempt", Value.int job.attempt)
      ∷ (codes "progress_percent", Value.int job.progress_percent)
      ∷ (codes "profile", Value.text (profile_value job.profile))
      ∷ (codes "output_contract", Value.text job.contract_version)
      ∷ (codes "constraints", Value.jsonb (constraints_json job.constraints))
      ∷ (codes "failure", failure_json job.failure)
      ∷ (codes "artifact_id", or_null Value.text job.artifact_id)
      ∷ (codes "brief_id", or_null Value.text job.brief_id)
      ∷ (codes "budget", Value.jsonb (document []))
      ∷ (codes "version", Value.int job.version)
      ∷ (codes "created_at", Value.time job.created_at)
      ∷ (codes "updated_at", Value.time job.updated_at)
      ∷ []
