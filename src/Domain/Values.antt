-- ===== src/Domain/Values.antt =====
-- The wire values of the vocabularies of src/app/domain/enums.py and src/app/domain/errors.py, and
-- `JobStatus(value)` and the like: the member that has a value.
use growtrics_challenge.Common.{◌≡◌, List, [], ◌∷◌, if◌then◌else◌, arith}
use growtrics_challenge.Common.Text.{Str, codes, str_eq}
use growtrics_challenge.Domain.Enums.{
  JobStatus, StageName, ArtifactRole, Audience, ScanVerdict, ContextKind, ReadingLevel, ProfileId,
  role_value, verdict_value, profile_value, audience_value, kind_value, level_value,
}
use growtrics_challenge.Domain.Errors.{Error, ErrorCode}
use growtrics_challenge.Effects.{Result, ok, err}

abbrev pub status_value : JobStatus → Str
status_value JobStatus.queued = codes "QUEUED"
status_value JobStatus.running = codes "RUNNING"
status_value JobStatus.succeeded = codes "SUCCEEDED"
status_value JobStatus.failed = codes "FAILED"
status_value JobStatus.cancelled = codes "CANCELLED"

abbrev pub stage_value : StageName → Str
stage_value StageName.intake = codes "INTAKE"
stage_value StageName.admission = codes "ADMISSION"
stage_value StageName.placement = codes "PLACEMENT"
stage_value StageName.preparing = codes "PREPARING"
stage_value StageName.generating = codes "GENERATING"
stage_value StageName.collecting = codes "COLLECTING"
stage_value StageName.verifying = codes "VERIFYING"
stage_value StageName.publishing = codes "PUBLISHING"
stage_value StageName.done = codes "DONE"
stage_value StageName.failed = codes "FAILED"

abbrev pub code_value : ErrorCode → Str
code_value ErrorCode.invalid_request = codes "INVALID_REQUEST"
code_value ErrorCode.unauthenticated = codes "UNAUTHENTICATED"
code_value ErrorCode.job_not_found = codes "JOB_NOT_FOUND"
code_value ErrorCode.artifact_not_found = codes "ARTIFACT_NOT_FOUND"
code_value ErrorCode.idempotency_conflict = codes "IDEMPOTENCY_CONFLICT"
code_value ErrorCode.artifact_not_ready = codes "ARTIFACT_NOT_READY"
code_value ErrorCode.too_many_active_jobs = codes "TOO_MANY_ACTIVE_JOBS"
code_value ErrorCode.generation_failed = codes "GENERATION_FAILED"
code_value ErrorCode.job_timed_out = codes "JOB_TIMED_OUT"

module _ {A : Type 0} (value : A → Str) where
  -- The member with a value, or the `ValueError` of a value that no member has.
  unfoldable pub member_of : List A → Str → Result A
  member_of [] text = err Error.value_error
  member_of (a ∷ members) text =
      let rest = member_of members text in if str_eq (value a) text then ok a else rest

abbrev pub statuses : List JobStatus
statuses =
    JobStatus.queued ∷ JobStatus.running ∷ JobStatus.succeeded ∷ JobStatus.failed
    ∷ JobStatus.cancelled ∷ []

abbrev pub stages : List StageName
stages =
    StageName.intake ∷ StageName.admission ∷ StageName.placement ∷ StageName.preparing
    ∷ StageName.generating ∷ StageName.collecting ∷ StageName.verifying ∷ StageName.publishing
    ∷ StageName.done ∷ StageName.failed ∷ []

abbrev pub error_codes : List ErrorCode
error_codes =
    ErrorCode.invalid_request ∷ ErrorCode.unauthenticated ∷ ErrorCode.job_not_found
    ∷ ErrorCode.artifact_not_found ∷ ErrorCode.idempotency_conflict ∷ ErrorCode.artifact_not_ready
    ∷ ErrorCode.too_many_active_jobs ∷ ErrorCode.generation_failed ∷ ErrorCode.job_timed_out ∷ []

abbrev pub roles : List ArtifactRole
roles =
    ArtifactRole.primary ∷ ArtifactRole.poster ∷ ArtifactRole.transcript ∷ ArtifactRole.captions
    ∷ ArtifactRole.asset ∷ ArtifactRole.source ∷ ArtifactRole.log ∷ []

abbrev pub audiences : List Audience
audiences = Audience.learner ∷ Audience.operator ∷ []

abbrev pub scan_verdicts : List ScanVerdict
scan_verdicts = ScanVerdict.clean ∷ ScanVerdict.quarantined ∷ []

abbrev pub context_kinds : List ContextKind
context_kinds =
    ContextKind.memory ∷ ContextKind.level ∷ ContextKind.prior_topic ∷ ContextKind.misconception
    ∷ ContextKind.language ∷ ContextKind.note ∷ []

abbrev pub reading_levels : List ReadingLevel
reading_levels =
    ReadingLevel.primary ∷ ReadingLevel.lower_secondary ∷ ReadingLevel.upper_secondary ∷ []

abbrev pub profiles : List ProfileId
profiles = ProfileId.video_short_v1 ∷ ProfileId.html_lesson_v1 ∷ []

pub status_of_value : (a : JobStatus) → member_of status_value statuses (status_value a) ≡ ok a
unfolding member_of str_eq
status_of_value a = ground arith

pub stage_of_value : (a : StageName) → member_of stage_value stages (stage_value a) ≡ ok a
unfolding member_of str_eq
stage_of_value a = ground arith

pub code_of_value : (a : ErrorCode) → member_of code_value error_codes (code_value a) ≡ ok a
unfolding member_of str_eq
code_of_value a = ground arith

pub role_of_value : (a : ArtifactRole) → member_of role_value roles (role_value a) ≡ ok a
unfolding member_of str_eq
role_of_value a = ground arith

pub audience_of_value :
    (a : Audience) → member_of audience_value audiences (audience_value a) ≡ ok a
unfolding member_of str_eq
audience_of_value a = ground arith

pub verdict_of_value :
    (a : ScanVerdict) → member_of verdict_value scan_verdicts (verdict_value a) ≡ ok a
unfolding member_of str_eq
verdict_of_value a = ground arith

pub kind_of_value : (a : ContextKind) → member_of kind_value context_kinds (kind_value a) ≡ ok a
unfolding member_of str_eq
kind_of_value a = ground arith

pub level_of_value :
    (a : ReadingLevel) → member_of level_value reading_levels (level_value a) ≡ ok a
unfolding member_of str_eq
level_of_value a = ground arith

pub profile_of_value : (a : ProfileId) → member_of profile_value profiles (profile_value a) ≡ ok a
unfolding member_of str_eq
profile_of_value a = ground arith
