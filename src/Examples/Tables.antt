-- ===== src/Examples/Tables.antt =====
-- The job table: transitions, submissions and pages.
use growtrics_challenge.Common.{ℕ, ◌≡◌, refl, Option, none, some, [], ◌∷◌, arith}
use growtrics_challenge.Common.Text.{Str, str_eq}
use growtrics_challenge.Common.Order.{key_order, flip}
use growtrics_challenge.Common.Sort.{sort_by, DistinctKeys}
use growtrics_challenge.Common.Dict.{lookup}
use growtrics_challenge.Domain.Enums.{JobStatus, StageName}
use growtrics_challenge.Domain.Errors.{Error}
use growtrics_challenge.Domain.Records.{Cursor}
use growtrics_challenge.Effects.{err}
use growtrics_challenge.Storage.State.{JobTransition}
use growtrics_challenge.Storage.Jobs.{apply_transition, job_key}
use growtrics_challenge.Storage.Jobs.Transition.{apply_transition_race}
use growtrics_challenge.Storage.Listing.Walk.{read_pages, read_pages-rows}
use growtrics_challenge.Storage.Submission.{CommitPoint, commit_submission, staged, insert_row}
use growtrics_challenge.Examples.Data.{job_id, job, other_job, empty, with_job, submission}

abbrev to_stage : StageName → ℕ → JobTransition
to_stage stage percent = record {
  job_id = job_id;
  expected_version = 1;
  status = JobStatus.running;
  stage = stage;
  progress_percent = percent;
  brief_id = none;
  artifact_id = none;
  failure = none;
}

abbrev prepare : JobTransition
prepare = to_stage StageName.preparing 25

abbrev give_up : JobTransition
give_up = record (to_stage StageName.failed 10) { status = JobStatus.failed }

apply_transition_race_example :
    apply_transition give_up (apply_transition prepare (with_job job)).1
    ≡ (err Error.version_conflict, (apply_transition prepare (with_job job)).1)
unfolding lookup str_eq
apply_transition_race_example =
    apply_transition_race prepare give_up (with_job job) job refl refl refl refl refl

refused : (commit_submission (some CommitPoint.work_item) submission empty).0 ≡ err Error.other
unfolding commit_submission staged insert_row lookup
refused = refl

-- A cursor written as its two parts, and read back.
abbrev token : Cursor → Str
token c = c.created_at ∷ c.id

abbrev decode : Str → Option Cursor
decode [] = none
decode (t ∷ id) = some (record { created_at = t; id = id })

two_jobs_DistinctKeys : DistinctKeys (flip key_order) job_key (job ∷ other_job ∷ [])
two_jobs_DistinctKeys = (((λ e. cc), tt), (tt, tt))

decode-token : (c : Cursor) → decode (token c) ≡ some c
decode-token c = refl

read_pages-rows_example :
    read_pages job_key (job ∷ other_job ∷ []) 1 token decode 3 none
    ≡ sort_by (flip key_order) job_key (job ∷ other_job ∷ [])
read_pages-rows_example =
    read_pages-rows job_key (job ∷ other_job ∷ []) 1 token decode decode-token 3
      two_jobs_DistinctKeys (omega arith) (omega arith)
