-- ===== src/Examples/Runs.antt =====
-- Runs of a claimed item.
use growtrics_challenge.Common.{◌<◌, ◌≡◌, refl, true, Option, none, some, ◌⊎◌, arith}
use growtrics_challenge.Common.Text.{str_eq}
use growtrics_challenge.Common.Dict.{lookup}
use growtrics_challenge.Domain.Enums.{StageName, is_terminal}
use growtrics_challenge.Domain.Records.{JobRecord}
use growtrics_challenge.Effects.{ok}
use growtrics_challenge.Orchestration.Runner.{Run, run, enter}
use growtrics_challenge.Orchestration.Runner.Stages.{IsSucceeded, IsFailed}
use growtrics_challenge.Orchestration.Runner.Finish.{run_finishes}
use growtrics_challenge.Orchestration.Runner.Redelivery.{run_again, redelivery_lowers_percent}
use growtrics_challenge.Examples.Data.{
  fixed_uuid, job_id, job, abandoned, finished, item, with_job, steps, steps_keep,
}

run_finishes_example :
    (done : JobRecord) × ((run fixed_uuid steps item (with_job job)).0 ≡ ok (some done))
    × (IsSucceeded job_id done (run fixed_uuid steps item (with_job job)).1
        ⊎ IsFailed job_id done (run fixed_uuid steps item (with_job job)).1)
unfolding lookup str_eq
run_finishes_example =
    run_finishes fixed_uuid steps steps_keep job_id item job (with_job job) refl refl refl refl

run_again_example :
    (done : JobRecord) × (is_terminal done.status ≡ true)
    × ((run fixed_uuid steps item (with_job abandoned)).0 ≡ ok (some done))
    × (run fixed_uuid steps item (run fixed_uuid steps item (with_job abandoned)).1
        ≡ (ok (some done), (run fixed_uuid steps item (with_job abandoned)).1))
unfolding lookup str_eq
run_again_example =
    run_again fixed_uuid steps steps_keep item abandoned (with_job abandoned) refl refl refl

found_finished :
    (j : JobRecord)
    → lookup item.job_id (with_job finished).jobs ≡ some j
    → is_terminal j.status ≡ true
unfolding lookup str_eq
found_finished j e =
    let q : ◌≡◌ {A = Option JobRecord} (some finished) (some j) = e in
    let same : finished ≡ j = cc q in rw (← same) refl

abbrev redelivered : Run
redelivered = record { job = abandoned; stage = StageName.preparing; world = with_job abandoned }

redelivery_lowers_percent_example :
    (j : JobRecord) × (lookup job_id (enter StageName.preparing none redelivered).1.world.jobs
      ≡ some j)
    × (j.stage ≡ StageName.preparing)
    × (j.progress_percent < 80)
unfolding lookup str_eq
redelivery_lowers_percent_example = redelivery_lowers_percent redelivered refl (omega arith)
