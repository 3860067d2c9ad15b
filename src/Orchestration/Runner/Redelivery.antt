-- ===== src/Orchestration/Runner/Redelivery.antt =====
-- At-least-once delivery: an item whose job was run before.
use growtrics_challenge.Common.{
  ℕ, ◌<◌, ◌≡◌, refl, sym, ap, ◌∙◌, true, false, Option, none, some, arith,
}
use growtrics_challenge.Common.Dict.{lookup}
use growtrics_challenge.Domain.Enums.{StageName, is_terminal}
use growtrics_challenge.Domain.Ids.{Uuid}
use growtrics_challenge.Domain.Records.{JobRecord, ClaimedWorkItem}
use growtrics_challenge.Effects.{ok}
use growtrics_challenge.Storage.State.{World}
use growtrics_challenge.Storage.Jobs.{moved}
use growtrics_challenge.Orchestration.Policy.{percent_for}
use growtrics_challenge.Orchestration.Ports.{Steps, KeepsJobs}
use growtrics_challenge.Orchestration.Runner.{Run, assign, enter, entering, run_found, run}
use growtrics_challenge.Orchestration.Runner.Stages.{InHand, move-InHand}
use growtrics_challenge.Orchestration.Runner.Finish.{run_finishes, Finished-status}

-- An item whose job is missing or already terminal: `run` returns what the table holds for it,
-- nothing or that row, and leaves the world as it was.
pub run_leaves_terminal :
    (u : Uuid) (steps : Steps) (item : ClaimedWorkItem) (w : World)
    → ((job : JobRecord) → lookup item.job_id w.jobs ≡ some job → is_terminal job.status ≡ true)
    → run u steps item w ≡ (ok (lookup item.job_id w.jobs), w)
unfolding run run_found
run_leaves_terminal u steps item w h = by_row (lookup item.job_id w.jobs) refl
  where
    by_row :
        (found : Option JobRecord)
        → lookup item.job_id w.jobs ≡ found
        → run_found u steps found w ≡ (ok found, w)
    by_row none e = refl
    by_row (some job) e = rw (h job e) refl

module _ (u : Uuid) (steps : Steps) (keeps : KeepsJobs steps) where
  -- The same item delivered again after a run of its unfinished job: the second run returns the
  -- terminal job that the first one returned, and changes nothing.
  pub run_again :
      (item : ClaimedWorkItem) (job : JobRecord) (w : World)
      → item.job_id ≡ job.job_id
      → lookup job.job_id w.jobs ≡ some job
      → is_terminal job.status ≡ false
      → (done : JobRecord) × (is_terminal done.status ≡ true)
        × ((run u steps item w).0 ≡ ok (some done))
        × (run u steps item (run u steps item w).1 ≡ (ok (some done), (run u steps item w).1))
  run_again item job w named row live =
      let (done, result, finished) =
        run_finishes u steps keeps job.job_id item job w named refl row live in
      let after_run = (run u steps item w).1 in
      let (row', status) = Finished-status u steps keeps job.job_id done after_run finished in
      let there : lookup item.job_id after_run.jobs ≡ some done =
        ap (λ k. lookup k after_run.jobs) named ∙ row' in
      let again = run_leaves_terminal u steps item after_run λ other e.
        let q : ◌≡◌ {A = Option JobRecord} (some done) (some other) = sym there ∙ e in
        let same : done ≡ other = cc q in ap (λ j. is_terminal j.status) (sym same) ∙ status in
      (done, status, result, again ∙ ap (λ x. (ok x, after_run)) there)

-- A job in hand that another worker left running past 25 percent, when its item is handed out
-- again: the first statement of the run moves its row back to the first stage and lowers the
-- percent.
pub redelivery_lowers_percent :
    (r : Run)
    → lookup r.job.job_id r.world.jobs ≡ some r.job
    → 25 < r.job.progress_percent
    → (job : JobRecord) × (lookup r.job.job_id (enter StageName.preparing none r).1.world.jobs
        ≡ some job)
      × (job.stage ≡ StageName.preparing)
      × (job.progress_percent < r.job.progress_percent)
unfolding enter assign percent_for moved
redelivery_lowers_percent r row far =
    let id = r.job.job_id in
    let hand : InHand id r = record { same_id = refl; row = row } in
    let (job, w, done, image, hand') =
      move-InHand id r (entering r.job StageName.preparing none 25) StageName.preparing hand refl
        refl in
    (
      job,
      rw done (ap (λ k. lookup k w.jobs) (sym hand'.same_id) ∙ hand'.row),
      ap (λ j. j.stage) image,
      below job.progress_percent (ap (λ j. j.progress_percent) image),
    )
  where
    below : (p : ℕ) → p ≡ 25 → p < r.job.progress_percent
    below p e = omega arith
