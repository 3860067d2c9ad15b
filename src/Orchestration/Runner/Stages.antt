-- ===== src/Orchestration/Runner/Stages.antt =====
-- What holds of the job in hand before and after each statement of a run that touches its row.
use growtrics_challenge.Common.{ℕ, ◌+◌, ◌≡◌, refl, sym, ap, ◌∙◌, Option, some}
use growtrics_challenge.Common.Text.{Str}
use growtrics_challenge.Common.Dict.{lookup, lookup-put_self}
use growtrics_challenge.Domain.Enums.{JobStatus, StageName, stage_percent}
use growtrics_challenge.Domain.Errors.{Error}
use growtrics_challenge.Domain.Records.{FailureRecord, JobRecord}
use growtrics_challenge.Effects.{Result, ok, err}
use growtrics_challenge.Effects.Triples.{Post, Ends}
use growtrics_challenge.Storage.State.{World, Action, JobTransition}
use growtrics_challenge.Storage.Jobs.{moved, apply_transition}
use growtrics_challenge.Storage.Jobs.Transition.{apply_transition-ok, after}
use growtrics_challenge.Orchestration.Policy.{percent_for}
use growtrics_challenge.Orchestration.Runner.{
  Run, on_world, assign, enter, entering, succeed, succeeding, fail, failing, failure_of,
}

module _ (id : Str) where
  -- The job in hand is the row of the table.
  pub record InHand (r : Run) : Type 0 where
    pub same_id : r.job.job_id ≡ id
    pub row : lookup r.job.job_id r.world.jobs ≡ some r.job

  -- A step is running: the bar shows the percent of the stage.
  pub record IsRunning (r : Run) : Type 0 where
    pub in_hand : InHand r
    pub percent : stage_percent r.stage ≡ some r.job.progress_percent
    pub status : r.job.status ≡ JobStatus.running

  -- What a transition of the job in hand returns and leaves behind.
  pub move-InHand :
      (r : Run) (t : JobTransition) (stage : StageName)
      → InHand r
      → t.job_id ≡ r.job.job_id
      → t.expected_version ≡ r.job.version
      → (job : JobRecord) × (w : World) × (apply_transition t r.world ≡ (ok job, w))
        × (job ≡ moved r.job t (r.world.time r.world.reads))
        × InHand (record { job = job; stage = stage; world = w })
  move-InHand r t stage i e v =
      let job = moved r.job t (r.world.time r.world.reads) in
      let there : lookup t.job_id r.world.jobs ≡ some r.job =
        ap (λ k. lookup k r.world.jobs) e ∙ i.row in
      (
        job,
        after r.job t r.world,
        apply_transition-ok t r.world r.job there (sym v),
        refl,
        unfold moved in
            record { same_id = i.same_id; row = lookup-put_self r.job.job_id _ r.world.jobs },
      )

  pub enter-Ends :
      (stage : StageName) (brief : Option Str) (p : ℕ) (r : Run)
      → stage_percent stage ≡ some p
      → InHand r
      → Ends (λ _ s. IsRunning s) (λ _ s. IsRunning s) (enter stage brief) r
  unfolding enter assign percent_for moved
  enter-Ends stage brief p r h i =
      let (job, w, done, image, hand) =
        move-InHand r (entering r.job stage brief p) stage i refl refl in
      rw (h, percent_for)
        (rw done (record {
          in_hand = hand;
          percent = h ∙ ap (λ j. some j.progress_percent) (sym image);
          status = ap (λ j. j.status) image;
        }))

  -- A step of another component leaves the job and the stage alone.
  pub step-Ends :
      {A : Type 0} (m : Action A) (r : Run)
      → (m r.world).1.jobs ≡ r.world.jobs
      → IsRunning r
      → Ends (λ _ s. IsRunning s) (λ _ s. IsRunning s) (on_world m) r
  step-Ends {A} m r e h = by_result (m r.world).0
    where
      still : IsRunning (record r { world = (m r.world).1 })
      still = record {
        in_hand = record {
          same_id = h.in_hand.same_id;
          row = ap (lookup r.job.job_id) e ∙ h.in_hand.row;
        };
        percent = h.percent;
        status = h.status;
      }

      by_result :
          (x : Result A)
          → Post (λ _ s. IsRunning s) (λ _ s. IsRunning s) x (record r { world = (m r.world).1 })
      by_result (ok a) = still
      by_result (err x) = still

  -- The job ended in success, and its row says so.
  pub record IsSucceeded (job : JobRecord) (w : World) : Type 0 where
    pub same_id : job.job_id ≡ id
    pub row : lookup id w.jobs ≡ some job
    pub status : job.status ≡ JobStatus.succeeded
    pub stage : job.stage ≡ StageName.done
    pub percent : job.progress_percent ≡ 100
    pub artifact : (a : Str) × (job.artifact_id ≡ some a)

  -- The job failed: the row has a failure, and the bar still shows the percent of the stage that
  -- failed.
  pub record IsFailed (job : JobRecord) (w : World) : Type 0 where
    pub same_id : job.job_id ≡ id
    pub row : lookup id w.jobs ≡ some job
    pub status : job.status ≡ JobStatus.failed
    pub stage : job.stage ≡ StageName.failed
    pub failure :
        (f : FailureRecord) × (job.failure ≡ some f)
        × (stage_percent f.stage ≡ some job.progress_percent)

  pub succeed-Ends :
      (artifact_id : Str) (r : Run)
      → IsRunning r
      → Ends (λ job s. IsSucceeded job s.world) (λ _ s. IsRunning s) (succeed artifact_id) r
  unfolding succeed percent_for moved
  succeed-Ends artifact_id r h =
      let (job, w, done, image, hand) =
        move-InHand r (succeeding r.job artifact_id 100) r.stage h.in_hand refl refl in
      rw done (record {
        same_id = hand.same_id;
        row = ap (λ k. lookup k w.jobs) (sym hand.same_id) ∙ hand.row;
        status = ap (λ j. j.status) image;
        stage = ap (λ j. j.stage) image;
        percent = ap (λ j. j.progress_percent) image;
        artifact = (artifact_id, ap (λ j. j.artifact_id) image);
      })

  pub fail-IsFailed :
      (r : Run) (trace_id : Str) (e : Error)
      → IsRunning r
      → (job : JobRecord) × ((fail r trace_id e r.world).0 ≡ ok job)
        × IsFailed job (fail r trace_id e r.world).1
  unfolding fail moved
  fail-IsFailed r trace_id e h =
      let at = r.world.time r.world.reads in
      let read : World = record r.world { reads = r.world.reads + 1 } in
      let f = failure_of e r.stage trace_id at in
      let hand : InHand (record r { world = read }) = record {
        same_id = h.in_hand.same_id;
        row = h.in_hand.row;
      } in
      let (job, w, done, image, hand') =
        move-InHand (record r { world = read }) (failing r.job f) r.stage hand refl refl in
      (
        job,
        ap (λ x. x.0) done,
        rw done (record {
          same_id = hand'.same_id;
          row = ap (λ k. lookup k w.jobs) (sym hand'.same_id) ∙ hand'.row;
          status = ap (λ j. j.status) image;
          stage = ap (λ j. j.stage) image;
          failure = (
            f,
            ap (λ j. j.failure) image,
            h.percent ∙ ap (λ j. some j.progress_percent) (sym image),
          );
        }),
      )
