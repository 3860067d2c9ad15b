-- ===== src/Pipeline/Runs/Whole.antt =====
-- `JobRunner.run` over its own steps.
use growtrics_challenge.Common.{◌≡◌, refl, sym, ap, ◌∙◌, subst, Option, some, length, true, false}
use growtrics_challenge.Common.Text.{Str}
use growtrics_challenge.Common.Dict.{lookup}
use growtrics_challenge.Domain.Enums.{JobStatus, StageName, is_terminal}
use growtrics_challenge.Domain.Ids.{Uuid}
use growtrics_challenge.Domain.Ids.Shapes.{derived_shapes}
use growtrics_challenge.Domain.Records.{JobRecord, ClaimedWorkItem}
use growtrics_challenge.Effects.{Result, ok, err}
use growtrics_challenge.Effects.Exec.{continue, pure}
use growtrics_challenge.Custody.Store.Backed.{Backed}
use growtrics_challenge.Orchestration.Runner.{Run, run_job, run_found, run}
use growtrics_challenge.Orchestration.Runner.Finish.{run_finishes, Finished-status}
use growtrics_challenge.Orchestration.Runner.Stages.{InHand}
use growtrics_challenge.Pipeline.{Adapters, steps_of, steps_of-KeepsJobs}
use growtrics_challenge.Pipeline.Deliveries.{IsDone}
use growtrics_challenge.Pipeline.Runs.{pipeline-IsDone, handle-IsDone}
use growtrics_challenge.Storage.State.{World}

module _ (u : Uuid) (a : Adapters) (id : Str) (named : length id ≡ 30) where
  run_job-IsDone :
      (job done : JobRecord) (w : World)
      → job.job_id ≡ id
      → lookup id w.jobs ≡ some job
      → Backed a.outside a.bucket w
      → (run_job u (steps_of u a) job w).0 ≡ ok done
      → done.status ≡ JobStatus.succeeded
      → IsDone a.outside a.bucket id done (run_job u (steps_of u a) job w).1
  unfolding run_job
  run_job-IsDone job done w same row b =
      let (_, _, _, _, (trace_id, traced, _), (session_id, opened, _)) =
        derived_shapes u job.request_key job.job_id job.job_id job.attempt in
      let start : Run = record { job = job; stage = StageName.preparing; world = w } in
      let hand : InHand id start = record {
        same_id = same;
        row = ap (λ k. lookup k w.jobs) same ∙ row;
      } in
      rw (traced, opened)
        (handle-IsDone u a id named trace_id _ _ done
          (pipeline-IsDone u a id named session_id trace_id start hand b))

  -- What `run` makes of a job that is returned.
  unwrapped :
      (x : Result JobRecord) (t : World) (done : JobRecord)
      → (continue x (λ d. pure (some d)) t).0 ≡ ok (some done)
      → (x ≡ ok done) × ((continue x (λ d. pure (some d)) t).1 ≡ t)
  unwrapped (ok d) t done e =
      let q : ◌≡◌ {A = Result (Option JobRecord)} (ok (some d)) (ok (some done)) = e in
      let same : d ≡ done = cc q in (ap (λ j. ok j) same, refl)
  unwrapped (err x) t done e = absurd (cc e)

  ended_by_run :
      (job done : JobRecord) (w : World)
      → job.job_id ≡ id
      → lookup id w.jobs ≡ some job
      → Backed a.outside a.bucket w
      → (continue
          (run_job u (steps_of u a) job w).0
          (λ d. pure (some d))
          (run_job u (steps_of u a) job w).1).0
        ≡ ok (some done)
      → done.status ≡ JobStatus.succeeded
      → IsDone a.outside a.bucket id done
          (continue
            (run_job u (steps_of u a) job w).0
            (λ d. pure (some d))
            (run_job u (steps_of u a) job w).1).1
  ended_by_run job done w same row b e s =
      let (inner, still) =
        unwrapped (run_job u (steps_of u a) job w).0 (run_job u (steps_of u a) job w).1 done e in
      subst (IsDone a.outside a.bucket id done) (sym still)
        (run_job-IsDone job done w same row b inner s)

  -- What a run comes to.
  abbrev pub Comes : ClaimedWorkItem → World → Type 0
  Comes item w =
      (done : JobRecord) × ((run u (steps_of u a) item w).0 ≡ ok (some done))
      × (lookup id (run u (steps_of u a) item w).1.jobs ≡ some done)
      × (is_terminal done.status ≡ true)
      × (done.status ≡ JobStatus.succeeded
          → IsDone a.outside a.bucket id done (run u (steps_of u a) item w).1)

  run-IsDone :
      (item : ClaimedWorkItem) (job done : JobRecord) (w : World)
      → item.job_id ≡ id
      → job.job_id ≡ id
      → lookup id w.jobs ≡ some job
      → is_terminal job.status ≡ false
      → Backed a.outside a.bucket w
      → (run u (steps_of u a) item w).0 ≡ ok (some done)
      → done.status ≡ JobStatus.succeeded
      → IsDone a.outside a.bucket id done (run u (steps_of u a) item w).1
  unfolding run run_found
  run-IsDone item job done w claims same row live b =
      let found : lookup item.job_id w.jobs ≡ some job = ap (λ k. lookup k w.jobs) claims ∙ row in
      rw found (rw live (ended_by_run job done w same row b))

  -- A claimed item whose job is in the job table under its own id of thirty characters and not yet
  -- terminal, over artifact rows that are all backed by their objects, run with the repository's
  -- own intake, generation, custody and their libraries and worker as parameters: `run` returns,
  -- with no exception, a job in a terminal status, and the table holds that row; if it succeeded,
  -- the row names an artifact that is in the table, of the primary role, for a learner, clean, of
  -- that job and published, whose hash is that of bytes with the header of an MP4 container, and
  -- every artifact row is still backed.
  pub run_delivers :
      (item : ClaimedWorkItem) (job : JobRecord) (w : World)
      → item.job_id ≡ id
      → job.job_id ≡ id
      → lookup id w.jobs ≡ some job
      → is_terminal job.status ≡ false
      → Backed a.outside a.bucket w
      → Comes item w
  run_delivers item job w claims same row live b =
      let (done, returns, finished) =
        run_finishes u (steps_of u a) (steps_of-KeepsJobs u a) id item job w claims same row live in
      let (there, terminal) =
        Finished-status u (steps_of u a) (steps_of-KeepsJobs u a) id done
          (run u (steps_of u a) item w).1 finished in
      (done, returns, there, terminal, run-IsDone item job done w claims same row live b returns)
