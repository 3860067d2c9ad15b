-- ===== src/Orchestration/Runner/Finish.antt =====
-- How `JobRunner.run` ends, from the last statement of its `try` body to the whole.
use growtrics_challenge.Common.{◌≡◌, refl, ap, ◌∙◌, true, false, Option, none, some, inl, inr, ◌⊎◌}
use growtrics_challenge.Common.Text.{Str}
use growtrics_challenge.Common.Dict.{lookup}
use growtrics_challenge.Domain.Enums.{StageName, is_terminal}
use growtrics_challenge.Domain.Ids.{Uuid}
use growtrics_challenge.Domain.Ids.Shapes.{derived_shapes}
use growtrics_challenge.Domain.Records.{StoredRequest, BriefRecord, JobRecord, ClaimedWorkItem}
use growtrics_challenge.Effects.{Result, ok, err}
use growtrics_challenge.Effects.Exec.{continue, pure, ◌>>=◌}
use growtrics_challenge.Effects.Triples.{Post, Ends, >>=-Ends}
use growtrics_challenge.Storage.State.{World}
use growtrics_challenge.Storage.Jobs.{load_request}
use growtrics_challenge.Orchestration.Ports.{Steps, KeepsJobs, GenerationOutcome, HarvestOutcome}
use growtrics_challenge.Orchestration.Runner.{
  Run, Attempt, on_world, enter, succeed, require_request, seal_step, generate_step, harvest_step,
  from_publishing, from_collecting, from_generating, from_request, pipeline, handle, run_job,
  run_found, run,
}
use growtrics_challenge.Orchestration.Runner.Stages.{
  InHand, IsRunning, IsSucceeded, IsFailed, enter-Ends, step-Ends, succeed-Ends, fail-IsFailed,
}

module _ (u : Uuid) (steps : Steps) (keeps : KeepsJobs steps) (id : Str) where
  -- The next statement of the `try` body, when this one leaves the job running.
  then :
      {A : Type 0} (m : Attempt A) (f : A → Attempt JobRecord) (r : Run)
      → Ends (λ _ s. IsRunning id s) (λ _ s. IsRunning id s) m r
      → ((a : A) (s : Run)
          → IsRunning id s
          → Ends (λ job t. IsSucceeded id job t.world) (λ _ t. IsRunning id t) (f a) s)
      → Ends (λ job t. IsSucceeded id job t.world) (λ _ t. IsRunning id t) (m >>= f) r
  then m f r h k =
      >>=-Ends (λ _ s. IsRunning id s) (λ job t. IsSucceeded id job t.world) (λ _ t. IsRunning id t)
        m f r h k

  require_request-Ends :
      (found : Option StoredRequest) (r : Run)
      → IsRunning id r
      → Ends (λ _ s. IsRunning id s) (λ _ s. IsRunning id s) (require_request found) r
  unfolding require_request
  require_request-Ends none r h = h
  require_request-Ends (some request) r h = h

  -- Running before, and after each return or raise until the job succeeds.
  abbrev Completes : Attempt JobRecord → Run → Type 0
  Completes = Ends (λ job t. IsSucceeded id job t.world) (λ _ t. IsRunning id t)

  from_publishing-Ends :
      (harvested : HarvestOutcome) (r : Run)
      → IsRunning id r
      → Completes (from_publishing u steps harvested) r
  unfolding from_publishing
  from_publishing-Ends harvested r h =
      then (enter StageName.publishing none)
        (λ _. on_world (steps.publish harvested.primary) >>= λ a. succeed a.artifact_id) r
        (enter-Ends id StageName.publishing none 95 r refl h.in_hand)
        λ _ s i.
          then (on_world (steps.publish harvested.primary)) (λ a. succeed a.artifact_id) s
            (step-Ends id (steps.publish harvested.primary) s
              (keeps.publish_jobs harvested.primary s.world) i)
            λ a t k. succeed-Ends id a.artifact_id t k

  from_collecting-Ends :
      (outcome : GenerationOutcome) (r : Run)
      → IsRunning id r
      → Completes (from_collecting u steps outcome) r
  unfolding from_collecting
  from_collecting-Ends outcome r h =
      then (enter StageName.collecting none)
        (λ _. harvest_step u steps outcome >>= from_publishing u steps) r
        (enter-Ends id StageName.collecting none 80 r refl h.in_hand)
        λ _ s i.
          then (harvest_step u steps outcome) (from_publishing u steps) s
            (step-Ends id
              (steps.harvest s.job.job_id s.job.principal_id s.job.chat_context_id s.job.profile
                s.job.constraints.max_duration_s outcome)
              s (keeps.harvest_jobs _ _ _ _ _ _ s.world) i)
            from_publishing-Ends

  from_generating-Ends :
      (session_id trace_id : Str) (brief : BriefRecord) (r : Run)
      → IsRunning id r
      → Completes (from_generating u steps session_id trace_id brief) r
  unfolding from_generating
  from_generating-Ends session_id trace_id brief r h =
      let call = generate_step u steps session_id trace_id brief in
      then (enter StageName.generating (some brief.brief_id))
        (λ _. call >>= from_collecting u steps) r
        (enter-Ends id StageName.generating (some brief.brief_id) 60 r refl h.in_hand)
        λ _ s i.
          then call (from_collecting u steps) s
            (step-Ends id (steps.generate session_id trace_id brief s.job.constraints s.job.profile)
              s (keeps.generate_jobs _ _ _ _ _ s.world) i)
            from_collecting-Ends

  from_request-Ends :
      (session_id trace_id : Str) (found : Option StoredRequest) (r : Run)
      → IsRunning id r
      → Completes (from_request u steps session_id trace_id found) r
  unfolding from_request
  from_request-Ends session_id trace_id found r h =
      let rest = from_generating u steps session_id trace_id in
      then (require_request found) (λ request. seal_step u steps request >>= rest) r
        (require_request-Ends found r h)
        λ request s i.
          then (seal_step u steps request) rest s
            (step-Ends id (steps.seal s.job.job_id request s.job.constraints s.job.profile) s
              (keeps.seal_jobs _ _ _ _ s.world) i)
            (from_generating-Ends session_id trace_id)

  pipeline-Ends :
      (session_id trace_id : Str) (r : Run)
      → InHand id r
      → Completes (pipeline u steps session_id trace_id) r
  unfolding pipeline
  pipeline-Ends session_id trace_id r hand =
      let read : Attempt (Option StoredRequest) =
        λ s. on_world (load_request s.job.request_key) s in
      let rest = from_request u steps session_id trace_id in
      then (enter StageName.preparing none) (λ _. read >>= rest) r
        (enter-Ends id StageName.preparing none 25 r refl hand)
        λ _ s i. then read rest s i (from_request-Ends session_id trace_id)

  -- The row of a finished job.
  abbrev Finished : JobRecord → World → Type 0
  Finished job w = IsSucceeded id job w ⊎ IsFailed id job w

  handle-Finished :
      (trace_id : Str) (x : Result JobRecord) (r : Run)
      → Post (λ job t. IsSucceeded id job t.world) (λ _ t. IsRunning id t) x r
      → (job : JobRecord) × ((handle u steps trace_id (x, r)).0 ≡ ok job)
        × Finished job (handle u steps trace_id (x, r)).1
  unfolding handle
  handle-Finished trace_id (ok job) r h = (job, refl, inl h)
  handle-Finished trace_id (err e) r h =
      let (job, done, failed) = fail-IsFailed id r trace_id e h in (job, done, inr failed)

  run_job-Finished :
      (job : JobRecord) (w : World)
      → job.job_id ≡ id
      → lookup id w.jobs ≡ some job
      → (done : JobRecord) × ((run_job u steps job w).0 ≡ ok done)
        × Finished done (run_job u steps job w).1
  unfolding run_job
  run_job-Finished job w same row =
      let (_, _, _, _, (trace_id, traced, _), (session_id, opened, _)) =
        derived_shapes u job.request_key job.job_id job.job_id job.attempt in
      let start : Run = record { job = job; stage = StageName.preparing; world = w } in
      let hand : InHand id start = record {
        same_id = same;
        row = ap (λ k. lookup k w.jobs) same ∙ row;
      } in
      rw (traced, opened)
        (handle-Finished trace_id _ _ (pipeline-Ends session_id trace_id start hand))

  -- What `run` makes of a finished job.
  wrap-Finished :
      (x : Result JobRecord) (w : World) (done : JobRecord)
      → x ≡ ok done
      → Finished done w
      → ((continue x (λ d. pure (some d)) w).0 ≡ ok (some done))
        × Finished done (continue x (λ d. pure (some d)) w).1
  wrap-Finished (ok d) w done e h = (ap (λ d. ok (some d)) (ok_injective e), h)
    where
      ok_injective : {a b : JobRecord} → ok a ≡ ok b → a ≡ b
      ok_injective e = cc
  wrap-Finished (err x) w done e h = cc

  -- A claimed item whose job is in the job table under its own id and not yet terminal: `run`
  -- returns, with no exception, a job in a terminal status, and the table holds that row; it
  -- succeeded at 100 percent with an artifact, or it failed with a failure record and kept the
  -- percent of the stage that failed. The steps are any that leave the job table alone.
  pub run_finishes :
      (item : ClaimedWorkItem) (job : JobRecord) (w : World)
      → item.job_id ≡ id
      → job.job_id ≡ id
      → lookup id w.jobs ≡ some job
      → is_terminal job.status ≡ false
      → (done : JobRecord) × ((run u steps item w).0 ≡ ok (some done))
        × (IsSucceeded id done (run u steps item w).1 ⊎ IsFailed id done (run u steps item w).1)
  unfolding run run_found
  run_finishes item job w named same row live =
      let (done, result, finished) = run_job-Finished job w same row in
      let found : lookup item.job_id w.jobs ≡ some job = ap (λ k. lookup k w.jobs) named ∙ row in
      let (result', finished') = wrap-Finished (run_job u steps job w).0 _ done result finished in
      rw found (rw live (done, result', finished'))

  pub Finished-status :
      (job : JobRecord) (w : World)
      → Finished job w
      → (lookup id w.jobs ≡ some job) × (is_terminal job.status ≡ true)
  Finished-status job w (inl h) = (h.row, ap is_terminal h.status)
  Finished-status job w (inr h) = (h.row, ap is_terminal h.status)
