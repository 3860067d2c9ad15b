-- ===== src/Orchestration/Runner/Frame.antt =====
-- A run leaves the queue to the worker.
use growtrics_challenge.Common.{
  ℕ, ◌+◌, ◌≡◌, refl, ◌∙◌, Bool-cases, Option, none, some, inl, inr, ◌==◌,
}
use growtrics_challenge.Common.Text.{Str}
use growtrics_challenge.Common.Dict.{Dict, lookup}
use growtrics_challenge.Domain.Enums.{StageName, ProfileId, is_terminal}
use growtrics_challenge.Domain.Ids.{Uuid, derive_trace_id, derive_session_id}
use growtrics_challenge.Domain.Records.{
  StoredRequest, BriefRecord, JobConstraints, ArtifactRecord, JobRecord, ClaimedWorkItem,
}
use growtrics_challenge.Effects.{Result, ok, err}
use growtrics_challenge.Effects.Exec.{pure, ◌>>=◌}
use growtrics_challenge.Effects.Frames.{Keeps, >>=-Keeps, lift_then-Keeps}
use growtrics_challenge.Orchestration.Policy.{percent_for}
use growtrics_challenge.Orchestration.Ports.{Steps, GenerationOutcome, HarvestOutcome}
use growtrics_challenge.Orchestration.Runner.{
  Run, Attempt, on_world, assign, enter, entering, succeed, succeeding, fail, failing, failure_of,
  require_request, seal_step, generate_step, harvest_step, from_publishing, from_collecting,
  from_generating, from_request, pipeline, handle, run_job, run_found, run,
}
use growtrics_challenge.Storage.Jobs.{load_request, move_current, apply_transition}
use growtrics_challenge.Storage.State.{World, WorkItemRow, JobTransition}

-- Steps that leave the queue alone, as `KeepsJobs` says it of the job table.
pub record KeepsItems (steps : Steps) : Type 0 where
  pub seal_items :
      (job_id : Str) (r : StoredRequest) (c : JobConstraints) (p : ProfileId) (w : World)
      → (steps.seal job_id r c p w).1.work_items ≡ w.work_items
  pub generate_items :
      (session_id trace_id : Str) (b : BriefRecord) (c : JobConstraints) (p : ProfileId) (w : World)
      → (steps.generate session_id trace_id b c p w).1.work_items ≡ w.work_items
  pub harvest_items :
      (job_id who : Str) (chat : Option Str) (p : ProfileId) (n : ℕ) (o : GenerationOutcome)
      (w : World)
      → (steps.harvest job_id who chat p n o w).1.work_items ≡ w.work_items
  pub publish_items :
      (a : ArtifactRecord) (w : World) → (steps.publish a w).1.work_items ≡ w.work_items

abbrev items_of : World → Dict WorkItemRow
items_of w = w.work_items

abbrev items_in : Run → Dict WorkItemRow
items_in r = r.world.work_items

move_current-items :
    (found : Option JobRecord) (t : JobTransition) (w : World)
    → items_of (move_current found t w).1 ≡ items_of w
unfolding move_current
move_current-items none t w = refl
move_current-items (some current) t w = elim (Bool-cases (current.version == t.expected_version)) [
  | inl fresh ↦ rw fresh refl
  | inr stale ↦ rw stale refl
]

transition-Keeps : (t : JobTransition) → Keeps items_of (apply_transition t)
unfolding apply_transition
transition-Keeps t w = move_current-items (lookup t.job_id w.jobs) t w

enter-Keeps : (stage : StageName) (brief_id : Option Str) → Keeps items_in (enter stage brief_id)
unfolding enter assign
enter-Keeps stage brief_id = lift_then-Keeps items_in (percent_for stage) _ λ percent r.
    by_end r (apply_transition (entering r.job stage brief_id percent) r.world).0
      (apply_transition (entering r.job stage brief_id percent) r.world).1
    ∙ transition-Keeps (entering r.job stage brief_id percent) r.world
  where
    by_end :
        (r : Run) (x : Result JobRecord) (w : World)
        → items_in (assign stage r (x, w)).1 ≡ items_of w
    by_end r (ok job) w = refl
    by_end r (err e) w = refl

succeed-Keeps : (artifact_id : Str) → Keeps items_in (succeed artifact_id)
unfolding succeed
succeed-Keeps artifact_id =
    lift_then-Keeps items_in (percent_for StageName.done) _
      λ percent r. transition-Keeps (succeeding r.job artifact_id percent) r.world

require_request-Keeps : (found : Option StoredRequest) → Keeps items_in (require_request found)
unfolding require_request
require_request-Keeps none r = refl
require_request-Keeps (some request) r = refl

module _ (u : Uuid) (steps : Steps) (keeps : KeepsItems steps) where
  from_publishing-Keeps : (h : HarvestOutcome) → Keeps items_in (from_publishing u steps h)
  unfolding from_publishing
  from_publishing-Keeps h =
      >>=-Keeps items_in (enter StageName.publishing none)
        (λ _. on_world (steps.publish h.primary) >>= λ a. succeed a.artifact_id)
        (enter-Keeps StageName.publishing none)
        λ _.
          >>=-Keeps items_in (on_world (steps.publish h.primary)) (λ a. succeed a.artifact_id)
            (λ r. keeps.publish_items h.primary r.world) λ a. succeed-Keeps a.artifact_id

  from_collecting-Keeps :
      (outcome : GenerationOutcome) → Keeps items_in (from_collecting u steps outcome)
  unfolding from_collecting
  from_collecting-Keeps outcome =
      >>=-Keeps items_in (enter StageName.collecting none)
        (λ _. harvest_step u steps outcome >>= from_publishing u steps)
        (enter-Keeps StageName.collecting none)
        λ _.
          >>=-Keeps items_in (harvest_step u steps outcome) (from_publishing u steps)
            (λ r. keeps.harvest_items _ _ _ _ _ outcome r.world) from_publishing-Keeps

  from_generating-Keeps :
      (session_id trace_id : Str) (brief : BriefRecord)
      → Keeps items_in (from_generating u steps session_id trace_id brief)
  unfolding from_generating
  from_generating-Keeps session_id trace_id brief =
      >>=-Keeps items_in (enter StageName.generating (some brief.brief_id))
        (λ _. generate_step u steps session_id trace_id brief >>= from_collecting u steps)
        (enter-Keeps StageName.generating (some brief.brief_id))
        λ _.
          >>=-Keeps items_in (generate_step u steps session_id trace_id brief)
            (from_collecting u steps)
            (λ r. keeps.generate_items session_id trace_id brief _ _ r.world) from_collecting-Keeps

  from_request-Keeps :
      (session_id trace_id : Str) (found : Option StoredRequest)
      → Keeps items_in (from_request u steps session_id trace_id found)
  unfolding from_request
  from_request-Keeps session_id trace_id found =
      >>=-Keeps items_in (require_request found)
        (λ request. seal_step u steps request >>= from_generating u steps session_id trace_id)
        (require_request-Keeps found)
        λ request.
          >>=-Keeps items_in (seal_step u steps request)
            (from_generating u steps session_id trace_id)
            (λ r. keeps.seal_items _ request _ _ r.world)
            (from_generating-Keeps session_id trace_id)

  pipeline-Keeps :
      (session_id trace_id : Str) → Keeps items_in (pipeline u steps session_id trace_id)
  unfolding pipeline
  pipeline-Keeps session_id trace_id =
      let read : Attempt (Option StoredRequest) =
        λ s. on_world (load_request s.job.request_key) s in
      >>=-Keeps items_in (enter StageName.preparing none)
        (λ _. read >>= from_request u steps session_id trace_id)
        (enter-Keeps StageName.preparing none)
        λ _.
          >>=-Keeps items_in read (from_request u steps session_id trace_id) (λ r. refl)
            (from_request-Keeps session_id trace_id)

  handle-items :
      (trace_id : Str) (x : Result JobRecord) (r : Run)
      → items_of (handle u steps trace_id (x, r)).1 ≡ items_in r
  unfolding handle fail
  handle-items trace_id (ok job) r = refl
  handle-items trace_id (err e) r =
      transition-Keeps (failing r.job (failure_of e r.stage trace_id (r.world.time r.world.reads)))
        (record r.world { reads = r.world.reads + 1 })

  run_job-Keeps : (job : JobRecord) → Keeps items_of (run_job u steps job)
  unfolding run_job
  run_job-Keeps job =
      lift_then-Keeps items_of (derive_trace_id u job.job_id job.attempt) _ λ trace_id.
        lift_then-Keeps items_of (derive_session_id u job.job_id job.attempt) _ λ session_id w.
          let start : Run = record { job = job; stage = StageName.preparing; world = w } in
          handle-items trace_id (pipeline u steps session_id trace_id start).0
            (pipeline u steps session_id trace_id start).1
          ∙ pipeline-Keeps session_id trace_id start

  run_found-Keeps : (found : Option JobRecord) → Keeps items_of (run_found u steps found)
  unfolding run_found
  run_found-Keeps none w = refl
  run_found-Keeps (some job) w = elim (Bool-cases (is_terminal job.status)) [
    | inl over ↦ rw over refl
    | inr live ↦ rw live (
        >>=-Keeps items_of (run_job u steps job) (λ done. pure (some done)) (run_job-Keeps job)
          (λ done t. refl) w)
  ]

  -- However it ends, a run leaves the rows of the queue.
  pub run-Keeps :
      (item : ClaimedWorkItem) (w : World) → (run u steps item w).1.work_items ≡ w.work_items
  unfolding run
  run-Keeps item w = run_found-Keeps (lookup item.job_id w.jobs) w
