-- ===== src/Pipeline/Runs.antt =====
-- The statements of a run with its own steps, from the last one to the first.
pub mod Whole
use growtrics_challenge.Common.{
  ℕ, ◌≡◌, refl, sym, ap, ◌∙◌, subst, Option, none, some, List, length, true, false,
}
use growtrics_challenge.Common.Text.{Str}
use growtrics_challenge.Common.Dict.{lookup}
use growtrics_challenge.Domain.Enums.{JobStatus, StageName, is_terminal}
use growtrics_challenge.Domain.Errors.{Error}
use growtrics_challenge.Domain.Ids.{Uuid}
use growtrics_challenge.Domain.Ids.Shapes.{derived_shapes}
use growtrics_challenge.Domain.Records.{
  StoredRequest, BriefRecord, JobRecord, ClaimedWorkItem, ArtifactRecord,
}
use growtrics_challenge.Effects.{Result, ok, err}
use growtrics_challenge.Effects.Exec.{continue, pure, ◌>>=◌}
use growtrics_challenge.Effects.Triples.{Post, Ends, >>=-Ends}
use growtrics_challenge.Generation.Service.{generate}
use growtrics_challenge.Intake.Service.{seal}
use growtrics_challenge.Custody.Store.{Owner}
use growtrics_challenge.Custody.Store.Backed.{Backed, Kept}
use growtrics_challenge.Custody.Service.{harvest, publish, unpublishable}
use growtrics_challenge.Custody.Service.Delivered.{IsDelivered, Leaves}
use growtrics_challenge.Custody.Service.Harvests.{harvest-Ends}
use growtrics_challenge.Orchestration.Ports.{Steps, GenerationOutcome, HarvestOutcome}
use growtrics_challenge.Orchestration.Runner.{
  Run, Attempt, on_world, enter, succeed, require_request, seal_step, generate_step, harvest_step,
  from_publishing, from_collecting, from_generating, from_request, pipeline, handle, run_job,
  run_found, run,
}
use growtrics_challenge.Orchestration.Runner.Stages.{InHand, IsRunning, IsFailed, fail-IsFailed}
use growtrics_challenge.Pipeline.{
  renderer_of, Adapters, steps_of, seal-jobs, seal-stored, generate-Keeps, generate-objects,
}
use growtrics_challenge.Pipeline.Deliveries.{
  Going, Goes, enter-Goes, world-Goes, BackedBy, IsServable, Carries, IsDone, succeed-IsDone,
}
use growtrics_challenge.Storage.Jobs.{load_request}
use growtrics_challenge.Storage.State.{World, Action}

module _ (u : Uuid) (a : Adapters) (id : Str) (named : length id ≡ 30) where
  -- A run that completes: it returns a job that is done, or it raises while the job is running.
  abbrev Completes : Attempt JobRecord → Run → Type 0
  Completes m r =
      Ends (λ job s. IsDone a.outside a.bucket id job s.world) (λ _ s. IsRunning id s) m r

  abbrev IsBackedRun : Run → Type 0
  IsBackedRun r = Going id (BackedBy a.outside a.bucket id) r

  publish-servable :
      (p : ArtifactRecord) (w : World)
      → IsServable a.outside a.bucket id p
      → publish p w ≡ (ok p, w)
  unfolding publish unpublishable
  publish-servable p w s = let (at, e) = s.published in rw e refl

  from_publishing-IsDone :
      (h : HarvestOutcome) (r : Run)
      → Going id (Carries a.outside a.bucket id h.primary) r
      → Completes (from_publishing u (steps_of u a) h) r
  unfolding from_publishing steps_of
  from_publishing-IsDone h r g =
      >>=-Ends (λ _ s. Going id (Carries a.outside a.bucket id h.primary) s)
        (λ job s. IsDone a.outside a.bucket id job s.world) (λ _ s. IsRunning id s)
        (enter StageName.publishing none)
        (λ _. on_world (publish h.primary) >>= λ x. succeed x.artifact_id) r
        (enter-Goes id (Carries a.outside a.bucket id h.primary) StageName.publishing none 95 r refl
          g.0.in_hand g.1)
        λ _ s i.
          subst
            (λ (x : Result ArtifactRecord × World).
              Post (λ job t. IsDone a.outside a.bucket id job t.world) (λ _ t. IsRunning id t)
                (continue x.0 (λ (p : ArtifactRecord). succeed p.artifact_id)
                  (record s { world = x.1 })).0
                (continue x.0 (λ (p : ArtifactRecord). succeed p.artifact_id)
                  (record s { world = x.1 })).1)
            (sym (publish-servable h.primary s.world i.1.1))
            (succeed-IsDone a.outside a.bucket id h.primary s i)

  still_running :
      (r : Run) (w : World)
      → w.jobs ≡ r.world.jobs
      → IsRunning id r
      → IsRunning id (record r { world = w })
  still_running r w e h = record {
    in_hand = record {
      same_id = h.in_hand.same_id;
      row = ap (λ d. lookup r.job.job_id d) e ∙ h.in_hand.row;
    };
    percent = h.percent;
    status = h.status;
  }

  module _ (r : Run) (g : IsBackedRun r) where
    abbrev owner : Owner
    owner = record {
      job_id = r.job.job_id;
      principal_id = r.job.principal_id;
      chat_context_id = r.job.chat_context_id;
    }

    owner_named : length owner.job_id ≡ 30
    owner_named = ap length g.0.in_hand.same_id ∙ named

    carried :
        (x : Result HarvestOutcome) (w : World)
        → Post
            (Leaves a.outside a.bucket u owner owner_named r.job.constraints.max_duration_s r.world)
            (λ _ t. Kept a.outside a.bucket r.world t)
            x
            w
        → Post
            (λ h s. Going id (Carries a.outside a.bucket id h.primary) s)
            (λ _ s. IsRunning id s)
            x
            (record r { world = w })
    carried (err e) w k = still_running r w k.jobs g.0
    carried (ok h) w k = (
      still_running r w k.0.jobs g.0,
      (
        k.0.backed,
        record {
          role = k.1.role;
          audience = k.1.audience;
          verdict = k.1.verdict;
          job = k.1.job ∙ g.0.in_hand.same_id;
          published = k.1.published;
          bytes = k.1.bytes;
        },
        k.1.row,
      ),
    )

    harvest-Carries :
        (outcome : GenerationOutcome)
        → Ends
            (λ h s. Going id (Carries a.outside a.bucket id h.primary) s)
            (λ _ s. IsRunning id s)
            (harvest_step u (steps_of u a) outcome)
            r
    unfolding steps_of
    harvest-Carries outcome = carried _ _ (
        harvest-Ends a.outside a.bucket u owner owner_named r.job.constraints.max_duration_s
          r.job.profile outcome r.world g.1)

  -- The next statement of the `try` body.
  next :
      {A : Type 0} (m : Attempt A) (f : A → Attempt JobRecord) (r : Run)
      → Goes id (BackedBy a.outside a.bucket id) m r
      → ((x : A) (s : Run) → IsBackedRun s → Completes (f x) s)
      → Completes (m >>= f) r
  next m f r h k =
      >>=-Ends (λ _ s. IsBackedRun s) (λ job s. IsDone a.outside a.bucket id job s.world)
        (λ _ s. IsRunning id s) m f r h k

  from_collecting-IsDone :
      (outcome : GenerationOutcome) (r : Run)
      → IsBackedRun r
      → Completes (from_collecting u (steps_of u a) outcome) r
  unfolding from_collecting
  from_collecting-IsDone outcome r g =
      next (enter StageName.collecting none)
        (λ _. harvest_step u (steps_of u a) outcome >>= from_publishing u (steps_of u a)) r
        (enter-Goes id (BackedBy a.outside a.bucket id) StageName.collecting none 80 r refl
          g.0.in_hand g.1)
        λ _ s i.
          >>=-Ends (λ h t. Going id (Carries a.outside a.bucket id h.primary) t)
            (λ job t. IsDone a.outside a.bucket id job t.world) (λ _ t. IsRunning id t)
            (harvest_step u (steps_of u a) outcome) (from_publishing u (steps_of u a)) s
            (harvest-Carries s i outcome) from_publishing-IsDone

  generate-Goes :
      (session_id trace_id : Str) (brief : BriefRecord) (r : Run)
      → IsBackedRun r
      → Goes id
          (BackedBy a.outside a.bucket id)
          (generate_step u (steps_of u a) session_id trace_id brief)
          r
  unfolding steps_of
  generate-Goes session_id trace_id brief r g =
      let database =
        generate-Keeps u a session_id trace_id brief r.job.constraints r.job.profile r.world in
      let objects =
        generate-objects u a session_id trace_id brief r.job.constraints r.job.profile r.world in
      world-Goes id (BackedBy a.outside a.bucket id)
        (generate (renderer_of a) a.backend session_id trace_id brief r.job.constraints
          r.job.profile)
        r g (ap (λ d. d.jobs) database) (cc (database, objects))

  seal-Goes :
      (request : StoredRequest) (r : Run)
      → IsBackedRun r
      → Goes id (BackedBy a.outside a.bucket id) (seal_step u (steps_of u a) request) r
  unfolding steps_of
  seal-Goes request r g =
      world-Goes id (BackedBy a.outside a.bucket id)
        (seal u a.hashing a.unicode a.validation a.guard a.version r.job.job_id request
          r.job.constraints r.job.profile)
        r g (seal-jobs u a r.job.job_id request r.job.constraints r.job.profile r.world)
        (seal-stored u a r.job.job_id request r.job.constraints r.job.profile r.world)

  from_generating-IsDone :
      (session_id trace_id : Str) (brief : BriefRecord) (r : Run)
      → IsBackedRun r
      → Completes (from_generating u (steps_of u a) session_id trace_id brief) r
  unfolding from_generating
  from_generating-IsDone session_id trace_id brief r g =
      let call = generate_step u (steps_of u a) session_id trace_id brief in
      next (enter StageName.generating (some brief.brief_id))
        (λ _. call >>= from_collecting u (steps_of u a)) r
        (enter-Goes id (BackedBy a.outside a.bucket id) StageName.generating (some brief.brief_id)
          60 r refl g.0.in_hand g.1)
        λ _ s i.
          next call (from_collecting u (steps_of u a)) s
            (generate-Goes session_id trace_id brief s i) from_collecting-IsDone

  require_request-Goes :
      (found : Option StoredRequest) (r : Run)
      → IsBackedRun r
      → Goes id (BackedBy a.outside a.bucket id) (require_request found) r
  unfolding require_request
  require_request-Goes none r g = g.0
  require_request-Goes (some request) r g = g

  from_request-IsDone :
      (session_id trace_id : Str) (found : Option StoredRequest) (r : Run)
      → IsBackedRun r
      → Completes (from_request u (steps_of u a) session_id trace_id found) r
  unfolding from_request
  from_request-IsDone session_id trace_id found r g =
      let rest = from_generating u (steps_of u a) session_id trace_id in
      next (require_request found) (λ request. seal_step u (steps_of u a) request >>= rest) r
        (require_request-Goes found r g)
        λ request s i.
          next (seal_step u (steps_of u a) request) rest s (seal-Goes request s i)
            (from_generating-IsDone session_id trace_id)

  pub pipeline-IsDone :
      (session_id trace_id : Str) (r : Run)
      → InHand id r
      → Backed a.outside a.bucket r.world
      → Completes (pipeline u (steps_of u a) session_id trace_id) r
  unfolding pipeline
  pipeline-IsDone session_id trace_id r hand b =
      let read : Attempt (Option StoredRequest) =
        λ s. on_world (load_request s.job.request_key) s in
      let rest = from_request u (steps_of u a) session_id trace_id in
      next (enter StageName.preparing none) (λ _. read >>= rest) r
        (enter-Goes id (BackedBy a.outside a.bucket id) StageName.preparing none 25 r refl hand b)
        λ _ s i. next read rest s i (from_request-IsDone session_id trace_id)

  -- What the run's handler makes of it: a job that did not fail is done.
  pub handle-IsDone :
      (trace_id : Str) (x : Result JobRecord) (r : Run) (job : JobRecord)
      → Post (λ j t. IsDone a.outside a.bucket id j t.world) (λ _ t. IsRunning id t) x r
      → (handle u (steps_of u a) trace_id (x, r)).0 ≡ ok job
      → job.status ≡ JobStatus.succeeded
      → IsDone a.outside a.bucket id job (handle u (steps_of u a) trace_id (x, r)).1
  unfolding handle
  handle-IsDone trace_id (ok j) r job h e s =
      let q : ◌≡◌ {A = Result JobRecord} (ok j) (ok job) = e in
      let same : j ≡ job = cc q in subst (λ y. IsDone a.outside a.bucket id y r.world) same h
  handle-IsDone trace_id (err x) r job h e s =
      let (j, returns, failed) = fail-IsFailed id r trace_id x h in
      let q : ◌≡◌ {A = Result JobRecord} (ok j) (ok job) = sym returns ∙ e in
      let same : j ≡ job = cc q in
      let clash : JobStatus.failed ≡ JobStatus.succeeded =
        sym failed.status ∙ ap (λ (y : JobRecord). y.status) same ∙ s in
      absurd (cc clash)
