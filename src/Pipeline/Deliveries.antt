-- ===== src/Pipeline/Deliveries.antt =====
-- What a run has delivered when its job succeeds.
use growtrics_challenge.Common.{ℕ, ◌≡◌, refl, sym, ap, ◌∙◌, subst, Option, some, List}
use growtrics_challenge.Common.Text.{Str}
use growtrics_challenge.Common.Dict.{Dict, lookup, Entries}
use growtrics_challenge.Domain.Enums.{StageName, ArtifactRole, Audience, ScanVerdict, stage_percent}
use growtrics_challenge.Domain.Records.{JobRecord, ArtifactRecord}
use growtrics_challenge.Effects.{Result, ok, err}
use growtrics_challenge.Effects.Triples.{Post, Ends}
use growtrics_challenge.Effects.Frames.{Keeps, lift_then-Keeps}
use growtrics_challenge.Custody.Candidates.{Outside}
use growtrics_challenge.Custody.Harvester.{content_hash_of}
use growtrics_challenge.Custody.Verifier.Verdicts.Mp4.{HasMp4Header}
use growtrics_challenge.Custody.Store.Backed.{IsBacked, Backed}
use growtrics_challenge.Orchestration.Policy.{percent_for}
use growtrics_challenge.Orchestration.Runner.{
  Run, Attempt, on_world, enter, entering, assign, succeed, succeeding,
}
use growtrics_challenge.Orchestration.Runner.Stages.{
  InHand, IsRunning, IsSucceeded, enter-Ends, step-Ends, move-InHand, succeed-Ends,
}
use growtrics_challenge.Storage.State.{World, Action}
use growtrics_challenge.Storage.Jobs.{apply_transition, moved}
use growtrics_challenge.Storage.Jobs.Frame.{stored_of, apply_transition-stored}

abbrev stored_in : Run → Dict ArtifactRecord × Dict (List ℕ)
stored_in r = stored_of r.world

enter-Keeps : (stage : StageName) (brief_id : Option Str) → Keeps stored_in (enter stage brief_id)
unfolding enter assign
enter-Keeps stage brief_id = lift_then-Keeps stored_in (percent_for stage) _ λ percent r.
    by_end r (apply_transition (entering r.job stage brief_id percent) r.world).0
      (apply_transition (entering r.job stage brief_id percent) r.world).1
    ∙ apply_transition-stored (entering r.job stage brief_id percent) r.world
  where
    by_end :
        (r : Run) (x : Result JobRecord) (w : World)
        → stored_in (assign stage r (x, w)).1 ≡ stored_of w
    by_end r (ok job) w = refl
    by_end r (err e) w = refl

succeed-Keeps : (artifact_id : Str) → Keeps stored_in (succeed artifact_id)
unfolding succeed
succeed-Keeps artifact_id =
    lift_then-Keeps stored_in (percent_for StageName.done) _
      λ percent r. apply_transition-stored (succeeding r.job artifact_id percent) r.world

abbrev pub Stored : Type 0
Stored = Dict ArtifactRecord × Dict (List ℕ)

module _ (id : Str) where
  -- A run under way, with what is known of the rows and the objects.
  abbrev pub Going : (Stored → Type 0) → Run → Type 0
  Going V r = IsRunning id r × V (stored_in r)

  abbrev pub Goes : {A : Type 0} → (Stored → Type 0) → Attempt A → Run → Type 0
  Goes V m r = Ends (λ _ s. Going V s) (λ _ s. IsRunning id s) m r

  going :
      {A : Type 0} (V : Stored → Type 0) (x : Result A) (s : Run)
      → V (stored_in s)
      → Post (λ _ t. IsRunning id t) (λ _ t. IsRunning id t) x s
      → Post (λ _ t. Going V t) (λ _ t. IsRunning id t) x s
  going V (ok a) s v h = (h, v)
  going V (err e) s v h = h

  goes :
      {A : Type 0} (V : Stored → Type 0) (m : Attempt A) (r : Run)
      → V (stored_in r)
      → Ends (λ _ s. IsRunning id s) (λ _ s. IsRunning id s) m r
      → stored_in (m r).1 ≡ stored_in r
      → Goes V m r
  goes V m r v h k = going V (m r).0 (m r).1 (subst V (sym k) v) h

  pub enter-Goes :
      (V : Stored → Type 0) (stage : StageName) (brief : Option Str) (p : ℕ) (r : Run)
      → stage_percent stage ≡ some p
      → InHand id r
      → V (stored_in r)
      → Goes V (enter stage brief) r
  enter-Goes V stage brief p r e i v =
      goes V (enter stage brief) r v (enter-Ends id stage brief p r e i) (enter-Keeps stage brief r)

  -- A call that writes neither the jobs nor what is stored.
  pub world-Goes :
      {A : Type 0} (V : Stored → Type 0) (m : Action A) (r : Run)
      → Going V r
      → (m r.world).1.jobs ≡ r.world.jobs
      → stored_of (m r.world).1 ≡ stored_of r.world
      → Goes V (on_world m) r
  world-Goes V m r g jobs stored = goes V (on_world m) r g.1 (step-Ends id m r jobs g.0) stored

  succeed_names :
      (artifact_id : Str) (r : Run)
      → IsRunning id r
      → Ends
          (λ job s. job.artifact_id ≡ some artifact_id)
          (λ _ s. IsRunning id s)
          (succeed artifact_id)
          r
  unfolding succeed percent_for moved
  succeed_names artifact_id r h =
      let (job, w, done, image, hand) =
        move-InHand id r (succeeding r.job artifact_id 100) r.stage h.in_hand refl refl in
      rw done (ap (λ j. j.artifact_id) image)

module _ (o : Outside) (bucket id : Str) where
  abbrev pub BackedBy : Stored → Type 0
  BackedBy x = Entries (λ key r. IsBacked o bucket x.1 r) x.0

  -- A row that a learner can be served.
  pub record IsServable (a : ArtifactRecord) : Type 0 where
    pub role : a.role ≡ ArtifactRole.primary
    pub audience : a.audience ≡ Audience.learner
    pub verdict : a.scan_verdict ≡ ScanVerdict.clean
    pub job : a.job_id ≡ id
    pub published : (at : ℕ) × (a.published_at ≡ some at)
    pub bytes :
        (content : List ℕ) × (HasMp4Header o content) × (a.content_hash ≡ content_hash_of o content)

  -- The rows are backed, and this one is among them.
  abbrev pub Carries : ArtifactRecord → Stored → Type 0
  Carries a x = BackedBy x × IsServable a × (lookup a.artifact_id x.0 ≡ some a)

  -- The job that succeeded names such a row.
  pub record IsDone (job : JobRecord) (w : World) : Type 0 where
    pub succeeded : IsSucceeded id job w
    pub artifact : ArtifactRecord
    pub named : job.artifact_id ≡ some artifact.artifact_id
    pub row : lookup artifact.artifact_id w.artifacts ≡ some artifact
    pub servable : IsServable artifact
    pub backed : Backed o bucket w

  ended_by :
      (a : ArtifactRecord) (x : Result JobRecord) (t : Run)
      → Carries a (stored_in t)
      → Post (λ job s. IsSucceeded id job s.world) (λ _ s. IsRunning id s) x t
      → Post (λ job s. job.artifact_id ≡ some a.artifact_id) (λ _ s. IsRunning id s) x t
      → Post (λ job s. IsDone job s.world) (λ _ s. IsRunning id s) x t
  ended_by a (ok job) t c h k = record {
    succeeded = h;
    artifact = a;
    named = k;
    row = c.2;
    servable = c.1;
    backed = c.0;
  }
  ended_by a (err e) t c h k = h

  -- The last statement of a run.
  pub succeed-IsDone :
      (a : ArtifactRecord) (r : Run)
      → Going id (Carries a) r
      → Ends (λ job s. IsDone job s.world) (λ _ s. IsRunning id s) (succeed a.artifact_id) r
  succeed-IsDone a r g =
      ended_by a (succeed a.artifact_id r).0 (succeed a.artifact_id r).1
        (subst (Carries a) (sym (succeed-Keeps a.artifact_id r)) g.1)
        (succeed-Ends id a.artifact_id r g.0) (succeed_names id a.artifact_id r g.0)
