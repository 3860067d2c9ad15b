-- ===== src/Pipeline.antt =====
-- The run with its own steps: intake, generation and custody behind the ports that the runner calls,
-- as src/app/composition.py builds them.
pub mod Deliveries
pub mod Runs
use growtrics_challenge.Common.{ℕ, ◌≡◌, refl, ap, ◌∙◌, Option, none, some}
use growtrics_challenge.Common.Text.{Str}
use growtrics_challenge.Common.Dict.{Dict}
use growtrics_challenge.Domain.Contracts.{contract_for}
use growtrics_challenge.Domain.Enums.{ProfileId}
use growtrics_challenge.Domain.Ids.{Uuid}
use growtrics_challenge.Domain.Records.{
  Cursor, StoredRequest, BriefRecord, JobConstraints, JobRecord,
}
use growtrics_challenge.Effects.{Result, ok, err}
use growtrics_challenge.Effects.Exec.{pure, lift, ◌>>=◌}
use growtrics_challenge.Effects.Triples.{Post, Ends}
use growtrics_challenge.Effects.Frames.{Keeps, lift_then-Keeps, >>=-Keeps}
use growtrics_challenge.Generation.Service.{Backend, BundleRenderer, request_of, generate}
use growtrics_challenge.Intake.Rendering.{Renderer, bundle_for_record}
use growtrics_challenge.Intake.Sanitiser.{Unicode}
use growtrics_challenge.Intake.Sealer.{Guard, Hashing}
use growtrics_challenge.Intake.Service.{Validation, seal}
use growtrics_challenge.Intake.Service.Sealing.{IsSealedRow, Unwritten, seal-IsSealedRow}
use growtrics_challenge.Custody.Candidates.{Outside}
use growtrics_challenge.Custody.Service.{harvest, publish, list_of_learner, open_content}
use growtrics_challenge.Custody.Service.Frames.{harvest-Keeps, publish-Keeps}
use growtrics_challenge.Orchestration.Ports.{Steps, KeepsJobs, GenerationOutcome}
use growtrics_challenge.Orchestration.Reads.{ArtifactReader}
use growtrics_challenge.Orchestration.Runner.Frame.{KeepsItems}
use growtrics_challenge.Storage.Jobs.Frame.{stored_of}
use growtrics_challenge.Storage.State.{World, Action}

-- All that the adapters call outside the repository, and their configuration.
pub record Adapters : Type 0 where
  pub hashing : Hashing
  pub unicode : Unicode
  pub validation : Validation
  pub guard : Guard
  pub version : Str
  pub renderer : Renderer
  pub backend : Backend
  pub outside : Outside
  pub bucket : Str

-- `_render_bundle`
abbrev pub renderer_of : Adapters → BundleRenderer
renderer_of a row contract profile = bundle_for_record a.renderer a.unicode row contract profile

-- Custody as the reader of the artifact use cases, for the text of a cursor and the size of a chunk.
abbrev pub reader_of : (Cursor → Str) → Str → ℕ → ArtifactReader
reader_of token bucket chunk_bytes = record {
  list = list_of_learner token;
  open_content = open_content bucket chunk_bytes;
}

module _ (u : Uuid) (a : Adapters) where
  unfoldable pub steps_of : Steps
  steps_of = record {
    seal = seal u a.hashing a.unicode a.validation a.guard a.version;
    generate = generate (renderer_of a) a.backend;
    harvest = harvest a.outside u a.bucket;
    publish = publish;
  }

  pub seal-jobs :
      (job_id : Str) (r : StoredRequest) (c : JobConstraints) (p : ProfileId) (w : World)
      → (seal u a.hashing a.unicode a.validation a.guard a.version job_id r c p w).1.jobs ≡ w.jobs
  seal-jobs job_id r c p w =
      by_end _ _
        (seal-IsSealedRow u a.hashing a.unicode a.validation a.guard a.version job_id r c p w)
    where
      by_end :
          (x : Result BriefRecord) (t : World)
          → Post
              (IsSealedRow u a.hashing a.unicode a.validation a.guard a.version job_id r c p w)
              (λ _ t. Unwritten w t)
              x
              t
          → t.jobs ≡ w.jobs
      by_end (ok row) t h = h.others.jobs
      by_end (err e) t h = ap (λ d. d.jobs) h.0

  pub generate-Keeps :
      (session_id trace_id : Str) (brief : BriefRecord) (c : JobConstraints) (p : ProfileId)
      → Keeps
          (λ (w : World). w.database)
          (generate (renderer_of a) a.backend session_id trace_id brief c p)
  unfolding generate
  generate-Keeps session_id trace_id brief c p =
      lift_then-Keeps (λ (w : World). w.database) (contract_for p) _
        λ contract.
          lift_then-Keeps (λ (w : World). w.database) (renderer_of a brief contract p) _
            λ bundle.
              >>=-Keeps (λ (w : World). w.database)
                (a.backend.answer (request_of session_id trace_id bundle contract))
                (λ document. pure (record { session_id = session_id; document = document }))
                (a.backend.answer_database (request_of session_id trace_id bundle contract))
                λ document w. refl

  pub generate-objects :
      (session_id trace_id : Str) (brief : BriefRecord) (c : JobConstraints) (p : ProfileId)
      → Keeps
          (λ (w : World). w.objects)
          (generate (renderer_of a) a.backend session_id trace_id brief c p)
  unfolding generate
  generate-objects session_id trace_id brief c p =
      lift_then-Keeps (λ (w : World). w.objects) (contract_for p) _
        λ contract.
          lift_then-Keeps (λ (w : World). w.objects) (renderer_of a brief contract p) _
            λ bundle.
              >>=-Keeps (λ (w : World). w.objects)
                (a.backend.answer (request_of session_id trace_id bundle contract))
                (λ document. pure (record { session_id = session_id; document = document }))
                (a.backend.answer_objects (request_of session_id trace_id bundle contract))
                λ document w. refl

  -- What a sealing leaves of the artifacts and the objects.
  pub seal-stored :
      (job_id : Str) (r : StoredRequest) (c : JobConstraints) (p : ProfileId) (w : World)
      → stored_of (seal u a.hashing a.unicode a.validation a.guard a.version job_id r c p w).1
        ≡ stored_of w
  seal-stored job_id r c p w =
      by_end _ _
        (seal-IsSealedRow u a.hashing a.unicode a.validation a.guard a.version job_id r c p w)
    where
      by_end :
          (x : Result BriefRecord) (t : World)
          → Post
              (IsSealedRow u a.hashing a.unicode a.validation a.guard a.version job_id r c p w)
              (λ _ t. Unwritten w t)
              x
              t
          → stored_of t ≡ stored_of w
      by_end (ok row) t h = cc (h.others.artifacts, h.others.objects)
      by_end (err e) t h = cc (h.0, h.1)

  seal-items :
      (job_id : Str) (r : StoredRequest) (c : JobConstraints) (p : ProfileId) (w : World)
      → (seal u a.hashing a.unicode a.validation a.guard a.version job_id r c p w).1.work_items
        ≡ w.work_items
  seal-items job_id r c p w =
      by_end _ _
        (seal-IsSealedRow u a.hashing a.unicode a.validation a.guard a.version job_id r c p w)
    where
      by_end :
          (x : Result BriefRecord) (t : World)
          → Post
              (IsSealedRow u a.hashing a.unicode a.validation a.guard a.version job_id r c p w)
              (λ _ t. Unwritten w t)
              x
              t
          → t.work_items ≡ w.work_items
      by_end (ok row) t h = h.others.work_items
      by_end (err e) t h = ap (λ d. d.work_items) h.0

  pub steps_of-KeepsItems : KeepsItems steps_of
  unfolding steps_of
  steps_of-KeepsItems = record {
    seal_items = seal-items;
    generate_items = λ s t b c p w. ap (λ d. d.work_items) (generate-Keeps s t b c p w);
    harvest_items = λ job_id who chat p d outcome w.
        ap (λ x. x.1) (harvest-Keeps a.outside u a.bucket job_id who chat p d outcome w);
    publish_items = λ primary w. ap (λ x. x.1) (publish-Keeps primary w);
  }

  -- The repository's own steps meet the contract of the ports that a run relies on: sealing,
  -- generation, harvest and publishing leave the job table as it was, whether they return or
  -- raise.
  pub steps_of-KeepsJobs : KeepsJobs steps_of
  unfolding steps_of
  steps_of-KeepsJobs = record {
    seal_jobs = seal-jobs;
    generate_jobs = λ s t b c p w. ap (λ d. d.jobs) (generate-Keeps s t b c p w);
    harvest_jobs = λ job_id who chat p d outcome w.
        ap (λ x. x.0) (harvest-Keeps a.outside u a.bucket job_id who chat p d outcome w);
    publish_jobs = λ primary w. ap (λ x. x.0) (publish-Keeps primary w);
  }
