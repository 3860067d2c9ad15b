-- ===== src/Orchestration/Ports.antt =====
-- The ports of src/app/orchestration/ports.py that a run calls: intake, generation and custody.
use growtrics_challenge.Common.{ℕ, ◌≡◌, Option, List}
use growtrics_challenge.Common.Text.{Str}
use growtrics_challenge.Domain.Enums.{ProfileId}
use growtrics_challenge.Domain.Json.{Json}
use growtrics_challenge.Domain.Records.{StoredRequest, BriefRecord, JobConstraints, ArtifactRecord}
use growtrics_challenge.Storage.State.{World, Action}

-- `domain.artifact.GenerationOutcome`: an untrusted document.
pub record GenerationOutcome : Type 0 where
  pub session_id : Str
  pub document : Json

pub record HarvestOutcome : Type 0 where
  pub primary : ArtifactRecord
  pub artifacts : List ArtifactRecord

pub record Steps : Type 0 where
  pub seal : Str → StoredRequest → JobConstraints → ProfileId → Action BriefRecord
  pub generate : Str → Str → BriefRecord → JobConstraints → ProfileId → Action GenerationOutcome
  pub harvest : Str → Str → Option Str → ProfileId → ℕ → GenerationOutcome → Action HarvestOutcome
  pub publish : ArtifactRecord → Action ArtifactRecord

-- Only orchestration writes `jobs`: each step, whether it returns or raises, leaves the table.
pub record KeepsJobs (steps : Steps) : Type 0 where
  pub seal_jobs :
      (job_id : Str) (r : StoredRequest) (c : JobConstraints) (p : ProfileId) (w : World)
      → (steps.seal job_id r c p w).1.jobs ≡ w.jobs
  pub generate_jobs :
      (session_id trace_id : Str) (b : BriefRecord) (c : JobConstraints) (p : ProfileId) (w : World)
      → (steps.generate session_id trace_id b c p w).1.jobs ≡ w.jobs
  pub harvest_jobs :
      (job_id principal_id : Str) (chat : Option Str) (p : ProfileId) (max_duration_s : ℕ)
      (o : GenerationOutcome) (w : World)
      → (steps.harvest job_id principal_id chat p max_duration_s o w).1.jobs ≡ w.jobs
  pub publish_jobs : (a : ArtifactRecord) (w : World) → (steps.publish a w).1.jobs ≡ w.jobs
