-- ===== src/Generation/Manifest.antt =====
-- The parsed claims of a worker, of src/app/generation/ports.py, and the descriptor that the domain
-- keeps of one (src/app/domain/artifact.py). The worker's own summary, which nothing reads, is left
-- out.
use growtrics_challenge.Common.{ℕ, Option, List}
use growtrics_challenge.Common.Text.{Str}
use growtrics_challenge.Domain.Enums.{ArtifactRole, Audience}

pub data WorkerStatus : Type 0 where
  completed qualified failed : WorkerStatus

pub record RawArtifactDescriptor : Type 0 where
  pub role : Str
  pub media_type : Str
  pub rel_path : Str
  pub size_bytes : ℕ
  pub sha256 : Option Str

pub record GenerationOutcome : Type 0 where
  pub session_id : Str
  pub status : WorkerStatus
  pub descriptors : List RawArtifactDescriptor

pub record ArtifactDescriptor : Type 0 where
  pub role : ArtifactRole
  pub audience : Audience
  pub media_type : Str
  pub rel_path : Str
  pub declared_size_bytes : ℕ
  pub declared_sha256 : Option Str
