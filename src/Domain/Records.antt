-- ===== src/Domain/Records.antt =====
-- src/app/domain/records.py and src/app/domain/access.py: the records that cross the seams.
-- An instant is a number of microseconds; a body, a probe and a verdict document are JSON.
use growtrics_challenge.Common.{ℕ, Bool, Option, List}
use growtrics_challenge.Common.Text.{Str}
use growtrics_challenge.Domain.Enums.{
  JobStatus, StageName, ArtifactRole, Audience, ScanVerdict, ContextKind, ReadingLevel, ProfileId,
}
use growtrics_challenge.Domain.Errors.{ErrorCode}
use growtrics_challenge.Domain.Json.{Json}

pub record Principal : Type 0 where
  pub principal_id : Str
  pub external_id : Str
  pub created_at : ℕ

pub record AccessScope : Type 0 where
  pub principal_id : Str
  pub ownership_enforced : Bool

pub record ContextItem : Type 0 where
  pub kind : ContextKind
  pub text : Str

pub record JobConstraints : Type 0 where
  pub max_duration_s : ℕ
  pub language : Str
  pub reading_level : Option ReadingLevel

pub record SubmitJobCommand : Type 0 where
  pub instruction : Str
  pub context : List ContextItem
  pub constraints : JobConstraints
  pub profile : ProfileId
  pub chat_context_id : Option Str

pub record StoredRequest : Type 0 where
  pub request_key : Str
  pub principal_id : Str
  pub raw : Json
  pub received_at : ℕ

pub record BriefRecord : Type 0 where
  pub brief_id : Str
  pub job_id : Str
  pub brief_hash : Str
  pub template_version : Str
  pub subject : Str
  pub concept_id : Option Str
  pub instruction : Str
  pub context_items : List ContextItem
  pub constraints : JobConstraints
  pub guard_verdict : Json
  pub sealed_at : ℕ

pub record FailureRecord : Type 0 where
  pub code : ErrorCode
  pub stage : StageName
  pub message : Str
  pub retryable : Bool
  pub occurred_at : ℕ
  pub trace_id : Str

pub record JobRecord : Type 0 where
  pub job_id : Str
  pub request_key : Str
  pub principal_id : Str
  pub chat_context_id : Option Str
  pub status : JobStatus
  pub stage : StageName
  pub attempt : ℕ
  pub progress_percent : ℕ
  pub profile : ProfileId
  pub contract_version : Str
  pub constraints : JobConstraints
  pub failure : Option FailureRecord
  pub artifact_id : Option Str
  pub brief_id : Option Str
  pub version : ℕ
  pub created_at : ℕ
  pub updated_at : ℕ

pub record ClaimedWorkItem : Type 0 where
  pub item_id : Str
  pub job_id : Str
  pub claimed_by : Str
  pub claimed_until : ℕ
  pub claim_count : ℕ

pub record ArtifactRecord : Type 0 where
  pub artifact_id : Str
  pub job_id : Str
  pub principal_id : Str
  pub chat_context_id : Option Str
  pub role : ArtifactRole
  pub audience : Audience
  pub mime : Str
  pub rel_path : Option Str
  pub size_bytes : ℕ
  pub content_hash : Str
  pub storage_uri : Str
  pub probe : Json
  pub scan_verdict : ScanVerdict
  pub validator_version : Str
  pub published_at : Option ℕ
  pub created_at : ℕ

-- A position in a listing; `next_cursor` of a page is its token, `Cursor.encode()`.
pub record Cursor : Type 0 where
  pub created_at : ℕ
  pub id : Str

pub record Page (A : Type 0) : Type 0 where
  pub items : List A
  pub next_cursor : Option Str
