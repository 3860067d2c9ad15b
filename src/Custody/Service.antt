-- ===== src/Custody/Service.antt =====
-- `Custody` of src/app/custody/service.py: the write path of a run, and the read path of a client.
pub mod Complete
pub mod Delivered
pub mod Harvests
pub mod Downloads
pub mod Frames
use growtrics_challenge.Common.{
  ℕ, Bool, true, false, Option, none, some, List, [], ◌∷◌, if◌then◌else◌,
}
use growtrics_challenge.Common.Text.{Str, codes}
use growtrics_challenge.Domain.Contracts.{OutputContract, contract_for}
use growtrics_challenge.Domain.Enums.{ArtifactRole, ProfileId, ScanVerdict, role_eq, verdict_value}
use growtrics_challenge.Domain.Errors.{Error, ErrorCode}
use growtrics_challenge.Domain.Ids.{Uuid}
use growtrics_challenge.Domain.Json.{Json}
use growtrics_challenge.Domain.Records.{AccessScope, ArtifactRecord, Cursor, Page}
use growtrics_challenge.Effects.{Result, ok, err}
use growtrics_challenge.Effects.Exec.{pure, raise, lift, ◌>>=◌, ◌>>◌}
use growtrics_challenge.Orchestration.Ports.{GenerationOutcome, HarvestOutcome}
use growtrics_challenge.Custody.Candidates.{HarvestedFile, VerifiedArtifact, Outside}
use growtrics_challenge.Custody.Harvester.{harvest_files}
use growtrics_challenge.Custody.Verifier.{verify_all, require_complete}
use growtrics_challenge.Custody.Store.{Owner, publish_all, ContentStream, content_stream}
use growtrics_challenge.Storage.Artifacts.{get_artifact, list_artifacts}
use growtrics_challenge.Storage.Objects.{open_object, stream}
use growtrics_challenge.Storage.State.{World, Action, now}

-- `_primary_of`
unfoldable pub primary_of : List ArtifactRecord → Result ArtifactRecord
primary_of [] = err (
    Error.domain ErrorCode.generation_failed
      ((codes "reason", codes "no_primary_after_verification") ∷ []))
primary_of (r ∷ rs) =
    let rest = primary_of rs in if role_eq r.role ArtifactRole.primary then ok r else rest

unfoldable pub unpublishable : ArtifactRecord → Option ℕ → Action ArtifactRecord
unpublishable primary none = raise (
    Error.domain ErrorCode.artifact_not_ready (
      (codes "reason", codes "not_publishable")
      ∷ (codes "verdict", verdict_value primary.scan_verdict)
      ∷ []))
unpublishable primary (some at) = pure primary

-- `Custody.publish`
unfoldable pub publish : ArtifactRecord → Action ArtifactRecord
unfolding unpublishable
publish primary = unpublishable primary primary.published_at

module _ (o : Outside) where
  -- The files, the verdicts, and the refusal of a set that lacks a required part.
  unfoldable pub examine : OutputContract → ℕ → Str → Json → Action (List VerifiedArtifact)
  examine contract max_duration_s session_id payload = do
    harvested ← harvest_files o payload contract session_id
    verified ← lift (verify_all o contract max_duration_s harvested)
    lift (require_complete verified contract)
    pure verified

module _ (u : Uuid) (bucket : Str) where
  unfoldable pub keep : Owner → List VerifiedArtifact → Action HarvestOutcome
  keep owner verified = do
    at ← now
    records ← publish_all u bucket owner at verified
    primary ← lift (primary_of records)
    pure (record { primary = primary; artifacts = records })

-- `Custody.harvest`
unfoldable pub harvest :
    Outside
    → Uuid
    → Str
    → Str
    → Str
    → Option Str
    → ProfileId
    → ℕ
    → GenerationOutcome
    → Action HarvestOutcome
unfolding examine keep
harvest o u bucket job_id principal_id chat_context_id profile max_duration_s outcome = do
  contract ← lift (contract_for profile)
  verified ← examine o contract max_duration_s outcome.session_id outcome.document
  keep u bucket
      (record { job_id = job_id; principal_id = principal_id; chat_context_id = chat_context_id })
      verified

-- `Custody.list`
unfoldable pub list_of_learner :
    (Cursor → Str) → AccessScope → Option Str → Option Cursor → ℕ → Action (Page ArtifactRecord)
list_of_learner token scope job_id cursor limit = list_artifacts token scope job_id cursor limit

module _ (bucket : Str) (chunk_bytes : ℕ) where
  -- The store opens the object before the row's audience and verdict are looked at.
  unfoldable pub content_of : Option ArtifactRecord → Action (Option ContentStream)
  content_of none = pure none
  content_of (some r) = do
    content ← open_object bucket r.storage_uri
    contract ← lift (contract_for ProfileId.video_short_v1)
    found ← lift (content_stream r (stream chunk_bytes content) contract)
    pure (some found)

  -- `Custody.open_content`
  unfoldable pub open_content : AccessScope → Str → Action (Option ContentStream)
  unfolding content_of
  open_content scope artifact_id = do found ← get_artifact scope artifact_id; content_of found
