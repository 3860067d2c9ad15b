-- ===== src/Custody/Store.antt =====
-- src/app/custody/store.py: where verified bytes go, and the row that points at them.
pub mod Backed
use growtrics_challenge.Common.{
  ℕ, Bool, true, false, ◌&&◌, Option, none, some, List, [], ◌∷◌, ◌++◌, if◌then◌else◌,
}
use growtrics_challenge.Common.Text.{Str, codes}
use growtrics_challenge.Common.Dict.{Dict, lookup}
use growtrics_challenge.Common.Split.{strip_prefix}
use growtrics_challenge.Domain.Contracts.{OutputContract}
use growtrics_challenge.Domain.Enums.{ScanVerdict, Audience, is_clean, is_learner}
use growtrics_challenge.Domain.Errors.{Error, ErrorCode}
use growtrics_challenge.Domain.Ids.{Uuid, derive_artifact_id}
use growtrics_challenge.Domain.Records.{ArtifactRecord}
use growtrics_challenge.Effects.{Result, ok, err}
use growtrics_challenge.Effects.Exec.{pure, lift, ◌>>=◌, ◌>>◌}
use growtrics_challenge.Custody.Candidates.{HarvestedFile, VerifiedArtifact}
use growtrics_challenge.Storage.Artifacts.{insert_artifact}
use growtrics_challenge.Storage.Objects.{put_object}
use growtrics_challenge.Storage.State.{World, Action}

abbrev pub prefix_for : ScanVerdict → Str
prefix_for ScanVerdict.clean = codes "artifacts"
prefix_for ScanVerdict.quarantined = codes "quarantine"

abbrev pub suffixes : Dict Str
suffixes =
    (codes "video/mp4", codes ".mp4")
    ∷ (codes "image/png", codes ".png")
    ∷ (codes "image/jpeg", codes ".jpg")
    ∷ (codes "text/plain", codes ".txt")
    ∷ (codes "text/vtt", codes ".vtt")
    ∷ (codes "application/x-ndjson", codes ".jsonl")
    ∷ []

-- `d.get(k, default)`
abbrev pub get_or : {A : Type 0} → Option A → A → A
get_or none default = default
get_or (some a) default = a

abbrev pub suffix_for : Str → Str
suffix_for media_type = get_or (lookup media_type suffixes) (codes ".bin")

-- `content_hash.removeprefix("sha256:")`
abbrev pub digest_of : Str → Str
digest_of content_hash = get_or (strip_prefix (codes "sha256:") content_hash) content_hash

unfoldable pub object_key : Str → Str → Str → ScanVerdict → Str
object_key job_id content_hash media_type verdict =
    prefix_for verdict
    ++ (codes "/" ++ (job_id ++ (codes "/" ++ (digest_of content_hash ++ suffix_for media_type))))

pub record Owner : Type 0 where
  pub job_id : Str
  pub principal_id : Str
  pub chat_context_id : Option Str

abbrev pub is_publishable : VerifiedArtifact → Bool
is_publishable v = is_clean v.verdict && is_learner v.harvested.descriptor.audience

abbrev pub row_for : VerifiedArtifact → Owner → Str → ℕ → Str → ArtifactRecord
row_for v owner storage_uri at artifact_id = record {
  artifact_id = artifact_id;
  job_id = owner.job_id;
  principal_id = owner.principal_id;
  chat_context_id = owner.chat_context_id;
  role = v.harvested.descriptor.role;
  audience = v.harvested.descriptor.audience;
  mime = v.harvested.descriptor.media_type;
  rel_path = some v.harvested.descriptor.rel_path;
  size_bytes = v.harvested.size_bytes;
  content_hash = v.harvested.content_hash;
  storage_uri = storage_uri;
  probe = v.probe;
  scan_verdict = v.verdict;
  validator_version = v.validator_version;
  published_at = if is_publishable v then some at else none;
  created_at = at;
}

unfoldable pub named_row : VerifiedArtifact → Owner → Str → ℕ → Result Str → Result ArtifactRecord
named_row v owner storage_uri at (ok artifact_id) = ok (row_for v owner storage_uri at artifact_id)
named_row v owner storage_uri at (err e) = err e

module _ (u : Uuid) (bucket : Str) where
  unfoldable pub artifact_record_for : VerifiedArtifact → Owner → Str → ℕ → Result ArtifactRecord
  unfolding named_row
  artifact_record_for v owner storage_uri at =
      named_row v owner storage_uri at (derive_artifact_id u owner.job_id v.harvested.content_hash)

  -- `ArtifactPublisher.publish`: the bytes, then the row.
  unfoldable pub publish_one : Owner → ℕ → VerifiedArtifact → Action ArtifactRecord
  unfolding artifact_record_for
  publish_one owner at v = do
    storage_uri ←
        put_object bucket
          (object_key owner.job_id v.harvested.content_hash v.harvested.descriptor.media_type
            v.verdict)
          v.harvested.content
    row ← lift (artifact_record_for v owner storage_uri at)
    insert_artifact row

  unfoldable pub publish_all : Owner → ℕ → List VerifiedArtifact → Action (List ArtifactRecord)
  unfolding publish_one
  publish_all owner at [] = pure []
  publish_all owner at (v ∷ vs) = do
    one ← publish_one owner at v
    rest ← publish_all owner at vs
    pure (one ∷ rest)

pub record ContentStream : Type 0 where
  pub media_type : Str
  pub size_bytes : ℕ
  pub content_hash : Str
  pub filename : Str
  pub disposition : Str
  pub chunks : List (List ℕ)

abbrev pub filename_for : Str → Str → Str
filename_for artifact_id media_type = artifact_id ++ suffix_for media_type

unfoldable pub content_stream :
    ArtifactRecord → List (List ℕ) → OutputContract → Result ContentStream
content_stream r parts contract =
    if is_learner r.audience && is_clean r.scan_verdict
    then ok (record {
      media_type = r.mime;
      size_bytes = r.size_bytes;
      content_hash = r.content_hash;
      filename = filename_for r.artifact_id r.mime;
      disposition = contract.serving.disposition;
      chunks = parts;
    })
    else err (Error.domain ErrorCode.artifact_not_found [])
