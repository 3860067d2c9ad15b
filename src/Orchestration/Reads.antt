-- ===== src/Orchestration/Reads.antt =====
-- The artifact reads of src/app/orchestration/service.py, over the port that custody fills.
use growtrics_challenge.Common.{ℕ, Option, none, some, []}
use growtrics_challenge.Common.Text.{Str}
use growtrics_challenge.Custody.Store.{ContentStream}
use growtrics_challenge.Domain.Errors.{Error, ErrorCode}
use growtrics_challenge.Domain.Records.{AccessScope, ArtifactRecord, Cursor, Page}
use growtrics_challenge.Effects.Exec.{pure, raise, lift, ◌>>=◌}
use growtrics_challenge.Orchestration.Service.{clamp_limit}
use growtrics_challenge.Storage.State.{Action}

pub record ArtifactReader : Type 0 where
  pub list : AccessScope → Option Str → Option Cursor → ℕ → Action (Page ArtifactRecord)
  pub open_content : AccessScope → Str → Action (Option ContentStream)

module _ (artifacts : ArtifactReader) where
  -- `ListArtifacts.execute`
  unfoldable pub query_artifacts :
      ℕ → AccessScope → Option Str → Option Cursor → ℕ → Action (Page ArtifactRecord)
  query_artifacts max_limit scope job_id cursor limit = do
    size ← lift (clamp_limit limit max_limit)
    artifacts.list scope job_id cursor size

  abbrev pub some_stream : Option ContentStream → Action ContentStream
  some_stream none = raise (Error.domain ErrorCode.artifact_not_found [])
  some_stream (some stream) = pure stream

  -- `OpenArtifactContent.execute`
  unfoldable pub open_artifact_content : AccessScope → Str → Action ContentStream
  open_artifact_content scope artifact_id = do
    stream ← artifacts.open_content scope artifact_id
    some_stream stream
