-- ===== src/Storage/Artifacts.antt =====
-- `MemoryArtifactRepository` of src/app/storage/memory/artifacts.py.
use growtrics_challenge.Common.{Bool, true, ◌&&◌, Option, none, some, keep_if, ℕ}
use growtrics_challenge.Common.Text.{Str, str_eq}
use growtrics_challenge.Common.Order.{Key}
use growtrics_challenge.Common.Dict.{lookup, put, values}
use growtrics_challenge.Domain.Enums.{is_learner, is_clean}
use growtrics_challenge.Domain.Errors.{Error}
use growtrics_challenge.Domain.Records.{AccessScope, ArtifactRecord, Cursor, Page}
use growtrics_challenge.Effects.{ok, err}
use growtrics_challenge.Storage.Listing.{keyset_page}
use growtrics_challenge.Storage.State.{Action}

unfoldable pub insert_at : Option ArtifactRecord → ArtifactRecord → Action ArtifactRecord
insert_at (some old) r w = (err Error.integrity, w)
insert_at none r w = (
  ok r,
  record w { database = record w.database { artifacts = put r.artifact_id r w.artifacts } },
)

unfoldable pub insert_artifact : ArtifactRecord → Action ArtifactRecord
unfolding insert_at
insert_artifact r w = insert_at (lookup r.artifact_id w.artifacts) r w

unfoldable pub get_artifact : AccessScope → Str → Action (Option ArtifactRecord)
get_artifact scope artifact_id w = (ok (lookup artifact_id w.artifacts), w)

-- `job_id is None or row.job_id == job_id`
abbrev pub of_job : Option Str → ArtifactRecord → Bool
of_job none r = true
of_job (some job_id) r = str_eq r.job_id job_id

abbrev pub is_listable : Option Str → ArtifactRecord → Bool
is_listable job_id r = is_learner r.audience && is_clean r.scan_verdict && of_job job_id r

abbrev pub artifact_key : ArtifactRecord → Key
artifact_key r = (r.created_at, r.artifact_id)

unfoldable pub list_artifacts :
    (Cursor → Str) → AccessScope → Option Str → Option Cursor → ℕ → Action (Page ArtifactRecord)
list_artifacts token scope job_id cursor limit w = (
  ok (
      keyset_page artifact_key token (keep_if (is_listable job_id) (values w.artifacts)) cursor
        limit),
  w,
)
