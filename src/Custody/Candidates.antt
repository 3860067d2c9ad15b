-- ===== src/Custody/Candidates.antt =====
-- The shapes between a claim and a row, of src/app/domain/artifact.py, and what custody calls
-- outside the repository.
use growtrics_challenge.Common.{ℕ, ◌≡◌, Bool, ◌&&◌, Option, List, [], ◌∷◌, length, if◌then◌else◌}
use growtrics_challenge.Common.Text.{Str, codes}
use growtrics_challenge.Domain.Enums.{ScanVerdict}
use growtrics_challenge.Domain.Errors.{Error, ErrorCode}
use growtrics_challenge.Domain.Json.{Json}
use growtrics_challenge.Effects.{Result, ok, err}
use growtrics_challenge.Generation.Manifest.{GenerationOutcome, ArtifactDescriptor}
use growtrics_challenge.Storage.State.{World, Action}

pub record HarvestedFile : Type 0 where
  pub descriptor : ArtifactDescriptor
  pub content : List ℕ
  pub size_bytes : ℕ
  pub content_hash : Str
  pub claim_agreed : Bool

pub record CheckOutcome : Type 0 where
  pub name : Str
  pub passed : Bool
  pub skipped : Bool
  pub detail : Str

-- `CheckOutcome(...)` with its `__post_init__`.
unfoldable pub new_outcome : Str → Bool → Bool → Str → Result CheckOutcome
new_outcome name passed skipped detail =
    if skipped && passed
    then err (
        Error.domain ErrorCode.generation_failed
          ((codes "reason", codes "check_cannot_pass_while_skipped") ∷ (codes "check", name) ∷ []))
    else ok (record { name = name; passed = passed; skipped = skipped; detail = detail })

pub record VerifiedArtifact : Type 0 where
  pub harvested : HarvestedFile
  pub verdict : ScanVerdict
  pub checks : List CheckOutcome
  pub validator_version : Str
  pub probe : Json

-- The libraries and the remote worker: `hashlib.sha256(...).hexdigest()`, the test that
-- `bytes.decode("utf-8")` returns, the parser of a manifest (pydantic), and the fetching of one
-- file, which may answer anything and writes nothing of ours.
pub record Outside : Type 0 where
  pub sha256 : List ℕ → Str
  pub length-sha256 : (content : List ℕ) → length (sha256 content) ≡ 64
  pub is_utf8 : List ℕ → Bool
  pub parse_manifest : Json → Option GenerationOutcome
  pub fetch : Str → Str → ℕ → Action (List ℕ)
  pub fetch_database :
      (session_id rel_path : Str) (max_bytes : ℕ) (w : World)
      → (fetch session_id rel_path max_bytes w).1.database ≡ w.database
  pub fetch_objects :
      (session_id rel_path : Str) (max_bytes : ℕ) (w : World)
      → (fetch session_id rel_path max_bytes w).1.objects ≡ w.objects
