-- ===== src/Intake/Service.antt =====
-- `SealBrief` of src/app/intake/service.py: revalidate, clean, guard, seal, insert.
pub mod Sealing
use growtrics_challenge.Common.{ℕ, Option, none, some, List, [], ◌∷◌, if◌then◌else◌}
use growtrics_challenge.Common.Text.{Str, codes, str_eq}
use growtrics_challenge.Domain.Enums.{ProfileId, profile_value}
use growtrics_challenge.Domain.Errors.{Error, ErrorCode}
use growtrics_challenge.Domain.Ids.{Uuid}
use growtrics_challenge.Domain.Json.{Json, Items, Fields, document}
use growtrics_challenge.Domain.Records.{BriefRecord, JobConstraints, StoredRequest}
use growtrics_challenge.Effects.{Result, ok, err}
use growtrics_challenge.Effects.Exec.{pure, lift, ◌>>=◌}
use growtrics_challenge.Intake.Sanitiser.{Unicode}
use growtrics_challenge.Intake.Sealer.{
  RawLessonRequest, Guard, Hashing, constraints_document, seal_brief, brief_record,
}
use growtrics_challenge.Storage.Briefs.{insert_brief}
use growtrics_challenge.Storage.State.{World, Action, now}

-- `body.get(key, default)`. A stored body is an object.
abbrev pub get_field : Str → Json → Fields → Json
get_field key default Fields.end = default
get_field key default (Fields.field name value rest) =
    let later = get_field key default rest in if str_eq name key then value else later

abbrev pub get_of : Str → Json → Json → Json
get_of key default (Json.object fields) = get_field key default fields
get_of key default _ = default

abbrev pub payload_for : Str → Json → JobConstraints → ProfileId → Json
payload_for job_id body constraints profile = document (
    (codes "job_id", Json.text job_id)
    ∷ (codes "instruction", get_of (codes "instruction") Json.null body)
    ∷ (codes "context", get_of (codes "context") (Json.array Items.nil) body)
    ∷ (codes "constraints", constraints_document constraints)
    ∷ (codes "profile", Json.text (profile_value profile))
    ∷ [])

unfoldable pub validated : Option RawLessonRequest → Result RawLessonRequest
validated none = err (
    Error.domain ErrorCode.invalid_request (
      (codes "field", codes "body")
      ∷ (codes "reason", codes "stored_request_does_not_revalidate")
      ∷ []))
validated (some raw) = ok raw

-- `RawLessonRequest.model_validate`, which is pydantic's: the request, or no answer where it raises.
pub record Validation : Type 0 where
  pub validate : Json → Option RawLessonRequest

module _ (u : Uuid) (h : Hashing) (unicode : Unicode) (v : Validation) (guard : Guard)
    (version : Str) where
  unfoldable pub revalidate :
      Str → StoredRequest → JobConstraints → ProfileId → Result RawLessonRequest
  unfolding validated
  revalidate job_id request constraints profile =
      validated (v.validate (payload_for job_id request.raw constraints profile))

  -- `SealBrief.seal`
  unfoldable pub seal : Str → StoredRequest → JobConstraints → ProfileId → Action BriefRecord
  seal job_id request constraints profile = do
    raw ← lift (revalidate job_id request constraints profile)
    at ← now
    brief ← lift (seal_brief u h unicode raw guard at version)
    insert_brief (brief_record brief)
