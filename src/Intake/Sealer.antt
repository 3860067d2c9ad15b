-- ===== src/Intake/Sealer.antt =====
-- src/app/intake/sealer.py, with the request and the guard of src/app/intake/ports.py: a cleaned
-- request becomes a sealed brief and its row.
pub mod Sealed
use growtrics_challenge.Common.{ℕ, Bool, true, false, Option, none, some, List, [], ◌∷◌, ◌++◌, map}
use growtrics_challenge.Common.Text.{Str, codes}
use growtrics_challenge.Domain.Briefs.{
  SanitisedText, SanitisedContextItem, GuardDecision, GuardVerdict, guard_verdict_document,
  LessonBrief,
}
use growtrics_challenge.Domain.Enums.{
  ProfileId, ReadingLevel, profile_value, kind_value, level_value,
}
use growtrics_challenge.Domain.Errors.{Error, ErrorCode}
use growtrics_challenge.Domain.Ids.{Uuid, derive_brief_id}
use growtrics_challenge.Domain.Json.{Json, document, items_of}
use growtrics_challenge.Domain.Records.{JobConstraints, ContextItem, BriefRecord}
use growtrics_challenge.Effects.{Result, ok, err}
use growtrics_challenge.Effects.Pure.{◌>>=◌, ◌>>◌}
use growtrics_challenge.Intake.Sanitiser.{Unicode, sanitise_instruction, sanitise_context}

-- `RawLessonRequest`, as pydantic has validated it; its context and its constraints already in the
-- shape of the domain.
pub record RawLessonRequest : Type 0 where
  pub job_id : Str
  pub instruction : Str
  pub context : List ContextItem
  pub constraints : JobConstraints
  pub profile : ProfileId

abbrev pub Guard : Type 0
Guard = SanitisedText → List SanitisedContextItem → GuardVerdict

-- `PermissiveGuard.inspect`
unfoldable pub permissive_guard : Guard
permissive_guard instruction context = record {
  decision = GuardDecision.allow;
  risk = 0;
  matched_rules = [];
  guard_version = codes "permissive.v0";
}

-- What sealing calls outside the repository: `json.dumps(payload, sort_keys=True, ...)` encoded in
-- UTF-8, and `hashlib.sha256(...).hexdigest()`.
pub record Hashing : Type 0 where
  pub canonical : Json → List ℕ
  pub sha256 : List ℕ → Str

abbrev pub template_version : Str
template_version = codes "v1"

abbrev pub default_subject : Str
default_subject = codes "chemistry"

abbrev pub level_document : Option ReadingLevel → Json
level_document none = Json.null
level_document (some level) = Json.text (level_value level)

abbrev pub constraints_document : JobConstraints → Json
constraints_document constraints = document (
    (codes "max_duration_s", Json.number constraints.max_duration_s)
    ∷ (codes "language", Json.text constraints.language)
    ∷ (codes "reading_level", level_document constraints.reading_level)
    ∷ [])

abbrev pub item_document : ContextItem → Json
item_document item =
    document
      ((codes "kind", Json.text (kind_value item.kind)) ∷ (codes "text", Json.text item.text) ∷ [])

unfoldable pub canonical_brief_payload : RawLessonRequest → Str → List ContextItem → Str → Json
canonical_brief_payload request instruction context version = document (
    (codes "template_version", Json.text version)
    ∷ (codes "profile", Json.text (profile_value request.profile))
    ∷ (codes "subject", Json.text default_subject)
    ∷ (codes "instruction", Json.text instruction)
    ∷ (codes "context", Json.array (items_of (map item_document context)))
    ∷ (codes "constraints", constraints_document request.constraints)
    ∷ [])

abbrev pub plain : List SanitisedContextItem → List ContextItem
plain items = map (λ item. record { kind = item.kind; text = item.text.text }) items

-- `verdict.decision is GuardDecision.DENY`
abbrev pub admit_verdict : GuardVerdict → GuardDecision → Result (Unit {0})
admit_verdict verdict GuardDecision.deny = err (
    Error.domain ErrorCode.invalid_request (
      (codes "field", codes "instruction")
      ∷ (codes "reason", codes "guard_denied")
      ∷ (codes "guard", verdict.guard_version)
      ∷ []))
admit_verdict verdict _ = ok tt

module _ (u : Uuid) (h : Hashing) (unicode : Unicode) where
  unfoldable pub brief_hash_of : Json → Str
  brief_hash_of payload = codes "sha256:" ++ h.sha256 (h.canonical payload)

  abbrev pub brief_of :
      RawLessonRequest
      → ℕ
      → Str
      → SanitisedText
      → List SanitisedContextItem
      → GuardVerdict
      → Str
      → LessonBrief
  brief_of request sealed_at version instruction context verdict brief_id = record {
    brief_id = brief_id;
    job_id = request.job_id;
    subject = default_subject;
    concept_id = none;
    instruction = instruction;
    context = context;
    constraints = request.constraints;
    profile = request.profile;
    guard = verdict;
    template_version = version;
    brief_hash =
        brief_hash_of (canonical_brief_payload request instruction.text (plain context) version);
    sealed_at = sealed_at;
  }

  unfoldable pub seal_brief : RawLessonRequest → Guard → ℕ → Str → Result LessonBrief
  seal_brief request guard sealed_at version = do
    instruction ← sanitise_instruction unicode request.instruction
    context ← sanitise_context unicode request.context
    admit_verdict (guard instruction context) (guard instruction context).decision
    brief_id ← derive_brief_id u request.job_id
    ok (brief_of request sealed_at version instruction context (guard instruction context) brief_id)

unfoldable pub brief_record : LessonBrief → BriefRecord
brief_record brief = record {
  brief_id = brief.brief_id;
  job_id = brief.job_id;
  brief_hash = brief.brief_hash;
  template_version = brief.template_version;
  subject = brief.subject;
  concept_id = brief.concept_id;
  instruction = brief.instruction.text;
  context_items = plain brief.context;
  constraints = brief.constraints;
  guard_verdict = guard_verdict_document brief.guard;
  sealed_at = brief.sealed_at;
}
