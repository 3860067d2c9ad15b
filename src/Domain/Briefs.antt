-- ===== src/Domain/Briefs.antt =====
-- src/app/domain/brief.py: cleaned text, the guard's verdict, the brief and the worker's files. The
-- mint of a cleaned text, whose refusals need a caller that goes past it, is its constructor.
use growtrics_challenge.Common.{ℕ, Bool, Option, List, [], ◌∷◌, map, if◌then◌else◌}
use growtrics_challenge.Common.Text.{Str, codes, str_eq}
use growtrics_challenge.Domain.Enums.{ContextKind, ProfileId}
use growtrics_challenge.Domain.Errors.{Error, ErrorCode}
use growtrics_challenge.Domain.Json.{Json, document, items_of}
use growtrics_challenge.Domain.Records.{JobConstraints}
use growtrics_challenge.Effects.{Result, ok, err}

pub record SanitisedText : Type 0 where
  pub text : Str
  pub original_length : ℕ
  pub truncated : Bool

pub record SanitisedContextItem : Type 0 where
  pub kind : ContextKind
  pub text : SanitisedText

pub data GuardDecision : Type 0 where
  allow review deny : GuardDecision

abbrev pub decision_value : GuardDecision → Str
decision_value GuardDecision.allow = codes "ALLOW"
decision_value GuardDecision.review = codes "REVIEW"
decision_value GuardDecision.deny = codes "DENY"

pub record GuardVerdict : Type 0 where
  pub decision : GuardDecision
  pub risk : ℕ
  pub matched_rules : List Str
  pub guard_version : Str

abbrev pub guard_verdict_document : GuardVerdict → Json
guard_verdict_document verdict = document (
    (codes "decision", Json.text (decision_value verdict.decision))
    ∷ (codes "risk", Json.number verdict.risk)
    ∷ (
      codes "matched_rules",
      Json.array (items_of (map (λ rule. Json.text rule) verdict.matched_rules)),
    )
    ∷ (codes "guard_version", Json.text verdict.guard_version)
    ∷ [])

pub record LessonBrief : Type 0 where
  pub brief_id : Str
  pub job_id : Str
  pub subject : Str
  pub concept_id : Option Str
  pub instruction : SanitisedText
  pub context : List SanitisedContextItem
  pub constraints : JobConstraints
  pub profile : ProfileId
  pub guard : GuardVerdict
  pub template_version : Str
  pub brief_hash : Str
  pub sealed_at : ℕ

pub record BundleFile : Type 0 where
  pub path : Str
  pub text : Str

pub record BriefBundle : Type 0 where
  pub brief_id : Str
  pub template_version : Str
  pub brief_hash : Str
  pub files : List BundleFile

abbrev file_in : Str → List BundleFile → Result BundleFile
file_in path [] = err (
    Error.domain ErrorCode.invalid_request
      ((codes "field", codes "path") ∷ (codes "reason", codes "not_in_bundle") ∷ []))
file_in path (item ∷ items) =
    let rest = file_in path items in if str_eq item.path path then ok item else rest

-- `BriefBundle.file`
unfoldable pub file_of : BriefBundle → Str → Result BundleFile
file_of bundle path = file_in path bundle.files
