-- ===== src/Custody/Verifier.antt =====
-- src/app/custody/verifier.py: the named checks, the chain of a part, and the verdict.
pub mod Verdicts
use growtrics_challenge.Common.{
  ℕ, ◌-◌, Bool, true, false, ◌&&◌, not, Option, none, some, List, [], ◌∷◌, length, take, drop,
  keep_if, count_if, if◌then◌else◌, ltb, leb, ◌==◌,
}
use growtrics_challenge.Common.Text.{Str, codes, str_eq}
use growtrics_challenge.Common.Dict.{Dict, lookup}
use growtrics_challenge.Domain.Contracts.{OutputContract, PartSpec, part_for_role}
use growtrics_challenge.Domain.Enums.{ScanVerdict, ArtifactRole, role_eq, role_value, is_clean}
use growtrics_challenge.Domain.Errors.{Error, ErrorCode}
use growtrics_challenge.Domain.Json.{Json, document}
use growtrics_challenge.Effects.{Result, ok, err}
use growtrics_challenge.Effects.Pure.{◌>>=◌, ◌>>◌}
use growtrics_challenge.Generation.Acl.{unless, of_role}
use growtrics_challenge.Generation.Paths.{rejected}
use growtrics_challenge.Custody.Candidates.{
  HarvestedFile, CheckOutcome, new_outcome, VerifiedArtifact, Outside,
}

abbrev pub validator_version : Str
validator_version = codes "custody.video.v1"

abbrev pub log_line_cap : ℕ
log_line_cap = 10000

pub record CheckInput : Type 0 where
  pub content : List ℕ
  pub part : PartSpec
  pub contract : OutputContract
  pub requested_max_duration_s : ℕ

abbrev pub CheckFn : Type 0
CheckFn = CheckInput → Result Bool

abbrev pub mp4_brand_offset : ℕ
mp4_brand_offset = 4

abbrev pub mp4_header_min : ℕ
mp4_header_min = 12

-- `data[4:8] == b"ftyp"`, by the bytes of the literal.
unfoldable pub container_is_mp4 : CheckFn
container_is_mp4 check = ok (
    leb mp4_header_min (length check.content)
    && str_eq (take 4 (drop mp4_brand_offset check.content)) (codes "ftyp"))

-- `data.count(b"\n") <= LOG_LINE_CAP`
unfoldable pub line_count_cap : CheckFn
line_count_cap check = ok (leb (count_if (λ b. b == 10) check.content) log_line_cap)

abbrev pub deferred : CheckFn
deferred check = err Error.not_implemented

abbrev pub deferred_detail : Str
deferred_detail = codes "deferred: needs a media probe (docs/plan/06-trust-boundary.md)"

-- What `_run` makes of what the check did: only `NotImplementedError` is caught.
unfoldable pub outcome_of : Str → Result Bool → Result CheckOutcome
outcome_of name (ok passed) = new_outcome name passed false []
outcome_of name (err Error.not_implemented) = new_outcome name false true deferred_detail
outcome_of name (err e) = err e

run_registered : Str → Option CheckFn → CheckInput → Result CheckOutcome
run_registered name none payload = new_outcome name false true (codes "unregistered")
run_registered name (some check) payload = outcome_of name (check payload)

abbrev pub is_failure : CheckOutcome → Bool
is_failure item = not item.passed && not item.skipped

abbrev pub is_skip : CheckOutcome → Bool
is_skip item = item.skipped

abbrev pub any_failure : List CheckOutcome → Bool
any_failure [] = false
any_failure (item ∷ items) = let rest = any_failure items in if is_failure item then true else rest

module _ (o : Outside) where
  unfoldable pub utf8_decodes : CheckFn
  utf8_decodes check = ok (o.is_utf8 check.content)

  abbrev pub check_table : Dict CheckFn
  check_table =
      (codes "container_is_mp4", container_is_mp4)
      ∷ (codes "utf8_decodes", utf8_decodes)
      ∷ (codes "line_count_cap", line_count_cap)
      ∷ (codes "video_stream_present", deferred)
      ∷ (codes "audio_stream_present", deferred)
      ∷ (codes "audio_not_silent", deferred)
      ∷ (codes "duration_within_bounds", deferred)
      ∷ (codes "resolution_at_least_720p", deferred)
      ∷ (codes "no_blank_frames", deferred)
      ∷ (codes "image_decodes", deferred)
      ∷ (codes "aspect_matches_video", deferred)
      ∷ (codes "length_plausible_for_duration", deferred)
      ∷ (codes "vtt_parses", deferred)
      ∷ (codes "cue_times_within_duration", deferred)
      ∷ (codes "trace_id_present", deferred)
      ∷ []

  -- `_run`
  unfoldable pub run_check : Str → CheckInput → Result CheckOutcome
  unfolding run_registered outcome_of
  run_check name payload = run_registered name (lookup name check_table) payload

  unfoldable pub run_checks : List Str → CheckInput → Result (List CheckOutcome)
  unfolding run_check
  run_checks [] payload = ok []
  run_checks (name ∷ names) payload = do
    one ← run_check name payload
    rest ← run_checks names payload
    ok (one ∷ rest)

  abbrev pub probe_of : HarvestedFile → List CheckOutcome → Json
  probe_of harvested outcomes = document (
      (codes "size_bytes", Json.number harvested.size_bytes)
      ∷ (codes "content_hash", Json.text harvested.content_hash)
      ∷ (codes "media_type", Json.text harvested.descriptor.media_type)
      ∷ (codes "rel_path", Json.text harvested.descriptor.rel_path)
      ∷ (codes "validator_version", Json.text validator_version)
      ∷ (codes "checks_run", Json.number (length outcomes - count_if is_skip outcomes))
      ∷ (codes "checks_skipped", Json.number (count_if is_skip outcomes))
      ∷ (codes "worker_claim_agreed", Json.boolean harvested.claim_agreed)
      ∷ [])

  abbrev pub judged : HarvestedFile → List CheckOutcome → VerifiedArtifact
  judged harvested outcomes = record {
    harvested = harvested;
    verdict = if any_failure outcomes then ScanVerdict.quarantined else ScanVerdict.clean;
    checks = outcomes;
    validator_version = validator_version;
    probe = probe_of harvested outcomes;
  }

  abbrev pub input_of : HarvestedFile → OutputContract → ℕ → PartSpec → CheckInput
  input_of harvested contract requested_max_duration_s part = record {
    content = harvested.content;
    part = part;
    contract = contract;
    requested_max_duration_s = requested_max_duration_s;
  }

  -- `ContractResultValidator.verify`
  unfoldable pub verify : OutputContract → ℕ → HarvestedFile → Result VerifiedArtifact
  unfolding run_checks
  verify contract requested_max_duration_s harvested = do
    part ← part_for_role contract harvested.descriptor.role
    outcomes ← run_checks part.checks (input_of harvested contract requested_max_duration_s part)
    ok (judged harvested outcomes)

  -- The tuple of verdicts in `Custody.harvest`.
  unfoldable pub verify_all :
      OutputContract → ℕ → List HarvestedFile → Result (List VerifiedArtifact)
  unfolding verify
  verify_all contract requested_max_duration_s [] = ok []
  verify_all contract requested_max_duration_s (file ∷ files) = do
    one ← verify contract requested_max_duration_s file
    rest ← verify_all contract requested_max_duration_s files
    ok (one ∷ rest)

abbrev pub role_of_file : VerifiedArtifact → ArtifactRole
role_of_file item = item.harvested.descriptor.role

-- `[item for item in verified if item.harvested.descriptor.role is part.role]`
abbrev pub present : PartSpec → List VerifiedArtifact → List VerifiedArtifact
present part verified = keep_if (λ item. role_eq (role_of_file item) part.role) verified

abbrev pub any_clean : List VerifiedArtifact → Bool
any_clean [] = false
any_clean (item ∷ items) =
    let rest = any_clean items in if is_clean item.verdict then true else rest

abbrev pub is_nothing : List VerifiedArtifact → Bool
is_nothing [] = true
is_nothing (item ∷ items) = false

unfoldable pub require_part : PartSpec → List VerifiedArtifact → Result (Unit {0})
require_part part verified = do
  unless (part.required && is_nothing (present part verified))
      (rejected (codes "missing_required_part") (of_role part.role))
  unless (part.required && not (any_clean (present part verified)))
      (rejected (codes "required_part_quarantined") (of_role part.role))

unfoldable pub require_parts : List PartSpec → List VerifiedArtifact → Result (Unit {0})
unfolding require_part
require_parts [] verified = ok tt
require_parts (part ∷ parts) verified = do require_part part verified; require_parts parts verified

unfoldable pub require_complete : List VerifiedArtifact → OutputContract → Result (Unit {0})
unfolding require_parts
require_complete verified contract = require_parts contract.parts verified
