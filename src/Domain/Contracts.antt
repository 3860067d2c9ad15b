-- ===== src/Domain/Contracts.antt =====
-- src/app/domain/contracts.py: what must exist when generation finishes.
use growtrics_challenge.Common.{
  ℕ, ◌+◌, ◌-◌, ◌*◌, min, Bool, true, false, Option, none, some, List, [], ◌∷◌, map, if◌then◌else◌,
}
use growtrics_challenge.Common.Order.{str_order}
use growtrics_challenge.Common.Sort.{sort_by}
use growtrics_challenge.Common.Text.{Str, codes, str_eq}
use growtrics_challenge.Domain.Enums.{
  ArtifactRole, Audience, ProfileId, role_eq, role_value, audience_value, profile_value,
}
use growtrics_challenge.Domain.Errors.{Error, ErrorCode}
use growtrics_challenge.Domain.Json.{Json, document, items_of}
use growtrics_challenge.Effects.{Result, ok, err}

abbrev pub kib : ℕ
kib = 1024

abbrev pub mib : ℕ
mib = 1024 * 1024

abbrev pub harvest_root : Str
harvest_root = codes "out"

pub record ServingPolicy : Type 0 where
  pub origin : Str
  pub disposition : Str
  pub csp : Option Str
  pub sandbox : Bool
  pub nosniff : Bool

-- `media_types` is a `frozenset` of texts; only membership in it is asked for.
pub record PartSpec : Type 0 where
  pub role : ArtifactRole
  pub audience : Audience
  pub required : Bool
  pub media_types : List Str
  pub max_bytes : ℕ
  pub max_count : ℕ
  pub checks : List Str

-- The tolerance, a float in the source, by its hundredths.
pub record OutputContract : Type 0 where
  pub profile_id : ProfileId
  pub contract_version : Str
  pub parts : List PartSpec
  pub total_max_bytes : ℕ
  pub max_file_count : ℕ
  pub max_duration_cap_s : ℕ
  pub duration_tolerance_percent : ℕ
  pub serving : ServingPolicy

abbrev pub primary_part : PartSpec
primary_part = record {
  role = ArtifactRole.primary;
  audience = Audience.learner;
  required = true;
  media_types = codes "video/mp4" ∷ [];
  max_bytes = 64 * mib;
  max_count = 1;
  checks =
      codes "container_is_mp4"
      ∷ codes "video_stream_present"
      ∷ codes "audio_stream_present"
      ∷ codes "audio_not_silent"
      ∷ codes "duration_within_bounds"
      ∷ codes "resolution_at_least_720p"
      ∷ codes "no_blank_frames"
      ∷ [];
}

abbrev pub video_parts : List PartSpec
video_parts =
    primary_part
    ∷ (record {
      role = ArtifactRole.poster;
      audience = Audience.learner;
      required = false;
      media_types = codes "image/png" ∷ codes "image/jpeg" ∷ [];
      max_bytes = 2 * mib;
      max_count = 1;
      checks = codes "image_decodes" ∷ codes "aspect_matches_video" ∷ [];
    })
    ∷ (record {
      role = ArtifactRole.transcript;
      audience = Audience.learner;
      required = false;
      media_types = codes "text/plain" ∷ [];
      max_bytes = 256 * kib;
      max_count = 1;
      checks = codes "utf8_decodes" ∷ codes "length_plausible_for_duration" ∷ [];
    })
    ∷ (record {
      role = ArtifactRole.captions;
      audience = Audience.learner;
      required = false;
      media_types = codes "text/vtt" ∷ [];
      max_bytes = 256 * kib;
      max_count = 1;
      checks = codes "vtt_parses" ∷ codes "cue_times_within_duration" ∷ [];
    })
    ∷ (record {
      role = ArtifactRole.log;
      audience = Audience.operator;
      required = false;
      media_types = codes "application/x-ndjson" ∷ [];
      max_bytes = 8 * mib;
      max_count = 4;
      checks = codes "utf8_decodes" ∷ codes "line_count_cap" ∷ codes "trace_id_present" ∷ [];
    })
    ∷ []

abbrev pub video_short_v1_contract : OutputContract
video_short_v1_contract = record {
  profile_id = ProfileId.video_short_v1;
  contract_version = codes "v1";
  parts = video_parts;
  total_max_bytes = 80 * mib;
  max_file_count = 24;
  max_duration_cap_s = 120;
  duration_tolerance_percent = 10;
  serving = record {
    origin = codes "API";
    disposition = codes "inline";
    csp = none;
    sandbox = false;
    nosniff = true;
  };
}

-- `ENABLED_CONTRACTS.get(profile)`
abbrev pub enabled_contract : ProfileId → Option OutputContract
enabled_contract ProfileId.video_short_v1 = some video_short_v1_contract
enabled_contract ProfileId.html_lesson_v1 = none

unfoldable pub contract_for : ProfileId → Result OutputContract
contract_for profile = elim (enabled_contract profile) [
  | none ↦ err (
      Error.domain ErrorCode.invalid_request
        ((codes "field", codes "options.profile") ∷ (codes "profile", profile_value profile) ∷ []))
  | some contract ↦ ok contract
]

-- `media_type in part.media_types`
abbrev pub among : Str → List Str → Bool
among s [] = false
among s (t ∷ ts) = let rest = among s ts in if str_eq s t then true else rest

-- The first part that passes a test.
abbrev pub find_part : (PartSpec → Bool) → List PartSpec → Option PartSpec
find_part p [] = none
find_part p (part ∷ parts) = let rest = find_part p parts in if p part then some part else rest

unfoldable pub part_for_role : OutputContract → ArtifactRole → Result PartSpec
part_for_role contract role = elim (find_part (λ part. role_eq part.role role) contract.parts) [
  | none ↦ err (
      Error.domain ErrorCode.generation_failed
        ((codes "reason", codes "role_not_in_contract") ∷ (codes "role", role_value role) ∷ []))
  | some part ↦ ok part
]

unfoldable pub part_for_media_type : OutputContract → Str → Option PartSpec
part_for_media_type contract media_type =
    find_part (λ part. among media_type part.media_types) contract.parts

-- The window of durations, in hundredths of a second; the tolerance is at most the whole.
unfoldable pub duration_bounds_s : OutputContract → ℕ → ℕ × ℕ
duration_bounds_s contract requested_max_duration_s =
    let effective = min requested_max_duration_s contract.max_duration_cap_s in
    (
      effective * (100 - contract.duration_tolerance_percent),
      effective * (100 + contract.duration_tolerance_percent),
    )

abbrev pub texts_of : List Str → Json
texts_of texts = Json.array (items_of (map (λ text. Json.text text) texts))

abbrev pub part_document : PartSpec → Json
part_document part = document (
    (codes "role", Json.text (role_value part.role))
    ∷ (codes "audience", Json.text (audience_value part.audience))
    ∷ (codes "required", Json.boolean part.required)
    ∷ (codes "media_types", texts_of (sort_by str_order (λ text. text) part.media_types))
    ∷ (codes "max_bytes", Json.number part.max_bytes)
    ∷ (codes "max_count", Json.number part.max_count)
    ∷ (codes "checks", texts_of part.checks)
    ∷ [])

abbrev pub csp_document : Option Str → Json
csp_document none = Json.null
csp_document (some csp) = Json.text csp

abbrev pub serving_document : ServingPolicy → Json
serving_document serving = document (
    (codes "origin", Json.text serving.origin)
    ∷ (codes "disposition", Json.text serving.disposition)
    ∷ (codes "csp", csp_document serving.csp)
    ∷ (codes "sandbox", Json.boolean serving.sandbox)
    ∷ (codes "nosniff", Json.boolean serving.nosniff)
    ∷ [])

-- The tolerance, a float, by the text of it that is handed in.
unfoldable pub contract_document : Str → OutputContract → Json
contract_document tolerance contract = document (
    (codes "profile_id", Json.text (profile_value contract.profile_id))
    ∷ (codes "contract_version", Json.text contract.contract_version)
    ∷ (codes "harvest_root", Json.text harvest_root)
    ∷ (codes "parts", Json.array (items_of (map part_document contract.parts)))
    ∷ (codes "total_max_bytes", Json.number contract.total_max_bytes)
    ∷ (codes "max_file_count", Json.number contract.max_file_count)
    ∷ (codes "max_duration_cap_s", Json.number contract.max_duration_cap_s)
    ∷ (codes "duration_tolerance", Json.real tolerance)
    ∷ (codes "serving", serving_document contract.serving)
    ∷ [])
