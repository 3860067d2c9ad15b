-- ===== src/Generation/Acl.antt =====
-- `accept_descriptors` of src/app/generation/acl.py: all of a worker's claims, or an error.
pub mod Accepted
use growtrics_challenge.Common.{
  ℕ, ◌+◌, Bool, true, false, ◌&&◌, not, Option, none, some, List, [], ◌∷◌, map, length, count_if,
  if◌then◌else◌, ltb, ◌==◌,
}
use growtrics_challenge.Common.Text.{Str, codes, str_eq, decimal}
use growtrics_challenge.Domain.Contracts.{
  OutputContract, PartSpec, part_for_media_type, find_part, among,
}
use growtrics_challenge.Domain.Enums.{ArtifactRole, role_eq, role_value}
use growtrics_challenge.Domain.Errors.{Error, ErrorCode, Details}
use growtrics_challenge.Effects.{Result, ok, err}
use growtrics_challenge.Effects.Pure.{◌>>=◌, ◌>>◌}
use growtrics_challenge.Generation.Manifest.{
  WorkerStatus, RawArtifactDescriptor, GenerationOutcome, ArtifactDescriptor,
}
use growtrics_challenge.Generation.Paths.{rejected, normalise_rel_path}

-- `if condition: raise _reject(...)`
abbrev pub unless : Bool → Error → Result (Unit {0})
unless true e = err e
unless false e = ok tt

abbrev pub of_role : ArtifactRole → Details
of_role role = (codes "role", role_value role) ∷ []

abbrev pub all_roles : List ArtifactRole
all_roles =
    ArtifactRole.primary ∷ ArtifactRole.poster ∷ ArtifactRole.transcript ∷ ArtifactRole.captions
    ∷ ArtifactRole.asset ∷ ArtifactRole.source ∷ ArtifactRole.log ∷ []

abbrev pub role_among : Str → List ArtifactRole → Result ArtifactRole
role_among raw [] = err (rejected (codes "unknown_role") [])
role_among raw (role ∷ roles) =
    let rest = role_among raw roles in if str_eq raw (role_value role) then ok role else rest

-- `ArtifactRole(raw)`, by its wire value.
unfoldable pub role_of : Str → Result ArtifactRole
role_of raw = role_among raw all_roles

abbrev pub has_role : ArtifactRole → List PartSpec → Bool
has_role role [] = false
has_role role (part ∷ parts) =
    let rest = has_role role parts in if role_eq part.role role then true else rest

-- Why a media type that is not the role's is refused.
abbrev pub misplaced : OutputContract → ArtifactRole → Error
misplaced contract role =
    if has_role role contract.parts
    then rejected (codes "media_type_not_in_part") (of_role role)
    else rejected (codes "role_not_in_contract") (of_role role)

unfoldable pub part_of : OutputContract → ArtifactRole → Option PartSpec → Result PartSpec
part_of contract role none = err (misplaced contract role)
part_of contract role (some part) =
    if role_eq part.role role then ok part else err (misplaced contract role)

abbrev pub descriptor_of :
    ArtifactRole → PartSpec → RawArtifactDescriptor → Str → ArtifactDescriptor
descriptor_of role part raw rel_path = record {
  role = role;
  audience = part.audience;
  media_type = raw.media_type;
  rel_path = rel_path;
  declared_size_bytes = raw.size_bytes;
  declared_sha256 = raw.sha256;
}

-- The body of the loop over `outcome.descriptors`.
unfoldable pub accept_one : OutputContract → RawArtifactDescriptor → Result ArtifactDescriptor
unfolding part_of
accept_one contract raw = do
  role ← role_of raw.role
  part ← part_of contract role (part_for_media_type contract raw.media_type)
  unless (ltb part.max_bytes raw.size_bytes)
      (rejected (codes "declared_size_over_cap") (of_role role))
  rel_path ← normalise_rel_path raw.rel_path
  ok (descriptor_of role part raw rel_path)

unfoldable pub accept_each :
    OutputContract → List RawArtifactDescriptor → Result (List ArtifactDescriptor)
unfolding accept_one
accept_each contract [] = ok []
accept_each contract (raw ∷ raws) = do
  one ← accept_one contract raw
  rest ← accept_each contract raws
  ok (one ∷ rest)

-- `len(set(paths)) != len(paths)`
unfoldable pub has_duplicates : List Str → Bool
has_duplicates [] = false
has_duplicates (p ∷ ps) = let rest = has_duplicates ps in if among p ps then true else rest

abbrev pub path_of : ArtifactDescriptor → Str
path_of d = d.rel_path

abbrev pub is_of : PartSpec → ArtifactDescriptor → Bool
is_of part d = role_eq d.role part.role

-- The loop over `contract.parts`.
unfoldable pub check_parts : List ArtifactDescriptor → List PartSpec → Result (Unit {0})
check_parts ds [] = ok tt
check_parts ds (part ∷ parts) = do
  unless (ltb part.max_count (count_if (is_of part) ds))
      (rejected (codes "too_many_for_role") (of_role part.role))
  unless (part.required && (count_if (is_of part) ds == 0))
      (rejected (codes "missing_required_part") (of_role part.role))
  check_parts ds parts

unfoldable pub declared_total : List ArtifactDescriptor → ℕ
declared_total [] = 0
declared_total (d ∷ ds) = d.declared_size_bytes + declared_total ds

abbrev pub declared : ℕ → Details
declared n = (codes "declared", decimal n) ∷ []

-- `_assert_set_fits_contract`
unfoldable pub assert_set_fits_contract :
    OutputContract → List ArtifactDescriptor → Result (Unit {0})
unfolding has_duplicates check_parts declared_total
assert_set_fits_contract contract ds = do
  unless (has_duplicates (map path_of ds)) (rejected (codes "duplicate_path") [])
  unless (ltb contract.max_file_count (length ds))
      (rejected (codes "too_many_files") (declared (length ds)))
  check_parts ds contract.parts
  unless (ltb contract.total_max_bytes (declared_total ds))
      (rejected (codes "declared_total_over_cap") (declared (declared_total ds)))

abbrev pub is_failed : WorkerStatus → Bool
is_failed WorkerStatus.failed = true
is_failed _ = false

unfoldable pub accept_descriptors :
    OutputContract → Str → GenerationOutcome → Result (List ArtifactDescriptor)
unfolding accept_each assert_set_fits_contract
accept_descriptors contract expected_session_id outcome = do
  unless (not (str_eq outcome.session_id expected_session_id))
      (rejected (codes "session_mismatch") [])
  unless (is_failed outcome.status) (rejected (codes "worker_reported_failure") [])
  accepted ← accept_each contract outcome.descriptors
  assert_set_fits_contract contract accepted
  ok accepted
