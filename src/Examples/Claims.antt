-- ===== src/Examples/Claims.antt =====
-- A worker's manifest with one video.
use growtrics_challenge.Common.{◌≡◌, refl, none, [], ◌∷◌}
use growtrics_challenge.Common.Text.{Str, codes, str_eq}
use growtrics_challenge.Common.Split.{split_on}
use growtrics_challenge.Domain.Contracts.{video_short_v1_contract, part_for_media_type}
use growtrics_challenge.Domain.Enums.{ArtifactRole, Audience}
use growtrics_challenge.Domain.Ids.{join_with}
use growtrics_challenge.Effects.{ok, err}
use growtrics_challenge.Generation.Manifest.{
  WorkerStatus, RawArtifactDescriptor, GenerationOutcome, ArtifactDescriptor,
}
use growtrics_challenge.Generation.Paths.{
  normalise_rel_path, is_component, check_components, rejected,
}
use growtrics_challenge.Generation.Paths.Plain.{IsPlainPath, normalise_rel_path-IsPlainPath}
use growtrics_challenge.Generation.Acl.{
  accept_descriptors, accept_each, accept_one, part_of, role_of, has_duplicates, check_parts,
  declared_total, assert_set_fits_contract,
}
use growtrics_challenge.Generation.Acl.Accepted.{IsAccepted, accept_descriptors-IsAccepted}

abbrev path : Str
path = codes "out/lesson.mp4"

accepted_path : normalise_rel_path path ≡ ok path
unfolding normalise_rel_path is_component split_on check_components join_with str_eq
accepted_path = refl

refused_path :
    normalise_rel_path (codes "out/../etc/passwd") ≡ err (rejected (codes "parent_traversal") [])
unfolding normalise_rel_path is_component split_on check_components join_with str_eq
refused_path = refl

normalise_rel_path-IsPlainPath_example : (path ≡ path) × IsPlainPath path
normalise_rel_path-IsPlainPath_example = normalise_rel_path-IsPlainPath path path accepted_path

abbrev video : RawArtifactDescriptor
video = record {
  role = codes "PRIMARY";
  media_type = codes "video/mp4";
  rel_path = path;
  size_bytes = 1000;
  sha256 = none;
}

abbrev outcome : GenerationOutcome
outcome = record {
  session_id = codes "ses_a";
  status = WorkerStatus.qualified;
  descriptors = video ∷ [];
}

abbrev descriptor : ArtifactDescriptor
descriptor = record {
  role = ArtifactRole.primary;
  audience = Audience.learner;
  media_type = codes "video/mp4";
  rel_path = path;
  declared_size_bytes = 1000;
  declared_sha256 = none;
}

accepted : accept_descriptors video_short_v1_contract (codes "ses_a") outcome ≡ ok (descriptor ∷ [])
unfolding accept_descriptors accept_each accept_one part_of role_of part_for_media_type
    has_duplicates check_parts declared_total assert_set_fits_contract normalise_rel_path
    is_component split_on check_components join_with str_eq
accepted = refl

accept_descriptors-IsAccepted_example :
    IsAccepted video_short_v1_contract outcome (codes "ses_a") (descriptor ∷ [])
accept_descriptors-IsAccepted_example =
    accept_descriptors-IsAccepted video_short_v1_contract (codes "ses_a") outcome (descriptor ∷ [])
      accepted
