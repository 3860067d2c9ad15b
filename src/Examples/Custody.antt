-- ===== src/Examples/Custody.antt =====
-- Custody on a small video.
use growtrics_challenge.Common.{
  ℕ, zero, suc, ◌≡◌, ◌↔◌, map, refl, none, some, List, [], ◌∷◌, ◌++◌, arith, true, false,
}
use growtrics_challenge.Common.Text.{Str, codes, str_eq}
use growtrics_challenge.Common.Dict.{lookup}
use growtrics_challenge.Common.Split.{split_on, strip_prefix}
use growtrics_challenge.Domain.Contracts.{
  video_short_v1_contract, primary_part, part_for_role, part_for_media_type, contract_for,
}
use growtrics_challenge.Domain.Enums.{ScanVerdict, ArtifactRole, Audience, ProfileId}
use growtrics_challenge.Domain.Json.{Json}
use growtrics_challenge.Domain.Records.{ArtifactRecord}
use growtrics_challenge.Effects.{ok}
use growtrics_challenge.Generation.Acl.{role_of, accept_descriptors}
use growtrics_challenge.Generation.Paths.{normalise_rel_path}
use growtrics_challenge.Generation.Manifest.{WorkerStatus, GenerationOutcome}
use growtrics_challenge.Orchestration.Ports.{HarvestOutcome}
use growtrics_challenge.Orchestration.Ports
use growtrics_challenge.Domain.Ids.{
  join_with, derive, derive_artifact_id, encode_crockford, encode_loop, alphabet_char, from_bytes,
}
use growtrics_challenge.Storage.Objects.{put_object, safe_uri, ensure_safe_key, build_storage_uri}
use growtrics_challenge.Storage.Artifacts.{insert_artifact}
use growtrics_challenge.Generation.Paths.{is_component}
use growtrics_challenge.Custody.Candidates.{
  new_outcome, HarvestedFile, CheckOutcome, VerifiedArtifact, Outside,
}
use growtrics_challenge.Custody.Verifier.{
  container_is_mp4, verify_all, require_complete, deferred_detail, input_of, judged, verify,
}
use growtrics_challenge.Custody.Verifier.Verdicts.{NoneFails, verify_lem}
use growtrics_challenge.Custody.Verifier.Verdicts.Mp4.{HasMp4Header, verify-HasMp4Header}
use growtrics_challenge.Custody.Store.{Owner, row_for, publish_all, object_key}
use growtrics_challenge.Custody.Store.Backed.{Backed, Kept}
use growtrics_challenge.Custody.Service.{harvest, publish, open_content, primary_of}
use growtrics_challenge.Custody.Service.Delivered.{IsDelivered}
use growtrics_challenge.Custody.Service.Downloads.{Answer, open_content-Answer}
use growtrics_challenge.Custody.Service.Harvests.{harvest_keeps, harvest_delivers}
use growtrics_challenge.Custody.Harvester.{harvest_files, parse_outcome, claim_agreed}
use growtrics_challenge.Custody.Harvester.Measured.{IsHarvest, Untouched, harvest_files-IsHarvest}
use growtrics_challenge.Storage.State.{World}
use growtrics_challenge.Examples.Data.{empty, fixed_uuid}

abbrev pub zeros : ℕ → Str
zeros zero = []
zeros (suc n) = b'0' ∷ zeros n

abbrev pub video_bytes : List ℕ
video_bytes = 0 ∷ 0 ∷ 0 ∷ 24 ∷ (codes "ftypisom" ++ (0 ∷ 0 ∷ []))

-- The session that the stand-in for `uuid5` derives.
abbrev pub session : Str
session = codes "ses_01081G81860W40J2GB1G6GW3ZZ"

abbrev pub manifest : GenerationOutcome
manifest = record {
  session_id = session;
  status = WorkerStatus.completed;
  descriptors =
      (record {
        role = codes "PRIMARY";
        media_type = codes "video/mp4";
        rel_path = codes "out/lesson.mp4";
        size_bytes = 14;
        sha256 = none;
      })
      ∷ [];
}

-- A worker that has one file, and a hash that is the same for all bytes.
abbrev pub outside : Outside
outside = record {
  sha256 = λ content. zeros 64;
  length-sha256 = λ content. refl;
  is_utf8 = λ content. true;
  parse_manifest = λ payload. some manifest;
  fetch = λ session_id rel_path max_bytes w. (ok video_bytes, w);
  fetch_database = λ session_id rel_path max_bytes w. refl;
  fetch_objects = λ session_id rel_path max_bytes w. refl;
}

abbrev pub video_file : HarvestedFile
video_file = record {
  descriptor = record {
    role = ArtifactRole.primary;
    audience = Audience.learner;
    media_type = codes "video/mp4";
    rel_path = codes "out/lesson.mp4";
    declared_size_bytes = 14;
    declared_sha256 = none;
  };
  content = video_bytes;
  size_bytes = 14;
  content_hash = codes "sha256:" ++ zeros 64;
  claim_agreed = true;
}

files_lem :
    (harvest_files outside Json.null video_short_v1_contract (session) empty).0
    ≡ ok (video_file ∷ [])
unfolding harvest_files claim_agreed accept_descriptors part_for_role part_for_media_type role_of
    str_eq split_on normalise_rel_path parse_outcome is_component join_with
files_lem = refl

-- The outcomes of the checks: one passed, and the others are deferred.
abbrev pub outcomes : List CheckOutcome
outcomes =
    record { name = codes "container_is_mp4"; passed = true; skipped = false; detail = [] }
    ∷ map (λ n. record { name = n; passed = false; skipped = true; detail = deferred_detail })
        (codes "video_stream_present"
          ∷ codes "audio_stream_present"
          ∷ codes "audio_not_silent"
          ∷ codes "duration_within_bounds"
          ∷ codes "resolution_at_least_720p"
          ∷ codes "no_blank_frames"
          ∷ [])

abbrev pub verified_video : VerifiedArtifact
verified_video = judged outside video_file outcomes

harvest_files-IsHarvest_example :
    IsHarvest outside video_short_v1_contract (session) Json.null (video_file ∷ [])
    × Untouched empty (harvest_files outside Json.null video_short_v1_contract (session) empty).1
harvest_files-IsHarvest_example =
    harvest_files-IsHarvest outside video_short_v1_contract (session) Json.null empty
      (video_file ∷ []) files_lem

part_lem : part_for_role video_short_v1_contract ArtifactRole.primary ≡ ok primary_part
unfolding part_for_role
part_lem = refl

verify_lem_example :
    (v : VerifiedArtifact) × (verify outside video_short_v1_contract 60 video_file ≡ ok v)
    × (v.harvested ≡ video_file)
    × ((v.verdict ≡ ScanVerdict.clean)
        ↔ NoneFails outside
            (input_of outside video_file video_short_v1_contract 60 primary_part)
            primary_part.checks)
verify_lem_example = verify_lem outside video_short_v1_contract 60 video_file primary_part part_lem

verified_lem : (verify outside video_short_v1_contract 60 video_file) ≡ ok verified_video
unfolding verify part_for_role lookup str_eq container_is_mp4 new_outcome
verified_lem = refl

verify-HasMp4Header_example :
    (ScanVerdict.clean ≡ ScanVerdict.clean) ↔ HasMp4Header outside video_bytes
verify-HasMp4Header_example =
    verify-HasMp4Header outside 60 video_file verified_video refl verified_lem

abbrev pub long_job_id : Str
long_job_id = codes "job_" ++ zeros 26

abbrev pub video_owner : Owner
video_owner = record { job_id = long_job_id; principal_id = codes "u_a"; chat_context_id = none }

abbrev pub document : Ports.GenerationOutcome
document = record { session_id = session; document = Json.null }

harvest_keeps_example :
    Kept outside
      (codes "lessons")
      empty
      (harvest outside fixed_uuid
        (codes "lessons")
        long_job_id
        (codes "u_a")
        none
        ProfileId.video_short_v1
        60
        document
        empty).1
harvest_keeps_example =
    harvest_keeps outside (codes "lessons") fixed_uuid video_owner refl 60 ProfileId.video_short_v1
      document empty tt

abbrev pub stored_video : ArtifactRecord
stored_video =
    row_for verified_video video_owner
      (codes "memory://lessons/artifacts/"
        ++ (long_job_id ++ (codes "/" ++ (zeros 64 ++ codes ".mp4"))))
      100 (codes "art_01081G81860W40J2GB1G6GW3ZZ")

abbrev pub delivery : HarvestOutcome
delivery = record { primary = stored_video; artifacts = stored_video ∷ [] }

delivery_lem :
    (harvest outside fixed_uuid
      (codes "lessons")
      long_job_id
      (codes "u_a")
      none
      ProfileId.video_short_v1
      60
      document
      empty).0
    ≡ ok delivery
unfolding harvest contract_for harvest_files claim_agreed accept_descriptors part_for_role
    part_for_media_type role_of str_eq split_on normalise_rel_path parse_outcome is_component
    join_with verify_all lookup container_is_mp4 new_outcome require_complete publish_all put_object
    safe_uri ensure_safe_key object_key strip_prefix build_storage_uri derive_artifact_id derive
    encode_crockford insert_artifact primary_of encode_loop alphabet_char from_bytes
delivery_lem = refl

abbrev pub after : World
after =
    (harvest outside fixed_uuid (codes "lessons") long_job_id (codes "u_a") none
      ProfileId.video_short_v1 60 document empty).1

harvest_delivers_example :
    IsDelivered outside (codes "lessons") video_owner delivery after
    × (publish stored_video after ≡ (ok stored_video, after))
harvest_delivers_example =
    harvest_delivers outside (codes "lessons") fixed_uuid video_owner refl 60
      ProfileId.video_short_v1 document empty delivery tt delivery_lem

after-Backed : Backed outside (codes "lessons") after
after-Backed =
    (harvest_keeps outside (codes "lessons") fixed_uuid video_owner refl 60 ProfileId.video_short_v1
      document empty tt).backed

open_content-Answer_example :
    Answer outside
      (codes "lessons")
      5
      (omega arith)
      (lookup stored_video.artifact_id after.artifacts)
      (open_content
        (codes "lessons")
        5
        (record { principal_id = codes "u_b"; ownership_enforced = false })
        stored_video.artifact_id
        after)
      after
open_content-Answer_example =
    open_content-Answer outside (codes "lessons") 5 (omega arith)
      (record { principal_id = codes "u_b"; ownership_enforced = false }) stored_video.artifact_id
      after after-Backed
