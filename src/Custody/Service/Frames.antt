-- ===== src/Custody/Service/Frames.antt =====
-- What custody leaves alone: every part of the world that is neither the artifact rows nor the
-- objects nor the clock.
use growtrics_challenge.Common.{
  ℕ, ◌≡◌, refl, ap, Option, none, some, List, [], ◌∷◌, ltb, length, ◌+◌,
}
use growtrics_challenge.Common.Text.{Str}
use growtrics_challenge.Common.Dict.{Dict, lookup}
use growtrics_challenge.Domain.Contracts.{OutputContract, contract_for, part_for_role}
use growtrics_challenge.Domain.Enums.{ProfileId}
use growtrics_challenge.Domain.Ids.{Uuid}
use growtrics_challenge.Domain.Json.{Json}
use growtrics_challenge.Domain.Records.{ArtifactRecord, JobRecord}
use growtrics_challenge.Effects.{Result, ok, err}
use growtrics_challenge.Effects.Exec.{pure, lift, ◌>>=◌}
use growtrics_challenge.Effects.Frames.{Keeps, >>=-Keeps, lift_then-Keeps}
use growtrics_challenge.Generation.Acl.{accept_descriptors, unless}
use growtrics_challenge.Generation.Manifest.{ArtifactDescriptor}
use growtrics_challenge.Orchestration.Ports.{GenerationOutcome, HarvestOutcome}
use growtrics_challenge.Custody.Candidates.{VerifiedArtifact, Outside}
use growtrics_challenge.Custody.Harvester.{
  is_empty_file, measured, parse_outcome, pull, pull_all, harvest_files,
}
use growtrics_challenge.Custody.Verifier.{verify_all, require_complete}
use growtrics_challenge.Custody.Store.{
  Owner, artifact_record_for, object_key, publish_one, publish_all,
}
use growtrics_challenge.Custody.Service.{examine, keep, harvest, primary_of, unpublishable, publish}
use growtrics_challenge.Storage.Artifacts.{insert_at, insert_artifact}
use growtrics_challenge.Storage.Objects.{put_object, store_at}
use growtrics_challenge.Storage.State.{World, WorkItemRow, Action}

abbrev pub others_of : World → Dict JobRecord × Dict WorkItemRow
others_of w = (w.jobs, w.work_items)

abbrev KeepsOthers : {A : Type 0} → Action A → Type 0
KeepsOthers m = Keeps others_of m

module _ (o : Outside) (contract : OutputContract) (session_id : Str) where
  pull-Keeps : (d : ArtifactDescriptor) → KeepsOthers (pull o contract session_id d)
  unfolding pull
  pull-Keeps d = lift_then-Keeps others_of (part_for_role contract d.role) _ λ part.
      >>=-Keeps others_of (o.fetch session_id d.rel_path part.max_bytes) _
        (λ w.
          ap (λ d. (d.jobs, d.work_items))
            (o.fetch_database session_id d.rel_path part.max_bytes w))
        λ content. lift_then-Keeps others_of (unless (ltb part.max_bytes (length content)) _) _ λ _.
          lift_then-Keeps others_of (unless (is_empty_file content) _) (λ _. pure content)
            λ _ w. refl

  pull_all-Keeps :
      (total : ℕ) (ds : List ArtifactDescriptor)
      → KeepsOthers (pull_all o contract session_id total ds)
  unfolding pull_all
  pull_all-Keeps total [] w = refl
  pull_all-Keeps total (d ∷ ds) w =
      >>=-Keeps others_of (pull o contract session_id d) _ (pull-Keeps d)
        (λ content.
          lift_then-Keeps others_of
            (unless (ltb contract.total_max_bytes (total + length content)) _) _
            λ _.
              >>=-Keeps others_of (pull_all o contract session_id (total + length content) ds)
                (λ rest. pure (measured o d content ∷ rest))
                (pull_all-Keeps (total + length content) ds) (λ rest w. refl))
        w

  examine-Keeps :
      (max_duration_s : ℕ) (payload : Json)
      → KeepsOthers (examine o contract max_duration_s session_id payload)
  unfolding examine harvest_files
  examine-Keeps max_duration_s payload =
      >>=-Keeps others_of (harvest_files o payload contract session_id) _
        (lift_then-Keeps others_of (parse_outcome o payload) _ λ outcome.
          lift_then-Keeps others_of (accept_descriptors contract session_id outcome) _
            λ ds. pull_all-Keeps 0 ds)
        λ files.
          lift_then-Keeps others_of (verify_all o contract max_duration_s files) _ λ vs.
            lift_then-Keeps others_of (require_complete vs contract) (λ _. pure vs) λ _ w. refl

module _ (u : Uuid) (bucket : Str) (owner : Owner) where
  store_at-jobs :
      (r : Result Str) (content : List ℕ) (w : World)
      → others_of (store_at bucket r content w).1 ≡ others_of w
  unfolding store_at
  store_at-jobs (ok uri) content w = refl
  store_at-jobs (err e) content w = refl

  insert_at-jobs :
      (found : Option ArtifactRecord) (r : ArtifactRecord) (w : World)
      → others_of (insert_at found r w).1 ≡ others_of w
  unfolding insert_at
  insert_at-jobs none r w = refl
  insert_at-jobs (some old) r w = refl

  publish_all-Keeps :
      (at : ℕ) (vs : List VerifiedArtifact) → KeepsOthers (publish_all u bucket owner at vs)
  unfolding publish_all publish_one put_object insert_artifact
  publish_all-Keeps at [] w = refl
  publish_all-Keeps at (v ∷ vs) w =
      >>=-Keeps others_of (publish_one u bucket owner at v) _
        (>>=-Keeps others_of
          (put_object bucket
            (object_key owner.job_id v.harvested.content_hash v.harvested.descriptor.media_type
              v.verdict)
            v.harvested.content)
          _ (λ w. store_at-jobs _ v.harvested.content w)
          λ uri.
            lift_then-Keeps others_of (artifact_record_for u bucket v owner uri at) insert_artifact
              λ r w. insert_at-jobs (lookup r.artifact_id w.artifacts) r w)
        (λ one.
          >>=-Keeps others_of (publish_all u bucket owner at vs) (λ rest. pure (one ∷ rest))
            (publish_all-Keeps at vs) λ rest w. refl)
        w

  abbrev delivered : List ArtifactRecord → ArtifactRecord → Action HarvestOutcome
  delivered rs primary = pure (record { primary = primary; artifacts = rs })

  keep-Keeps : (vs : List VerifiedArtifact) → KeepsOthers (keep u bucket owner vs)
  unfolding keep
  keep-Keeps vs w =
      >>=-Keeps others_of (publish_all u bucket owner (w.time w.reads) vs)
        (λ rs. lift (primary_of rs) >>= delivered rs) (publish_all-Keeps (w.time w.reads) vs)
        (λ rs. lift_then-Keeps others_of (primary_of rs) (delivered rs) λ primary t. refl)
        (record w { reads = w.reads + 1 })

pub harvest-Keeps :
    (o : Outside) (u : Uuid) (bucket job_id principal_id : Str) (chat : Option Str)
    (profile : ProfileId) (max_duration_s : ℕ) (outcome : GenerationOutcome)
    → Keeps others_of (harvest o u bucket job_id principal_id chat profile max_duration_s outcome)
unfolding harvest
harvest-Keeps o u bucket job_id principal_id chat profile max_duration_s outcome =
    lift_then-Keeps others_of (contract_for profile) _ λ contract.
      >>=-Keeps others_of (examine o contract max_duration_s outcome.session_id outcome.document) _
        (examine-Keeps o contract outcome.session_id max_duration_s outcome.document)
        λ vs.
          keep-Keeps u bucket
            (record { job_id = job_id; principal_id = principal_id; chat_context_id = chat }) vs

pub publish-Keeps : (primary : ArtifactRecord) → Keeps others_of (publish primary)
unfolding publish unpublishable
publish-Keeps primary w = by_stamp primary.published_at
  where
    by_stamp : (stamp : Option ℕ) → others_of (unpublishable primary stamp w).1 ≡ others_of w
    by_stamp none = refl
    by_stamp (some at) = refl
