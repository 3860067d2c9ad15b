-- ===== src/Custody/Harvester.antt =====
-- src/app/custody/harvester.py: parse, accept, pull and measure.
pub mod Measured
use growtrics_challenge.Common.{
  ℕ, ◌+◌, Bool, true, false, Option, none, some, List, [], ◌∷◌, ◌++◌, length, if◌then◌else◌, ltb,
  ◌==◌,
}
use growtrics_challenge.Common.Text.{Str, codes, str_eq, decimal}
use growtrics_challenge.Domain.Contracts.{OutputContract, PartSpec, part_for_role}
use growtrics_challenge.Domain.Json.{Json}
use growtrics_challenge.Effects.{Result, ok, err}
use growtrics_challenge.Effects.Exec.{pure, lift, ◌>>=◌, ◌>>◌}
use growtrics_challenge.Generation.Acl.{accept_descriptors, unless}
use growtrics_challenge.Generation.Manifest.{GenerationOutcome, ArtifactDescriptor}
use growtrics_challenge.Generation.Paths.{rejected}
use growtrics_challenge.Custody.Candidates.{HarvestedFile, Outside}
use growtrics_challenge.Storage.State.{World, Action}

abbrev pub is_empty_file : List ℕ → Bool
is_empty_file [] = true
is_empty_file (b ∷ bs) = false

module _ (o : Outside) where
  abbrev pub content_hash_of : List ℕ → Str
  content_hash_of content = codes "sha256:" ++ o.sha256 content

  abbrev pub hash_agrees : Option Str → List ℕ → Bool
  hash_agrees none content = true
  hash_agrees (some declared) content =
      str_eq (content_hash_of content) (codes "sha256:" ++ declared)

  unfoldable pub claim_agreed : ArtifactDescriptor → List ℕ → Bool
  claim_agreed descriptor content =
      if descriptor.declared_size_bytes == length content
      then hash_agrees descriptor.declared_sha256 content
      else false

  -- `generation.acl.parse_outcome`
  parsed : Option GenerationOutcome → Result GenerationOutcome
  parsed none = err (rejected (codes "malformed_manifest") [])
  parsed (some outcome) = ok outcome

  unfoldable pub parse_outcome : Json → Result GenerationOutcome
  unfolding parsed
  parse_outcome payload = parsed (o.parse_manifest payload)

  abbrev pub measured : ArtifactDescriptor → List ℕ → HarvestedFile
  measured descriptor content = record {
    descriptor = descriptor;
    content = content;
    size_bytes = length content;
    content_hash = content_hash_of content;
    claim_agreed = claim_agreed descriptor content;
  }

  -- The body of the loop up to the total.
  unfoldable pub pull : OutputContract → Str → ArtifactDescriptor → Action (List ℕ)
  pull contract session_id descriptor = do
    part ← lift (part_for_role contract descriptor.role)
    content ← o.fetch session_id descriptor.rel_path part.max_bytes
    lift (
        unless (ltb part.max_bytes (length content)) (
          rejected (codes "size_over_cap")
            ((codes "rel_path", descriptor.rel_path) ∷ (codes "cap", decimal part.max_bytes) ∷ [])))
    lift (
        unless (is_empty_file content)
          (rejected (codes "empty_candidate") ((codes "rel_path", descriptor.rel_path) ∷ [])))
    pure content

  unfoldable pub pull_all :
      OutputContract → Str → ℕ → List ArtifactDescriptor → Action (List HarvestedFile)
  unfolding pull
  pull_all contract session_id total [] = pure []
  pull_all contract session_id total (descriptor ∷ descriptors) = do
    content ← pull contract session_id descriptor
    lift (
        unless (ltb contract.total_max_bytes (total + length content)) (
          rejected (codes "total_over_cap") ((codes "cap", decimal contract.total_max_bytes) ∷ [])))
    rest ← pull_all contract session_id (total + length content) descriptors
    pure (measured descriptor content ∷ rest)

  -- `Harvester.harvest`
  unfoldable pub harvest_files : Json → OutputContract → Str → Action (List HarvestedFile)
  unfolding pull_all
  harvest_files payload contract session_id = do
    outcome ← lift (parse_outcome payload)
    descriptors ← lift (accept_descriptors contract session_id outcome)
    pull_all contract session_id 0 descriptors
