-- ===== src/Custody/Harvester/Measured.antt =====
-- What the files of a harvest are: our own measure of the bytes that were fetched.
use growtrics_challenge.Common.{
  ℕ, ◌+◌, ◌≤◌, ◌<◌, ◌≡◌, refl, ap, ◌∙◌, false, Option, none, some, List, [], ◌∷◌, length, ltb,
  arith,
}
use growtrics_challenge.Common.Text.{Str}
use growtrics_challenge.Domain.Contracts.{OutputContract, PartSpec, part_for_role}
use growtrics_challenge.Domain.Errors.{Error}
use growtrics_challenge.Domain.Json.{Json}
use growtrics_challenge.Effects.{Result, ok, err}
use growtrics_challenge.Effects.Triples.{Post, Ends, Post_ok, Post-map, >>=-Ends, lift-Ends}
use growtrics_challenge.Generation.Acl.{accept_descriptors, unless}
use growtrics_challenge.Generation.Acl.Accepted.{allowed}
use growtrics_challenge.Generation.Manifest.{GenerationOutcome, ArtifactDescriptor}
use growtrics_challenge.Custody.Candidates.{HarvestedFile, Outside}
use growtrics_challenge.Custody.Harvester.{
  content_hash_of, claim_agreed, is_empty_file, measured, parse_outcome, parsed, pull, pull_all,
  harvest_files,
}
use growtrics_challenge.Storage.State.{World}

-- The tables and the objects stand as they stood.
abbrev pub Untouched : World → World → Type 0
Untouched before w = (w.database ≡ before.database) × (w.objects ≡ before.objects)

abbrev pub total_size : List HarvestedFile → ℕ
total_size [] = 0
total_size (f ∷ fs) = f.size_bytes + total_size fs

module _ (o : Outside) (contract : OutputContract) (session_id : Str) where
  -- A file of a descriptor: not empty, within its part, with its own size and hash.
  pub record IsMeasured (d : ArtifactDescriptor) (f : HarvestedFile) : Type 0 where
    pub descriptor : f.descriptor ≡ d
    pub part : PartSpec
    pub of_part : part_for_role contract d.role ≡ ok part
    pub size : f.size_bytes ≡ length f.content
    pub some_bytes : 0 < f.size_bytes
    pub capped : f.size_bytes ≤ part.max_bytes
    pub content_hash : f.content_hash ≡ content_hash_of o f.content
    pub claim : f.claim_agreed ≡ claim_agreed o d f.content

  -- One file for each descriptor, in order.
  abbrev pub AreMeasured : List ArtifactDescriptor → List HarvestedFile → Type 0
  AreMeasured [] [] = Unit
  AreMeasured [] (f ∷ fs) = ⊥
  AreMeasured (d ∷ ds) [] = ⊥
  AreMeasured (d ∷ ds) (f ∷ fs) = IsMeasured d f × AreMeasured ds fs

  -- The bytes that `pull` lets through.
  record IsPulled (d : ArtifactDescriptor) (content : List ℕ) : Type 0 where
    part : PartSpec
    of_part : part_for_role contract d.role ≡ ok part
    some_bytes : 0 < length content
    capped : length content ≤ part.max_bytes

  module _ (before : World) where
    abbrev pub Stands : Error → World → Type 0
    Stands e w = Untouched before w

    nonempty : (content : List ℕ) → is_empty_file content ≡ false → 0 < length content
    nonempty [] h = cc
    nonempty (b ∷ bs) h = omega arith

    within : (m k : ℕ) → ltb m k ≡ false → k ≤ m
    within m k e = ground arith

    abbrev Fetched : ArtifactDescriptor → List ℕ → World → Type 0
    Fetched d content w = Untouched before w × IsPulled d content

    fetch-Ends :
        (d : ArtifactDescriptor) (n : ℕ) (w : World)
        → Untouched before w
        → Post
            (λ _ t. Untouched before t)
            Stands
            (o.fetch session_id d.rel_path n w).0
            (o.fetch session_id d.rel_path n w).1
    fetch-Ends d n w h =
        by_result (o.fetch session_id d.rel_path n w).0 (o.fetch session_id d.rel_path n w).1 (
          o.fetch_database session_id d.rel_path n w ∙ h.0,
          o.fetch_objects session_id d.rel_path n w ∙ h.1,
        )
      where
        by_result :
            (r : Result (List ℕ)) (t : World)
            → Untouched before t
            → Post (λ _ t. Untouched before t) Stands r t
        by_result (ok a) t k = k
        by_result (err e) t k = k

    pull-Ends :
        (d : ArtifactDescriptor) (w : World)
        → Untouched before w
        → Ends (Fetched d) Stands (pull o contract session_id d) w
    unfolding pull
    pull-Ends d w h =
        lift-Ends (Fetched d) Stands (part_for_role contract d.role) _ w (λ e. h)
          λ part of_part.
            >>=-Ends (λ _ t. Untouched before t) (Fetched d) Stands
              (o.fetch session_id d.rel_path part.max_bytes) _ w (fetch-Ends d part.max_bytes w h)
              λ content t k.
                lift-Ends (Fetched d) Stands (unless (ltb part.max_bytes (length content)) _) _ t
                  (λ e. k)
                  λ _ small.
                    lift-Ends (Fetched d) Stands (unless (is_empty_file content) _) _ t (λ e. k)
                      λ _ full. (
                        k,
                        record {
                          part = part;
                          of_part = of_part;
                          some_bytes = nonempty content (allowed (is_empty_file content) _ _ full);
                          capped =
                              within _ _ (allowed (ltb part.max_bytes (length content)) _ _ small);
                        },
                      )

    -- What the loop returns from a total of the bytes before it.
    abbrev Pulled : ℕ → List ArtifactDescriptor → List HarvestedFile → World → Type 0
    Pulled total ds files w =
        Untouched before w
        × AreMeasured ds files
        × (total ≤ contract.total_max_bytes → total + total_size files ≤ contract.total_max_bytes)

    measured-IsMeasured :
        (d : ArtifactDescriptor) (content : List ℕ)
        → IsPulled d content
        → IsMeasured d (measured o d content)
    measured-IsMeasured d content p = record {
      descriptor = refl;
      part = p.part;
      of_part = p.of_part;
      size = refl;
      some_bytes = p.some_bytes;
      capped = p.capped;
      content_hash = refl;
      claim = refl;
    }

    pull_all-Ends :
        (total : ℕ) (ds : List ArtifactDescriptor) (w : World)
        → Untouched before w
        → Ends (Pulled total ds) Stands (pull_all o contract session_id total ds) w
    unfolding pull_all
    pull_all-Ends total [] w h = (h, tt, λ fits. omega arith)
    pull_all-Ends total (d ∷ ds) w h =
        >>=-Ends (Fetched d) (Pulled total (d ∷ ds)) Stands (pull o contract session_id d) _ w
          (pull-Ends d w h)
          λ content t k.
            lift-Ends (Pulled total (d ∷ ds)) Stands
              (unless (ltb contract.total_max_bytes (total + length content)) _) _ t (λ e. k.0)
              λ _ fits.
                >>=-Ends (Pulled (total + length content) ds) (Pulled total (d ∷ ds)) Stands
                  (pull_all o contract session_id (total + length content) ds) _ t
                  (pull_all-Ends (total + length content) ds t k.0)
                  λ rest s r.
                    let room =
                      within _ _ (
                        allowed (ltb contract.total_max_bytes (total + length content)) _ _ fits) in
                    let sum = r.2 room in
                    (r.0, (measured-IsMeasured d content k.1, r.1), λ _. omega arith)

    parsed-eq-ok :
        (found : Option GenerationOutcome) (outcome : GenerationOutcome)
        → parsed o found ≡ ok outcome
        → found ≡ some outcome
    unfolding parsed
    parsed-eq-ok none outcome h = cc
    parsed-eq-ok (some x) outcome h =
        let q : ◌≡◌ {A = Result GenerationOutcome} (ok x) (ok outcome) = h in
        let same : x ≡ outcome = cc q in ap some same

  -- The whole of a harvest: the document is a manifest, its claims are accepted, and each claim has
  -- its file.
  pub record IsHarvest (payload : Json) (files : List HarvestedFile) : Type 0 where
    pub outcome : GenerationOutcome
    pub manifest : o.parse_manifest payload ≡ some outcome
    pub descriptors : List ArtifactDescriptor
    pub accepted : accept_descriptors contract session_id outcome ≡ ok descriptors
    pub files_measured : AreMeasured descriptors files
    pub total : total_size files ≤ contract.total_max_bytes

  module _ (before : World) where
    abbrev pub Harvested : Json → List HarvestedFile → World → Type 0
    Harvested payload files w = Untouched before w × IsHarvest payload files

    pub harvest_files-Ends :
        (payload : Json)
        → Ends
            (Harvested payload)
            (Stands before)
            (harvest_files o payload contract session_id)
            before
    unfolding harvest_files parse_outcome
    harvest_files-Ends payload =
        lift-Ends (Harvested payload) (Stands before) (parse_outcome o payload) _ before
          (λ e. (refl, refl))
          λ outcome manifest.
            lift-Ends (Harvested payload) (Stands before)
              (accept_descriptors contract session_id outcome) _ before (λ e. (refl, refl))
              λ ds accepted.
                Post-map (Pulled before 0 ds) (Harvested payload) (Stands before) (Stands before)
                  (pull_all o contract session_id 0 ds before).0
                  (pull_all o contract session_id 0 ds before).1
                  (pull_all-Ends before 0 ds before (refl, refl))
                  (λ files k. (
                    k.0,
                    record {
                      outcome = outcome;
                      manifest = parsed-eq-ok before (o.parse_manifest payload) outcome manifest;
                      descriptors = ds;
                      accepted = accepted;
                      files_measured = k.1;
                      total = let bound = k.2 (omega arith) in omega arith;
                    },
                  ))
                  (λ e k. k)

  -- Files that are harvested come of a document that is a manifest and of claims that are
  -- accepted, one file for each claim in order; each has the claim as its descriptor, at least one
  -- byte, at most the bytes of its part, the size and the hash of its own content, and the flag
  -- that says whether the claim agreed; their total is within the contract; and neither the tables
  -- nor the objects are changed.
  pub harvest_files-IsHarvest :
      (payload : Json) (w : World) (files : List HarvestedFile)
      → (harvest_files o payload contract session_id w).0 ≡ ok files
      → IsHarvest payload files × Untouched w (harvest_files o payload contract session_id w).1
  harvest_files-IsHarvest payload w files h =
      let k =
        Post_ok (Harvested w payload) (Stands w) (harvest_files o payload contract session_id w).0
          (harvest_files o payload contract session_id w).1 files h
          (harvest_files-Ends w payload) in
      (k.1, k.0)
