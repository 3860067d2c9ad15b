-- ===== src/Custody/Service/Complete.antt =====
-- A set of verified files that is complete.
use growtrics_challenge.Common.{
  ℕ, suc, ◌≤◌, ◌≡◌, refl, sym, ap, ◌∙◌, Bool, true, false, not, List, [], ◌∷◌, All, map, count_if,
  keep_if, Bool-cases, In, inl, inr, arith, subst,
}
use growtrics_challenge.Common.Text.{Str}
use growtrics_challenge.Domain.Contracts.{
  OutputContract, PartSpec, primary_part, video_short_v1_contract, video_parts, part_for_role,
}
use growtrics_challenge.Domain.Enums.{ScanVerdict, ArtifactRole, Audience, role_eq, role_eq_iff}
use growtrics_challenge.Domain.Json.{Json}
use growtrics_challenge.Effects.{Result, ok}
use growtrics_challenge.Effects.Pure.{returned}
use growtrics_challenge.Generation.Acl.{is_of}
use growtrics_challenge.Generation.Acl.Accepted.{
  passed, allowed, Fits, accept_descriptors-IsAccepted,
}
use growtrics_challenge.Generation.Manifest.{ArtifactDescriptor}
use growtrics_challenge.Custody.Candidates.{HarvestedFile, VerifiedArtifact, Outside}
use growtrics_challenge.Custody.Harvester.{content_hash_of}
use growtrics_challenge.Custody.Harvester.Measured.{AreMeasured, IsHarvest}
use growtrics_challenge.Custody.Verifier.{
  verify, run_checks, input_of, judged, verify_all, role_of_file, any_clean, is_nothing,
  require_part, require_parts, require_complete,
}

module _ {A B : Type 0} (f : A → B) where
  count_if-map : (p : B → Bool) (xs : List A) → count_if p (map f xs) ≡ count_if (λ x. p (f x)) xs
  count_if-map p [] = refl
  count_if-map p (x ∷ xs) = elim (Bool-cases (p (f x))) [
    | inl e ↦ rw e (ap suc (count_if-map p xs))
    | inr e ↦ rw e (count_if-map p xs)
  ]

  All-of_map : (P : B → Type 0) (xs : List A) → All P (map f xs) → All (λ x. P (f x)) xs
  All-of_map P [] h = tt
  All-of_map P (x ∷ xs) h = (h.0, All-of_map P xs h.1)

-- One file at most of a kind, and one that is clean: whatever is of the kind is clean.
module _ (p : VerifiedArtifact → Bool) where
  keep_none : (vs : List VerifiedArtifact) → count_if p vs ≤ 0 → keep_if p vs ≡ []
  keep_none [] h = refl
  keep_none (v ∷ vs) h = elim (Bool-cases (p v)) [
    | inl e ↦ let g : suc (count_if p vs) ≤ 0 = rw e at h in absurd (omega (arith, g))
    | inr e ↦ rw e (keep_none vs (rw e at h))
  ]

  all_other :
      (vs : List VerifiedArtifact)
      → count_if p vs ≤ 0
      → All (λ v. p v ≡ true → v.verdict ≡ ScanVerdict.clean) vs
  all_other [] h = tt
  all_other (v ∷ vs) h = elim (Bool-cases (p v)) [
    | inl e ↦ let g : suc (count_if p vs) ≤ 0 = rw e at h in absurd (omega (arith, g))
    | inr e ↦ ((λ q. absurd (cc (e, q))), all_other vs (rw e at h))
  ]

  clean_of : (v : VerifiedArtifact) → any_clean (v ∷ []) ≡ true → v.verdict ≡ ScanVerdict.clean
  clean_of v h = ground arith

  all_clean :
      (vs : List VerifiedArtifact)
      → count_if p vs ≤ 1
      → any_clean (keep_if p vs) ≡ true
      → All (λ v. p v ≡ true → v.verdict ≡ ScanVerdict.clean) vs
  all_clean [] few some_clean = tt
  all_clean (v ∷ vs) few some_clean = elim (Bool-cases (p v)) [
    | inl e ↦
        let more : suc (count_if p vs) ≤ 1 = rw e at few in
        let no_more : count_if p vs ≤ 0 = omega (arith, more) in
        let kept : any_clean (v ∷ keep_if p vs) ≡ true = rw e at some_clean in
        (
          (λ q. clean_of v (ap (λ r. any_clean (v ∷ r)) (sym (keep_none vs no_more)) ∙ kept)),
          all_other vs no_more,
        )
    | inr e ↦ ((λ q. absurd (cc (e, q))), all_clean vs (rw e at few) (rw e at some_clean))
  ]

module _ (o : Outside) (max_duration_s : ℕ) where
  verify-harvested :
      (contract : OutputContract) (file : HarvestedFile) (v : VerifiedArtifact)
      → verify o contract max_duration_s file ≡ ok v
      → v.harvested ≡ file
  unfolding verify
  verify-harvested contract file v h =
      let (part, _, h1) = returned (part_for_role contract file.descriptor.role) _ h in
      let (cs, _, h2) =
        returned (run_checks o part.checks (input_of o file contract max_duration_s part)) _ h1 in
      let q : ◌≡◌ {A = Result VerifiedArtifact} (ok (judged o file cs)) (ok v) = h2 in
      let same : judged o file cs ≡ v = cc q in
      ap (λ (x : VerifiedArtifact). x.harvested) (sym same)

  verify_all-eq-ok :
      (contract : OutputContract) (files : List HarvestedFile) (vs : List VerifiedArtifact)
      → verify_all o contract max_duration_s files ≡ ok vs
      → (map (λ v. v.harvested) vs ≡ files)
        × All (λ v. verify o contract max_duration_s v.harvested ≡ ok v) vs
  unfolding verify_all
  verify_all-eq-ok contract [] vs h =
      let q : ◌≡◌ {A = Result (List VerifiedArtifact)} (ok []) (ok vs) = h in
      let same : [] ≡ vs = cc q in rw (← same) (refl, tt)
  verify_all-eq-ok contract (file ∷ files) vs h =
      let (v, e, h1) = returned (verify o contract max_duration_s file) _ h in
      let (rest, e', h2) = returned (verify_all o contract max_duration_s files) _ h1 in
      let q : ◌≡◌ {A = Result (List VerifiedArtifact)} (ok (v ∷ rest)) (ok vs) = h2 in
      let same : v ∷ rest ≡ vs = cc q in
      let mine = verify-harvested contract file v e in
      let (theirs, all) = verify_all-eq-ok contract files rest e' in
      rw (← same) (
        ap (λ f. f ∷ map (λ (x : VerifiedArtifact). x.harvested) rest) mine
            ∙ ap (λ fs. file ∷ fs) theirs,
        (ap (λ f. verify o contract max_duration_s f) mine ∙ e, all),
      )

  -- The files, back to their descriptors, and their hashes.
  measured_lem :
      (contract : OutputContract) (session_id : Str) (ds : List ArtifactDescriptor)
      (files : List HarvestedFile)
      → AreMeasured o contract session_id ds files
      → (map (λ f. f.descriptor) files ≡ ds)
        × All (λ f. f.content_hash ≡ content_hash_of o f.content) files
  measured_lem contract session_id [] [] h = (refl, tt)
  measured_lem contract session_id [] (f ∷ fs) h = absurd h
  measured_lem contract session_id (d ∷ ds) [] h = absurd h
  measured_lem contract session_id (d ∷ ds) (f ∷ fs) h =
      let (same, hashed) = measured_lem contract session_id ds fs h.1 in
      (
        ap (λ x. x ∷ map (λ (y : HarvestedFile). y.descriptor) fs) h.0.descriptor
            ∙ ap (λ r. d ∷ r) same,
        (h.0.content_hash, hashed),
      )

  abbrev pub is_primary : VerifiedArtifact → Bool
  is_primary v = role_eq (role_of_file v) ArtifactRole.primary

  require_complete-video :
      (vs : List VerifiedArtifact)
      → require_complete vs video_short_v1_contract ≡ ok tt
      → any_clean (keep_if is_primary vs) ≡ true
  unfolding require_complete require_parts require_part
  require_complete-video vs h =
      let (_, first, rest) = returned (require_part primary_part vs) _ h in
      let (there, h1) = passed (is_nothing (keep_if is_primary vs)) _ _ first in
      positive (any_clean (keep_if is_primary vs))
        (allowed (not (any_clean (keep_if is_primary vs))) _ _ h1)
    where
      positive : (b : Bool) → not b ≡ false → b ≡ true
      positive b e = ground arith

  -- A primary under the video contract is a learner's.
  learner_of :
      (d : ArtifactDescriptor)
      → Fits video_short_v1_contract d
      → d.role ≡ ArtifactRole.primary
      → d.audience ≡ Audience.learner
  learner_of d fits primary =
      by_part fits.part fits.in_contract (sym fits.role ∙ primary) fits.audience
    where
      by_part :
          (part : PartSpec)
          → In part video_parts
          → part.role ≡ ArtifactRole.primary
          → d.audience ≡ part.audience
          → d.audience ≡ Audience.learner
      by_part part (inl e) r a = a ∙ ap (λ (x : PartSpec). x.audience) e
      by_part part (inr (inl e)) r a = a ∙ ap (λ (x : PartSpec). x.audience) e
      by_part part (inr (inr (inl e))) r a = a ∙ ap (λ (x : PartSpec). x.audience) e
      by_part part (inr (inr (inr (inl e)))) r a = a ∙ ap (λ (x : PartSpec). x.audience) e
      by_part part (inr (inr (inr (inr (inl e))))) r a =
          let clash : ArtifactRole.log ≡ ArtifactRole.primary =
            sym (ap (λ (x : PartSpec). x.role) e) ∙ r in
          absurd (cc clash)
      by_part part (inr (inr (inr (inr (inr nowhere))))) r a = elim nowhere [ ]

  -- What is known of each file of a complete set.
  pub record IsJudged (v : VerifiedArtifact) : Type 0 where
    pub verified : verify o video_short_v1_contract max_duration_s v.harvested ≡ ok v
    pub content_hash : v.harvested.content_hash ≡ content_hash_of o v.harvested.content
    pub clean : is_primary v ≡ true → v.verdict ≡ ScanVerdict.clean
    pub audience : is_primary v ≡ true → v.harvested.descriptor.audience ≡ Audience.learner

  zip_all :
      (vs : List VerifiedArtifact)
      → All (λ v. verify o video_short_v1_contract max_duration_s v.harvested ≡ ok v) vs
      → All (λ v. v.harvested.content_hash ≡ content_hash_of o v.harvested.content) vs
      → All (λ v. is_primary v ≡ true → v.verdict ≡ ScanVerdict.clean) vs
      → All (λ v. Fits video_short_v1_contract v.harvested.descriptor) vs
      → All IsJudged vs
  zip_all [] a b c d = tt
  zip_all (v ∷ vs) a b c d = (
    record {
      verified = a.0;
      content_hash = b.0;
      clean = c.0;
      audience = λ e.
          learner_of v.harvested.descriptor d.0
            ((role_eq_iff (role_of_file v) ArtifactRole.primary).0 e);
    },
    zip_all vs a.1 b.1 c.1 d.1,
  )

  pub All-IsJudged :
      (session_id : Str) (payload : Json) (files : List HarvestedFile) (vs : List VerifiedArtifact)
      → IsHarvest o video_short_v1_contract session_id payload files
      → verify_all o video_short_v1_contract max_duration_s files ≡ ok vs
      → require_complete vs video_short_v1_contract ≡ ok tt
      → All IsJudged vs
  All-IsJudged session_id payload files vs harvest e complete =
      let (mine, verified) = verify_all-eq-ok video_short_v1_contract files vs e in
      let (descriptors, hashed) =
        measured_lem video_short_v1_contract session_id harvest.descriptors files
          harvest.files_measured in
      let accepted =
        accept_descriptors-IsAccepted video_short_v1_contract session_id harvest.outcome
          harvest.descriptors harvest.accepted in
      let back : map (λ f. f.descriptor) (map (λ v. v.harvested) vs) ≡ harvest.descriptors =
        ap (λ fs. map (λ f. f.descriptor) fs) mine ∙ descriptors in
      let count : count_if (is_of primary_part) harvest.descriptors ≡ count_if is_primary vs =
        ap (count_if (is_of primary_part)) (sym back)
        ∙ count_if-map (λ f. f.descriptor) (is_of primary_part) (map (λ v. v.harvested) vs)
        ∙ count_if-map (λ v. v.harvested) (λ f. is_of primary_part f.descriptor) vs in
      let few : count_if is_primary vs ≤ 1 = subst (λ n. n ≤ 1) count accepted.counted.0.0 in
      let fits : All (Fits video_short_v1_contract)
          (map (λ f. f.descriptor) (map (λ v. v.harvested) vs)) =
        subst (All (Fits video_short_v1_contract)) (sym back) accepted.fits in
      let hashes : All (λ f. f.content_hash ≡ content_hash_of o f.content)
          (map (λ v. v.harvested) vs) =
        subst (All (λ f. f.content_hash ≡ content_hash_of o f.content)) (sym mine) hashed in
      zip_all vs verified
        (All-of_map (λ v. v.harvested) (λ f. f.content_hash ≡ content_hash_of o f.content) vs
          hashes)
        (all_clean is_primary vs few (require_complete-video vs complete))
        (All-of_map (λ v. v.harvested) (λ f. Fits video_short_v1_contract f.descriptor) vs
          (All-of_map (λ f. f.descriptor) (Fits video_short_v1_contract) (map (λ v. v.harvested) vs)
            fits))
