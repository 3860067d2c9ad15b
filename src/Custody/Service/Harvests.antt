-- ===== src/Custody/Service/Harvests.antt =====
-- `Custody.harvest` as a whole, and the `publish` that follows it in a run.
use growtrics_challenge.Common.{ℕ, ◌≡◌, refl, sym, List, All, length, subst}
use growtrics_challenge.Common.Text.{Str}
use growtrics_challenge.Domain.Contracts.{OutputContract, contract_for, video_short_v1_contract}
use growtrics_challenge.Domain.Enums.{ProfileId}
use growtrics_challenge.Domain.Ids.{Uuid}
use growtrics_challenge.Domain.Json.{Json}
use growtrics_challenge.Effects.{ok}
use growtrics_challenge.Effects.Exec.{◌>>=◌}
use growtrics_challenge.Effects.Triples.{Ends, Post_ok, Post-always, Post-map, >>=-Ends, lift-Ends}
use growtrics_challenge.Orchestration.Ports.{GenerationOutcome, HarvestOutcome}
use growtrics_challenge.Custody.Candidates.{VerifiedArtifact, Outside}
use growtrics_challenge.Custody.Harvester.{harvest_files}
use growtrics_challenge.Custody.Harvester.Measured.{Untouched, Harvested, harvest_files-Ends}
use growtrics_challenge.Custody.Verifier.{verify_all, require_complete}
use growtrics_challenge.Custody.Store.{Owner}
use growtrics_challenge.Custody.Store.Backed.{Backed, Kept}
use growtrics_challenge.Custody.Service.{examine, keep, harvest, unpublishable, publish}
use growtrics_challenge.Custody.Service.Complete.{IsJudged, All-IsJudged}
use growtrics_challenge.Custody.Service.Delivered.{
  contract_for-video, IsDelivered, Kept-Untouched, Leaves, keep-Ends,
}
use growtrics_challenge.Storage.State.{World, Action}

module _ (o : Outside) (bucket : Str) (u : Uuid) (owner : Owner) (named : length owner.job_id ≡ 30)
    (max_duration_s : ℕ) where
  -- What the examination of the bytes leaves.
  abbrev Examined : World → List VerifiedArtifact → World → Type 0
  Examined w vs t = Untouched w t × All (IsJudged o max_duration_s) vs

  examine-Ends :
      (session_id : Str) (payload : Json) (w : World)
      → Ends
          (Examined w)
          (λ _ t. Untouched w t)
          (examine o video_short_v1_contract max_duration_s session_id payload)
          w
  unfolding examine
  examine-Ends session_id payload w =
      >>=-Ends (Harvested o video_short_v1_contract session_id w payload) (Examined w)
        (λ _ t. Untouched w t) (harvest_files o payload video_short_v1_contract session_id) _ w
        (harvest_files-Ends o video_short_v1_contract session_id w payload)
        λ files t k.
          lift-Ends (Examined w) (λ _ s. Untouched w s)
            (verify_all o video_short_v1_contract max_duration_s files) _ t (λ e. k.0)
            λ vs verified.
              lift-Ends (Examined w) (λ _ s. Untouched w s)
                (require_complete vs video_short_v1_contract) _ t (λ e. k.0)
                λ done complete. (
                  k.0,
                  All-IsJudged o max_duration_s session_id payload files vs k.1 verified complete,
                )

  abbrev video_harvest : GenerationOutcome → OutputContract → Action HarvestOutcome
  video_harvest outcome contract =
      examine o contract max_duration_s outcome.session_id outcome.document >>= keep u bucket owner

  video_harvest-Ends :
      (outcome : GenerationOutcome) (w : World)
      → Backed o bucket w
      → Ends
          (Leaves o bucket u owner named max_duration_s w)
          (λ _ t. Kept o bucket w t)
          (video_harvest outcome video_short_v1_contract)
          w
  video_harvest-Ends outcome w h =
      >>=-Ends (λ vs t. Kept o bucket w t × All (IsJudged o max_duration_s) vs)
        (Leaves o bucket u owner named max_duration_s w) (λ _ t. Kept o bucket w t)
        (examine o video_short_v1_contract max_duration_s outcome.session_id outcome.document)
        (keep u bucket owner) w
        (Post-map (Examined w) (λ vs t. Kept o bucket w t × All (IsJudged o max_duration_s) vs)
          (λ _ t. Untouched w t) (λ _ t. Kept o bucket w t)
          (examine o video_short_v1_contract max_duration_s outcome.session_id outcome.document w).0
          (examine o video_short_v1_contract max_duration_s outcome.session_id outcome.document w).1
          (examine-Ends outcome.session_id outcome.document w)
          (λ vs k. (Kept-Untouched o bucket w _ h k.0, k.1))
          (λ e k. Kept-Untouched o bucket w _ h k))
        λ vs t k. keep-Ends o bucket u owner named max_duration_s vs w t k.1 k.0

  abbrev pub harvest_of : ProfileId → GenerationOutcome → Action HarvestOutcome
  harvest_of profile outcome =
      harvest o u bucket owner.job_id owner.principal_id owner.chat_context_id profile
        max_duration_s outcome

  pub harvest-Ends :
      (profile : ProfileId) (outcome : GenerationOutcome) (w : World)
      → Backed o bucket w
      → Ends
          (Leaves o bucket u owner named max_duration_s w)
          (λ _ t. Kept o bucket w t)
          (harvest_of profile outcome)
          w
  unfolding harvest
  harvest-Ends profile outcome w h =
      lift-Ends (Leaves o bucket u owner named max_duration_s w) (λ _ t. Kept o bucket w t)
        (contract_for profile) (video_harvest outcome) w
        (λ e. Kept-Untouched o bucket w w h (refl, refl))
        λ contract found.
          subst
            (λ c.
              Ends (Leaves o bucket u owner named max_duration_s w) (λ _ t. Kept o bucket w t)
                (video_harvest outcome c) w)
            (sym (contract_for-video profile contract found)) (video_harvest-Ends outcome w h)

  -- Whatever a harvest returns or raises, for a job with an id of thirty characters and any
  -- worker: a table whose rows are all backed is so afterwards, each row by an object in the store
  -- with the hash of the row, under the uri that the columns of the row give; no row that was
  -- there is changed, and the job table stays.
  pub harvest_keeps :
      (profile : ProfileId) (outcome : GenerationOutcome) (w : World)
      → Backed o bucket w
      → Kept o bucket w (harvest_of profile outcome w).1
  harvest_keeps profile outcome w h =
      Post-always (λ t. Kept o bucket w t) (harvest_of profile outcome w).0
        (harvest_of profile outcome w).1
        (Post-map (Leaves o bucket u owner named max_duration_s w) (λ _ t. Kept o bucket w t)
          (λ _ t. Kept o bucket w t) (λ _ t. Kept o bucket w t) (harvest_of profile outcome w).0
          (harvest_of profile outcome w).1 (harvest-Ends profile outcome w h) (λ _ k. k.0)
          (λ _ k. k))

  pub publish_lem :
      (h : HarvestOutcome) (t : World)
      → IsDelivered o bucket owner h t
      → publish h.primary t ≡ (ok h.primary, t)
  unfolding publish unpublishable
  publish_lem h t d = let (at, e) = d.published in rw e refl

  -- A harvest that returns, over a table whose rows are all backed by their objects, for a job
  -- with an id of thirty characters: the primary of its outcome is of the primary role, for a
  -- learner, clean, published, a row of the harvested job and of its caller, and in the table; its
  -- hash is that of bytes with the header of an MP4 container; every other row of the outcome is
  -- in the table; and the `publish` that follows returns the primary and changes nothing.
  pub harvest_delivers :
      (profile : ProfileId) (outcome : GenerationOutcome) (w : World) (h : HarvestOutcome)
      → Backed o bucket w
      → (harvest_of profile outcome w).0 ≡ ok h
      → IsDelivered o bucket owner h (harvest_of profile outcome w).1
        × (publish h.primary (harvest_of profile outcome w).1
            ≡ (ok h.primary, (harvest_of profile outcome w).1))
  harvest_delivers profile outcome w h b e =
      let left =
        Post_ok (Leaves o bucket u owner named max_duration_s w) (λ _ t. Kept o bucket w t)
          (harvest_of profile outcome w).0 (harvest_of profile outcome w).1 h e
          (harvest-Ends profile outcome w b) in
      (left.1, publish_lem h (harvest_of profile outcome w).1 left.1)
