-- ===== src/Custody/Service/Delivered.antt =====
-- What a harvest leaves, whether it returns or raises.
use growtrics_challenge.Common.{
  ℕ, ◌+◌, ◌≡◌, sym, ap, ◌∙◌, Bool, true, ◌&&◌, none, some, List, [], ◌∷◌, All, All-map, length,
  Bool-cases, if◌then◌else◌, inl, inr, subst,
}
use growtrics_challenge.Common.Text.{Str}
use growtrics_challenge.Common.Dict.{Dict, lookup, Entries}
use growtrics_challenge.Domain.Contracts.{OutputContract, contract_for, video_short_v1_contract}
use growtrics_challenge.Domain.Enums.{
  ScanVerdict, ArtifactRole, Audience, ProfileId, role_eq, role_eq_iff, is_clean, is_learner,
}
use growtrics_challenge.Domain.Ids.{Uuid}
use growtrics_challenge.Domain.Records.{ArtifactRecord}
use growtrics_challenge.Effects.{Result, ok}
use growtrics_challenge.Effects.Triples.{Ends, Post-map, >>=-Ends, lift-Ends}
use growtrics_challenge.Orchestration.Ports.{HarvestOutcome}
use growtrics_challenge.Custody.Candidates.{VerifiedArtifact, Outside}
use growtrics_challenge.Custody.Harvester.{content_hash_of}
use growtrics_challenge.Custody.Harvester.Measured.{Untouched}
use growtrics_challenge.Custody.Verifier.Verdicts.Mp4.{HasMp4Header, verify-HasMp4Header}
use growtrics_challenge.Custody.Store.{Owner, publish_all}
use growtrics_challenge.Custody.Store.Backed.{IsBacked, Backed, Kept, Kept-trans}
use growtrics_challenge.Custody.Store.Backed.Publishing.{
  IsRow, AreRows, AllPublished, publish_all-Ends,
}
use growtrics_challenge.Custody.Service.{keep, primary_of}
use growtrics_challenge.Custody.Service.Complete.{IsJudged, is_primary}
use growtrics_challenge.Storage.State.{Database, World}

pub contract_for-video :
    (profile : ProfileId) (contract : OutputContract)
    → contract_for profile ≡ ok contract
    → contract ≡ video_short_v1_contract
unfolding contract_for
contract_for-video ProfileId.video_short_v1 contract h =
    let q : ◌≡◌ {A = Result OutputContract} (ok video_short_v1_contract) (ok contract) = h in
    let same : video_short_v1_contract ≡ contract = cc q in sym same
contract_for-video ProfileId.html_lesson_v1 contract h = absurd (cc h)

module _ (o : Outside) (bucket : Str) where
  -- A primary that a learner can be served, and rows that are all in the table.
  pub record IsDelivered (owner : Owner) (h : HarvestOutcome) (t : World) : Type 0 where
    pub role : h.primary.role ≡ ArtifactRole.primary
    pub audience : h.primary.audience ≡ Audience.learner
    pub verdict : h.primary.scan_verdict ≡ ScanVerdict.clean
    pub job : h.primary.job_id ≡ owner.job_id
    pub principal : h.primary.principal_id ≡ owner.principal_id
    pub published : (at : ℕ) × (h.primary.published_at ≡ some at)
    pub row : lookup h.primary.artifact_id t.artifacts ≡ some h.primary
    pub bytes :
        (content : List ℕ) × (HasMp4Header o content)
        × (h.primary.content_hash ≡ content_hash_of o content)
    pub rows : All (λ r. lookup r.artifact_id t.artifacts ≡ some r) h.artifacts

  pub Kept-Untouched : (w t : World) → Backed o bucket w → Untouched w t → Kept o bucket w t
  Kept-Untouched w t h u = record {
    backed =
        subst (λ (x : Dict (List ℕ)). Entries (λ id r. IsBacked o bucket x r) t.artifacts) (sym u.1)
          (subst (λ (d : Database). Entries (λ id r. IsBacked o bucket w.objects r) d.artifacts)
            (sym u.0) h);
    jobs = ap (λ (d : Database). d.jobs) u.0;
    rows = λ id r e. ap (λ (d : Database). lookup id d.artifacts) u.0 ∙ e;
  }

  module _ (u : Uuid) (owner : Owner) (named : length owner.job_id ≡ 30) (max_duration_s : ℕ) where
    primary_row :
        (v : VerifiedArtifact) (at : ℕ) (r : ArtifactRecord)
        → IsJudged o max_duration_s v
        → IsRow o bucket owner at v r
        → r.role ≡ ArtifactRole.primary
        → (r.scan_verdict ≡ ScanVerdict.clean)
          × (r.audience ≡ Audience.learner)
          × (r.published_at ≡ some at)
          × ((content : List ℕ) × (HasMp4Header o content)
              × (r.content_hash ≡ content_hash_of o content))
    primary_row v at r j row primary =
        let fields = row.1.1 in
        let same_role : v.harvested.descriptor.role ≡ ArtifactRole.primary =
          sym (ap (λ (x : ArtifactRecord). x.role) fields) ∙ primary in
        let hit : is_primary o max_duration_s v ≡ true =
          (role_eq_iff _ ArtifactRole.primary).1 same_role in
        let clean = j.clean hit in
        let learner = j.audience hit in
        (
          ap (λ (x : ArtifactRecord). x.scan_verdict) fields ∙ clean,
          ap (λ (x : ArtifactRecord). x.audience) fields ∙ learner,
          ap (λ (x : ArtifactRecord). x.published_at) fields
              ∙ ap (λ (b : Bool). if b then some at else none)
                  (ap
                      (λ (x : ScanVerdict).
                        is_clean x && is_learner v.harvested.descriptor.audience)
                      clean
                    ∙ ap is_learner learner),
          (
            v.harvested.content,
            (verify-HasMp4Header o max_duration_s v.harvested v same_role j.verified).0 clean,
            ap (λ (x : ArtifactRecord). x.content_hash) fields ∙ j.content_hash,
          ),
        )

    abbrev There : World → ArtifactRecord → Type 0
    There t r = lookup r.artifact_id t.artifacts ≡ some r

    rows-There :
        (at : ℕ) (vs : List VerifiedArtifact) (rs : List ArtifactRecord) (t : World)
        → AreRows o bucket u owner named at vs t rs
        → All (There t) rs
    rows-There at [] [] t rows = tt
    rows-There at [] (r ∷ rs) t rows = absurd rows
    rows-There at (v ∷ vs) [] t rows = absurd rows
    rows-There at (v ∷ vs) (r ∷ rs) t rows = (rows.0.1, rows-There at vs rs t rows.1)

    delivers :
        (at : ℕ) (vs : List VerifiedArtifact) (rs all : List ArtifactRecord)
        (primary : ArtifactRecord) (t : World)
        → All (IsJudged o max_duration_s) vs
        → AreRows o bucket u owner named at vs t rs
        → All (There t) all
        → primary_of rs ≡ ok primary
        → IsDelivered owner (record { primary = primary; artifacts = all }) t
    unfolding primary_of
    delivers at [] [] all primary t judged rows there e = absurd (cc e)
    delivers at [] (r ∷ rs) all primary t judged rows there e = absurd rows
    delivers at (v ∷ vs) [] all primary t judged rows there e = absurd rows
    delivers at (v ∷ vs) (r ∷ rs) all primary t judged rows there e =
        elim (Bool-cases (role_eq r.role ArtifactRole.primary)) [
          | inl hit ↦
              let q : ◌≡◌ {A = Result ArtifactRecord} (ok r) (ok primary) = rw hit at e in
              let same : r ≡ primary = cc q in
              let is_role = (role_eq_iff r.role ArtifactRole.primary).0 hit in
              let facts = primary_row v at r judged.0 rows.0.0 is_role in
              let fields = rows.0.0.1.1 in
              subst (λ x. IsDelivered owner (record { primary = x; artifacts = all }) t) same
                (record {
                  role = is_role;
                  audience = facts.1;
                  verdict = facts.0;
                  job = ap (λ (x : ArtifactRecord). x.job_id) fields;
                  principal = ap (λ (x : ArtifactRecord). x.principal_id) fields;
                  published = (at, facts.2);
                  row = rows.0.1;
                  bytes = facts.3;
                  rows = there;
                })
          | inr miss ↦ delivers at vs rs all primary t judged.1 rows.1 there (rw miss at e)
        ]

    -- What a call leaves: on a return also the delivery.
    abbrev pub Leaves : World → HarvestOutcome → World → Type 0
    Leaves w h t = Kept o bucket w t × IsDelivered owner h t

    pub keep-Ends :
        (vs : List VerifiedArtifact) (w t : World)
        → All (IsJudged o max_duration_s) vs
        → Kept o bucket w t
        → Ends (Leaves w) (λ _ s. Kept o bucket w s) (keep u bucket owner vs) t
    unfolding keep
    keep-Ends vs w t judged k =
        let at = t.time t.reads in
        let ticked : World = record t { reads = t.reads + 1 } in
        >>=-Ends (λ rs s. Kept o bucket w s × AreRows o bucket u owner named at vs s rs) (Leaves w)
          (λ _ s. Kept o bucket w s) (publish_all u bucket owner at vs) _ ticked
          (Post-map (AllPublished o bucket u owner named at vs ticked)
            (λ rs s. Kept o bucket w s × AreRows o bucket u owner named at vs s rs)
            (λ _ s. Kept o bucket ticked s) (λ _ s. Kept o bucket w s)
            (publish_all u bucket owner at vs ticked).0 (publish_all u bucket owner at vs ticked).1
            (publish_all-Ends o bucket u owner named at vs ticked
              (All-map (λ v j. j.content_hash) vs judged) k.backed)
            (λ rs l. (Kept-trans o bucket w ticked _ (ticked_lem k) l.0, l.1))
            (λ e l. Kept-trans o bucket w ticked _ (ticked_lem k) l))
          λ rs s l.
            lift-Ends (Leaves w) (λ _ s. Kept o bucket w s) (primary_of rs) _ s (λ e. l.0)
              λ primary found.
                (l.0, delivers at vs rs rs primary s judged l.1 (rows-There at vs rs s l.1) found)
      where
        ticked_lem : Kept o bucket w t → Kept o bucket w (record t { reads = t.reads + 1 })
        ticked_lem k = record { backed = k.backed; jobs = k.jobs; rows = k.rows }
