-- ===== src/Custody/Store/Backed/Publishing.antt =====
-- What publishing writes: the bytes, then the row, for one file and for all.
use growtrics_challenge.Common.{
  ℕ, ◌≡◌, refl, sym, ap, ◌∙◌, Option, none, some, List, [], ◌∷◌, ◌++◌, All, length, Bool-cases,
  if◌then◌else◌, subst, inl, inr,
}
use growtrics_challenge.Common.Text.{Str, str_eq, eq_of_str_eq}
use growtrics_challenge.Common.Dict.{lookup, lookup-put, lookup-put_self, Entries-put}
use growtrics_challenge.Domain.Ids.{Uuid}
use growtrics_challenge.Domain.Records.{ArtifactRecord}
use growtrics_challenge.Effects.{Result, ok, err}
use growtrics_challenge.Effects.Triples.{Post, Ends, Post-map, >>=-Ends, lift-Ends}
use growtrics_challenge.Custody.Candidates.{VerifiedArtifact, Outside}
use growtrics_challenge.Custody.Store.{
  object_key, Owner, row_for, named_row, artifact_record_for, publish_one, publish_all,
}
use growtrics_challenge.Custody.Store.Backed.{
  IsKnown, IsBacked, Backed, Kept, Kept-refl, Kept-trans, Hashed, key_of, Stored, store_at-Ends,
}
use growtrics_challenge.Storage.Artifacts.{insert_at, insert_artifact}
use growtrics_challenge.Storage.Objects.{put_object, safe_uri, uri_prefix, memory_scheme}
use growtrics_challenge.Storage.Objects.Uris.{safe_uri-eq-ok, parse_storage_uri-safe_uri}
use growtrics_challenge.Storage.State.{World}

module _ (o : Outside) (bucket : Str) where
  -- A row that is in the table, beside what was kept.
  abbrev Inserted : World → ArtifactRecord → ArtifactRecord → World → Type 0
  Inserted w r a t = Kept o bucket w t × (a ≡ r) × (lookup r.artifact_id t.artifacts ≡ some r)

  insert_at-Ends :
      (found : Option ArtifactRecord) (r : ArtifactRecord) (w : World)
      → lookup r.artifact_id w.artifacts ≡ found
      → IsBacked o bucket w.objects r
      → Backed o bucket w
      → Post
          (Inserted w r)
          (λ _ t. Kept o bucket w t)
          (insert_at found r w).0
          (insert_at found r w).1
  unfolding insert_at
  insert_at-Ends (some old) r w e b h = Kept-refl o bucket w h
  insert_at-Ends none r w e b h = (
    record {
      backed = Entries-put _ r.artifact_id r w.artifacts b h;
      jobs = refl;
      rows = λ id a there. elim (Bool-cases (str_eq r.artifact_id id)) [
        | inl same ↦
            absurd
              (cc (there, e, ap (λ k. lookup k w.artifacts) (eq_of_str_eq r.artifact_id id same)))
        | inr other ↦
            lookup-put r.artifact_id id r w.artifacts
            ∙ ap (λ t. if t then some r else lookup id w.artifacts) other
            ∙ there
      ];
    },
    refl,
    lookup-put_self r.artifact_id r w.artifacts,
  )

  -- The row of a verified file, at some uri and under some id.
  abbrev pub IsRow : Owner → ℕ → VerifiedArtifact → ArtifactRecord → Type 0
  IsRow owner at v r = (uri : Str) × ((id : Str) × (r ≡ row_for v owner uri at id))

  -- What publishing one file leaves: its row is in the table.
  abbrev pub Published : Owner → ℕ → VerifiedArtifact → World → ArtifactRecord → World → Type 0
  Published owner at v w r t =
      Kept o bucket w t × IsRow owner at v r × (lookup r.artifact_id t.artifacts ≡ some r)

  named_row-eq-ok :
      (v : VerifiedArtifact) (owner : Owner) (uri : Str) (at : ℕ) (id : Result Str)
      (r : ArtifactRecord)
      → named_row v owner uri at id ≡ ok r
      → (artifact_id : Str) × (r ≡ row_for v owner uri at artifact_id)
  unfolding named_row
  named_row-eq-ok v owner uri at (ok artifact_id) r h =
      let q : ◌≡◌ {A = Result ArtifactRecord} (ok (row_for v owner uri at artifact_id)) (ok r) =
        h in
      let same : row_for v owner uri at artifact_id ≡ r = cc q in (artifact_id, sym same)
  named_row-eq-ok v owner uri at (err e) r h = cc

  module _ (u : Uuid) (owner : Owner) (named : length owner.job_id ≡ 30) (at : ℕ) where
    insert-Ends :
        (v : VerifiedArtifact) (hashed : Hashed o bucket v) (w t : World) (uri : Str)
        (r : ArtifactRecord)
        → Stored o bucket owner named v hashed w uri t
        → IsRow owner at v r
        → r.storage_uri ≡ uri
        → Ends (Published owner at v w) (λ _ s. Kept o bucket w s) (insert_artifact r) t
    unfolding insert_artifact key_of
    insert-Ends v hashed w t uri r stored row there =
        let fields = row.1.1 in
        let b : IsBacked o bucket t.objects r = record {
          content = v.harvested.content;
          stored = ap (λ k. lookup k t.objects) there ∙ stored.2;
          content_hash = ap (λ x. x.content_hash) fields ∙ hashed;
          place =
              there
              ∙ stored.1
              ∙ ap
                  (λ (x : ArtifactRecord).
                    uri_prefix memory_scheme bucket
                    ++ object_key x.job_id x.content_hash x.mime x.scan_verdict)
                  (sym fields);
          job = ap (λ (x : ArtifactRecord). length x.job_id) fields ∙ named;
          known = subst (IsKnown o bucket) (sym there) stored.3;
        } in
        Post-map (Inserted t r) (Published owner at v w) (λ _ s. Kept o bucket t s)
          (λ _ s. Kept o bucket w s) (insert_at (lookup r.artifact_id t.artifacts) r t).0
          (insert_at (lookup r.artifact_id t.artifacts) r t).1
          (insert_at-Ends (lookup r.artifact_id t.artifacts) r t refl b stored.0.backed)
          (λ a k. (Kept-trans o bucket w t _ stored.0 k.0, rw k.1 row, rw k.1 k.2))
          (λ e k. Kept-trans o bucket w t _ stored.0 k)

    put-Ends :
        (v : VerifiedArtifact) (w : World) (hashed : Hashed o bucket v)
        → Backed o bucket w
        → Ends
            (Stored o bucket owner named v hashed w)
            (λ _ s. Kept o bucket w s)
            (put_object bucket
              (object_key owner.job_id v.harvested.content_hash v.harvested.descriptor.media_type
                v.verdict)
              v.harvested.content)
            w
    unfolding put_object key_of
    put-Ends v w hashed h =
        let key =
          object_key owner.job_id v.harvested.content_hash v.harvested.descriptor.media_type
            v.verdict in
        store_at-Ends o bucket owner named v hashed (safe_uri bucket key) w h
          (λ uri e. (safe_uri-eq-ok bucket key uri e, parse_storage_uri-safe_uri bucket key uri e))

    publish_one-Ends :
        (v : VerifiedArtifact) (w : World)
        → Hashed o bucket v
        → Backed o bucket w
        → Ends
            (Published owner at v w)
            (λ _ s. Kept o bucket w s)
            (publish_one u bucket owner at v)
            w
    unfolding publish_one artifact_record_for
    publish_one-Ends v w hashed h =
        >>=-Ends (Stored o bucket owner named v hashed w) (Published owner at v w)
          (λ _ s. Kept o bucket w s)
          (put_object bucket
            (object_key owner.job_id v.harvested.content_hash v.harvested.descriptor.media_type
              v.verdict)
            v.harvested.content)
          _ w (put-Ends v w hashed h)
          λ uri t stored.
            lift-Ends (Published owner at v w) (λ _ s. Kept o bucket w s)
              (artifact_record_for u bucket v owner uri at) insert_artifact t (λ e. stored.0)
              λ r built.
                let (id, fields) = named_row-eq-ok v owner uri at _ r built in
                insert-Ends v hashed w t uri r stored (uri, (id, fields))
                  (ap (λ x. x.storage_uri) fields)

    -- One row for each file, in order, all of them in the table.
    abbrev pub AreRows : List VerifiedArtifact → World → List ArtifactRecord → Type 0
    AreRows [] t [] = Unit
    AreRows [] t (r ∷ rs) = ⊥
    AreRows (v ∷ vs) t [] = ⊥
    AreRows (v ∷ vs) t (r ∷ rs) =
        (IsRow owner at v r × (lookup r.artifact_id t.artifacts ≡ some r)) × AreRows vs t rs

    abbrev pub AllPublished : List VerifiedArtifact → World → List ArtifactRecord → World → Type 0
    AllPublished vs w rs t = Kept o bucket w t × AreRows vs t rs

    pub publish_all-Ends :
        (vs : List VerifiedArtifact) (w : World)
        → All (Hashed o bucket) vs
        → Backed o bucket w
        → Ends (AllPublished vs w) (λ _ s. Kept o bucket w s) (publish_all u bucket owner at vs) w
    unfolding publish_all
    publish_all-Ends [] w hashed h = (Kept-refl o bucket w h, tt)
    publish_all-Ends (v ∷ vs) w hashed h =
        >>=-Ends (Published owner at v w) (AllPublished (v ∷ vs) w) (λ _ s. Kept o bucket w s)
          (publish_one u bucket owner at v) _ w (publish_one-Ends v w hashed.0 h)
          λ r t k.
            >>=-Ends (λ rs s. Kept o bucket t s × AllPublished vs w rs s) (AllPublished (v ∷ vs) w)
              (λ _ s. Kept o bucket w s) (publish_all u bucket owner at vs) _ t
              (Post-map (AllPublished vs t) (λ rs s. Kept o bucket t s × AllPublished vs w rs s)
                (λ _ s. Kept o bucket t s) (λ _ s. Kept o bucket w s)
                (publish_all u bucket owner at vs t).0 (publish_all u bucket owner at vs t).1
                (publish_all-Ends vs t hashed.1 k.0.backed)
                (λ rs l. (l.0, (Kept-trans o bucket w t _ k.0 l.0, l.1)))
                (λ e l. Kept-trans o bucket w t _ k.0 l))
              λ rs s l. (l.1.0, ((k.1, l.0.rows r.artifact_id r k.2), l.1.1))
