-- ===== src/Custody/Store/Backed.antt =====
-- The rows of `artifacts` and the objects that they name.
pub mod Publishing
use growtrics_challenge.Common.{
  ℕ, ◌+◌, ◌≡◌, refl, sym, ap, ◌∙◌, suc, Bool, true, false, Option, none, some, List, [], ◌∷◌, ◌++◌,
  All, length, Bool-cases, Option-cases, if◌then◌else◌, inl, inr, arith,
}
use growtrics_challenge.Common.Text.{Str, codes, str_eq, str_eq_iff, eq_of_str_eq}
use growtrics_challenge.Common.Split.{strip_prefix, strip_prefix-append}
use growtrics_challenge.Common.Dict.{
  Dict, lookup, put, lookup-put, lookup-put_self, Entries, Entries-map, Entries-put, Entries-lookup,
}
use growtrics_challenge.Domain.Enums.{ScanVerdict}
use growtrics_challenge.Domain.Errors.{Error}
use growtrics_challenge.Domain.Ids.{Uuid, derive_artifact_id}
use growtrics_challenge.Domain.Records.{ArtifactRecord}
use growtrics_challenge.Effects.{Result, ok, err}
use growtrics_challenge.Effects.Exec.{pure, lift, ◌>>=◌}
use growtrics_challenge.Effects.Triples.{Post, Ends, Post-map, >>=-Ends, lift-Ends}
use growtrics_challenge.Custody.Candidates.{HarvestedFile, VerifiedArtifact, Outside}
use growtrics_challenge.Custody.Harvester.{content_hash_of}
use growtrics_challenge.Custody.Store.{
  prefix_for, suffix_for, digest_of, get_or, object_key, Owner, row_for, named_row,
  artifact_record_for, publish_one, publish_all,
}
use growtrics_challenge.Storage.Artifacts.{insert_at, insert_artifact}
use growtrics_challenge.Storage.Objects.{
  put_object, store_at, parse_storage_uri, uri_prefix, memory_scheme,
}
use growtrics_challenge.Storage.Objects.Uris.{build_storage_uri-eq-ok, ensure_safe_key-eq-ok}
use growtrics_challenge.Storage.State.{World, Action}

-- Two texts that start with parts of the same length.
same_start : (a b x y : Str) → length a ≡ length b → a ++ x ≡ b ++ y → (a ≡ b) × (x ≡ y)
same_start [] [] x y n e = (refl, e)
same_start [] (d ∷ b) x y n e = absurd (omega (arith, n))
same_start (c ∷ a) [] x y n e = absurd (omega (arith, n))
same_start (c ∷ a) (d ∷ b) x y n e =
    let first : c ≡ d = cc e in
    let rest : a ++ x ≡ b ++ y = cc e in
    let ih = same_start a b x y (omega (arith, n)) rest in (cc (first, ih.0), ih.1)

cancel : (p x y : Str) → p ++ x ≡ p ++ y → x ≡ y
cancel p x y e = (same_start p p x y refl e).1

first : Str → ℕ
first [] = 0
first (c ∷ s) = c

after_slash : Str → Str → Str → Str
after_slash job digest suffix = codes "/" ++ (job ++ (codes "/" ++ (digest ++ suffix)))

same_digest :
    (job1 job2 d1 d2 s1 s2 : Str)
    → length job1 ≡ length job2
    → length d1 ≡ length d2
    → after_slash job1 d1 s1 ≡ after_slash job2 d2 s2
    → d1 ≡ d2
unfolding after_slash
same_digest job1 job2 d1 d2 s1 s2 j n e =
    let jobs = same_start job1 job2 _ _ j (cancel (codes "/") _ _ e) in
    (same_start d1 d2 s1 s2 n (cancel (codes "/") _ _ jobs.1)).0

same_digest_of_keys :
    (v1 v2 : ScanVerdict) (job1 job2 d1 d2 s1 s2 : Str)
    → length job1 ≡ length job2
    → length d1 ≡ length d2
    → prefix_for v1 ++ after_slash job1 d1 s1 ≡ prefix_for v2 ++ after_slash job2 d2 s2
    → d1 ≡ d2
unfolding first
same_digest_of_keys ScanVerdict.clean ScanVerdict.clean job1 job2 d1 d2 s1 s2 j n e =
    same_digest job1 job2 d1 d2 s1 s2 j n (cancel (codes "artifacts") _ _ e)
same_digest_of_keys ScanVerdict.quarantined ScanVerdict.quarantined job1 job2 d1 d2 s1 s2 j n e =
    same_digest job1 job2 d1 d2 s1 s2 j n (cancel (codes "quarantine") _ _ e)
same_digest_of_keys ScanVerdict.clean ScanVerdict.quarantined job1 job2 d1 d2 s1 s2 j n e =
    absurd (omega (arith, ap first e))
same_digest_of_keys ScanVerdict.quarantined ScanVerdict.clean job1 job2 d1 d2 s1 s2 j n e =
    absurd (omega (arith, ap first e))

module _ (o : Outside) (bucket : Str) where
  -- The uri of a row by its own columns.
  abbrev pub uri_of : ArtifactRecord → Str
  uri_of r =
      uri_prefix memory_scheme bucket ++ object_key r.job_id r.content_hash r.mime r.scan_verdict

  -- A uri of this store.
  abbrev pub IsKnown : Str → Type 0
  IsKnown uri = (key : Str) × (parse_storage_uri uri memory_scheme bucket ≡ ok key)

  -- The object at the row's uri hashes to the row's hash; the row lies where its columns say, at
  -- a uri of the store, and its job id has the length of every job id.
  pub record IsBacked (objects : Dict (List ℕ)) (r : ArtifactRecord) : Type 0 where
    pub content : List ℕ
    pub stored : lookup r.storage_uri objects ≡ some content
    pub content_hash : r.content_hash ≡ content_hash_of o content
    pub place : r.storage_uri ≡ uri_of r
    pub job : length r.job_id ≡ 30
    pub known : IsKnown r.storage_uri

  digest_lem : (content : List ℕ) → digest_of (content_hash_of o content) ≡ o.sha256 content
  digest_lem content =
      ap (λ x. get_or x (content_hash_of o content))
        (strip_prefix-append (codes "sha256:") (o.sha256 content))

  -- Two places that are one place hold the bytes of one hash.
  same_hash :
      (v1 v2 : ScanVerdict) (job1 job2 mime1 mime2 : Str) (content1 content2 : List ℕ)
      → length job1 ≡ length job2
      → uri_prefix memory_scheme bucket ++ object_key job1 (content_hash_of o content1) mime1 v1
        ≡ uri_prefix memory_scheme bucket ++ object_key job2 (content_hash_of o content2) mime2 v2
      → content_hash_of o content1 ≡ content_hash_of o content2
  unfolding object_key after_slash
  same_hash v1 v2 job1 job2 mime1 mime2 content1 content2 jobs e =
      let d1 = digest_of (content_hash_of o content1) in
      let d2 = digest_of (content_hash_of o content2) in
      let n1 : length d1 ≡ 64 = ap length (digest_lem content1) ∙ o.length-sha256 content1 in
      let n2 : length d2 ≡ 64 = ap length (digest_lem content2) ∙ o.length-sha256 content2 in
      let same =
        same_digest_of_keys v1 v2 job1 job2 d1 d2 (suffix_for mime1) (suffix_for mime2) jobs
          (n1 ∙ sym n2) (cancel (uri_prefix memory_scheme bucket) _ _ e) in
      ap (λ d. codes "sha256:" ++ d) (sym (digest_lem content1) ∙ same ∙ digest_lem content2)

  -- Bytes put at a place of their own leave every row backed.
  IsBacked-put :
      (objects : Dict (List ℕ)) (r : ArtifactRecord) (verdict : ScanVerdict) (job mime : Str)
      (content : List ℕ) (uri : Str)
      → length job ≡ 30
      → uri
        ≡ uri_prefix memory_scheme bucket ++ object_key job (content_hash_of o content) mime verdict
      → IsBacked objects r
      → IsBacked (put uri content objects) r
  IsBacked-put objects r verdict job mime content uri n place b =
      let looked = lookup-put uri r.storage_uri content objects in
      elim (Bool-cases (str_eq uri r.storage_uri)) [
        | inl same ↦
            let mine : r.storage_uri
                ≡ uri_prefix memory_scheme bucket
                  ++ object_key r.job_id (content_hash_of o b.content) r.mime r.scan_verdict =
              b.place
              ∙ ap
                  (λ h.
                    uri_prefix memory_scheme bucket ++ object_key r.job_id h r.mime r.scan_verdict)
                  b.content_hash in
            record {
              content = content;
              stored =
                  looked ∙ ap (λ t. if t then some content else lookup r.storage_uri objects) same;
              content_hash =
                  b.content_hash
                  ∙ same_hash r.scan_verdict verdict r.job_id job r.mime mime b.content content
                      (b.job ∙ sym n)
                      (sym mine ∙ sym (eq_of_str_eq uri r.storage_uri same) ∙ place);
              place = b.place;
              job = b.job;
              known = b.known;
            }
        | inr other ↦ record {
          content = b.content;
          stored =
              looked
              ∙ ap (λ t. if t then some content else lookup r.storage_uri objects) other
              ∙ b.stored;
          content_hash = b.content_hash;
          place = b.place;
          job = b.job;
          known = b.known;
        }
      ]

  -- Every row of the table is backed.
  abbrev pub Backed : World → Type 0
  Backed w = Entries (λ id r. IsBacked w.objects r) w.artifacts

  -- What a write of custody keeps: the rows that were there, their bytes, and the job table.
  pub record Kept (w t : World) : Type 0 where
    pub backed : Backed t
    pub jobs : t.jobs ≡ w.jobs
    pub rows :
        (id : Str) (r : ArtifactRecord)
        → lookup id w.artifacts ≡ some r
        → lookup id t.artifacts ≡ some r

  pub Kept-refl : (w : World) → Backed w → Kept w w
  Kept-refl w h = record { backed = h; jobs = refl; rows = λ id r e. e }

  pub Kept-trans : (w t s : World) → Kept w t → Kept t s → Kept w s
  Kept-trans w t s k l = record {
    backed = l.backed;
    jobs = l.jobs ∙ k.jobs;
    rows = λ id r e. l.rows id r (k.rows id r e);
  }

  -- A file whose hash is that of its bytes.
  abbrev pub Hashed : VerifiedArtifact → Type 0
  Hashed v = v.harvested.content_hash ≡ content_hash_of o v.harvested.content

  module _ (owner : Owner) (named : length owner.job_id ≡ 30) (v : VerifiedArtifact)
      (hashed : Hashed v) where
    key_of : Str
    key_of =
        object_key owner.job_id v.harvested.content_hash v.harvested.descriptor.media_type v.verdict

    -- The uri and the object after a put.
    abbrev Stored : World → Str → World → Type 0
    Stored w uri t =
        Kept w t
        × (uri ≡ uri_prefix memory_scheme bucket ++ key_of)
        × (lookup uri t.objects ≡ some v.harvested.content)
        × IsKnown uri

    store_at-Ends :
        (built : Result Str) (w : World)
        → Backed w
        → ((uri : Str)
            → built ≡ ok uri
            → (uri ≡ uri_prefix memory_scheme bucket ++ key_of) × IsKnown uri)
        → Post
            (Stored w)
            (λ _ t. Kept w t)
            (store_at bucket built v.harvested.content w).0
            (store_at bucket built v.harvested.content w).1
    unfolding store_at key_of
    store_at-Ends (err e) w h image = Kept-refl w h
    store_at-Ends (ok uri) w h image =
        let (place, known) = image uri refl in
        let whole : uri
            ≡ uri_prefix memory_scheme bucket
              ++ object_key owner.job_id (content_hash_of o v.harvested.content)
                  v.harvested.descriptor.media_type v.verdict =
          place
          ∙ ap
              (λ h.
                uri_prefix memory_scheme bucket
                ++ object_key owner.job_id h v.harvested.descriptor.media_type v.verdict)
              hashed in
        (
          record {
            backed =
                Entries-map _ _ w.artifacts
                  (λ id r b.
                    IsBacked-put w.objects r v.verdict owner.job_id
                      v.harvested.descriptor.media_type v.harvested.content uri named whole b)
                  h;
            jobs = refl;
            rows = λ id r e. e;
          },
          place,
          lookup-put_self uri v.harvested.content w.objects,
          known,
        )
