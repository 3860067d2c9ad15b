-- ===== src/Custody/Service/Downloads.antt =====
-- What a download answers, when the rows of the table are backed.
use growtrics_challenge.Common.{
  ℕ, ◌<◌, ◌≡◌, refl, sym, ap, ◌∙◌, Bool, true, false, ◌&&◌, Option, none, some, [],
}
use growtrics_challenge.Common.Text.{Str}
use growtrics_challenge.Common.Dict.{lookup, Entries-lookup}
use growtrics_challenge.Domain.Contracts.{contract_for}
use growtrics_challenge.Domain.Enums.{is_clean, is_learner}
use growtrics_challenge.Domain.Errors.{Error, ErrorCode}
use growtrics_challenge.Domain.Records.{AccessScope, ArtifactRecord}
use growtrics_challenge.Effects.{Result, ok, err}
use growtrics_challenge.Custody.Candidates.{Outside}
use growtrics_challenge.Custody.Harvester.{content_hash_of}
use growtrics_challenge.Custody.Store.{ContentStream, content_stream}
use growtrics_challenge.Custody.Store.Backed.{IsBacked, Backed}
use growtrics_challenge.Custody.Service.{content_of, open_content}
use growtrics_challenge.Storage.Artifacts.{get_artifact}
use growtrics_challenge.Storage.Objects.{open_object, known_object}
use growtrics_challenge.Storage.Objects.Streams.{joined, stream-joined}
use growtrics_challenge.Storage.State.{World}

module _ (o : Outside) (bucket : Str) (chunk_bytes : ℕ) (some_bytes : 0 < chunk_bytes) where
  abbrev pub is_open : ArtifactRecord → Bool
  is_open r = is_learner r.audience && is_clean r.scan_verdict

  -- A stream of a row: its columns, and chunks that together have its hash.
  pub record Serves (r : ArtifactRecord) (s : ContentStream) : Type 0 where
    pub media_type : s.media_type ≡ r.mime
    pub size_bytes : s.size_bytes ≡ r.size_bytes
    pub content_hash : s.content_hash ≡ r.content_hash
    pub chunks : content_hash_of o (joined s.chunks) ≡ r.content_hash

  -- The answer to a download of what the table holds under the id.
  abbrev pub Answer : Option ArtifactRecord → Result (Option ContentStream) × World → World → Type 0
  Answer none x w = x ≡ (ok none, w)
  Answer (some r) x w =
      (is_open r ≡ true → (s : ContentStream) × (x ≡ (ok (some s), w)) × Serves r s)
      × (is_open r ≡ false → x ≡ (err (Error.domain ErrorCode.artifact_not_found []), w))

  open_object_lem :
      (r : ArtifactRecord) (w : World) (b : IsBacked o bucket w.objects r)
      → open_object bucket r.storage_uri w ≡ (ok b.content, w)
  unfolding open_object known_object
  open_object_lem r w b = rw (b.known.1, b.stored) refl

  content_of-Answer :
      (found : Option ArtifactRecord) (w : World)
      → ((r : ArtifactRecord) → found ≡ some r → IsBacked o bucket w.objects r)
      → Answer found (content_of bucket chunk_bytes found w) w
  unfolding content_of contract_for content_stream
  content_of-Answer none w backed = refl
  content_of-Answer (some r) w backed =
      let b = backed r refl in
      rw (open_object_lem r w b) (
        (λ yes_open. rw yes_open (
          _,
          refl,
          record {
            media_type = refl;
            size_bytes = refl;
            content_hash = refl;
            chunks =
                ap (content_hash_of o) (stream-joined chunk_bytes b.content some_bytes).0
                ∙ sym b.content_hash;
          },
        )),
        (λ shut. rw shut refl),
      )

  -- A download, over a table whose rows are backed and with chunks that are not empty, for what
  -- the table holds under the id: `None` when there is no row; the stream of a clean row for a
  -- learner, with its media type, its size and its hash, whose chunks together have that hash;
  -- `ARTIFACT_NOT_FOUND` for every other row. Nothing is changed.
  pub open_content-Answer :
      (scope : AccessScope) (artifact_id : Str) (w : World)
      → Backed o bucket w
      → Answer
          (lookup artifact_id w.artifacts)
          (open_content bucket chunk_bytes scope artifact_id w)
          w
  unfolding open_content get_artifact
  open_content-Answer scope artifact_id w backed =
      content_of-Answer (lookup artifact_id w.artifacts) w (λ r found.
        Entries-lookup (λ id a. IsBacked o bucket w.objects a) artifact_id w.artifacts backed found)
