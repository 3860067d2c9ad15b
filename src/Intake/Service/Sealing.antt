-- ===== src/Intake/Service/Sealing.antt =====
-- What sealing writes.
use growtrics_challenge.Common.{◌+◌, ◌≡◌, refl, ap, ◌∙◌, Option, none, some, map}
use growtrics_challenge.Common.Text.{Str}
use growtrics_challenge.Common.Dict.{lookup, lookup-put_self}
use growtrics_challenge.Domain.Briefs.{LessonBrief}
use growtrics_challenge.Domain.Enums.{ProfileId}
use growtrics_challenge.Domain.Ids.{Uuid}
use growtrics_challenge.Domain.Records.{BriefRecord, JobConstraints, StoredRequest}
use growtrics_challenge.Effects.{ok}
use growtrics_challenge.Effects.Triples.{Post, Ends, lift-Ends, Post-map}
use growtrics_challenge.Intake.Sanitiser.{Unicode}
use growtrics_challenge.Intake.Sealer.{RawLessonRequest, Guard, Hashing, seal_brief, brief_record}
use growtrics_challenge.Intake.Sealer.Sealed.{IsSealed, seal_brief-IsSealed}
use growtrics_challenge.Intake.Service.{Validation, revalidate, seal}
use growtrics_challenge.Storage.Briefs.{insert_brief, seal_at}
use growtrics_challenge.Storage.State.{World}

-- All but the briefs stands.
pub record OnlyBriefs (w t : World) : Type 0 where
  pub jobs : t.jobs ≡ w.jobs
  pub requests : t.requests ≡ w.requests
  pub work_items : t.work_items ≡ w.work_items
  pub artifacts : t.artifacts ≡ w.artifacts
  pub principals : t.principals ≡ w.principals
  pub objects : t.objects ≡ w.objects

-- The whole database and the objects stand.
abbrev pub Unwritten : World → World → Type 0
Unwritten w t = (t.database ≡ w.database) × (t.objects ≡ w.objects)

abbrev InsertedBrief : World → BriefRecord → BriefRecord → World → Type 0
InsertedBrief w b r t =
    OnlyBriefs w t
    × (r ≡ b)
    × (lookup b.brief_id w.briefs ≡ none)
    × (lookup b.brief_id t.briefs ≡ some b)

seal_at-Ends :
    (found : Option BriefRecord) (b : BriefRecord) (w : World)
    → lookup b.brief_id w.briefs ≡ found
    → Post (InsertedBrief w b) (λ _ t. Unwritten w t) (seal_at found b w).0 (seal_at found b w).1
unfolding seal_at
seal_at-Ends (some old) b w e = (refl, refl)
seal_at-Ends none b w e = (
  record {
    jobs = refl;
    requests = refl;
    work_items = refl;
    artifacts = refl;
    principals = refl;
    objects = refl;
  },
  refl,
  e,
  lookup-put_self b.brief_id b w.briefs,
)

-- Each column of the row that keeps a brief.
pub record IsRowOf (brief : LessonBrief) (r : BriefRecord) : Type 0 where
  pub brief_id : r.brief_id ≡ brief.brief_id
  pub job_id : r.job_id ≡ brief.job_id
  pub brief_hash : r.brief_hash ≡ brief.brief_hash
  pub template_version : r.template_version ≡ brief.template_version
  pub subject : r.subject ≡ brief.subject
  pub concept_id : r.concept_id ≡ brief.concept_id
  pub instruction : r.instruction ≡ brief.instruction.text
  pub context_items :
      r.context_items
      ≡ map (λ item. record { kind = item.kind; text = item.text.text }) brief.context
  pub constraints : r.constraints ≡ brief.constraints
  pub sealed_at : r.sealed_at ≡ brief.sealed_at

brief_record-IsRowOf : (brief : LessonBrief) → IsRowOf brief (brief_record brief)
unfolding brief_record
brief_record-IsRowOf brief = record {
  brief_id = refl;
  job_id = refl;
  brief_hash = refl;
  template_version = refl;
  subject = refl;
  concept_id = refl;
  instruction = refl;
  context_items = refl;
  constraints = refl;
  sealed_at = refl;
}

module _ (u : Uuid) (h : Hashing) (unicode : Unicode) (v : Validation) (guard : Guard)
    (version : Str) where
  module _ (job_id : Str) (request : StoredRequest) (constraints : JobConstraints)
      (profile : ProfileId) (w : World) where
    -- The row of a brief that is sealed for the body as it revalidates.
    pub record IsSealedRow (r : BriefRecord) (t : World) : Type 0 where
      pub raw : RawLessonRequest
      pub revalidated :
          revalidate u h unicode v guard version job_id request constraints profile ≡ ok raw
      pub brief : LessonBrief
      pub sealed : IsSealed u h unicode raw guard (w.time w.reads) version brief
      pub row : r ≡ brief_record brief
      pub columns : IsRowOf brief r
      pub fresh : lookup r.brief_id w.briefs ≡ none
      pub stored : lookup r.brief_id t.briefs ≡ some r
      pub others : OnlyBriefs w t

    -- A sealing that returns gives the row of a brief for the body as it revalidates, under a
    -- brief id that no row had: the id is derived from the job, the instruction and every context
    -- item, each in its place, are cleaned, the guard does not deny, and the hash is that of the
    -- canonical document of the cleaned text; the columns of the row are those of the brief, its
    -- texts the cleaned ones; the row is in the table, and all but the briefs stays. A sealing
    -- that raises writes nothing.
    pub seal-IsSealedRow :
        Ends IsSealedRow
          (λ _ t. Unwritten w t)
          (seal u h unicode v guard version job_id request constraints profile)
          w
    unfolding seal insert_brief
    seal-IsSealedRow =
        let ticked : World = record w { reads = w.reads + 1 } in
        lift-Ends IsSealedRow (λ _ t. Unwritten w t)
          (revalidate u h unicode v guard version job_id request constraints profile) _ w
          (λ e. (refl, refl))
          λ raw revalidated.
            lift-Ends IsSealedRow (λ _ t. Unwritten w t)
              (seal_brief u h unicode raw guard (w.time w.reads) version) _ ticked
              (λ e. (refl, refl))
              λ brief made.
                let b = brief_record brief in
                Post-map (InsertedBrief ticked b) IsSealedRow (λ _ t. Unwritten ticked t)
                  (λ _ t. Unwritten w t) (seal_at (lookup b.brief_id ticked.briefs) b ticked).0
                  (seal_at (lookup b.brief_id ticked.briefs) b ticked).1
                  (seal_at-Ends (lookup b.brief_id ticked.briefs) b ticked refl)
                  (λ r k. record {
                    raw = raw;
                    revalidated = revalidated;
                    brief = brief;
                    sealed =
                        seal_brief-IsSealed u h unicode raw guard (w.time w.reads) version brief
                          made;
                    row = k.1;
                    columns = rw k.1 (brief_record-IsRowOf brief);
                    fresh = ap (λ (x : BriefRecord). lookup x.brief_id w.briefs) k.1 ∙ k.2;
                    stored = rw k.1 k.3;
                    others = record {
                      jobs = k.0.jobs;
                      requests = k.0.requests;
                      work_items = k.0.work_items;
                      artifacts = k.0.artifacts;
                      principals = k.0.principals;
                      objects = k.0.objects;
                    };
                  })
                  (λ e k. k)
