-- ===== src/Storage/Submission/Atomic.antt =====
-- What `MemoryUnitOfWork.commit_submission` leaves in the database.
use growtrics_challenge.Common.{◌≡◌, refl, ap, Bool, false, Option, none, inl, inr, arith}
use growtrics_challenge.Common.Text.{Str}
use growtrics_challenge.Common.Dict.{Dict, lookup, put}
use growtrics_challenge.Domain.Errors.{Error}
use growtrics_challenge.Effects.{ok, err, Result-cases}
use growtrics_challenge.Effects.Pure.{◌>>=◌}
use growtrics_challenge.Storage.State.{Submission, World, queued}
use growtrics_challenge.Storage.Submission.{
  CommitPoint, insert_row, fails_at, staged, swap_in, commit_submission,
}

-- A submission that is refused, by a key that is there or by a failure injected at any row,
-- changes nothing.
pub commit_submission_refused :
    (fail_after : Option CommitPoint) (s : Submission) (w : World) {e : Error}
    → (commit_submission fail_after s w).0 ≡ err e
    → (commit_submission fail_after s w).1 ≡ w
unfolding commit_submission
commit_submission_refused fail_after s w h = elim (Result-cases (staged fail_after w.database s)) [
  | inl (db, r) ↦ absurd (cc (rw r at h))
  | inr (x, r) ↦ rw r refl
]

insert_row-fresh :
    {A : Type 0} (key : Str) (row : A) (rows : Dict A) (fails : Bool)
    → lookup key rows ≡ none
    → fails ≡ false
    → insert_row key row rows fails ≡ ok (put key row rows)
unfolding insert_row
insert_row-fresh key row rows fails h f = ground arith

module _ (fail_after : Option CommitPoint) (s : Submission) (w : World) where
  -- The three keys are free and no failure is injected.
  pub record IsFresh : Type 0 where
    pub request_free : lookup s.request.request_key w.requests ≡ none
    pub job_free : lookup s.job.job_id w.jobs ≡ none
    pub item_free : lookup s.work_item.item_id w.work_items ≡ none
    pub no_fault : (p : CommitPoint) → fails_at fail_after p ≡ false

  -- Exactly the three rows are added.
  abbrev pub committed : World
  committed = record w {
    database = record w.database {
      requests = put s.request.request_key s.request w.requests;
      jobs = put s.job.job_id s.job w.jobs;
      work_items = put s.work_item.item_id (queued s.work_item) w.work_items;
    };
  }

  -- With three free keys and no injected failure, a submission adds exactly its request, its job
  -- and its free queue row.
  pub commit_submission_whole : IsFresh → commit_submission fail_after s w ≡ (ok tt, committed)
  unfolding commit_submission
  commit_submission_whole f = ap (λ r. swap_in r w) all
    where
      all : staged fail_after w.database s ≡ ok committed.database
      all =
          unfold staged in
          rw
            (
              insert_row-fresh s.request.request_key s.request w.requests _ f.request_free
                  (f.no_fault CommitPoint.request),
              ◌>>=◌,
            )
            (rw
              (
                insert_row-fresh s.job.job_id s.job w.jobs _ f.job_free
                    (f.no_fault CommitPoint.job),
                ◌>>=◌,
              )
              (rw
                (
                  insert_row-fresh s.work_item.item_id (queued s.work_item) w.work_items _
                      f.item_free (f.no_fault CommitPoint.work_item),
                  ◌>>=◌,
                )
                refl))
