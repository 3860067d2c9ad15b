-- ===== src/Storage/Submission.antt =====
-- `MemoryUnitOfWork` of src/app/storage/memory/jobs.py: the three rows of one submission, or none.
-- `commits`, a count of attempts that only tests read, is left out.
pub mod Atomic
use growtrics_challenge.Common.{Bool, true, false, Option, none, some, if◌then◌else◌}
use growtrics_challenge.Common.Text.{Str}
use growtrics_challenge.Common.Dict.{Dict, lookup, put}
use growtrics_challenge.Domain.Errors.{Error}
use growtrics_challenge.Effects.{Result, ok, err}
use growtrics_challenge.Effects.Pure.{◌>>=◌}
use growtrics_challenge.Storage.State.{Submission, Database, World, Action, queued}

-- Where a test makes `commit_submission` fail.
pub data CommitPoint : Type 0 where
  request job work_item : CommitPoint

abbrev pub point_eq : CommitPoint → CommitPoint → Bool
point_eq CommitPoint.request CommitPoint.request = true
point_eq CommitPoint.job CommitPoint.job = true
point_eq CommitPoint.work_item CommitPoint.work_item = true
point_eq _ _ = false

abbrev pub fails_at : Option CommitPoint → CommitPoint → Bool
fails_at none point = false
fails_at (some after) point = point_eq after point

-- `IntegrityError` for a key that is there, and the injected failure behind the write.
unfoldable pub insert_row : {A : Type 0} → Str → A → Dict A → Bool → Result (Dict A)
insert_row key row rows fails = elim (lookup key rows) [
  | some old ↦ err Error.integrity
  | none ↦ if fails then err Error.other else ok (put key row rows)
]

-- The copies with the three rows written into them.
unfoldable pub staged : Option CommitPoint → Database → Submission → Result Database
unfolding insert_row queued
staged fail_after db s = do
  requests ←
      insert_row s.request.request_key s.request db.requests
        (fails_at fail_after CommitPoint.request)
  jobs ← insert_row s.job.job_id s.job db.jobs (fails_at fail_after CommitPoint.job)
  work_items ←
      insert_row s.work_item.item_id (queued s.work_item) db.work_items
        (fails_at fail_after CommitPoint.work_item)
  ok (record db { requests = requests; jobs = jobs; work_items = work_items })

-- The swap is the last statement, so a refusal leaves the database as it was.
abbrev pub swap_in : Result Database → Action (Unit {0})
swap_in (ok db) w = (ok tt, record w { database = db })
swap_in (err e) w = (err e, w)

unfoldable pub commit_submission : Option CommitPoint → Submission → Action (Unit {0})
unfolding staged
commit_submission fail_after s w = swap_in (staged fail_after w.database s) w
