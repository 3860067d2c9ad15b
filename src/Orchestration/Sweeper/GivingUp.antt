-- ===== src/Orchestration/Sweeper/GivingUp.antt =====
-- What giving up on a job leaves behind.
use growtrics_challenge.Common.{
  ℕ, ◌≡◌, refl, ◌∙◌, true, false, none, some, ◌≢◌, Bool-cases, inl, inr, arith,
}
use growtrics_challenge.Common.Text.{Str, str_eq, eq_of_str_eq}
use growtrics_challenge.Common.Dict.{
  Dict, lookup, put, lookup-put_self, lookup-put, lookup-remove_self, lookup-remove,
}
use growtrics_challenge.Domain.Enums.{JobStatus, StageName, is_terminal}
use growtrics_challenge.Domain.Errors.{ErrorCode}
use growtrics_challenge.Domain.Ids.{Uuid, derive_work_item_id}
use growtrics_challenge.Domain.Ids.Shapes.{derived_shapes}
use growtrics_challenge.Domain.Records.{FailureRecord, JobRecord}
use growtrics_challenge.Effects.{ok}
use growtrics_challenge.Storage.State.{World}
use growtrics_challenge.Storage.Jobs.{moved}
use growtrics_challenge.Storage.Jobs.Transition.{apply_transition-ok}
use growtrics_challenge.Storage.Queue.{discard}
use growtrics_challenge.Orchestration.Sweeper.{give_up_on, giving_up, timed_out}

lookup-put_ne :
    {V : Type 0} (j : Str) (v : V) (d : Dict V) {k : Str}
    → j ≢ k
    → lookup k (put j v d) ≡ lookup k d
lookup-put_ne j v d {k} ne = elim (Bool-cases (str_eq j k)) [
  | inl same ↦ absurd (ne (eq_of_str_eq j k same))
  | inr apart ↦ lookup-put j k v d ∙ rw apart refl
]

-- The row of a job that was given up on: failed as timed out, in the stage where it stood, with
-- the percent that it had.
pub record IsTimedOut (before job : JobRecord) : Type 0 where
  pub status : job.status ≡ JobStatus.failed
  pub stage : job.stage ≡ StageName.failed
  pub percent : job.progress_percent ≡ before.progress_percent
  pub failure :
      (f : FailureRecord) × (job.failure ≡ some f)
      × (f.code ≡ ErrorCode.job_timed_out)
      × (f.stage ≡ before.stage)

module _ (u : Uuid) (job : JobRecord) (at : ℕ) (w : World) (item_id : Str) where
  -- Giving up on an unfinished job whose record is the row of the table: it answers `True`, the
  -- row is failed as timed out, and the queue has no row under the item id that is derived from
  -- the job.
  pub give_up_on-IsTimedOut :
      lookup job.job_id w.jobs ≡ some job
      → is_terminal job.status ≡ false
      → derive_work_item_id u job.job_id ≡ ok item_id
      → (after_it : JobRecord) × ((give_up_on u job at w).0 ≡ ok true)
        × (lookup job.job_id (give_up_on u job at w).1.jobs ≡ some after_it)
        × IsTimedOut job after_it
        × (lookup item_id (give_up_on u job at w).1.work_items ≡ none)
  unfolding give_up_on discard
  give_up_on-IsTimedOut row live derived =
      let (_, _, _, _, (trace_id, traced, _), _) =
        derived_shapes u job.request_key job.job_id job.job_id job.attempt in
      let t = giving_up job (timed_out job trace_id at) in
      let done = apply_transition-ok t w job row refl in
      let image = moved job t (w.time w.reads) in
      (
        image,
        rw (live, traced, done, derived) refl,
        rw (live, traced, done, derived) (unfold moved in lookup-put_self job.job_id _ w.jobs),
        unfold moved in
            record {
              status = refl;
              stage = refl;
              percent = refl;
              failure = (timed_out job trace_id at, refl, refl, refl);
            },
        rw (live, traced, done, derived) (lookup-remove_self item_id w.work_items),
      )

  -- The rows of the other jobs stay.
  pub give_up_on-other :
      (k : Str)
      → lookup job.job_id w.jobs ≡ some job
      → is_terminal job.status ≡ false
      → job.job_id ≢ k
      → lookup k (give_up_on u job at w).1.jobs ≡ lookup k w.jobs
  unfolding give_up_on discard
  give_up_on-other k row live ne =
      let (_, _, _, (wi, derived, _), (trace_id, traced, _), _) =
        derived_shapes u job.request_key job.job_id job.job_id job.attempt in
      let done = apply_transition-ok (giving_up job (timed_out job trace_id at)) w job row refl in
      rw (live, traced, done, derived) (lookup-put_ne job.job_id _ w.jobs ne)

  -- A queue row that is not there does not come back.
  pub give_up_on-missing :
      (i : Str)
      → lookup job.job_id w.jobs ≡ some job
      → is_terminal job.status ≡ false
      → lookup i w.work_items ≡ none
      → lookup i (give_up_on u job at w).1.work_items ≡ none
  unfolding give_up_on discard
  give_up_on-missing i row live missing =
      let (_, _, _, (wi, derived, _), (trace_id, traced, _), _) =
        derived_shapes u job.request_key job.job_id job.job_id job.attempt in
      let done = apply_transition-ok (giving_up job (timed_out job trace_id at)) w job row refl in
      rw (live, traced, done, derived) (ground (arith, lookup-remove wi i w.work_items))
