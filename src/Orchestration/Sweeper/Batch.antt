-- ===== src/Orchestration/Sweeper/Batch.antt =====
-- The loop that gives up on the jobs of a list.
use growtrics_challenge.Common.{
  ℕ, suc, ◌+◌, ◌≡◌, refl, sym, ap, subst, ◌∙◌, true, false, none, some, List, [], ◌∷◌, All, length,
  ◌≢◌, arith,
}
use growtrics_challenge.Common.Text.{Str, codes}
use growtrics_challenge.Common.Dict.{lookup}
use growtrics_challenge.Domain.Enums.{is_terminal}
use growtrics_challenge.Domain.Ids.{Uuid, derive_work_item_id}
use growtrics_challenge.Domain.Ids.Shapes.{derived_shapes}
use growtrics_challenge.Domain.Records.{JobRecord}
use growtrics_challenge.Effects.{ok}
use growtrics_challenge.Storage.State.{World}
use growtrics_challenge.Orchestration.Sweeper.{give_up_on, fail_each}
use growtrics_challenge.Orchestration.Sweeper.GivingUp.{
  IsTimedOut, give_up_on-IsTimedOut, give_up_on-other, give_up_on-missing,
}

module _ (u : Uuid) where
  abbrev pub TimedOutIn : World → JobRecord → Type 0
  TimedOutIn w job =
      ((row : JobRecord) × (lookup job.job_id w.jobs ≡ some row) × IsTimedOut job row)
      × ((item_id : Str) × (derive_work_item_id u job.job_id ≡ ok item_id)
          × (lookup item_id w.work_items ≡ none))

module _ (u : Uuid) (at : ℕ) where
  -- Jobs with different ids, each the row of the table and unfinished.
  abbrev pub AreWaiting : World → List JobRecord → Type 0
  AreWaiting w [] = Unit
  AreWaiting w (job ∷ jobs) =
      (lookup job.job_id w.jobs ≡ some job)
      × (is_terminal job.status ≡ false)
      × All (λ other. job.job_id ≢ other.job_id) jobs
      × AreWaiting w jobs

  pub AreWaiting-other :
      (job : JobRecord) (jobs : List JobRecord) (w : World)
      → lookup job.job_id w.jobs ≡ some job
      → is_terminal job.status ≡ false
      → All (λ other. job.job_id ≢ other.job_id) jobs
      → AreWaiting w jobs
      → AreWaiting (give_up_on u job at w).1 jobs
  AreWaiting-other job [] w row live ne h = tt
  AreWaiting-other job (next ∷ jobs) w row live ne (there, waiting, apart, rest) = (
    give_up_on-other u job at w (codes "") next.job_id row live ne.0 ∙ there,
    waiting,
    apart,
    AreWaiting-other job jobs w row live ne.1 rest,
  )

  pub gives_up :
      (job : JobRecord) (w : World)
      → lookup job.job_id w.jobs ≡ some job
      → is_terminal job.status ≡ false
      → ((give_up_on u job at w).0 ≡ ok true) × TimedOutIn u (give_up_on u job at w).1 job
  gives_up job w row live =
      let (_, _, _, (item_id, derived, _), _, _) =
        derived_shapes u job.request_key job.job_id job.job_id job.attempt in
      let (image, done, there, timed, gone) =
        give_up_on-IsTimedOut u job at w item_id row live derived in
      (done, ((image, there, timed), (item_id, derived, gone)))

  pub fail_each-cons :
      (job : JobRecord) (jobs : List JobRecord) (w : World) (failed : ℕ)
      → (give_up_on u job at w).0 ≡ ok true
      → fail_each u (job ∷ jobs) at failed w
        ≡ fail_each u jobs at (failed + 1) (give_up_on u job at w).1
  unfolding fail_each
  fail_each-cons job jobs w failed done = rw done refl

  -- What the loop leaves of a row that is none of its jobs'.
  pub fail_each-other :
      (k : Str) (jobs : List JobRecord) (w : World) (failed : ℕ)
      → AreWaiting w jobs
      → All (λ other. k ≢ other.job_id) jobs
      → lookup k (fail_each u jobs at failed w).1.jobs ≡ lookup k w.jobs
  unfolding fail_each
  fail_each-other k [] w failed h ne = refl
  fail_each-other k (job ∷ jobs) w failed (row, live, apart, rest) ne =
      let w' = (give_up_on u job at w).1 in
      ap (λ x. lookup k x.1.jobs) (fail_each-cons job jobs w failed (gives_up job w row live).0)
      ∙ fail_each-other k jobs w' (failed + 1) (AreWaiting-other job jobs w row live apart rest)
          ne.1
      ∙ give_up_on-other u job at w (codes "") k row live (λ e. ne.0 (sym e))

  -- What the loop leaves of a queue row that is not there.
  fail_each-missing :
      (i : Str) (jobs : List JobRecord) (w : World) (failed : ℕ)
      → AreWaiting w jobs
      → lookup i w.work_items ≡ none
      → lookup i (fail_each u jobs at failed w).1.work_items ≡ none
  unfolding fail_each
  fail_each-missing i [] w failed h missing = missing
  fail_each-missing i (job ∷ jobs) w failed (row, live, apart, rest) missing =
      let w' = (give_up_on u job at w).1 in
      ap (λ x. lookup i x.1.work_items)
        (fail_each-cons job jobs w failed (gives_up job w row live).0)
      ∙ fail_each-missing i jobs w' (failed + 1) (AreWaiting-other job jobs w row live apart rest)
          (give_up_on-missing u job at w (codes "") i row live missing)

  -- Giving up on a list of different unfinished jobs, each as its row stands: the loop returns how
  -- many they are, added to the count so far, and every one of them is failed as timed out, in the
  -- stage where it stood and with the percent that it had, and has no row in the queue.
  pub fail_each-All :
      (jobs : List JobRecord) (w : World) (failed : ℕ)
      → AreWaiting w jobs
      → ((fail_each u jobs at failed w).0 ≡ ok (failed + length jobs))
        × All (TimedOutIn u (fail_each u jobs at failed w).1) jobs
  unfolding fail_each
  fail_each-All [] w failed h = (ap ok (omega arith), tt)
  fail_each-All (job ∷ jobs) w failed (row, live, apart, rest) =
      let w' = (give_up_on u job at w).1 in
      let (done, ((image, there, timed), (item_id, derived, gone))) = gives_up job w row live in
      let rest' = AreWaiting-other job jobs w row live apart rest in
      let (count, others) = fail_each-All jobs w' (failed + 1) rest' in
      let missing = fail_each-missing item_id jobs w' (failed + 1) rest' gone in
      let kept = fail_each-other job.job_id jobs w' (failed + 1) rest' apart in
      subst (λ x. (x.0 ≡ ok (failed + length (job ∷ jobs))) × All (TimedOutIn u x.1) (job ∷ jobs))
        (sym (fail_each-cons job jobs w failed done))
        (
          count ∙ ap ok (plus failed (length jobs)),
          (((image, kept ∙ there, timed), (item_id, derived, missing)), others),
        )
    where
      plus : (m n : ℕ) → m + 1 + n ≡ m + suc n
      plus m n = omega arith
