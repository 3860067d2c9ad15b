-- ===== src/Orchestration/Sweeper/Pending.antt =====
-- `fail_pending_jobs`: what becomes of each row of the job table.
use growtrics_challenge.Common.{
  ℕ, ◌+◌, ◌<◌, min, ◌≡◌, ◌≢◌, refl, sym, ap, ◌∙◌, subst, Bool, true, false, some, List, [], ◌∷◌,
  All, All_in, In, Bool-cases, inl, inr, ◌⊎◌, arith, count_if, All-map, ◌&&◌, leb,
}
use growtrics_challenge.Common.Text.{Str, str_eq, eq_of_str_eq, str_eq_iff}
use growtrics_challenge.Common.Order.{key_order, key_lt, key_lt_irrefl}
use growtrics_challenge.Common.Sort.{StrictSorted}
use growtrics_challenge.Common.Dict.{lookup, values, In-values, Entries-lookup}
use growtrics_challenge.Domain.Enums.{JobStatus, status_eq, is_terminal}
use growtrics_challenge.Domain.Ids.{Uuid}
use growtrics_challenge.Domain.Records.{JobRecord}
use growtrics_challenge.Effects.{ok}
use growtrics_challenge.Storage.State.{World, earlier}
use growtrics_challenge.Storage.Jobs.{untouched, is_untouched, touched_key, list_untouched_since}
use growtrics_challenge.Storage.Jobs.Untouched.{
  IsJobTable, untouched-All, untouched-StrictSorted, length-untouched, In-untouched,
}
use growtrics_challenge.Orchestration.Sweeper.{SweepThresholds, fail_each, fail_pending_jobs}
use growtrics_challenge.Orchestration.Sweeper.Batch.{
  AreWaiting, TimedOutIn, fail_each-All, fail_each-other,
}

pub live_of_queued : (s : JobStatus) → status_eq s JobStatus.queued ≡ true → is_terminal s ≡ false
live_of_queued JobStatus.queued e = refl
live_of_queued JobStatus.running e = refl
live_of_queued JobStatus.succeeded e = cc
live_of_queued JobStatus.failed e = cc
live_of_queued JobStatus.cancelled e = cc

pub live_of_running : (s : JobStatus) → status_eq s JobStatus.running ≡ true → is_terminal s ≡ false
live_of_running JobStatus.queued e = cc
live_of_running JobStatus.running e = refl
live_of_running JobStatus.succeeded e = cc
live_of_running JobStatus.failed e = cc
live_of_running JobStatus.cancelled e = cc

-- A queued job is not terminal.
live_of_late :
    (cutoff : ℕ) (job : JobRecord)
    → is_untouched JobStatus.queued cutoff job ≡ true
    → is_terminal job.status ≡ false
live_of_late cutoff job late = live_of_queued job.status (ground arith)

-- Two rows of one table under the same id are one row.
apart_of_lt :
    (w : World) (job other : JobRecord)
    → lookup job.job_id w.jobs ≡ some job
    → lookup other.job_id w.jobs ≡ some other
    → key_lt (touched_key job) (touched_key other) ≡ true
    → job.job_id ≢ other.job_id
apart_of_lt w job other here there before same =
    let q : some job ≡ some other = sym here ∙ ap (λ k. lookup k w.jobs) same ∙ there in
    let e : job ≡ other = cc q in
    let k : touched_key job ≡ touched_key other = ap touched_key e in
    cc (before, ap (key_lt (touched_key job)) k, key_lt_irrefl (touched_key job))

module _ (u : Uuid) (at : ℕ) (w : World) where
  abbrev IsRow : JobRecord → Type 0
  IsRow job = (lookup job.job_id w.jobs ≡ some job) × (is_terminal job.status ≡ false)

  AreApart :
      (job : JobRecord) (l : List JobRecord)
      → lookup job.job_id w.jobs ≡ some job
      → All IsRow l
      → All (λ b. key_lt (touched_key job) (touched_key b) ≡ true) l
      → All (λ other. job.job_id ≢ other.job_id) l
  AreApart job [] here rows before = tt
  AreApart job (other ∷ l) here rows before =
      (apart_of_lt w job other here rows.0.0 before.0, AreApart job l here rows.1 before.1)

  pub AreWaiting-StrictSorted :
      (l : List JobRecord)
      → All IsRow l
      → StrictSorted key_order touched_key l
      → AreWaiting u at w l
  AreWaiting-StrictSorted [] rows sorted = tt
  AreWaiting-StrictSorted (job ∷ l) rows sorted = (
    rows.0.0,
    rows.0.1,
    AreApart job l rows.0.0 rows.1 sorted.0,
    AreWaiting-StrictSorted l rows.1 sorted.1,
  )

-- A job of the list has the id, or none has it.
listed :
    (k : Str) (l : List JobRecord)
    → ((j : JobRecord) × In j l × (k ≡ j.job_id)) ⊎ All (λ other. k ≢ other.job_id) l
listed k [] = inr tt
listed k (j ∷ l) = elim (Bool-cases (str_eq k j.job_id)) [
  | inl e ↦ inl (j, inl refl, eq_of_str_eq k j.job_id e)
  | inr e ↦ elim (listed k l) [
    | inl (i, there, same) ↦ inl (i, inr there, same)
    | inr none_of ↦ inr (λ q. cc (e, (str_eq_iff k j.job_id).1 q), none_of)
  ]
]

module _ (u : Uuid) (thresholds : SweepThresholds) (w : World) (cutoff : ℕ) where
  -- Queued, and last written at the cutoff or before it.
  abbrev pub has_waited : JobRecord → Bool
  has_waited job = status_eq job.status JobStatus.queued && leb job.updated_at cutoff

  abbrev pub waited : ℕ
  waited = count_if has_waited (values w.jobs)

  abbrev pub at : ℕ
  at = w.time w.reads

  -- What becomes of a row: one that has not waited too long stays, one that has is failed as timed
  -- out, or stays because more have waited too long than one tick takes.
  abbrev pub Fate : World → Str → JobRecord → Type 0
  Fate after k job =
      ((has_waited job ≡ false) × (lookup k after.jobs ≡ some job))
      ⊎ ((has_waited job ≡ true) × TimedOutIn u after job)
      ⊎ ((thresholds.batch_limit < waited) × (lookup k after.jobs ≡ some job))

  abbrev ticked : World
  ticked = record w { reads = w.reads + 1 }

  abbrev late_jobs : List JobRecord
  late_jobs = untouched w JobStatus.queued cutoff thresholds.batch_limit

  pub fail_pending_jobs_loop :
      earlier at thresholds.pending_max_seconds ≡ ok cutoff
      → fail_pending_jobs u thresholds w ≡ fail_each u late_jobs at 0 ticked
  unfolding fail_pending_jobs list_untouched_since untouched
  fail_pending_jobs_loop e = rw e refl

  pub are_waiting : IsJobTable w.jobs → AreWaiting u at ticked late_jobs
  are_waiting table =
      AreWaiting-StrictSorted u at ticked late_jobs
        (All-map (λ j h. (h.0, live_of_late cutoff j h.1)) late_jobs
          (untouched-All w table JobStatus.queued cutoff thresholds.batch_limit))
        (untouched-StrictSorted w table JobStatus.queued cutoff thresholds.batch_limit)

  -- A row under an id that no listed job has.
  Fate-unlisted :
      (table : IsJobTable w.jobs) (k : Str) (job : JobRecord)
      → lookup k w.jobs ≡ some job
      → All (λ other. k ≢ other.job_id) late_jobs
      → Fate (fail_each u late_jobs at 0 ticked).1 k job
  Fate-unlisted table k job there unlisted =
      let kept = fail_each-other u at k late_jobs ticked 0 (are_waiting table) unlisted ∙ there in
      let same : k ≡ job.job_id = Entries-lookup _ k w.jobs table.keyed there in
      elim (Bool-cases (has_waited job)) [
        | inr early ↦ inl (early, kept)
        | inl late ↦ elim (Bool-cases (leb waited thresholds.batch_limit)) [
          | inr many ↦ inr (inr (ground arith, kept))
          | inl few ↦
              let i : In job late_jobs =
                In-untouched w table JobStatus.queued cutoff thresholds.batch_limit job
                  (In-values k w.jobs there) late (ground arith) in
              absurd (All_in _ late_jobs job unlisted i same)
        ]
      ]

  Fate-row :
      (table : IsJobTable w.jobs) (k : Str) (job : JobRecord)
      → lookup k w.jobs ≡ some job
      → Fate (fail_each u late_jobs at 0 ticked).1 k job
  Fate-row table k job there = elim (listed k late_jobs) [
    | inr unlisted ↦ Fate-unlisted table k job there unlisted
    | inl (j, i, same) ↦
        let (found, late) =
          All_in _ late_jobs j
            (untouched-All w table JobStatus.queued cutoff thresholds.batch_limit) i in
        let timed =
          All_in _ late_jobs j (fail_each-All u at late_jobs ticked 0 (are_waiting table)).1 i in
        let q : some j ≡ some job = sym found ∙ ap (λ z. lookup z w.jobs) (sym same) ∙ there in
        let e : j ≡ job = cc q in
        inr (
          inl (
            subst
              (λ x. (has_waited x ≡ true) × TimedOutIn u (fail_each u late_jobs at 0 ticked).1 x) e
              (late, timed)))
  ]

  -- The first pass of a tick, over a job table with no id twice and each job under its own id, at
  -- a reading of the clock past the threshold: it returns how many jobs are queued and untouched
  -- since the cutoff, at most the limit of a batch; and a row of the table that is not such a job
  -- stays, while one that is is failed as timed out, in the stage where it stood and with the
  -- percent that it had, with no row under the item id of its job in the queue, or stays where
  -- there are more of them than the limit.
  pub fail_pending_jobs_lem :
      (k : Str) (job : JobRecord)
      → IsJobTable w.jobs
      → earlier at thresholds.pending_max_seconds ≡ ok cutoff
      → lookup k w.jobs ≡ some job
      → ((fail_pending_jobs u thresholds w).0 ≡ ok (min thresholds.batch_limit waited))
        × Fate (fail_pending_jobs u thresholds w).1 k job
  fail_pending_jobs_lem k job table e there =
      subst (λ x. (x.0 ≡ ok (min thresholds.batch_limit waited)) × Fate x.1 k job)
        (sym (fail_pending_jobs_loop e))
        (
          (fail_each-All u at late_jobs ticked 0 (are_waiting table)).0
              ∙ ap ok (
                  omega (
                    arith,
                    length-untouched w table JobStatus.queued cutoff thresholds.batch_limit,
                  )),
          Fate-row table k job there,
        )
