-- ===== src/Orchestration/Sweeper/Swept.antt =====
-- What each step of a tick may do to the tables.
use growtrics_challenge.Common.{
  ℕ, ◌+◌, ◌≡◌, ◌≢◌, refl, sym, ap, ◌∙◌, subst, true, false, some, none, List, [], ◌∷◌, Bool-cases,
  inl, inr, ◌⊎◌, arith,
}
use growtrics_challenge.Common.Text.{Str, codes, str_eq, eq_of_str_eq, str_eq_iff}
use growtrics_challenge.Common.Dict.{
  lookup, lookup-remove, Unique, Unique-put, Unique-remove, Entries-put,
}
use growtrics_challenge.Domain.Enums.{is_terminal}
use growtrics_challenge.Domain.Ids.{Uuid}
use growtrics_challenge.Domain.Ids.Shapes.{derived_shapes}
use growtrics_challenge.Domain.Records.{JobRecord}
use growtrics_challenge.Storage.State.{World}
use growtrics_challenge.Storage.Jobs.{moved}
use growtrics_challenge.Storage.Jobs.Transition.{apply_transition-ok}
use growtrics_challenge.Storage.Jobs.Untouched.{IsJobTable}
use growtrics_challenge.Storage.Queue.{discard}
use growtrics_challenge.Orchestration.Sweeper.{give_up_on, giving_up, timed_out, fail_each}
use growtrics_challenge.Orchestration.Sweeper.GivingUp.{
  IsTimedOut, give_up_on-other, give_up_on-missing,
}
use growtrics_challenge.Orchestration.Sweeper.Batch.{
  AreWaiting, AreWaiting-other, TimedOutIn, gives_up, fail_each-cons,
}

-- The tables as a tick finds them: each job under its own id, and no id twice in either table.
pub record IsSweepable (w : World) : Type 0 where
  pub jobs_table : IsJobTable w.jobs
  pub items_unique : Unique w.work_items

module _ (u : Uuid) where
  -- A row of the job table stays, or was unfinished and is failed as timed out, its queue row
  -- gone.
  abbrev pub Outcome : World → Str → JobRecord → Type 0
  Outcome after k job =
      (lookup k after.jobs ≡ some job) ⊎ ((is_terminal job.status ≡ false) × TimedOutIn u after job)

  pub record Sweeps (w after : World) : Type 0 where
    pub sweepable : IsSweepable after
    pub clock : after.time ≡ w.time
    pub rows : (k : Str) (job : JobRecord) → lookup k w.jobs ≡ some job → Outcome after k job
    pub gone : (i : Str) → lookup i w.work_items ≡ none → lookup i after.work_items ≡ none

  pub Sweeps-refl : (w : World) → IsSweepable w → Sweeps w w
  Sweeps-refl w h = record {
    sweepable = h;
    clock = refl;
    rows = λ k job there. inl there;
    gone = λ i missing. missing;
  }

  terminal_of_failed :
      (before row : JobRecord) → IsTimedOut before row → is_terminal row.status ≡ true
  terminal_of_failed before row h = rw h.status refl

  Outcome-trans :
      (w v after : World) (k : Str) (job : JobRecord)
      → Sweeps v after
      → Outcome v k job
      → Outcome after k job
  Outcome-trans w v after k job second (inl kept) = second.rows k job kept
  Outcome-trans w v after k job second (inr (live, ((row, there, timed), (i, derived, gone)))) =
      elim (second.rows job.job_id row there) [
        | inl kept ↦ inr (live, ((row, kept, timed), (i, derived, second.gone i gone)))
        | inr (again, _) ↦ absurd (cc (again, terminal_of_failed job row timed))
      ]

  pub Sweeps-trans : (w v after : World) → Sweeps w v → Sweeps v after → Sweeps w after
  Sweeps-trans w v after first second = record {
    sweepable = second.sweepable;
    clock = second.clock ∙ first.clock;
    rows = λ k job there. Outcome-trans w v after k job second (first.rows k job there);
    gone = λ i missing. second.gone i (first.gone i missing);
  }

  pub discard-Sweeps : (i : Str) (w : World) → IsSweepable w → Sweeps w (discard i w).1
  unfolding discard
  discard-Sweeps i w h = record {
    sweepable = record {
      jobs_table = h.jobs_table;
      items_unique = Unique-remove i w.work_items h.items_unique;
    };
    clock = refl;
    rows = λ k job there. inl there;
    gone = λ j missing. ground (arith, lookup-remove i j w.work_items);
  }

  -- Giving up on an unfinished job, its record being the row of the table.
  module _ (job : JobRecord) (at : ℕ) (w : World) (h : IsSweepable w)
      (row : lookup job.job_id w.jobs ≡ some job) (live : is_terminal job.status ≡ false) where
    give_up_on-IsSweepable : IsSweepable (give_up_on u job at w).1
    unfolding give_up_on discard
    give_up_on-IsSweepable =
        let (_, _, _, (wi, derived, _), (trace_id, traced, _), _) =
          derived_shapes u job.request_key job.job_id job.job_id job.attempt in
        let t = giving_up job (timed_out job trace_id at) in
        let done = apply_transition-ok t w job row refl in
        rw (live, traced, done, derived)
          (record {
            jobs_table = record {
              keyed = Entries-put _ job.job_id _ w.jobs (unfold moved in refl) h.jobs_table.keyed;
              unique = Unique-put job.job_id _ w.jobs h.jobs_table.unique;
            };
            items_unique = Unique-remove wi w.work_items h.items_unique;
          })

    give_up_on-clock : (give_up_on u job at w).1.time ≡ w.time
    unfolding give_up_on discard
    give_up_on-clock =
        let (_, _, _, (wi, derived, _), (trace_id, traced, _), _) =
          derived_shapes u job.request_key job.job_id job.job_id job.attempt in
        let t = giving_up job (timed_out job trace_id at) in
        let done = apply_transition-ok t w job row refl in rw (live, traced, done, derived) refl

    give_up_on-row :
        (k : Str) (other : JobRecord)
        → lookup k w.jobs ≡ some other
        → Outcome (give_up_on u job at w).1 k other
    give_up_on-row k other there = elim (Bool-cases (str_eq job.job_id k)) [
      | inr apart ↦
          let ne : job.job_id ≢ k = λ q. cc (apart, (str_eq_iff job.job_id k).1 q) in
          inl (give_up_on-other u job at w (codes "") k row live ne ∙ there)
      | inl same ↦
          let q : some job ≡ some other =
            sym row ∙ ap (λ z. lookup z w.jobs) (eq_of_str_eq job.job_id k same) ∙ there in
          let e : job ≡ other = cc q in
          inr (
            subst (λ x. (is_terminal x.status ≡ false) × TimedOutIn u (give_up_on u job at w).1 x) e
              (live, (gives_up u at job w row live).1))
    ]

    pub give_up_on-Sweeps : Sweeps w (give_up_on u job at w).1
    give_up_on-Sweeps = record {
      sweepable = give_up_on-IsSweepable;
      clock = give_up_on-clock;
      rows = give_up_on-row;
      gone = λ i missing. give_up_on-missing u job at w (codes "") i row live missing;
    }

  pub fail_each-Sweeps :
      (at : ℕ) (jobs : List JobRecord) (w : World) (failed : ℕ)
      → IsSweepable w
      → AreWaiting u at w jobs
      → Sweeps w (fail_each u jobs at failed w).1
  unfolding fail_each
  fail_each-Sweeps at [] w failed h waiting = Sweeps-refl w h
  fail_each-Sweeps at (job ∷ jobs) w failed h (row, live, apart, rest) =
      let v = (give_up_on u job at w).1 in
      let first = give_up_on-Sweeps job at w h row live in
      let rest' = AreWaiting-other u at job jobs w row live apart rest in
      let later = fail_each-Sweeps at jobs v (failed + 1) first.sweepable rest' in
      subst (λ x. Sweeps w x.1)
        (sym (fail_each-cons u at job jobs w failed (gives_up u at job w row live).0))
        (Sweeps-trans w v (fail_each u jobs at (failed + 1) v).1 first later)
