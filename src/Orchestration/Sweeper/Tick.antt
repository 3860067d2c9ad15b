-- ===== src/Orchestration/Sweeper/Tick.antt =====
-- `sweep_once`: a whole tick, its three passes one after the other.
use growtrics_challenge.Common.{ℕ, ◌+◌, ◌-◌, ◌≤◌, ◌≡◌, refl, sym, subst, some, arith}
use growtrics_challenge.Common.Text.{Str}
use growtrics_challenge.Common.Dict.{lookup}
use growtrics_challenge.Domain.Enums.{JobStatus}
use growtrics_challenge.Domain.Ids.{Uuid}
use growtrics_challenge.Domain.Records.{JobRecord}
use growtrics_challenge.Effects.{ok}
use growtrics_challenge.Effects.Exec.{lift, ◌>>=◌}
use growtrics_challenge.Effects.Triples.{Post}
use growtrics_challenge.Storage.State.{World, Action, earlier, seconds}
use growtrics_challenge.Storage.Jobs.{list_untouched_since}
use growtrics_challenge.Storage.Queue.Exhausted.{exhausted_returns}
use growtrics_challenge.Orchestration.Sweeper.Passes.{
  Passes, now_passes, fail_each_passes, fail_items_passes, reclaim_passes, then_passes, returned,
}
use growtrics_challenge.Orchestration.Sweeper.{
  SweepThresholds, SweepReport, fail_each, fail_items, fail_pending_jobs, fail_stale_jobs,
  reclaim_expired_leases, sweep_once,
}
use growtrics_challenge.Orchestration.Sweeper.Pending.{live_of_queued, live_of_running}
use growtrics_challenge.Orchestration.Sweeper.Swept.{IsSweepable, Sweeps, Sweeps-refl, Outcome}

module _ (u : Uuid) (thresholds : SweepThresholds) (w : World)
    (old_enough : (n : ℕ) → seconds thresholds.pending_max_seconds ≤ w.time n)
    (calm_enough : (n : ℕ) → seconds thresholds.stale_after_seconds ≤ w.time n) where
  -- A reading of the clock is late enough for a span to be taken from it.
  earlier-ok :
      (span : ℕ) (v : World)
      → ((n : ℕ) → seconds span ≤ w.time n)
      → Sweeps u w v
      → earlier (v.time v.reads) span ≡ ok (v.time v.reads - seconds span)
  earlier-ok span v late h =
      let enough : seconds span ≤ v.time v.reads =
        subst (λ t. seconds span ≤ t v.reads) (sym h.clock) (late v.reads) in
      ground arith

  abbrev ticked : World → World
  ticked v = record v { reads = v.reads + 1 }

  -- The loop over the jobs of a status that nothing has touched since a cutoff.
  abbrev giving_up_on : JobStatus → ℕ → ℕ → ℕ → Action ℕ
  giving_up_on status cutoff at failed =
      list_untouched_since status cutoff thresholds.batch_limit
      >>= (λ jobs. fail_each u jobs at failed)

  fail_pending_jobs_passes :
      (v : World) → Sweeps u w v → Passes u w (fail_pending_jobs u thresholds) v
  unfolding fail_pending_jobs
  fail_pending_jobs_passes v h =
      let at = v.time v.reads in
      let cutoff = at - seconds thresholds.pending_max_seconds in
      let e : fail_pending_jobs u thresholds v
          ≡ giving_up_on JobStatus.queued cutoff at 0 (ticked v) =
        rw (earlier-ok thresholds.pending_max_seconds v old_enough h) refl in
      subst (λ x. Post (λ _ after. Sweeps u w after) (λ _ _. ⊥) x.0 x.1) (sym e)
        (fail_each_passes u JobStatus.queued at cutoff thresholds.batch_limit 0 w (ticked v)
          live_of_queued (now_passes u w v h))

  -- The second half of `fail_stale_jobs`.
  abbrev stale_pass : ℕ → ℕ → Action ℕ
  stale_pass at failed =
      lift (earlier at thresholds.stale_after_seconds)
      >>= (λ cutoff. giving_up_on JobStatus.running cutoff at failed)

  stale_pass_passes :
      (v t : World) (failed : ℕ)
      → Sweeps u w v
      → Sweeps u w t
      → Passes u w (stale_pass (v.time v.reads) failed) t
  stale_pass_passes v t failed h first =
      let at = v.time v.reads in
      let cutoff = at - seconds thresholds.stale_after_seconds in
      let e : stale_pass at failed t ≡ giving_up_on JobStatus.running cutoff at failed t =
        rw (earlier-ok thresholds.stale_after_seconds v calm_enough h) refl in
      subst (λ x. Post (λ _ after. Sweeps u w after) (λ _ _. ⊥) x.0 x.1) (sym e)
        (fail_each_passes u JobStatus.running at cutoff thresholds.batch_limit failed w t
          live_of_running first)

  fail_stale_jobs_passes : (v : World) → Sweeps u w v → Passes u w (fail_stale_jobs u thresholds) v
  unfolding fail_stale_jobs
  fail_stale_jobs_passes v h =
      let at = v.time v.reads in
      let (items, found) = exhausted_returns (ticked v) at thresholds.max_claims in
      let e : fail_stale_jobs u thresholds v
          ≡ (fail_items u items at 0 >>= stale_pass at) (ticked v) =
        rw found refl in
      subst (λ x. Post (λ _ after. Sweeps u w after) (λ _ _. ⊥) x.0 x.1) (sym e)
        (then_passes u w (ticked v) (fail_items u items at 0) (stale_pass at)
          (fail_items_passes u items at 0 w (ticked v) (now_passes u w v h))
          (λ failed t first. stale_pass_passes v t failed h first))

  -- A tick of the sweeper over tables with no id twice and each job under its own id, with a clock
  -- that is always past both thresholds: it returns a report, the tables are so afterwards, and
  -- each row of the job table either stays as it was, or was unfinished and is failed as timed
  -- out, in the stage where it stood and with the percent that it had, with no row under the item
  -- id of its job in the queue.
  pub sweep_once_lem :
      (k : Str) (job : JobRecord)
      → IsSweepable w
      → lookup k w.jobs ≡ some job
      → (report : SweepReport) × ((sweep_once u thresholds w).0 ≡ ok report)
        × IsSweepable (sweep_once u thresholds w).1
        × Outcome u (sweep_once u thresholds w).1 k job
  unfolding sweep_once reclaim_expired_leases
  sweep_once_lem k job h there =
      let pass =
        then_passes u w w (fail_pending_jobs u thresholds) _
          (fail_pending_jobs_passes w (Sweeps-refl u w h))
          (λ pending t first.
            then_passes u w t (fail_stale_jobs u thresholds) _ (fail_stale_jobs_passes t first)
              (λ stale t' second.
                then_passes u w t' (reclaim_expired_leases u thresholds) _
                  (reclaim_passes u (t'.time t'.reads) thresholds.max_claims w (ticked t')
                    (now_passes u w t' second))
                  (λ reclaimed t'' third. third))) in
      let (report, e, swept) = returned u w w (sweep_once u thresholds) pass in
      (report, e, swept.sweepable, swept.rows k job there)
