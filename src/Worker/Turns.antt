-- ===== src/Worker/Turns.antt =====
-- A turn that claims an item and runs it to its end.
use growtrics_challenge.Common.{
  ℕ, zero, suc, ◌+◌, ◌≡◌, refl, sym, ap, ◌∙◌, subst, Bool, true, false, Option, none, some,
}
use growtrics_challenge.Common.Text.{Str, str_eq_refl}
use growtrics_challenge.Common.Dict.{Dict, lookup, put, remove, lookup-put_self, lookup-remove_self}
use growtrics_challenge.Domain.Enums.{is_terminal}
use growtrics_challenge.Domain.Ids.{Uuid}
use growtrics_challenge.Domain.Records.{JobRecord, ClaimedWorkItem}
use growtrics_challenge.Effects.{Result, ok, err}
use growtrics_challenge.Effects.Exec.{continue}
use growtrics_challenge.Orchestration.Ports.{Steps, KeepsJobs}
use growtrics_challenge.Orchestration.Runner.{run}
use growtrics_challenge.Orchestration.Runner.Finish.{run_finishes, Finished-status}
use growtrics_challenge.Orchestration.Runner.Frame.{KeepsItems, run-Keeps}
use growtrics_challenge.Storage.Queue.{
  heartbeat, renew, complete, delete_held, our_row, held_row, set_items,
}
use growtrics_challenge.Storage.Queue.Claim.{claim_of, ticked, Takes}
use growtrics_challenge.Storage.State.{World, WorkItemRow, held_by, claimed, as_claimed, seconds}
use growtrics_challenge.Worker.{
  WorkerConfig, heartbeat_lease, run_under_lease, settle, after_claim, claim_and_run_once,
}

module _ (item_id owner : Str) where
  -- The row under the id, while the owner holds it.
  abbrev Holding : Dict WorkItemRow → Type 0
  Holding items = (row : WorkItemRow) × (held_row (lookup item_id items) owner ≡ some row)

  Holding-put :
      (row : WorkItemRow) (until count : ℕ) (items : Dict WorkItemRow)
      → Holding (put item_id (claimed row owner until count) items)
  unfolding claimed held_by
  Holding-put row until count items = (
    claimed row owner until count,
    rw (lookup-put_self item_id (claimed row owner until count) items)
        (rw (str_eq_refl owner) refl),
  )

  heartbeat_lem :
      (lease : ℕ) (row : WorkItemRow) (w : World)
      → our_row item_id owner w ≡ some row
      → heartbeat item_id owner lease w ≡ (
        ok (some (claim_of row owner (w.time w.reads + seconds lease))),
        set_items
            (put item_id
              (claimed row owner (w.time w.reads + seconds lease) row.claim_count)
              w.work_items)
            (ticked w),
      )
  unfolding heartbeat renew claimed as_claimed
  heartbeat_lem lease row w e = rw e refl

  complete_lem :
      (row : WorkItemRow) (w : World)
      → our_row item_id owner w ≡ some row
      → complete item_id owner w ≡ (ok tt, set_items (remove item_id w.work_items) w)
  unfolding complete delete_held
  complete_lem row w e = rw e refl

module _ (config : WorkerConfig)
    (call : ClaimedWorkItem → World → Result (Option JobRecord) × World)
    (item : ClaimedWorkItem) where
  -- The heartbeats of a holder end with the row held and the jobs as they were.
  abbrev Beats : World → Result (Unit {0}) × World → Type 0
  Beats w x = (x.0 ≡ ok tt) × Holding item.item_id config.owner x.1.work_items × (x.1.jobs ≡ w.jobs)

  heartbeat_lease-Beats :
      (n : ℕ) (w : World)
      → Holding item.item_id config.owner w.work_items
      → Beats w (heartbeat_lease config call n item w)
  unfolding heartbeat_lease
  heartbeat_lease-Beats zero w h = (refl, h, refl)
  heartbeat_lease-Beats (suc n) w h =
      let (row, ours) = h in
      let until = w.time w.reads + seconds config.lease_seconds in
      rw (heartbeat_lem item.item_id config.owner config.lease_seconds row w ours) (
        heartbeat_lease-Beats n
          (set_items
            (put item.item_id (claimed row config.owner until row.claim_count) w.work_items)
            (ticked w))
          (Holding-put item.item_id config.owner row until row.claim_count w.work_items))

module _ (config : WorkerConfig) (u : Uuid) (steps : Steps) (jobs : KeepsJobs steps)
    (queue : KeepsItems steps) (id : Str) where
  -- The end of a turn: the job is in a terminal status, and its item is gone from the queue.
  pub record IsTurned (item_id : Str) (x : Result Bool × World) : Type 0 where
    pub worked : x.0 ≡ ok true
    pub job : JobRecord
    pub row : lookup id x.1.jobs ≡ some job
    pub terminal : is_terminal job.status ≡ true
    pub gone : lookup item_id x.1.work_items ≡ none

  settle-IsTurned :
      (item : ClaimedWorkItem) (x : Result (Option JobRecord)) (t : World) (done : JobRecord)
      → x ≡ ok (some done)
      → lookup id t.jobs ≡ some done
      → is_terminal done.status ≡ true
      → Holding item.item_id config.owner t.work_items
      → IsTurned item.item_id (settle config (run u steps) item (x, t))
  unfolding settle
  settle-IsTurned item (err e) t done q row terminal h = absurd (cc q)
  settle-IsTurned item (ok found) t done q row terminal h =
      rw (complete_lem item.item_id config.owner h.0 t h.1) (record {
        worked = refl;
        job = done;
        row = row;
        terminal = terminal;
        gone = lookup-remove_self item.item_id t.work_items;
      })

  attempt-IsTurned :
      (item : ClaimedWorkItem) (job : JobRecord) (n : ℕ) (w : World)
      → item.job_id ≡ id
      → job.job_id ≡ id
      → lookup id w.jobs ≡ some job
      → is_terminal job.status ≡ false
      → Holding item.item_id config.owner w.work_items
      → IsTurned item.item_id
          (settle config (run u steps) item (run_under_lease config (run u steps) n item w))
  unfolding run_under_lease
  attempt-IsTurned item job n w claims same row live h =
      let beats = heartbeat_lease-Beats config (run u steps) item n w h in
      let t = (heartbeat_lease config (run u steps) n item w).1 in
      let here : lookup id t.jobs ≡ some job = ap (lookup id) beats.2 ∙ row in
      let (done, returns, finished) =
        run_finishes u steps jobs id item job t claims same here live in
      let (there, terminal) =
        Finished-status u steps jobs id done (run u steps item t).1 finished in
      subst
        (λ (x : Result (Unit {0})).
          IsTurned item.item_id
            (settle config (run u steps) item (continue x (λ _. run u steps item) t)))
        (sym beats.0)
        (settle-IsTurned item (run u steps item t).0 (run u steps item t).1 done returns there
          terminal
          (subst (Holding item.item_id config.owner) (sym (run-Keeps u steps queue item t))
            beats.1))

  -- A turn of a worker that is not asked to stop and whose claim takes a row, the row's job being
  -- in the job table under its own id and not yet terminal, with any number of heartbeats and with
  -- steps that leave the job table and the queue alone: the turn answers `True`, the job is in a
  -- terminal status in the table, and the item is gone from the queue.
  pub claim_and_run_once-IsTurned :
      (taken : WorkItemRow) (job : JobRecord) (n : ℕ) (w : World)
      → Takes config.owner config.lease_seconds w taken
      → taken.job_id ≡ id
      → job.job_id ≡ id
      → lookup id w.jobs ≡ some job
      → is_terminal job.status ≡ false
      → IsTurned taken.item_id (claim_and_run_once config (run u steps) false n w)
  unfolding claim_and_run_once after_claim
  claim_and_run_once-IsTurned taken job n w takes claims same row live =
      let until = w.time w.reads + seconds config.lease_seconds in
      rw takes.result (
        attempt-IsTurned (claim_of taken config.owner until) job n
          (set_items
            (put taken.item_id (claimed taken config.owner until taken.claim_count) w.work_items)
            (ticked w))
          claims same row live
          (Holding-put taken.item_id config.owner taken until taken.claim_count w.work_items))
