-- ===== src/Worker.antt =====
-- One turn of the claim loop of src/app/worker.py. The heartbeats of a turn come before the run in
-- the model; the run neither reads nor writes the queue. Signals, tasks and the naps between turns
-- are left out.
pub mod Turns
use growtrics_challenge.Common.{ℕ, zero, suc, Bool, true, false, Option, none, some, if◌then◌else◌}
use growtrics_challenge.Common.Text.{Str}
use growtrics_challenge.Domain.Records.{JobRecord, ClaimedWorkItem}
use growtrics_challenge.Effects.{Result, ok, err}
use growtrics_challenge.Effects.Exec.{pure, ◌>>=◌, ◌>>◌}
use growtrics_challenge.Storage.Queue.{claim, heartbeat, release, complete}
use growtrics_challenge.Storage.State.{World, Action}

pub record WorkerConfig : Type 0 where
  pub owner : Str
  pub lease_seconds : ℕ

-- `heartbeat_lease` over the intervals that pass before it is told to stop.
abbrev pub is_renewed : Option ClaimedWorkItem → Bool
is_renewed none = false
is_renewed (some item) = true

module _ (config : WorkerConfig) (run : ClaimedWorkItem → Action (Option JobRecord)) where
  unfoldable pub heartbeat_lease : ℕ → ClaimedWorkItem → Action (Unit {0})
  heartbeat_lease zero item = pure tt
  heartbeat_lease (suc intervals) item = do
    renewed ← heartbeat item.item_id config.owner config.lease_seconds
    (let again = heartbeat_lease intervals item in if is_renewed renewed then again else pure tt)

  unfoldable pub run_under_lease : ℕ → ClaimedWorkItem → Action (Option JobRecord)
  unfolding heartbeat_lease
  run_under_lease intervals item = do heartbeat_lease intervals item; run item

  abbrev pub complete_item : ClaimedWorkItem → Action Bool
  complete_item item = do complete item.item_id config.owner; pure true

  -- The `try` around the run: an error leaves the claim in place.
  unfoldable pub settle : ClaimedWorkItem → Result (Option JobRecord) × World → Result Bool × World
  settle item (ok job, w) = complete_item item w
  settle item (err e, w) = (ok true, w)

  abbrev pub hand_straight_back : ClaimedWorkItem → Action Bool
  hand_straight_back item = do release item.item_id config.owner; pure false

  unfoldable pub after_claim : Bool → ℕ → Option ClaimedWorkItem → Action Bool
  unfolding settle run_under_lease
  after_claim stopped intervals none = pure false
  after_claim stopped intervals (some item) =
      if stopped
      then hand_straight_back item
      else (λ w. settle item (run_under_lease intervals item w))

  -- `WorkerLoop.claim_and_run_once`, by whether the worker is asked to stop when it has claimed.
  unfoldable pub claim_and_run_once : Bool → ℕ → Action Bool
  unfolding after_claim
  claim_and_run_once stopped intervals = do
    claimed ← claim config.owner config.lease_seconds
    after_claim stopped intervals claimed
