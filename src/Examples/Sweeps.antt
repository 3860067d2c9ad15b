-- ===== src/Examples/Sweeps.antt =====
-- Ticks of the sweeper: a job that nobody claimed, and one that was left running.
use growtrics_challenge.Common.{ℕ, ◌+◌, ◌≡◌, refl, some, [], ◌∷◌, min, arith}
use growtrics_challenge.Common.Text.{Str, codes, str_eq}
use growtrics_challenge.Common.Dict.{lookup}
use growtrics_challenge.Effects.{ok}
use growtrics_challenge.Orchestration.Sweeper.{
  SweepThresholds, SweepReport, fail_pending_jobs, sweep_once,
}
use growtrics_challenge.Orchestration.Sweeper.Pending.{waited, Fate, fail_pending_jobs_lem}
use growtrics_challenge.Orchestration.Sweeper.Swept.{IsSweepable, Outcome}
use growtrics_challenge.Orchestration.Sweeper.Tick.{sweep_once_lem}
use growtrics_challenge.Storage.Jobs.Untouched.{IsJobTable}
use growtrics_challenge.Storage.State.{World, WorkItemRow}
use growtrics_challenge.Examples.Data.{fixed_uuid, job_id, job, abandoned, held, with_job}

abbrev worn_id : Str
worn_id = codes "wi_01081G81860W40J2GB1G6GW3ZZ"

abbrev worn_row : WorkItemRow
worn_row = record held { item_id = worn_id; claim_count = 3 }

abbrev world : World
world = record (with_job abandoned) {
  database = record (with_job abandoned).database { work_items = (worn_id, worn_row) ∷ [] };
}

there : lookup job_id world.jobs ≡ some abandoned
unfolding lookup str_eq
there = refl

abbrev thresholds : SweepThresholds
thresholds = record {
  pending_max_seconds = 5;
  stale_after_seconds = 3;
  max_claims = 3;
  batch_limit = 500;
}

abbrev late_clock : ℕ → ℕ
late_clock n = 10000000 + n

-- One job that no worker claimed for longer than the threshold.
abbrev waiting_world : World
waiting_world = record (with_job job) { time = late_clock }

waiting_world-IsJobTable : IsJobTable waiting_world.jobs
unfolding lookup
waiting_world-IsJobTable = record { keyed = (refl, tt); unique = (refl, tt) }

waiting_there : lookup job_id waiting_world.jobs ≡ some job
unfolding lookup str_eq
waiting_there = refl

fail_pending_jobs_lem_example :
    ((fail_pending_jobs fixed_uuid thresholds waiting_world).0
      ≡ ok (min 500 (waited fixed_uuid thresholds waiting_world 5000000)))
    × Fate fixed_uuid thresholds waiting_world 5000000
        (fail_pending_jobs fixed_uuid thresholds waiting_world).1
        job_id
        job
fail_pending_jobs_lem_example =
    fail_pending_jobs_lem fixed_uuid thresholds waiting_world 5000000 job_id job
      waiting_world-IsJobTable refl waiting_there

-- One job that was left running, with its queue row claimed by the last worker it gets.
abbrev stuck_world : World
stuck_world = record world { time = late_clock }

stuck_world-IsSweepable : IsSweepable stuck_world
unfolding lookup
stuck_world-IsSweepable = record {
  jobs_table = record { keyed = (refl, tt); unique = (refl, tt) };
  items_unique = (refl, tt);
}

sweep_once_lem_example :
    (report : SweepReport) × ((sweep_once fixed_uuid thresholds stuck_world).0 ≡ ok report)
    × IsSweepable (sweep_once fixed_uuid thresholds stuck_world).1
    × Outcome fixed_uuid (sweep_once fixed_uuid thresholds stuck_world).1 job_id abandoned
sweep_once_lem_example =
    sweep_once_lem fixed_uuid thresholds stuck_world (λ n. omega arith) (λ n. omega arith) job_id
      abandoned stuck_world-IsSweepable there
