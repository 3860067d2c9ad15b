-- ===== src/Storage/Jobs.antt =====
-- src/app/storage/memory/jobs.py: the `requests` and `jobs` tables.
pub mod Transition
pub mod Frame
pub mod Untouched
use growtrics_challenge.Common.{
  ℕ, suc, ◌+◌, Bool, true, false, ◌&&◌, ◌||◌, Option, none, some, List, [], ◌∷◌, keep_if, count_if,
  take, if◌then◌else◌, leb, ◌==◌,
}
use growtrics_challenge.Common.Text.{Str, str_eq}
use growtrics_challenge.Common.Order.{Key, key_order}
use growtrics_challenge.Common.Sort.{sort_by}
use growtrics_challenge.Common.Dict.{Dict, lookup, put, values}
use growtrics_challenge.Domain.Enums.{JobStatus, status_eq}
use growtrics_challenge.Domain.Errors.{Error}
use growtrics_challenge.Domain.Records.{AccessScope, Cursor, JobRecord, Page, StoredRequest}
use growtrics_challenge.Effects.{Result, ok, err}
use growtrics_challenge.Effects.Exec.{pure, raise, ◌>>=◌, ◌>>◌}
use growtrics_challenge.Storage.Listing.{keyset_page}
use growtrics_challenge.Storage.State.{
  WorkItemRow, QueuedWorkItem, Submission, JobTransition, Database, World, Action, queued, now,
}

abbrev pub load_request : Str → Action (Option StoredRequest)
load_request request_key w = (ok (lookup request_key w.requests), w)

-- `status in ACTIVE_STATUSES`
abbrev pub is_active : JobStatus → Bool
is_active JobStatus.queued = true
is_active JobStatus.running = true
is_active _ = false

abbrev pub is_active_of : Str → JobRecord → Bool
is_active_of principal_id job = str_eq job.principal_id principal_id && is_active job.status

unfoldable pub count_active : AccessScope → Str → Action ℕ
count_active scope principal_id w = (ok (count_if (is_active_of principal_id) (values w.jobs)), w)

-- `get` for a caller and `load_for_run` for the worker read the same row.
unfoldable pub get_job : AccessScope → Str → Action (Option JobRecord)
get_job scope job_id w = (ok (lookup job_id w.jobs), w)

abbrev pub load_for_run : Str → Action (Option JobRecord)
load_for_run job_id w = (ok (lookup job_id w.jobs), w)

abbrev pub job_key : JobRecord → Key
job_key job = (job.created_at, job.job_id)

unfoldable pub list_jobs :
    (Cursor → Str) → AccessScope → Option Cursor → ℕ → Action (Page JobRecord)
list_jobs token scope cursor limit w =
    (ok (keyset_page job_key token (values w.jobs) cursor limit), w)

abbrev pub touched_key : JobRecord → Key
touched_key job = (job.updated_at, job.job_id)

abbrev pub is_untouched : JobStatus → ℕ → JobRecord → Bool
is_untouched status moment job = status_eq job.status status && leb job.updated_at moment

unfoldable pub untouched : World → JobStatus → ℕ → ℕ → List JobRecord
untouched w status moment limit =
    take limit
      (sort_by key_order touched_key (keep_if (is_untouched status moment) (values w.jobs)))

unfoldable pub list_untouched_since : JobStatus → ℕ → ℕ → Action (List JobRecord)
unfolding untouched
list_untouched_since status moment limit w = (ok (untouched w status moment limit), w)

abbrev pub set_jobs : Dict JobRecord → World → World
set_jobs jobs w = record w { database = record w.database { jobs = jobs } }

-- `current.x if transition.x is None else transition.x`
abbrev pub or_current : {A : Type 0} → Option A → Option A → Option A
or_current none current = current
or_current (some a) current = some a

unfoldable pub moved : JobRecord → JobTransition → ℕ → JobRecord
moved current t at = record current {
  status = t.status;
  stage = t.stage;
  progress_percent = t.progress_percent;
  brief_id = or_current t.brief_id current.brief_id;
  artifact_id = or_current t.artifact_id current.artifact_id;
  failure = or_current t.failure current.failure;
  version = current.version + 1;
  updated_at = at;
}

unfoldable pub move_current : Option JobRecord → JobTransition → Action JobRecord
unfolding moved
move_current none t = raise Error.row_not_found
move_current (some current) t =
    let apply = do
      at ← now
      let updated = moved current t at
      (λ w. (ok updated, set_jobs (put updated.job_id updated w.jobs) w))
    in if current.version == t.expected_version then apply else raise Error.version_conflict

unfoldable pub apply_transition : JobTransition → Action JobRecord
unfolding move_current
apply_transition t w = move_current (lookup t.job_id w.jobs) t w
