-- ===== src/Storage/State.antt =====
-- src/app/storage/memory/state.py and the records of src/app/orchestration/ports.py: the rows, the
-- database, and the state that the calls of the program act on.
use growtrics_challenge.Common.{
  ℕ, ◌+◌, Bool, ◌&&◌, true, false, Option, none, some, List, leb, ltb, ◌*◌, ◌-◌, if◌then◌else◌,
}
use growtrics_challenge.Common.Text.{Str, str_eq}
use growtrics_challenge.Common.Dict.{Dict}
use growtrics_challenge.Domain.Enums.{JobStatus, StageName}
use growtrics_challenge.Domain.Errors.{Error}
use growtrics_challenge.Domain.Records.{
  StoredRequest, BriefRecord, FailureRecord, JobRecord, ClaimedWorkItem, ArtifactRecord, Principal,
}
use growtrics_challenge.Effects.{Result, ok, err}
use growtrics_challenge.Effects.Exec.{Exec}

pub record QueuedWorkItem : Type 0 where
  pub item_id : Str
  pub job_id : Str
  pub available_at : ℕ
  pub created_at : ℕ

pub record Submission : Type 0 where
  pub request : StoredRequest
  pub job : JobRecord
  pub work_item : QueuedWorkItem

pub record JobTransition : Type 0 where
  pub job_id : Str
  pub expected_version : ℕ
  pub status : JobStatus
  pub stage : StageName
  pub progress_percent : ℕ
  pub brief_id : Option Str
  pub artifact_id : Option Str
  pub failure : Option FailureRecord

pub record WorkItemRow : Type 0 where
  pub item_id : Str
  pub job_id : Str
  pub available_at : ℕ
  pub created_at : ℕ
  pub claimed_by : Option Str
  pub claimed_until : Option ℕ
  pub claim_count : ℕ

unfoldable pub queued : QueuedWorkItem → WorkItemRow
queued item = record {
  item_id = item.item_id;
  job_id = item.job_id;
  available_at = item.available_at;
  created_at = item.created_at;
  claimed_by = none;
  claimed_until = none;
  claim_count = 0;
}

abbrev pub is_unclaimed : Option Str → Bool
is_unclaimed none = true
is_unclaimed (some owner) = false

unfoldable pub is_claimable : WorkItemRow → ℕ → Bool
is_claimable row now = is_unclaimed row.claimed_by && leb row.available_at now

abbrev pub owner_is : Option Str → Str → Bool
owner_is none owner = false
owner_is (some holder) owner = str_eq holder owner

unfoldable pub held_by : WorkItemRow → Str → Bool
held_by row owner = owner_is row.claimed_by owner

unfoldable pub claimed : WorkItemRow → Str → ℕ → ℕ → WorkItemRow
claimed row owner until count = record row {
  claimed_by = some owner;
  claimed_until = some until;
  claim_count = count;
}

unfoldable pub released : WorkItemRow → WorkItemRow
released row = record row { claimed_by = none; claimed_until = none }

claim_view : WorkItemRow → Option Str → Option ℕ → Result ClaimedWorkItem
claim_view row (some owner) (some until) = ok (record {
  item_id = row.item_id;
  job_id = row.job_id;
  claimed_by = owner;
  claimed_until = until;
  claim_count = row.claim_count;
})
claim_view row none until = err Error.row_not_found
claim_view row (some owner) none = err Error.row_not_found

unfoldable pub as_claimed : WorkItemRow → Result ClaimedWorkItem
unfolding claim_view
as_claimed row = claim_view row row.claimed_by row.claimed_until

pub record Database : Type 0 where
  pub requests : Dict StoredRequest
  pub briefs : Dict BriefRecord
  pub jobs : Dict JobRecord
  pub work_items : Dict WorkItemRow
  pub artifacts : Dict ArtifactRecord
  pub principals : Dict Principal

-- The database, the object store by key, and the clock: `time n` is what the n-th call of
-- `Clock.now` returns, and `reads` counts the calls made.
pub record World : Type 0 where
  pub database : Database
  pub open database use *
  pub objects : Dict (List ℕ)
  pub time : ℕ → ℕ
  pub reads : ℕ

abbrev pub Action : Type 0 → Type 0
Action A = Exec World A

-- `Clock.now()`
abbrev pub now : Action ℕ
now w = (ok (w.time w.reads), record w { reads = w.reads + 1 })

-- `timedelta(seconds=n)`
abbrev pub seconds : ℕ → ℕ
seconds n = n * 1000000

-- `now - timedelta(seconds=n)`: `OverflowError` before the first instant.
abbrev pub earlier : ℕ → ℕ → Result ℕ
earlier t n = if ltb t (seconds n) then err Error.overflow_error else ok (t - seconds n)
