-- ===== src/Storage/Jobs/Transition.antt =====
-- `apply_transition`: the one write to `jobs`, guarded by the version.
use growtrics_challenge.Common.{◌+◌, ◌≡◌, ◌≢◌, refl, false, none, some, arith, ◌==◌, ==_iff}
use growtrics_challenge.Common.Dict.{lookup, put, lookup-put_self}
use growtrics_challenge.Domain.Errors.{Error}
use growtrics_challenge.Domain.Records.{JobRecord}
use growtrics_challenge.Effects.{ok, err}
use growtrics_challenge.Storage.State.{JobTransition, World}
use growtrics_challenge.Storage.Jobs.{move_current, moved, apply_transition, set_jobs}

-- One reading of the clock, and the row under its id.
abbrev pub after : JobRecord → JobTransition → World → World
after current t w =
    set_jobs (put current.job_id (moved current t (w.time w.reads)) w.jobs)
      (record w { reads = w.reads + 1 })

module _ (t : JobTransition) (w : World) where
  -- A transition at the version of its row moves the row.
  pub apply_transition-ok :
      (current : JobRecord)
      → lookup t.job_id w.jobs ≡ some current
      → current.version ≡ t.expected_version
      → apply_transition t w ≡ (ok (moved current t (w.time w.reads)), after current t w)
  unfolding apply_transition move_current
  apply_transition-ok current h v =
      rw h (rw ((==_iff current.version t.expected_version).1 v) (unfold moved in refl))

  -- A transition that expects another version raises, and writes nothing.
  pub apply_transition_stale :
      (current : JobRecord)
      → lookup t.job_id w.jobs ≡ some current
      → current.version ≢ t.expected_version
      → apply_transition t w ≡ (err Error.version_conflict, w)
  unfolding apply_transition move_current
  apply_transition_stale current h v =
      let stale : (current.version == t.expected_version) ≡ false = ground arith in
      rw h (rw stale refl)

  pub apply_transition_missing :
      lookup t.job_id w.jobs ≡ none → apply_transition t w ≡ (err Error.row_not_found, w)
  unfolding apply_transition move_current
  apply_transition_missing h = rw h refl

-- Of two transitions that were prepared from the same row of the table, the one that is applied
-- second raises `VersionConflict` and changes nothing: no update is lost.
pub apply_transition_race :
    (first second : JobTransition) (w : World) (current : JobRecord)
    → lookup current.job_id w.jobs ≡ some current
    → first.job_id ≡ current.job_id
    → second.job_id ≡ current.job_id
    → first.expected_version ≡ current.version
    → second.expected_version ≡ current.version
    → apply_transition second (apply_transition first w).1
      ≡ (err Error.version_conflict, (apply_transition first w).1)
apply_transition_race first second w current h i j v v' =
    let here : lookup first.job_id w.jobs ≡ some current = rw i h in
    let done = apply_transition-ok first w current here (rw v refl) in
    let moved_row = moved current first (w.time w.reads) in
    let there : lookup second.job_id (after current first w).jobs ≡ some moved_row =
      rw j (lookup-put_self current.job_id moved_row w.jobs) in
    rw done (
      apply_transition_stale second (after current first w) moved_row there
        (unfold moved in omega arith))
