-- ===== src/Storage/Jobs/Frame.antt =====
-- A transition writes the job table and reads the clock.
use growtrics_challenge.Common.{◌≡◌, refl, Bool-cases, Option, none, some, List, ℕ, inl, inr, ◌==◌}
use growtrics_challenge.Common.Dict.{Dict, lookup}
use growtrics_challenge.Domain.Records.{ArtifactRecord, JobRecord}
use growtrics_challenge.Storage.State.{World, JobTransition}
use growtrics_challenge.Storage.Jobs.{move_current, apply_transition}

-- The rows of the artifacts and the objects.
abbrev pub stored_of : World → Dict ArtifactRecord × Dict (List ℕ)
stored_of w = (w.artifacts, w.objects)

move_current-stored :
    (found : Option JobRecord) (t : JobTransition) (w : World)
    → stored_of (move_current found t w).1 ≡ stored_of w
unfolding move_current
move_current-stored none t w = refl
move_current-stored (some current) t w = elim (Bool-cases (current.version == t.expected_version)) [
  | inl fresh ↦ rw fresh refl
  | inr stale ↦ rw stale refl
]

pub apply_transition-stored :
    (t : JobTransition) (w : World) → stored_of (apply_transition t w).1 ≡ stored_of w
unfolding apply_transition
apply_transition-stored t w = move_current-stored (lookup t.job_id w.jobs) t w
