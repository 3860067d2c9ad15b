-- ===== src/Domain/Enums.antt =====
-- src/app/domain/enums.py: the closed vocabularies and the static stage-to-percent map.
use growtrics_challenge.Common.Text.{Str, codes}
use growtrics_challenge.Common.{
  ℕ, Bool, true, false, Option, none, some, List, [], ◌∷◌, ◌≡◌, ◌↔◌, arith,
}

pub data JobStatus : Type 0 where
  queued running succeeded failed cancelled : JobStatus

pub data StageName : Type 0 where
  intake admission placement preparing generating collecting verifying publishing done failed :
      StageName

pub data ArtifactRole : Type 0 where
  primary poster transcript captions asset source log : ArtifactRole

pub data Audience : Type 0 where
  learner operator : Audience

pub data ScanVerdict : Type 0 where
  clean quarantined : ScanVerdict

pub data ContextKind : Type 0 where
  memory level prior_topic misconception language note : ContextKind

pub data ReadingLevel : Type 0 where
  primary lower_secondary upper_secondary : ReadingLevel

pub data ProfileId : Type 0 where
  video_short_v1 html_lesson_v1 : ProfileId

-- `status in TERMINAL_JOB_STATUSES`
abbrev pub is_terminal : JobStatus → Bool
is_terminal JobStatus.queued = false
is_terminal JobStatus.running = false
is_terminal _ = true

abbrev pub demo_stage_order : List StageName
demo_stage_order =
    StageName.intake ∷ StageName.preparing ∷ StageName.generating ∷ StageName.collecting
    ∷ StageName.verifying ∷ StageName.publishing ∷ StageName.done ∷ []

-- `STAGE_PERCENT.get(stage)`
abbrev pub stage_percent : StageName → Option ℕ
stage_percent StageName.intake = some 10
stage_percent StageName.preparing = some 25
stage_percent StageName.generating = some 60
stage_percent StageName.collecting = some 80
stage_percent StageName.verifying = some 90
stage_percent StageName.publishing = some 95
stage_percent StageName.done = some 100
stage_percent _ = none

-- `role is other`, and so on for the other vocabularies that the program compares.
abbrev pub role_eq : ArtifactRole → ArtifactRole → Bool
role_eq ArtifactRole.primary ArtifactRole.primary = true
role_eq ArtifactRole.poster ArtifactRole.poster = true
role_eq ArtifactRole.transcript ArtifactRole.transcript = true
role_eq ArtifactRole.captions ArtifactRole.captions = true
role_eq ArtifactRole.asset ArtifactRole.asset = true
role_eq ArtifactRole.source ArtifactRole.source = true
role_eq ArtifactRole.log ArtifactRole.log = true
role_eq _ _ = false

abbrev pub status_eq : JobStatus → JobStatus → Bool
status_eq JobStatus.queued JobStatus.queued = true
status_eq JobStatus.running JobStatus.running = true
status_eq JobStatus.succeeded JobStatus.succeeded = true
status_eq JobStatus.failed JobStatus.failed = true
status_eq JobStatus.cancelled JobStatus.cancelled = true
status_eq _ _ = false

abbrev pub is_learner : Audience → Bool
is_learner Audience.learner = true
is_learner Audience.operator = false

abbrev pub is_clean : ScanVerdict → Bool
is_clean ScanVerdict.clean = true
is_clean ScanVerdict.quarantined = false

-- The wire values, `role.value`.
abbrev pub role_value : ArtifactRole → Str
role_value ArtifactRole.primary = codes "PRIMARY"
role_value ArtifactRole.poster = codes "POSTER"
role_value ArtifactRole.transcript = codes "TRANSCRIPT"
role_value ArtifactRole.captions = codes "CAPTIONS"
role_value ArtifactRole.asset = codes "ASSET"
role_value ArtifactRole.source = codes "SOURCE"
role_value ArtifactRole.log = codes "LOG"

abbrev pub verdict_value : ScanVerdict → Str
verdict_value ScanVerdict.clean = codes "CLEAN"
verdict_value ScanVerdict.quarantined = codes "QUARANTINED"

abbrev pub profile_value : ProfileId → Str
profile_value ProfileId.video_short_v1 = codes "video.short.v1"
profile_value ProfileId.html_lesson_v1 = codes "html.lesson.v1"

abbrev pub audience_value : Audience → Str
audience_value Audience.learner = codes "LEARNER"
audience_value Audience.operator = codes "OPERATOR"

abbrev pub kind_value : ContextKind → Str
kind_value ContextKind.memory = codes "MEMORY"
kind_value ContextKind.level = codes "LEVEL"
kind_value ContextKind.prior_topic = codes "PRIOR_TOPIC"
kind_value ContextKind.misconception = codes "MISCONCEPTION"
kind_value ContextKind.language = codes "LANGUAGE"
kind_value ContextKind.note = codes "NOTE"

abbrev pub level_value : ReadingLevel → Str
level_value ReadingLevel.primary = codes "PRIMARY"
level_value ReadingLevel.lower_secondary = codes "LOWER_SECONDARY"
level_value ReadingLevel.upper_secondary = codes "UPPER_SECONDARY"

pub role_eq_iff : (a b : ArtifactRole) → (role_eq a b ≡ true) ↔ (a ≡ b)
role_eq_iff a b = ground arith
