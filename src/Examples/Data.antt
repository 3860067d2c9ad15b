-- ===== src/Examples/Data.antt =====
-- A small world: one job with its request and its queue row.
use growtrics_challenge.Common.{ℕ, ◌+◌, ◌<◌, refl, none, some, List, [], ◌∷◌, All, arith}
use growtrics_challenge.Common.Text.{Str, codes}
use growtrics_challenge.Domain.Enums.{
  JobStatus, StageName, ProfileId, ArtifactRole, Audience, ScanVerdict,
}
use growtrics_challenge.Domain.Ids.{Uuid}
use growtrics_challenge.Domain.Json.{Json}
use growtrics_challenge.Domain.Records.{
  StoredRequest, BriefRecord, JobConstraints, JobRecord, ClaimedWorkItem, ArtifactRecord,
}
use growtrics_challenge.Effects.{ok}
use growtrics_challenge.Storage.State.{WorkItemRow, World, Submission}
use growtrics_challenge.Orchestration.Ports.{Steps, KeepsJobs}

abbrev pub sixteen_bytes : List ℕ
sixteen_bytes = 1 ∷ 2 ∷ 3 ∷ 4 ∷ 5 ∷ 6 ∷ 7 ∷ 8 ∷ 9 ∷ 10 ∷ 11 ∷ 12 ∷ 13 ∷ 14 ∷ 15 ∷ 255 ∷ []

pub small : All (λ b. b < 256) sixteen_bytes
small = (
  omega arith,
  (
    omega arith,
    (
      omega arith,
      (
        omega arith,
        (
          omega arith,
          (
            omega arith,
            (
              omega arith,
              (
                omega arith,
                (
                  omega arith,
                  (
                    omega arith,
                    (
                      omega arith,
                      (omega arith, (omega arith, (omega arith, (omega arith, (omega arith, tt))))),
                    ),
                  ),
                ),
              ),
            ),
          ),
        ),
      ),
    ),
  ),
)

-- A stand-in for `uuid5` that ignores what it is given.
abbrev pub fixed_uuid : Uuid
fixed_uuid = record {
  uuid5 = λ namespace name. sixteen_bytes;
  length-uuid5 = λ namespace name. refl;
  uuid5_bytes = λ namespace name. small;
}

abbrev pub job_id : Str
job_id = codes "job_a"

abbrev pub item_id : Str
item_id = codes "wi_a"

abbrev pub owner : Str
owner = codes "worker-1"

abbrev pub constraints : JobConstraints
constraints = record { max_duration_s = 60; language = codes "en"; reading_level = none }

abbrev pub request : StoredRequest
request = record {
  request_key = codes "req_a";
  principal_id = codes "u_a";
  raw = Json.null;
  received_at = 0;
}

abbrev pub job : JobRecord
job = record {
  job_id = job_id;
  request_key = codes "req_a";
  principal_id = codes "u_a";
  chat_context_id = none;
  status = JobStatus.queued;
  stage = StageName.intake;
  attempt = 1;
  progress_percent = 10;
  profile = ProfileId.video_short_v1;
  contract_version = codes "1";
  constraints = constraints;
  failure = none;
  artifact_id = none;
  brief_id = none;
  version = 1;
  created_at = 5;
  updated_at = 5;
}

-- The job as another worker left it while it collected.
abbrev pub abandoned : JobRecord
abandoned = record job {
  status = JobStatus.running;
  stage = StageName.collecting;
  progress_percent = 80;
  version = 4;
}

abbrev pub finished : JobRecord
finished = record job {
  status = JobStatus.succeeded;
  stage = StageName.done;
  progress_percent = 100;
}

abbrev pub other_job : JobRecord
other_job = record job { job_id = codes "job_b"; created_at = 7 }

abbrev pub row : WorkItemRow
row = record {
  item_id = item_id;
  job_id = job_id;
  available_at = 5;
  created_at = 5;
  claimed_by = none;
  claimed_until = none;
  claim_count = 0;
}

abbrev pub held : WorkItemRow
held = record row { claimed_by = some owner; claimed_until = some 300 }

abbrev pub item : ClaimedWorkItem
item = record {
  item_id = item_id;
  job_id = job_id;
  claimed_by = owner;
  claimed_until = 300;
  claim_count = 0;
}

abbrev pub empty : World
empty = record {
  database = record {
    requests = [];
    briefs = [];
    jobs = [];
    work_items = [];
    artifacts = [];
    principals = [];
  };
  objects = [];
  time = λ n. 100 + n;
  reads = 0;
}

abbrev pub with_job : JobRecord → World
with_job j = record empty {
  database = record empty.database {
    requests = (codes "req_a", request) ∷ [];
    jobs = (job_id, j) ∷ [];
  };
}

abbrev pub with_row : WorkItemRow → World
with_row r = record empty { database = record empty.database { work_items = (item_id, r) ∷ [] } }

abbrev pub submission : Submission
submission = record {
  request = request;
  job = job;
  work_item = record { item_id = item_id; job_id = job_id; available_at = 5; created_at = 5 };
}

abbrev pub brief : BriefRecord
brief = record {
  brief_id = codes "brf_a";
  job_id = job_id;
  brief_hash = codes "h";
  template_version = codes "1";
  subject = codes "s";
  concept_id = none;
  instruction = codes "fractions";
  context_items = [];
  constraints = constraints;
  guard_verdict = Json.null;
  sealed_at = 100;
}

abbrev pub artifact : ArtifactRecord
artifact = record {
  artifact_id = codes "art_a";
  job_id = job_id;
  principal_id = codes "u_a";
  chat_context_id = none;
  role = ArtifactRole.primary;
  audience = Audience.learner;
  mime = codes "video/mp4";
  rel_path = none;
  size_bytes = 3;
  content_hash = codes "h";
  storage_uri = codes "uri";
  probe = Json.null;
  scan_verdict = ScanVerdict.clean;
  validator_version = codes "1";
  published_at = none;
  created_at = 100;
}

-- Steps that return at once.
abbrev pub steps : Steps
steps = record {
  seal = λ id r c p w. (ok brief, w);
  generate = λ s t b c p w. (ok (record { session_id = s; document = Json.null }), w);
  harvest =
      λ id who chat p d o w. (ok (record { primary = artifact; artifacts = artifact ∷ [] }), w);
  publish = λ a w. (ok a, w);
}

abbrev pub steps_keep : KeepsJobs steps
steps_keep = record {
  seal_jobs = λ id r c p w. refl;
  generate_jobs = λ s t b c p w. refl;
  harvest_jobs = λ id who chat p d o w. refl;
  publish_jobs = λ a w. refl;
}
