-- ===== src/Examples/Api.antt =====
-- A request over the cap, a poll, a stream of two states, and rows.
use growtrics_challenge.Common.{
  ℕ, ◌+◌, ◌*◌, ◌≡◌, ◌≢◌, refl, false, Option, none, some, [], ◌∷◌, ◌==◌, arith, if◌then◌else◌,
}
use growtrics_challenge.Common.Split.{strip_prefix}
use growtrics_challenge.Common.Text.{Str, codes, str_eq}
use growtrics_challenge.Api.Artifacts.{safe_filename, without_dots}
use growtrics_challenge.Api.Artifacts.Filenames.{IsSafe, safe_filename-IsSafe}
use growtrics_challenge.Api.Events.{
  StreamSettings, Timer, EventFrame, StreamEndReason, Ending, job_frames, watch_job,
}
use growtrics_challenge.Api.Events.Streams.{Streams, job_frames-Streams}
use growtrics_challenge.Api.Jobs.{JobService, ListsArtifacts, Response, poll_job, with_body}
use growtrics_challenge.Api.Jobs.Polls.{poll_job_lem}
use growtrics_challenge.Api.Limits.{
  Scope, Message, App, Event, End, is_capped, declared_length, rejection, run_counting,
  refuse_at_end, limited,
}
use growtrics_challenge.Api.Limits.Refused.{Refused}
use growtrics_challenge.Api.Views.{etag_for}
use growtrics_challenge.Domain.Enums.{JobStatus}
use growtrics_challenge.Domain.Json.{Json}
use growtrics_challenge.Domain.Records.{AccessScope, JobRecord}
use growtrics_challenge.Effects.{Result, ok}
use growtrics_challenge.Effects.Exec.{pure}
use growtrics_challenge.Storage.Rows.{request_columns, brief_columns, artifact_columns, job_columns}
use growtrics_challenge.Storage.Rows.Jobs.{IsoForm, job_params, job_from_row}
use growtrics_challenge.Storage.Rows.Records.{
  request_params, request_from_row, brief_params, brief_from_row, artifact_params,
  artifact_from_row,
}
use growtrics_challenge.Storage.Rows.RoundTrip.{returned_row, rows_read_back}
use growtrics_challenge.Examples.Data.{empty, request, job, abandoned, brief, artifact}
use growtrics_challenge.Examples.Intake.{plain_unicode}

-- An application that reads one message and answers.
abbrev reads_once : App
reads_once = App.receive (λ got. App.send (answer got) App.returned)
  where
    answer : Option Message → Str
    answer none = codes "400"
    answer (some m) = codes "200"

abbrev post : Scope
post = record {
  kind = codes "http";
  method = codes "POST";
  path = codes "/v1/one_job";
  headers = [];
}

abbrev long_body : ℕ → Message
long_body n = Message.request (codes "{\"a\"}")

refused_body :
    limited 3 long_body (λ s. none) post reads_once
    ≡ (Event.received none ∷ Event.sent (rejection 3) ∷ [], End.returned)
unfolding limited run_counting refuse_at_end declared_length is_capped strip_prefix str_eq
refused_body = refl

abbrev instant : ℕ → Json
instant t = Json.number t

abbrev scope : AccessScope
scope = record { principal_id = codes "u_demo"; ownership_enforced = false }

abbrev one_job : JobService
one_job = record {
  submit = λ s command raw. pure job;
  get = λ s id. pure job;
  list = λ s cursor limit. pure (record { items = []; next_cursor = none });
}

abbrev no_artifacts : ListsArtifacts
no_artifacts = λ s id cursor limit. pure (record { items = []; next_cursor = none })

poll_job_lem_example :
    (job.version ≡ job.version
      → poll_job instant one_job no_artifacts plain_unicode
          (some (etag_for job))
          (codes "a")
          scope
          empty
        ≡ (ok (Response.not_modified (etag_for job)), empty))
    × (job.version ≢ job.version
        → poll_job instant one_job no_artifacts plain_unicode
            (some (etag_for job))
            (codes "a")
            scope
            empty
          ≡ with_body instant one_job no_artifacts scope job empty)
poll_job_lem_example =
    poll_job_lem plain_unicode instant one_job no_artifacts job job (codes "a") scope empty empty
      refl refl refl

safe_filename-IsSafe_example : IsSafe (safe_filename (codes "../a\"; b.mp4"))
safe_filename-IsSafe_example = safe_filename-IsSafe (codes "../a\"; b.mp4")

named : safe_filename (codes "../a\"; b.mp4") ≡ codes "ab.mp4"
unfolding safe_filename without_dots
named = refl

abbrev short_settings : StreamSettings
short_settings = record { job_stream_tick = 10; job_stream_heartbeat = 25; job_stream_max = 40 }

abbrev even_timer : Timer 10
even_timer = record {
  reading = λ s c. s * 10 + c;
  steady = λ s c. omega arith;
  rests = λ s c. omega arith;
}

abbrev done_job : JobRecord
done_job = record job { version = 7; status = JobStatus.succeeded }

-- The job stands for one read, and then it is done.
abbrev two_polls : ℕ → Result JobRecord
two_polls n = if n == 0 then ok job else ok done_job

job_frames-Streams_example :
    Streams short_settings even_timer two_polls
      (some job.version)
      (job_frames short_settings even_timer two_polls 5 job (some job.version)).0
      (job_frames short_settings even_timer two_polls 5 job (some job.version)).1
job_frames-Streams_example =
    job_frames-Streams short_settings even_timer two_polls 4 job (some job.version) (omega arith)

streamed : job_frames short_settings even_timer two_polls 5 job none ≡ (
  EventFrame.progress job
      ∷ EventFrame.progress done_job
      ∷ EventFrame.end done_job StreamEndReason.terminal
      ∷ [],
  Ending.closed,
)
unfolding job_frames watch_job
streamed = refl

abbrev first_of : Str → Option ℕ
first_of [] = none
first_of (c ∷ cs) = some c

abbrev iso : IsoForm
iso = record {
  isoformat = λ t. t ∷ [];
  fromisoformat = first_of;
  fromisoformat-isoformat = λ t. refl;
}

rows_read_back_example :
    (request_from_row (returned_row request_columns (request_params request)) ≡ ok request)
    × (job_from_row iso (returned_row job_columns (job_params iso abandoned)) ≡ ok abandoned)
    × (brief_from_row (returned_row brief_columns (brief_params brief)) ≡ ok brief)
    × (artifact_from_row (returned_row artifact_columns (artifact_params artifact)) ≡ ok artifact)
rows_read_back_example = rows_read_back iso request abandoned brief artifact
