-- ===== src/Api/Events.antt =====
-- src/app/api/routers/events.py and src/app/api/schemas/events.py: the stream of the states of a job.
-- What the loop waits for comes from outside: each reading of the clock and each read of the job.
pub mod Streams
use growtrics_challenge.Common.{
  ℕ, zero, suc, ◌+◌, ◌*◌, ◌≤◌, Bool, true, false, not, Option, none, some, List, [], ◌∷◌, ◌++◌,
  if◌then◌else◌, leb, ◌==◌,
}
use growtrics_challenge.Common.Text.{Str, codes, decimal}
use growtrics_challenge.Access.{strip}
use growtrics_challenge.Api.Limits.{IntOf}
use growtrics_challenge.Api.Views.{schema_version, job_event_view}
use growtrics_challenge.Domain.Enums.{is_terminal}
use growtrics_challenge.Domain.Errors.{Error}
use growtrics_challenge.Domain.Json.{Json, document}
use growtrics_challenge.Domain.Records.{AccessScope, JobRecord}
use growtrics_challenge.Effects.{Result, ok, err}
use growtrics_challenge.Effects.Pure.{◌>>=◌}
use growtrics_challenge.Intake.Sanitiser.{Unicode}

pub data StreamEndReason : Type 0 where
  terminal max_duration gone : StreamEndReason

abbrev pub reason_value : StreamEndReason → Str
reason_value StreamEndReason.terminal = codes "TERMINAL"
reason_value StreamEndReason.max_duration = codes "MAX_DURATION"
reason_value StreamEndReason.gone = codes "GONE"

-- `RECONNECT_AFTER`
abbrev pub reconnect_after : StreamEndReason → Bool
reconnect_after StreamEndReason.terminal = false
reconnect_after StreamEndReason.max_duration = true
reconnect_after StreamEndReason.gone = false

-- A block of the stream, by what it is rendered from.
pub data EventFrame : Type 0 where
  progress : JobRecord → EventFrame
  ping : EventFrame
  end : JobRecord → StreamEndReason → EventFrame

abbrev pub id_line : Option ℕ → Str
id_line none = []
id_line (some event_id) = codes "id: " ++ (decimal event_id ++ codes "\n")

-- `frame`, for the JSON text of the document.
unfoldable pub frame : Str → Str → Option ℕ → Str
frame name data_text event_id =
    id_line event_id
    ++ (codes "event: " ++ (name ++ (codes "\ndata: " ++ (data_text ++ codes "\n\n"))))

abbrev pub end_view : JobRecord → StreamEndReason → Json
end_view job reason = document (
    (codes "schema_version", Json.text schema_version)
    ∷ (codes "job_id", Json.text job.job_id)
    ∷ (codes "reason", Json.text (reason_value reason))
    ∷ (codes "reconnect", Json.boolean (reconnect_after reason))
    ∷ (codes "version", Json.number job.version)
    ∷ [])

-- The text of a block; `dump` is `model_dump_json`.
unfoldable pub frame_text : (ℕ → Json) → (Json → Str) → EventFrame → Result Str
unfolding frame
frame_text instant dump (progress job) = do
  view ← job_event_view instant job
  ok (frame (codes "progress") (dump view) (some job.version))
frame_text instant dump ping = ok (codes ": ping\n\n")
frame_text instant dump (end job reason) =
    ok (frame (codes "end") (dump (end_view job reason)) none)

abbrev pub parsed_version : Option Str → Unicode → IntOf → Option ℕ
parsed_version none u int_of = none
parsed_version (some header) u int_of = int_of (strip u header)

-- `resume_version`. A negative number, which no version is, is as good as none.
unfoldable pub resume_version : Unicode → IntOf → Option Str → Option ℕ
resume_version u int_of header = parsed_version header u int_of

-- The settings, in the unit of the clock.
pub record StreamSettings : Type 0 where
  pub job_stream_tick : ℕ
  pub job_stream_heartbeat : ℕ
  pub job_stream_max : ℕ

-- `reading s c` is what `time.monotonic()` returns after `s` sleeps and `c` earlier calls. It does not
-- go back, and a sleep takes a tick at least.
pub record Timer (tick : ℕ) : Type 0 where
  pub reading : ℕ → ℕ → ℕ
  pub steady : (s c : ℕ) → reading s c ≤ reading s (suc c)
  pub rests : (s c : ℕ) → reading s c + tick ≤ reading (suc s) (suc c)

-- How a generator ended: it returned, it raised, or the fuel ran out first.
pub data Ending : Type 0 where
  closed : Ending
  broken : Error → Ending
  unfinished : Ending

abbrev pub differs : ℕ → Option ℕ → Bool
differs version none = true
differs version (some seen) = not (version == seen)

abbrev pub frame_if : Bool → EventFrame → List EventFrame → List EventFrame
frame_if true block frames = block ∷ frames
frame_if false block frames = frames

-- The variables of the loop, with the sleeps and the readings so far.
pub record Watch : Type 0 where
  pub sleeps : ℕ
  pub calls : ℕ
  pub beat : ℕ
  pub seen : Option ℕ

module _ (settings : StreamSettings) (timer : Timer settings.job_stream_tick)
    (polls : ℕ → Result JobRecord) where
  -- The first `if`: a state that the client has not seen.
  abbrev pub told : JobRecord → Watch → Watch
  told job v =
      if differs job.version v.seen
      then record v {
        calls = suc v.calls;
        beat = timer.reading v.sleeps v.calls;
        seen = some job.version;
      }
      else v

  -- The sleep and the heartbeat after it.
  abbrev pub is_silent : Watch → Bool
  is_silent v =
      leb (v.beat + settings.job_stream_heartbeat) (timer.reading (suc v.sleeps) (suc v.calls))

  abbrev pub rested : Watch → Watch
  rested v =
      if is_silent v
      then record v {
        sleeps = suc v.sleeps;
        calls = suc (suc (suc v.calls));
        beat = timer.reading (suc v.sleeps) (suc (suc v.calls));
      }
      else record v { sleeps = suc v.sleeps; calls = suc (suc v.calls) }

  abbrev pub is_over : ℕ → Watch → Bool
  is_over started v = leb (started + settings.job_stream_max) (timer.reading v.sleeps v.calls)

  -- What the `try` around the read makes of it.
  abbrev pub after_poll :
      JobRecord → Result JobRecord → List EventFrame × Ending → List EventFrame × Ending
  after_poll job (ok next) later = later
  after_poll job (err (Error.domain code details)) later =
      (end job StreamEndReason.gone ∷ [], Ending.closed)
  after_poll job (err raised) later = ([], Ending.broken raised)

  abbrev pub job_of : JobRecord → Result JobRecord → JobRecord
  job_of job (ok next) = next
  job_of job (err e) = job

  -- The rest of the body, for what the next round of the loop comes to.
  abbrev pub after_told :
      ℕ → JobRecord → Watch → List EventFrame × Ending → List EventFrame × Ending
  after_told started job t later =
      if is_terminal job.status
      then (end job StreamEndReason.terminal ∷ [], Ending.closed)
      else if is_over started t
      then (end job StreamEndReason.max_duration ∷ [], Ending.closed)
      else (frame_if (is_silent t) ping later.0, later.1)

  unfoldable pub watch_job : ℕ → ℕ → JobRecord → Watch → List EventFrame × Ending
  watch_job zero started job v = ([], Ending.unfinished)
  watch_job (suc fuel) started job v =
      let found = polls v.sleeps in
      let t = told job v in
      let later = watch_job fuel started (job_of job found) (rested t) in
      let (frames, ending) = after_told started job t (after_poll job found later) in
      (frame_if (differs job.version v.seen) (progress job) frames, ending)

  -- `job_frames`
  unfoldable pub job_frames : ℕ → JobRecord → Option ℕ → List EventFrame × Ending
  unfolding watch_job
  job_frames fuel first seen =
      let started = timer.reading 0 0 in
      watch_job fuel started first (record { sleeps = 0; calls = 1; beat = started; seen = seen })

  -- `stream_job_events`: a first read that raises is an error before the stream.
  unfoldable pub stream_job_events :
      Unicode → IntOf → ℕ → Result JobRecord → Option Str → Result (List EventFrame × Ending)
  unfolding job_frames
  stream_job_events u int_of fuel read last_event_id = do
    job ← read
    ok (job_frames fuel job (resume_version u int_of last_event_id))
