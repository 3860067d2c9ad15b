-- ===== src/Api/Events/Streams.antt =====
-- What a client reads from the stream of a job.
use growtrics_challenge.Common.{
  ℕ, zero, suc, ◌+◌, ◌*◌, ◌≤◌, ◌≡◌, ◌≢◌, ◌↔◌, subst, refl, ◌∙◌, Bool, true, false, Option, none,
  some, List, [], ◌∷◌, Bool-cases, ==_iff, inl, inr, arith,
}
use growtrics_challenge.Api.Events.{
  StreamEndReason, EventFrame, StreamSettings, Timer, Ending, Watch, differs, frame_if, told,
  is_silent, rested, is_over, after_poll, after_told, job_of, watch_job, job_frames,
}
use growtrics_challenge.Domain.Enums.{is_terminal}
use growtrics_challenge.Domain.Errors.{Error}
use growtrics_challenge.Domain.Records.{JobRecord}
use growtrics_challenge.Effects.{Result, ok, err}

-- Each state has another version than the one before it, which the client holds; the last block, and
-- no other, is the end. Its version is the one that the client holds, and its reason is `TERMINAL`
-- when the job is terminal and only then.
abbrev pub IsStream : Option ℕ → List EventFrame → Type 0
IsStream seen [] = ⊥
IsStream seen (EventFrame.ping ∷ frames) = IsStream seen frames
IsStream seen (EventFrame.progress job ∷ frames) =
    (seen ≢ some job.version) × IsStream (some job.version) frames
IsStream seen (EventFrame.end job reason ∷ frames) =
    (frames ≡ [])
    × (seen ≡ some job.version)
    × ((reason ≡ StreamEndReason.terminal) ↔ (is_terminal job.status ≡ true))

differs_lem :
    (version : ℕ) (seen : Option ℕ)
    → (differs version seen ≡ false → seen ≡ some version)
      × (differs version seen ≡ true → seen ≢ some version)
differs_lem version none = ground arith
differs_lem version (some n) = ground (arith, ==_iff version n)

module _ (settings : StreamSettings) (timer : Timer settings.job_stream_tick)
    (polls : ℕ → Result JobRecord) where
  -- The generator ends; it closes with a stream, or an error that a read raised goes through it.
  pub record Streams (seen : Option ℕ) (frames : List EventFrame) (ending : Ending) : Type 0 where
    pub finished : ending ≢ Ending.unfinished
    pub closes : ending ≡ Ending.closed → IsStream seen frames
    pub breaks : (e : Error) → ending ≡ Ending.broken e → (n : ℕ) × (polls n ≡ err e)

  told_seen :
      (job : JobRecord) (v : Watch) → (told settings timer polls job v).seen ≡ some job.version
  told_seen job v = elim (Bool-cases (differs job.version v.seen)) [
    | inl e ↦ rw e refl
    | inr e ↦ rw e ((differs_lem job.version v.seen).0 e)
  ]

  told-Streams :
      (job : JobRecord) (v : Watch) (frames : List EventFrame) (ending : Ending)
      → Streams (some job.version) frames ending
      → Streams v.seen
          (frame_if (differs job.version v.seen) (EventFrame.progress job) frames)
          ending
  told-Streams job v frames ending h = elim (Bool-cases (differs job.version v.seen)) [
    | inl e ↦ rw e (record {
      finished = h.finished;
      closes = λ c. ((differs_lem job.version v.seen).1 e, h.closes c);
      breaks = h.breaks;
    })
    | inr e ↦ rw e (rw ((differs_lem job.version v.seen).0 e) h)
  ]

  ends :
      (job : JobRecord) (reason : StreamEndReason)
      → ((reason ≡ StreamEndReason.terminal) ↔ (is_terminal job.status ≡ true))
      → Streams (some job.version) (EventFrame.end job reason ∷ []) Ending.closed
  ends job reason h = record {
    finished = λ e. absurd (cc e);
    closes = λ e. (refl, refl, h);
    breaks = λ e q. absurd (cc q);
  }

  beat-Streams :
      (silent : Bool) (seen : Option ℕ) (frames : List EventFrame) (ending : Ending)
      → Streams seen frames ending
      → Streams seen (frame_if silent EventFrame.ping frames) ending
  beat-Streams true seen frames ending h = record {
    finished = h.finished;
    closes = h.closes;
    breaks = h.breaks;
  }
  beat-Streams false seen frames ending h = h

  told_later :
      (job : JobRecord) (v : Watch)
      → let t = told settings timer polls job v in
        (t.sleeps ≡ v.sleeps) × (timer.reading v.sleeps v.calls ≤ timer.reading t.sleeps t.calls)
  told_later job v = elim (Bool-cases (differs job.version v.seen)) [
    | inl e ↦ rw e (refl, timer.steady v.sleeps v.calls)
    | inr e ↦ rw e (refl, omega arith)
  ]

  rested_later :
      (t : Watch)
      → let r = rested settings timer polls t in
        (r.seen ≡ t.seen)
        × (timer.reading t.sleeps t.calls + settings.job_stream_tick
            ≤ timer.reading r.sleeps r.calls)
  rested_later t =
      let slept = timer.rests t.sleeps t.calls in
      let once = timer.steady (suc t.sleeps) (suc t.calls) in
      let twice = timer.steady (suc t.sleeps) (suc (suc t.calls)) in
      elim (Bool-cases (is_silent settings timer polls t)) [
        | inl e ↦ rw e (refl, omega (arith, slept, once, twice))
        | inr e ↦ rw e (refl, omega (arith, slept, once))
      ]

  breaks_off :
      (job : JobRecord) (n : ℕ) (raised : Error)
      → polls n ≡ err raised
      → Streams (some job.version) [] (Ending.broken raised)
  breaks_off job n raised e = record {
    finished = λ q. absurd (cc q);
    closes = λ q. absurd (cc q);
    breaks = λ f q. (let same : raised ≡ f = cc q in (n, rw (← same) e));
  }

  poll-Streams :
      (job : JobRecord) (n : ℕ) (later : List EventFrame × Ending)
      → is_terminal job.status ≡ false
      → ((next : JobRecord) → polls n ≡ ok next → Streams (some job.version) later.0 later.1)
      → (found : Result JobRecord) → polls n ≡ found
      → let (frames, ending) = after_poll settings timer polls job found later in
        Streams (some job.version) frames ending
  poll-Streams job n later live h (ok next) e = h next e
  poll-Streams job n later live h (err (Error.domain code details)) e =
      ends job StreamEndReason.gone (λ q. absurd (cc q), λ q. absurd (cc (q, live)))
  poll-Streams job n later live h (err Error.integrity) e = breaks_off job n Error.integrity e
  poll-Streams job n later live h (err Error.row_not_found) e =
      breaks_off job n Error.row_not_found e
  poll-Streams job n later live h (err Error.version_conflict) e =
      breaks_off job n Error.version_conflict e
  poll-Streams job n later live h (err Error.value_error) e = breaks_off job n Error.value_error e
  poll-Streams job n later live h (err Error.overflow_error) e =
      breaks_off job n Error.overflow_error e
  poll-Streams job n later live h (err Error.not_implemented) e =
      breaks_off job n Error.not_implemented e
  poll-Streams job n later live h (err Error.other) e = breaks_off job n Error.other e

  -- One round, for a next round that gives a stream after a state of the job.
  round-Streams :
      (started : ℕ) (job : JobRecord) (v : Watch) (later : List EventFrame × Ending)
      → let t = told settings timer polls job v in
        (is_over settings timer polls started t ≡ false
          → Streams (some job.version) later.0 later.1)
        → let (frames, ending) =
            after_told settings timer polls started job t
              (after_poll settings timer polls job (polls v.sleeps) later) in
          Streams v.seen
            (frame_if (differs job.version v.seen) (EventFrame.progress job) frames)
            ending
  round-Streams started job v later next =
      let t = told settings timer polls job v in
      told-Streams job v _ _ (elim (Bool-cases (is_terminal job.status)) [
        | inl done ↦ rw done (ends job StreamEndReason.terminal (λ q. done, λ q. refl))
        | inr live ↦ elim (Bool-cases (is_over settings timer polls started t)) [
          | inl over ↦
              rw (live, over)
                (ends job StreamEndReason.max_duration
                  (λ q. absurd (cc q), λ q. absurd (cc (q, live))))
          | inr more ↦
              rw (live, more)
                (beat-Streams (is_silent settings timer polls t) (some job.version) _ _ (
                  poll-Streams job v.sleeps later live (λ found e. next more) (polls v.sleeps)
                    refl))
        ]
      ])

  watch-Streams :
      (fuel started : ℕ) (job : JobRecord) (v : Watch)
      → started + settings.job_stream_max
        ≤ timer.reading v.sleeps v.calls + fuel * settings.job_stream_tick
      → let (frames, ending) = watch_job settings timer polls (suc fuel) started job v in
        Streams v.seen frames ending
  unfolding watch_job
  watch-Streams zero started job v bound =
      round-Streams started job v ([], Ending.unfinished)
        (λ more. absurd (ground (arith, more, told_later job v, bound)))
  watch-Streams (suc fuel) started job v bound =
      let t = told settings timer polls job v in
      let r = rested settings timer polls t in
      let found = job_of settings timer polls job (polls v.sleeps) in
      let later = watch_job settings timer polls (suc fuel) started found r in
      let seen = (rested_later t).0 ∙ told_seen job v in
      let unrolled : suc fuel * settings.job_stream_tick
          ≡ settings.job_stream_tick + fuel * settings.job_stream_tick =
        omega arith in
      round-Streams started job v later (λ more.
        subst (λ x. Streams x later.0 later.1) seen
          (watch-Streams fuel started found r
            (omega (arith, bound, unrolled, told_later job v, rested_later t))))

  -- The stream of a job, whatever the reads of the job answer, with a clock that does not go back
  -- and a sleep of a tick at least, and fuel for as many ticks as the maximal duration: the
  -- generator ends. When it closes, each state has another version than the one before it, the
  -- first another than the one that the client resumes from; the last block and no other is the
  -- end, its version is the one that the client holds, and its reason is `TERMINAL` exactly when
  -- the job is terminal. It breaks off only with an exception that a read raised.
  pub job_frames-Streams :
      (fuel : ℕ) (first : JobRecord) (seen : Option ℕ)
      → settings.job_stream_max ≤ fuel * settings.job_stream_tick
      → let (frames, ending) = job_frames settings timer polls (suc fuel) first seen in
        Streams seen frames ending
  unfolding job_frames
  job_frames-Streams fuel first seen bound =
      let started = timer.reading 0 0 in
      watch-Streams fuel started first
        (record { sleeps = 0; calls = 1; beat = started; seen = seen })
        (omega (arith, bound, timer.steady 0 0))
