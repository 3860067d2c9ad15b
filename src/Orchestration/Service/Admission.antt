-- ===== src/Orchestration/Service/Admission.antt =====
-- `SubmitJob.execute` with its admission, and the number of active jobs of a caller.
use growtrics_challenge.Common.{
  ℕ, suc, ◌+◌, ◌≤◌, ◌<◌, ◌≡◌, refl, sym, ap, ◌∙◌, Bool, true, false, Option, none, some, List, [],
  ◌∷◌, count_if, if◌then◌else◌, leb, Bool-cases, inl, inr, arith,
}
use growtrics_challenge.Common.Text.{Str, codes, str_eq}
use growtrics_challenge.Common.Dict.{Dict, lookup, put, values}
use growtrics_challenge.Domain.Enums.{JobStatus, StageName}
use growtrics_challenge.Domain.Errors.{Error}
use growtrics_challenge.Domain.Ids.{Uuid, mint_request_key, derive_job_id, derive_work_item_id}
use growtrics_challenge.Domain.Json.{Json}
use growtrics_challenge.Domain.Records.{AccessScope, JobRecord, StoredRequest, SubmitJobCommand}
use growtrics_challenge.Effects.{Result, ok, err}
use growtrics_challenge.Effects.Exec.{continue}
use growtrics_challenge.Effects.Pure.{returned}
use growtrics_challenge.Storage.State.{Submission, Database, World, WorkItemRow, queued}
use growtrics_challenge.Storage.Jobs.{count_active, is_active_of}
use growtrics_challenge.Storage.Submission.{
  CommitPoint, insert_row, staged, commit_submission, swap_in,
}
use growtrics_challenge.Storage.Submission.Atomic.{commit_submission_whole}
use growtrics_challenge.Storage.Queue.Claim.{ticked}
use growtrics_challenge.Orchestration.Policy.{percent_for}
use growtrics_challenge.Orchestration.Service.{
  admit, check_active, too_many, place, submit, write_rows, new_submission, new_job,
}

-- The caller's active jobs.
abbrev pub active : Str → World → ℕ
active principal_id w = count_if (is_active_of principal_id) (values w.jobs)

count_if-put :
    {V : Type 0} (p : V → Bool) (k : Str) (v : V) (d : Dict V)
    → lookup k d ≡ none
    → count_if p (values (put k v d)) ≤ suc (count_if p (values d))
unfolding put lookup
count_if-put p k v [] h = ground arith
count_if-put p k v ((j, x) ∷ d) h = elim (Bool-cases (str_eq j k)) [
  | inl here ↦ absurd (cc (rw here at h))
  | inr apart ↦
      let below = count_if-put p k v d (rw apart at h) in
      rw apart (grow (p x) (count_if p (values (put k v d))) (count_if p (values d)) below)
]
  where
    grow :
        (b : Bool) (m n : ℕ) → m ≤ suc n → (if b then suc m else m) ≤ suc (if b then suc n else n)
    grow b m n q = ground arith

insert_row-eq-ok :
    {V : Type 0} (k : Str) (v : V) (d d' : Dict V) (fails : Bool)
    → insert_row k v d fails ≡ ok d'
    → (lookup k d ≡ none) × (d' ≡ put k v d)
unfolding insert_row
insert_row-eq-ok {V} k v d d' fails h = by_row (lookup k d) fails h
  where
    by_row :
        (o : Option V) (b : Bool)
        → (elim o [
          | some old ↦ err Error.integrity
          | none ↦ if b then err Error.other else ok (put k v d)
        ])
          ≡ ok d'
        → (o ≡ none) × (d' ≡ put k v d)
    by_row (some old) b e = absurd (cc e)
    by_row none true e = absurd (cc e)
    by_row none false e =
        let q : ◌≡◌ {A = Result (Dict V)} (ok (put k v d)) (ok d') = e in
        let same : put k v d ≡ d' = cc q in (refl, sym same)

staged-eq-ok :
    (fail_after : Option CommitPoint) (db db' : Database) (s : Submission)
    → staged fail_after db s ≡ ok db'
    → (lookup s.job.job_id db.jobs ≡ none) × (db'.jobs ≡ put s.job.job_id s.job db.jobs)
unfolding staged
staged-eq-ok fail_after db db' s h =
    let (requests, _, h1) =
      returned (insert_row s.request.request_key s.request db.requests _) _ h in
    let (jobs, e2, h2) = returned (insert_row s.job.job_id s.job db.jobs _) _ h1 in
    let (items, _, h3) =
      returned (insert_row s.work_item.item_id (queued s.work_item) db.work_items _) _ h2 in
    let (free, image) = insert_row-eq-ok s.job.job_id s.job db.jobs jobs _ e2 in
    let written : Database = record db { requests = requests; jobs = jobs; work_items = items } in
    let q : ◌≡◌ {A = Result Database} (ok written) (ok db') = h3 in
    let same : written ≡ db' = cc q in (free, ap (λ x. x.jobs) (sym same) ∙ image)

module _ (who : Str) where
  -- At most one job more than in a world before.
  abbrev AtMostOneMore : World → World → Type 0
  AtMostOneMore w w' = active who w' ≤ suc (active who w)

  swap_in-AtMostOneMore :
      (fail_after : Option CommitPoint) (s : Submission) (w : World) (r : Result Database)
      → staged fail_after w.database s ≡ r
      → AtMostOneMore w (swap_in r w).1
  swap_in-AtMostOneMore fail_after s w (err e) h = omega arith
  swap_in-AtMostOneMore fail_after s w (ok db) h =
      let (free, image) = staged-eq-ok fail_after w.database db s h in
      rw image (count_if-put (is_active_of who) s.job.job_id s.job w.jobs free)

  commit-AtMostOneMore :
      (fail_after : Option CommitPoint) (s : Submission) (w : World)
      → AtMostOneMore w (commit_submission fail_after s w).1
  unfolding commit_submission
  commit-AtMostOneMore fail_after s w =
      swap_in-AtMostOneMore fail_after s w (staged fail_after w.database s) refl

  continue-AtMostOneMore :
      {A B : Type 0} (r : Result A) (f : A → World → Result B × World) (w w' : World)
      → AtMostOneMore w w'
      → ((a : A) → AtMostOneMore w (f a w').1)
      → AtMostOneMore w (continue r f w').1
  continue-AtMostOneMore (ok a) f w w' h k = k a
  continue-AtMostOneMore (err e) f w w' h k = h

  write_rows-AtMostOneMore :
      (job : JobRecord) (item_id : Str) (raw : Json) (w : World)
      → AtMostOneMore w (write_rows job item_id raw w).1
  unfolding write_rows
  write_rows-AtMostOneMore job item_id raw w =
      let one = commit-AtMostOneMore none (new_submission job item_id raw) w in
      continue-AtMostOneMore (commit_submission none (new_submission job item_id raw) w).0 _ w _ one
        (λ _. one)

  place-AtMostOneMore :
      (u : Uuid) (entropy : List ℕ) (scope : AccessScope) (command : SubmitJobCommand) (raw : Json)
      (w : World)
      → AtMostOneMore w (place u entropy scope command raw w).1
  unfolding place
  place-AtMostOneMore u entropy scope command raw w =
      let read : World = record w { reads = w.reads + 1 } in
      let same : AtMostOneMore w w = omega arith in
      continue-AtMostOneMore (mint_request_key entropy) _ w w same λ key.
        continue-AtMostOneMore (derive_job_id u key) _ w w same λ job_id.
          continue-AtMostOneMore (percent_for _) _ w read same λ percent.
            continue-AtMostOneMore (derive_work_item_id u job_id) _ w read same
              λ item_id. write_rows-AtMostOneMore _ item_id raw read

-- The rows that an admitted submission adds, column by column.
abbrev pub queued_job : AccessScope → SubmitJobCommand → ℕ → Str → Str → JobRecord
queued_job scope command at request_key job_id = record {
  job_id = job_id;
  request_key = request_key;
  principal_id = scope.principal_id;
  chat_context_id = command.chat_context_id;
  status = JobStatus.queued;
  stage = StageName.intake;
  attempt = 0;
  progress_percent = 10;
  profile = command.profile;
  contract_version = codes "v1";
  constraints = command.constraints;
  failure = none;
  artifact_id = none;
  brief_id = none;
  version = 0;
  created_at = at;
  updated_at = at;
}

abbrev pub kept_request : AccessScope → Json → ℕ → Str → StoredRequest
kept_request scope raw at request_key = record {
  request_key = request_key;
  principal_id = scope.principal_id;
  raw = raw;
  received_at = at;
}

abbrev pub free_row : ℕ → Str → Str → WorkItemRow
free_row at job_id item_id = record {
  item_id = item_id;
  job_id = job_id;
  available_at = at;
  created_at = at;
  claimed_by = none;
  claimed_until = none;
  claim_count = 0;
}

-- The world with the three rows in it, and one reading of the clock later.
abbrev pub landed : AccessScope → SubmitJobCommand → Json → World → Str → Str → Str → World
landed scope command raw w request_key job_id item_id =
    let at = w.time w.reads in
    record w {
      reads = w.reads + 1;
      database = record w.database {
        requests = put request_key (kept_request scope raw at request_key) w.requests;
        jobs = put job_id (queued_job scope command at request_key job_id) w.jobs;
        work_items = put item_id (free_row at job_id item_id) w.work_items;
      };
    }

module _ (u : Uuid) (max_active : ℕ) (entropy : List ℕ) (scope : AccessScope)
    (command : SubmitJobCommand) (raw : Json) (w : World) where
  -- A caller at the limit of active jobs is refused with `TOO_MANY_ACTIVE_JOBS`, and nothing is
  -- written.
  pub submit_at_limit :
      max_active ≤ active scope.principal_id w
      → submit u max_active entropy scope command raw w ≡ (err (too_many max_active), w)
  unfolding submit admit check_active count_active
  submit_at_limit full =
      let closed : leb max_active (active scope.principal_id w) ≡ true = ground (arith, full) in
      rw closed refl

  -- Whatever a submission returns or raises: a caller who has at most the limit of active jobs has
  -- at most the limit afterwards.
  pub submit_within_limit :
      active scope.principal_id w ≤ max_active
      → active scope.principal_id (submit u max_active entropy scope command raw w).1 ≤ max_active
  unfolding submit admit check_active count_active
  submit_within_limit h = elim (Bool-cases (leb max_active (active scope.principal_id w))) [
    | inl closed ↦ rw closed h
    | inr room ↦ rw room (
        omega (
          arith,
          place-AtMostOneMore scope.principal_id u entropy scope command raw w,
          below _ room,
        ))
  ]
    where
      below : (n : ℕ) → leb max_active n ≡ false → n < max_active
      below n e = ground arith

  -- A caller below the limit, whose request key is minted and whose ids are derived from it, none
  -- of them in the tables: the submission returns the new job, queued at the first stage and 10
  -- percent, in its version 0, of the caller and with the profile and the constraints of the
  -- command; it writes that job, the request with its raw body and a free queue row with a
  -- `claim_count` of zero, each under its id, and nothing else.
  pub submit_lands :
      (request_key job_id item_id : Str)
      → active scope.principal_id w < max_active
      → mint_request_key entropy ≡ ok request_key
      → derive_job_id u request_key ≡ ok job_id
      → derive_work_item_id u job_id ≡ ok item_id
      → lookup request_key w.requests ≡ none
      → lookup job_id w.jobs ≡ none
      → lookup item_id w.work_items ≡ none
      → submit u max_active entropy scope command raw w ≡ (
        ok (queued_job scope command (w.time w.reads) request_key job_id),
        landed scope command raw w request_key job_id item_id,
      )
  unfolding submit admit check_active count_active place write_rows percent_for queued
  submit_lands request_key job_id item_id room minted named queued_as free_key free_job free_item =
      let open_gate : leb max_active (active scope.principal_id w) ≡ false = ground (arith, room) in
      let job = new_job request_key job_id scope command 10 (w.time w.reads) in
      let whole = commit_submission_whole none (new_submission job item_id raw) (ticked w) (record {
        request_free = free_key;
        job_free = free_job;
        item_free = free_item;
        no_fault = λ p. refl;
      }) in
      rw (open_gate, minted, named, queued_as, whole) refl
