-- ===== src/Examples/Pipeline.antt =====
-- A job through its own steps, and a turn of a worker.
use growtrics_challenge.Common.{◌≡◌, refl, false, Option, none, some, [], ◌∷◌, inl}
use growtrics_challenge.Common.Text.{Str, codes, str_eq, decimal}
use growtrics_challenge.Common.Dict.{lookup, put}
use growtrics_challenge.Common.Order.{key_lt_irrefl}
use growtrics_challenge.Common.Sort.{min_by}
use growtrics_challenge.Orchestration.Runner.{
  run_job, pipeline, enter, from_request, require_request, from_generating, from_collecting,
  from_publishing, succeed, handle, run_found, assign,
}
use growtrics_challenge.Orchestration.Policy.{percent_for}
use growtrics_challenge.Storage.Jobs.{apply_transition, moved, move_current}
use growtrics_challenge.Domain.Ids.{
  derive_trace_id, derive, derive_session_id, derive_brief_id, derive_artifact_id, encode_crockford,
  encode_loop, alphabet_char, from_bytes, join_with,
}
use growtrics_challenge.Intake.Rendering.{Renderer, bundle_for_record, render_bundle, render_items}
use growtrics_challenge.Intake.Stored.{brief_from_record, guard_verdict_from_document}
use growtrics_challenge.Intake.Templates.{
  render_template, read_template, substitute, substitute_from, read_char, read_end,
}
use growtrics_challenge.Intake.Service.{seal, revalidate}
use growtrics_challenge.Intake.Sealer.{seal_brief, brief_record}
use growtrics_challenge.Intake.Sanitiser.{sanitise_instruction, sanitise_context}
use growtrics_challenge.Storage.Briefs.{insert_brief}
use growtrics_challenge.Generation.Service.{generate}
use growtrics_challenge.Domain.Contracts.{contract_for, part_for_role, part_for_media_type}
use growtrics_challenge.Custody.Service.{harvest, publish, primary_of}
use growtrics_challenge.Custody.Harvester.{harvest_files, claim_agreed, parse_outcome}
use growtrics_challenge.Custody.Candidates.{new_outcome}
use growtrics_challenge.Custody.Verifier.{verify_all, container_is_mp4, require_complete}
use growtrics_challenge.Custody.Store.{publish_all, object_key}
use growtrics_challenge.Generation.Acl.{accept_descriptors, role_of}
use growtrics_challenge.Generation.Paths.{normalise_rel_path, is_component}
use growtrics_challenge.Common.Split.{split_on, strip_prefix}
use growtrics_challenge.Storage.Objects.{put_object, safe_uri, ensure_safe_key, build_storage_uri}
use growtrics_challenge.Storage.Artifacts.{insert_artifact}
use growtrics_challenge.Intake.Sanitiser.{words_from, kept, kept_of, collapse}
use growtrics_challenge.Domain.Enums.{JobStatus}
use growtrics_challenge.Domain.Json.{Json}
use growtrics_challenge.Domain.Records.{JobRecord, ClaimedWorkItem}
use growtrics_challenge.Effects.{Result, ok, err}
use growtrics_challenge.Generation.Service.{Backend}
use growtrics_challenge.Intake.Sealer.{permissive_guard, template_version}
use growtrics_challenge.Orchestration.Ports.{KeepsJobs}
use growtrics_challenge.Orchestration.Runner.{run}
use growtrics_challenge.Pipeline.{Adapters, steps_of, steps_of-KeepsJobs, steps_of-KeepsItems}
use growtrics_challenge.Pipeline.Runs.Whole.{Comes, run_delivers}
use growtrics_challenge.Storage.Queue.{claim, work_key}
use growtrics_challenge.Storage.Queue.Claim.{Takes}
use growtrics_challenge.Storage.State.{World, WorkItemRow, is_claimable}
use growtrics_challenge.Worker.{WorkerConfig, claim_and_run_once}
use growtrics_challenge.Worker.Turns.{IsTurned, claim_and_run_once-IsTurned}
use growtrics_challenge.Examples.Custody.{long_job_id, outside}
use growtrics_challenge.Examples.Data.{empty, fixed_uuid, request, job, row, owner}
use growtrics_challenge.Examples.Intake.{plain_unicode, hashing, validation}

-- `str(value)` of a text.
abbrev text_or_empty : Json → Str
text_or_empty (Json.text s) = s
text_or_empty _ = []

-- A worker that answers at once.
abbrev backend : Backend
backend = record {
  answer = λ r w. (ok Json.null, w);
  answer_database = λ r w. refl;
  answer_objects = λ r w. refl;
}

-- A pack whose files are one line.
abbrev renderer : Renderer
renderer = record {
  pack = λ version name. some (codes "a line");
  pretty = λ contract. [];
  conversions = record { str_of = text_or_empty; int_of = λ text. some 0 };
  fraction = λ percent. codes "0.1";
}

abbrev adapters : Adapters
adapters = record {
  hashing = hashing;
  unicode = plain_unicode;
  validation = validation;
  guard = permissive_guard;
  version = template_version;
  renderer = renderer;
  backend = backend;
  outside = outside;
  bucket = codes "lessons";
}

abbrev long_job : JobRecord
long_job = record job { job_id = long_job_id }

abbrev long_row : WorkItemRow
long_row = record row { job_id = long_job_id }

abbrev waiting : World
waiting = record empty {
  database = record empty.database {
    requests = (codes "req_a", request) ∷ [];
    jobs = (long_job_id, long_job) ∷ [];
    work_items = (long_row.item_id, long_row) ∷ [];
  };
}

abbrev long_item : ClaimedWorkItem
long_item = record {
  item_id = long_row.item_id;
  job_id = long_job_id;
  claimed_by = owner;
  claimed_until = 300;
  claim_count = 0;
}

abbrev job_status_of : Result (Option JobRecord) → Option JobStatus
job_status_of (ok (some j)) = some j.status
job_status_of (ok none) = none
job_status_of (err e) = none

there : lookup long_job_id waiting.jobs ≡ some long_job
unfolding lookup str_eq
there = refl

run_delivers_example : Comes fixed_uuid adapters long_job_id refl long_item waiting
run_delivers_example =
    run_delivers fixed_uuid adapters long_job_id refl long_item long_job waiting refl refl there
      refl tt

steps_of-KeepsJobs_example : KeepsJobs (steps_of fixed_uuid adapters)
steps_of-KeepsJobs_example = steps_of-KeepsJobs fixed_uuid adapters

abbrev config : WorkerConfig
config = record { owner = owner; lease_seconds = 90 }

taken : Takes owner 90 waiting long_row
unfolding is_claimable claim min_by
taken = record {
  in_table = inl refl;
  free = refl;
  oldest = (key_lt_irrefl (work_key long_row), tt);
  result = refl;
}

claim_and_run_once-IsTurned_example :
    IsTurned config fixed_uuid
      (steps_of fixed_uuid adapters)
      (steps_of-KeepsJobs fixed_uuid adapters)
      (steps_of-KeepsItems fixed_uuid adapters)
      long_job_id
      long_row.item_id
      (claim_and_run_once config (run fixed_uuid (steps_of fixed_uuid adapters)) false 2 waiting)
claim_and_run_once-IsTurned_example =
    claim_and_run_once-IsTurned config fixed_uuid (steps_of fixed_uuid adapters)
      (steps_of-KeepsJobs fixed_uuid adapters) (steps_of-KeepsItems fixed_uuid adapters) long_job_id
      long_row long_job 2 waiting taken refl refl there refl

-- The run of the job succeeds.
succeeded :
    job_status_of (run fixed_uuid (steps_of fixed_uuid adapters) long_item waiting).0
    ≡ some JobStatus.succeeded
unfolding run steps_of lookup str_eq decimal words_from kept kept_of collapse run_job pipeline enter
    from_request require_request from_generating from_collecting from_publishing succeed handle
    run_found assign percent_for apply_transition moved move_current derive_trace_id derive
    derive_session_id derive_brief_id derive_artifact_id encode_crockford encode_loop alphabet_char
    from_bytes join_with seal revalidate seal_brief brief_record sanitise_instruction
    sanitise_context insert_brief generate contract_for part_for_role part_for_media_type harvest
    publish primary_of harvest_files claim_agreed parse_outcome new_outcome verify_all
    container_is_mp4 require_complete publish_all object_key accept_descriptors role_of
    normalise_rel_path is_component split_on strip_prefix put_object safe_uri ensure_safe_key
    build_storage_uri insert_artifact permissive_guard put bundle_for_record render_bundle
    render_items brief_from_record guard_verdict_from_document render_template read_template
    substitute substitute_from read_char read_end
succeeded = refl
