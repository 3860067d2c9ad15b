-- ===== src/Storage/Rows/Records.antt =====
-- The rows of src/app/storage/sql/rows.py as records, and the records as parameters.
use growtrics_challenge.Common.{[], ◌∷◌}
use growtrics_challenge.Common.Text.{codes}
use growtrics_challenge.Domain.Enums.{role_value, verdict_value, audience_value}
use growtrics_challenge.Domain.Errors.{Error}
use growtrics_challenge.Domain.Records.{
  Principal, StoredRequest, BriefRecord, ClaimedWorkItem, ArtifactRecord,
}
use growtrics_challenge.Domain.Values.{member_of, roles, audiences, scan_verdicts}
use growtrics_challenge.Effects.{Result, ok, err}
use growtrics_challenge.Effects.Pure.{◌>>=◌}
use growtrics_challenge.Storage.Rows.{
  Value, Row, Params, as_text, as_int, as_time, as_json, nullable, or_null, constraints_json,
  constraints_from_json, context_items_json, context_items_from_json,
}

unfoldable pub principal_from_row : Row → Result Principal
principal_from_row (c0 ∷ c1 ∷ c2 ∷ []) = do
  principal_id ← as_text c0
  external_id ← as_text c1
  created_at ← as_time c2
  ok (record { principal_id = principal_id; external_id = external_id; created_at = created_at })
principal_from_row _ = err Error.value_error

unfoldable pub request_from_row : Row → Result StoredRequest
request_from_row (c0 ∷ c1 ∷ c2 ∷ c3 ∷ []) = do
  request_key ← as_text c0
  principal_id ← as_text c1
  raw ← as_json c2
  received_at ← as_time c3
  ok (record {
    request_key = request_key;
    principal_id = principal_id;
    raw = raw;
    received_at = received_at;
  })
request_from_row _ = err Error.value_error

unfoldable pub brief_from_row : Row → Result BriefRecord
brief_from_row (c0 ∷ c1 ∷ c2 ∷ c3 ∷ c4 ∷ c5 ∷ c6 ∷ c7 ∷ c8 ∷ c9 ∷ c10 ∷ []) = do
  brief_id ← as_text c0
  job_id ← as_text c1
  brief_hash ← as_text c2
  template_version ← as_text c3
  subject ← as_text c4
  concept_id ← nullable as_text c5
  instruction ← as_text c6
  context_items ← as_json c7 >>= context_items_from_json
  constraints ← as_json c8 >>= constraints_from_json
  guard_verdict ← as_json c9
  sealed_at ← as_time c10
  ok (record {
    brief_id = brief_id;
    job_id = job_id;
    brief_hash = brief_hash;
    template_version = template_version;
    subject = subject;
    concept_id = concept_id;
    instruction = instruction;
    context_items = context_items;
    constraints = constraints;
    guard_verdict = guard_verdict;
    sealed_at = sealed_at;
  })
brief_from_row _ = err Error.value_error

unfoldable pub claimed_from_row : Row → Result ClaimedWorkItem
claimed_from_row (c0 ∷ c1 ∷ c2 ∷ c3 ∷ c4 ∷ []) = do
  item_id ← as_text c0
  job_id ← as_text c1
  claimed_by ← as_text c2
  claimed_until ← as_time c3
  claim_count ← as_int c4
  ok (record {
    item_id = item_id;
    job_id = job_id;
    claimed_by = claimed_by;
    claimed_until = claimed_until;
    claim_count = claim_count;
  })
claimed_from_row _ = err Error.value_error

unfoldable pub artifact_from_row : Row → Result ArtifactRecord
artifact_from_row
      (c0 ∷ c1 ∷ c2 ∷ c3 ∷ c4 ∷ c5 ∷ c6 ∷ c7 ∷ c8 ∷ c9 ∷ c10 ∷ c11 ∷ c12 ∷ c13 ∷ c14 ∷ c15 ∷ []) =
    do
      artifact_id ← as_text c0
      job_id ← as_text c1
      principal_id ← as_text c2
      chat_context_id ← nullable as_text c3
      role ← as_text c4 >>= member_of role_value roles
      audience ← as_text c5 >>= member_of audience_value audiences
      mime ← as_text c6
      rel_path ← nullable as_text c7
      size_bytes ← as_int c8
      content_hash ← as_text c9
      storage_uri ← as_text c10
      probe ← as_json c11
      scan_verdict ← as_text c12 >>= member_of verdict_value scan_verdicts
      validator_version ← as_text c13
      published_at ← nullable as_time c14
      created_at ← as_time c15
      ok (record {
        artifact_id = artifact_id;
        job_id = job_id;
        principal_id = principal_id;
        chat_context_id = chat_context_id;
        role = role;
        audience = audience;
        mime = mime;
        rel_path = rel_path;
        size_bytes = size_bytes;
        content_hash = content_hash;
        storage_uri = storage_uri;
        probe = probe;
        scan_verdict = scan_verdict;
        validator_version = validator_version;
        published_at = published_at;
        created_at = created_at;
      })
artifact_from_row _ = err Error.value_error

abbrev pub request_params : StoredRequest → Params
request_params request =
    (codes "request_key", Value.text request.request_key)
    ∷ (codes "principal_id", Value.text request.principal_id)
    ∷ (codes "raw", Value.jsonb request.raw)
    ∷ (codes "received_at", Value.time request.received_at)
    ∷ []

abbrev pub brief_params : BriefRecord → Params
brief_params brief =
    (codes "brief_id", Value.text brief.brief_id)
    ∷ (codes "job_id", Value.text brief.job_id)
    ∷ (codes "brief_hash", Value.text brief.brief_hash)
    ∷ (codes "template_version", Value.text brief.template_version)
    ∷ (codes "subject", Value.text brief.subject)
    ∷ (codes "concept_id", or_null Value.text brief.concept_id)
    ∷ (codes "instruction", Value.text brief.instruction)
    ∷ (codes "context_items", Value.jsonb (context_items_json brief.context_items))
    ∷ (codes "constraints", Value.jsonb (constraints_json brief.constraints))
    ∷ (codes "guard_verdict", Value.jsonb brief.guard_verdict)
    ∷ (codes "sealed_at", Value.time brief.sealed_at)
    ∷ []

abbrev pub artifact_params : ArtifactRecord → Params
artifact_params row =
    (codes "artifact_id", Value.text row.artifact_id)
    ∷ (codes "job_id", Value.text row.job_id)
    ∷ (codes "principal_id", Value.text row.principal_id)
    ∷ (codes "chat_context_id", or_null Value.text row.chat_context_id)
    ∷ (codes "role", Value.text (role_value row.role))
    ∷ (codes "audience", Value.text (audience_value row.audience))
    ∷ (codes "mime", Value.text row.mime)
    ∷ (codes "rel_path", or_null Value.text row.rel_path)
    ∷ (codes "size_bytes", Value.int row.size_bytes)
    ∷ (codes "content_hash", Value.text row.content_hash)
    ∷ (codes "storage_uri", Value.text row.storage_uri)
    ∷ (codes "probe", Value.jsonb row.probe)
    ∷ (codes "scan_verdict", Value.text (verdict_value row.scan_verdict))
    ∷ (codes "validator_version", Value.text row.validator_version)
    ∷ (codes "published_at", or_null Value.time row.published_at)
    ∷ (codes "created_at", Value.time row.created_at)
    ∷ []
