-- ===== src/Storage/Rows.antt =====
-- src/app/storage/sql/rows.py: the columns of the tables, a record as the parameters of a statement,
-- and the row that a statement returns as a record. The driver's `TupleRow` is a list of values; an
-- instant in a JSON column is written by `isoformat`.
pub mod Records
pub mod Jobs
pub mod RoundTrip
use growtrics_challenge.Common.{ℕ, Bool, Option, none, some, List, [], ◌∷◌, map, if◌then◌else◌}
use growtrics_challenge.Common.Dict.{Dict}
use growtrics_challenge.Common.Text.{Str, codes, str_eq}
use growtrics_challenge.Domain.Enums.{
  ReadingLevel, role_value, verdict_value, profile_value, audience_value, kind_value, level_value,
}
use growtrics_challenge.Domain.Errors.{Error}
use growtrics_challenge.Domain.Json.{Json, Items, Fields, document, items_of}
use growtrics_challenge.Domain.Records.{
  Principal, ContextItem, JobConstraints, StoredRequest, BriefRecord, FailureRecord, JobRecord,
  ClaimedWorkItem, ArtifactRecord,
}
use growtrics_challenge.Domain.Values.{
  status_value, stage_value, code_value, member_of, statuses, stages, error_codes, roles, audiences,
  scan_verdicts, context_kinds, reading_levels, profiles,
}
use growtrics_challenge.Effects.{Result, ok, err}
use growtrics_challenge.Effects.Pure.{◌>>=◌}

pub data Value : Type 0 where
  null : Value
  text : Str → Value
  int : ℕ → Value
  time : ℕ → Value
  jsonb : Json → Value

abbrev pub Row : Type 0
Row = List Value

abbrev pub Params : Type 0
Params = Dict Value

abbrev pub principal_columns : Str
principal_columns = codes "principal_id, external_id, created_at"

abbrev pub request_columns : Str
request_columns = codes "request_key, principal_id, raw, received_at"

abbrev pub brief_columns : Str
brief_columns =
    codes
      "brief_id, job_id, brief_hash, template_version, subject, concept_id, instruction, context_items, constraints, guard_verdict, sealed_at"

abbrev pub job_columns : Str
job_columns =
    codes
      "job_id, request_key, principal_id, chat_context_id, status, stage, attempt, progress_percent, profile, output_contract, constraints, failure, artifact_id, brief_id, version, created_at, updated_at"

abbrev pub claimed_columns : Str
claimed_columns = codes "item_id, job_id, claimed_by, claimed_until, claim_count"

abbrev pub artifact_columns : Str
artifact_columns =
    codes
      "artifact_id, job_id, principal_id, chat_context_id, role, audience, mime, rel_path, size_bytes, content_hash, storage_uri, probe, scan_verdict, validator_version, published_at, created_at"

-- A value of a column, at the type that the schema gives the column.
abbrev pub as_text : Value → Result Str
as_text (Value.text s) = ok s
as_text _ = err Error.other

abbrev pub as_int : Value → Result ℕ
as_int (Value.int n) = ok n
as_int _ = err Error.other

abbrev pub as_time : Value → Result ℕ
as_time (Value.time t) = ok t
as_time _ = err Error.other

abbrev pub as_json : Value → Result Json
as_json (Value.jsonb j) = ok j
as_json _ = err Error.other

abbrev pub nullable : {A : Type 0} → (Value → Result A) → Value → Result (Option A)
nullable read Value.null = ok none
nullable read value = do found ← read value; ok (some found)

abbrev pub or_null : {A : Type 0} → (A → Value) → Option A → Value
or_null write none = Value.null
or_null write (some a) = write a

-- `raw[key]`
unfoldable pub field_at : Str → Fields → Result Json
field_at key Fields.end = err Error.other
field_at key (Fields.field name value rest) =
    let later = field_at key rest in if str_eq name key then ok value else later

abbrev pub entry_at : Str → Json → Result Json
entry_at key (Json.object fields) = field_at key fields
entry_at key _ = err Error.other

abbrev pub text_of : Json → Result Str
text_of (Json.text s) = ok s
text_of _ = err Error.other

abbrev pub number_of : Json → Result ℕ
number_of (Json.number n) = ok n
number_of _ = err Error.other

abbrev pub boolean_of : Json → Result Bool
boolean_of (Json.boolean b) = ok b
boolean_of _ = err Error.other

abbrev pub level_json : Option ReadingLevel → Json
level_json none = Json.null
level_json (some level) = Json.text (level_value level)

abbrev pub constraints_json : JobConstraints → Json
constraints_json constraints = document (
    (codes "max_duration_s", Json.number constraints.max_duration_s)
    ∷ (codes "language", Json.text constraints.language)
    ∷ (codes "reading_level", level_json constraints.reading_level)
    ∷ [])

abbrev pub level_from_json : Json → Result (Option ReadingLevel)
level_from_json Json.null = ok none
level_from_json raw = do
  value ← text_of raw
  level ← member_of level_value reading_levels value
  ok (some level)

unfoldable pub constraints_from_json : Json → Result JobConstraints
unfolding field_at
constraints_from_json raw = do
  level_entry ← entry_at (codes "reading_level") raw
  duration_entry ← entry_at (codes "max_duration_s") raw
  max_duration_s ← number_of duration_entry
  language_entry ← entry_at (codes "language") raw
  language ← text_of language_entry
  reading_level ← level_from_json level_entry
  ok (record {
    max_duration_s = max_duration_s;
    language = language;
    reading_level = reading_level;
  })

abbrev pub context_items_json : List ContextItem → Json
context_items_json items = Json.array (
    items_of (
      map
        (λ item. document (
          (codes "kind", Json.text (kind_value item.kind))
          ∷ (codes "text", Json.text item.text)
          ∷ []))
        items))

unfoldable pub context_item_from_json : Json → Result ContextItem
unfolding field_at
context_item_from_json raw = do
  kind_entry ← entry_at (codes "kind") raw
  kind_text ← text_of kind_entry
  kind ← member_of kind_value context_kinds kind_text
  text_entry ← entry_at (codes "text") raw
  words ← text_of text_entry
  ok (record { kind = kind; text = words })

unfoldable pub context_items_from : Items → Result (List ContextItem)
unfolding context_item_from_json
context_items_from Items.nil = ok []
context_items_from (Items.cons raw raws) = do
  item ← context_item_from_json raw
  items ← context_items_from raws
  ok (item ∷ items)

abbrev pub context_items_from_json : Json → Result (List ContextItem)
context_items_from_json (Json.array raws) = context_items_from raws
context_items_from_json _ = err Error.other
