-- ===== src/Examples/Service.antt =====
-- Submissions by a caller with no job, and by one at the limit.
use growtrics_challenge.Common.{◌≤◌, ◌≡◌, refl, false, none, [], ◌++◌, arith}
use growtrics_challenge.Common.Text.{Str, codes, str_eq}
use growtrics_challenge.Common.Dict.{lookup}
use growtrics_challenge.Domain.Enums.{ProfileId}
use growtrics_challenge.Domain.Ids.{
  mint_request_key, derive, derive_job_id, derive_work_item_id, encode_crockford, encode_loop,
  from_bytes, alphabet_char,
}
use growtrics_challenge.Domain.Json.{Json}
use growtrics_challenge.Domain.Records.{AccessScope, SubmitJobCommand}
use growtrics_challenge.Effects.{ok, err}
use growtrics_challenge.Orchestration.Service.{submit, too_many}
use growtrics_challenge.Orchestration.Service.Admission.{
  active, submit_at_limit, submit_within_limit, submit_lands, queued_job, landed,
}
use growtrics_challenge.Examples.Data.{sixteen_bytes, fixed_uuid, constraints, empty, with_job, job}

abbrev scope : AccessScope
scope = record { principal_id = codes "u_a"; ownership_enforced = false }

abbrev command : SubmitJobCommand
command = record {
  instruction = codes "fractions";
  context = [];
  constraints = constraints;
  profile = ProfileId.video_short_v1;
  chat_context_id = none;
}

abbrev body : Str
body = codes "01081G81860W40J2GB1G6GW3ZZ"

minted : mint_request_key sixteen_bytes ≡ ok (codes "req_" ++ body)
unfolding mint_request_key encode_crockford encode_loop from_bytes alphabet_char
minted = refl

named : derive_job_id fixed_uuid (codes "req_" ++ body) ≡ ok (codes "job_" ++ body)
unfolding derive_job_id derive encode_crockford encode_loop from_bytes alphabet_char
named = refl

pub named_item :
    (job_id : Str)
    → derive_work_item_id fixed_uuid job_id ≡ ok (codes "wi_01081G81860W40J2GB1G6GW3ZZ")
unfolding derive_work_item_id derive encode_crockford encode_loop from_bytes alphabet_char
named_item job_id = refl

submit_at_limit_example :
    submit fixed_uuid 1 sixteen_bytes scope command Json.null (with_job job)
    ≡ (err (too_many 1), with_job job)
unfolding str_eq
submit_at_limit_example =
    submit_at_limit fixed_uuid 1 sixteen_bytes scope command Json.null (with_job job) (omega arith)

submit_within_limit_example :
    active
      (codes "u_a")
      (submit fixed_uuid 3 sixteen_bytes scope command Json.null (with_job job)).1
    ≤ 3
unfolding str_eq
submit_within_limit_example =
    submit_within_limit fixed_uuid 3 sixteen_bytes scope command Json.null (with_job job)
      (omega arith)

submit_lands_example : submit fixed_uuid 3 sixteen_bytes scope command Json.null empty ≡ (
  ok (queued_job scope command 100 (codes "req_" ++ body) (codes "job_" ++ body)),
  landed scope command Json.null empty
      (codes "req_" ++ body)
      (codes "job_" ++ body)
      (codes "wi_" ++ body),
)
unfolding lookup
submit_lands_example =
    submit_lands fixed_uuid 3 sixteen_bytes scope command Json.null empty (codes "req_" ++ body)
      (codes "job_" ++ body) (codes "wi_" ++ body) (omega arith) minted named
      (named_item (codes "job_" ++ body)) refl refl refl
