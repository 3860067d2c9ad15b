-- ===== src/Api.antt =====
-- src/app/api/errors.py: the status and the details of an answer that refuses a request.
pub mod Limits
pub mod Views
pub mod Jobs
pub mod Artifacts
pub mod Events
use growtrics_challenge.Common.{
  ℕ, Option, none, some, List, [], ◌∷◌, ◌++◌, map, length, take, if◌then◌else◌, ltb,
}
use growtrics_challenge.Common.Dict.{Dict, lookup}
use growtrics_challenge.Common.Text.{Str, codes, decimal}
use growtrics_challenge.Domain.Ids.{join_with}
use growtrics_challenge.Domain.Errors.{ErrorCode, Details, error_catalog}

abbrev pub internal_status : ℕ
internal_status = 500

abbrev pub detail_max_chars : ℕ
detail_max_chars = 200

abbrev pub bound_keys : List Str
bound_keys =
    codes "le" ∷ codes "ge" ∷ codes "lt" ∷ codes "gt" ∷ codes "max_length" ∷ codes "min_length" ∷ []

abbrev pub status_or : Option ℕ → ℕ
status_or none = internal_status
status_or (some status) = status

unfoldable pub http_status_for : ErrorCode → ℕ
http_status_for code = status_or (error_catalog code).http_status

pub record ErrorBody : Type 0 where
  pub code : ErrorCode
  pub message : Str
  pub details : Details

unfoldable pub envelope_for : ErrorCode → Details → ErrorBody
envelope_for code details = record {
  code = code;
  message = (error_catalog code).message;
  details = details;
}

-- What pydantic reports of one field, each value by its text; no `loc` where it is no tuple.
pub record ValidationError : Type 0 where
  pub loc : List Str
  pub rule : Str
  pub msg : Str
  pub ctx : Option (Dict Str)

-- `path or "body"`
abbrev pub path_or_body : Str → Str
path_or_body [] = codes "body"
path_or_body (c ∷ cs) = c ∷ cs

abbrev pub limit_of : Option Str → Details → Details
limit_of none later = later
limit_of (some bound) later = (codes "limit", bound) ∷ []

-- The loop over the keys, up to the first that the context has.
unfoldable pub limit_in : List Str → Dict Str → Details
unfolding lookup
limit_in [] context = []
limit_in (key ∷ keys) context = limit_of (lookup key context) (limit_in keys context)

abbrev pub limit_details : Option (Dict Str) → Details
limit_details none = []
limit_details (some context) = limit_in bound_keys context

abbrev pub count_details : ℕ → Details
count_details count = if ltb 1 count then (codes "error_count", decimal count) ∷ [] else []

unfoldable pub details_from_validation_error : List ValidationError → Details
unfolding limit_in join_with
details_from_validation_error [] = []
details_from_validation_error (first ∷ rest) =
    map (λ entry. (entry.0, take detail_max_chars entry.1))
      ((codes "field", path_or_body (join_with (codes ".") first.loc))
        ∷ (codes "rule", first.rule)
        ∷ (codes "reason", first.msg)
        ∷ (limit_details first.ctx ++ count_details (length (first ∷ rest))))
