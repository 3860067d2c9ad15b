-- ===== src/Domain/Errors.antt =====
-- src/app/domain/errors.py: failure codes, the catalog and `DomainError`; with the failures of
-- src/app/storage/errors.py and the built-in exceptions that the program raises beside them.
use growtrics_challenge.Common.{ℕ, Option, none, some, List}
use growtrics_challenge.Common.Text.{Str, codes}

pub data ErrorCode : Type 0 where
  invalid_request unauthenticated job_not_found artifact_not_found idempotency_conflict : ErrorCode
  artifact_not_ready too_many_active_jobs generation_failed job_timed_out : ErrorCode

pub record ErrorEntry : Type 0 where
  pub http_status : Option ℕ
  pub message : Str

-- `ERROR_CATALOG[code]`
abbrev pub error_catalog : ErrorCode → ErrorEntry
error_catalog ErrorCode.invalid_request = record {
  http_status = some 400;
  message = codes "The request could not be accepted as written.";
}
error_catalog ErrorCode.unauthenticated = record {
  http_status = some 401;
  message = codes "This request carried no usable identity.";
}
error_catalog ErrorCode.job_not_found = record {
  http_status = some 404;
  message = codes "No such job.";
}
error_catalog ErrorCode.artifact_not_found = record {
  http_status = some 404;
  message = codes "No such artifact.";
}
error_catalog ErrorCode.idempotency_conflict = record {
  http_status = some 409;
  message = codes "This idempotency key was already used for a different request.";
}
error_catalog ErrorCode.artifact_not_ready = record {
  http_status = some 409;
  message = codes "The job has not produced this artifact yet.";
}
error_catalog ErrorCode.too_many_active_jobs = record {
  http_status = some 429;
  message = codes "Too many jobs are already running for this user. Try again shortly.";
}
error_catalog ErrorCode.generation_failed = record {
  http_status = none;
  message = codes "The lesson could not be generated.";
}
error_catalog ErrorCode.job_timed_out = record {
  http_status = none;
  message = codes "The lesson took too long and was given up on.";
}

-- `DomainError.details`, in the order in which they are written.
abbrev pub Details : Type 0
Details = List (Str × Str)

-- What a call may raise. `other` stands for whatever code outside the model raises.
pub data Error : Type 0 where
  domain : ErrorCode → Details → Error
  integrity : Error
  row_not_found : Error
  version_conflict : Error
  value_error : Error
  overflow_error : Error
  not_implemented : Error
  other : Error
