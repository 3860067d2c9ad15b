-- ===== src/Api/Artifacts.antt =====
-- src/app/api/routers/artifacts.py: the listing of artifacts, and the headers of a download; with the
-- dependencies of src/app/api/deps.py and the report of src/app/api/routers/health.py.
pub mod Filenames
use growtrics_challenge.Common.{
  ℕ, Bool, true, false, ◌||◌, Option, none, some, List, [], ◌∷◌, ◌++◌, map, keep_if, length, take,
  leb, ltb, ◌==◌, if◌then◌else◌,
}
use growtrics_challenge.Common.Text.{Str, codes, decimal}
use growtrics_challenge.Access.{resolve, scope_for}
use growtrics_challenge.Api.Jobs.{ListsArtifacts}
use growtrics_challenge.Api.Views.{artifact_summary, page_view, schema_version}
use growtrics_challenge.Custody.Store.{ContentStream}
use growtrics_challenge.Domain.Cursors.{Codec, decode_cursor}
use growtrics_challenge.Domain.Errors.{Error}
use growtrics_challenge.Domain.Json.{Json, document}
use growtrics_challenge.Domain.Records.{AccessScope, Cursor, ArtifactRecord}
use growtrics_challenge.Effects.{Result, ok, err}
use growtrics_challenge.Effects.Exec.{pure, lift, ◌>>=◌}
use growtrics_challenge.Generation.Paths.{is_alphanumeric}
use growtrics_challenge.Intake.Sanitiser.{Unicode}
use growtrics_challenge.Storage.State.{Action}

abbrev pub filename_safe : ℕ → Bool
filename_safe c = is_alphanumeric c || (c == b'.') || (c == b'_') || (c == b'-')

abbrev pub filename_max_chars : ℕ
filename_max_chars = 96

abbrev pub filename_fallback : Str
filename_fallback = codes "artifact"

-- `s.lstrip(".")`
unfoldable pub without_dots : Str → Str
without_dots [] = []
without_dots (c ∷ cs) = let rest = without_dots cs in if c == b'.' then rest else c ∷ cs

abbrev pub or_fallback : Str → Str
or_fallback [] = filename_fallback
or_fallback (c ∷ cs) = c ∷ cs

unfoldable pub safe_filename : Str → Str
unfolding without_dots
safe_filename filename =
    or_fallback (without_dots (take filename_max_chars (keep_if filename_safe filename)))

-- What a download sends: its type, its headers and its chunks.
pub record Download : Type 0 where
  pub media_type : Str
  pub headers : List (Str × Str)
  pub chunks : List (List ℕ)

abbrev pub disposition_of : ContentStream → Str
disposition_of stream =
    stream.disposition ++ (codes "; filename=\"" ++ (safe_filename stream.filename ++ codes "\""))

unfoldable pub download_of : ContentStream → Download
unfolding safe_filename
download_of stream = record {
  media_type = stream.media_type;
  headers =
      (codes "Content-Length", decimal stream.size_bytes)
      ∷ (codes "ETag", codes "\"" ++ (stream.content_hash ++ codes "\""))
      ∷ (codes "X-Content-Type-Options", codes "nosniff")
      ∷ (codes "Content-Disposition", disposition_of stream)
      ∷ [];
  chunks = stream.chunks;
}

-- `get_artifact_content`, over the port that opens the bytes.
unfoldable pub get_artifact_content :
    (AccessScope → Str → Action ContentStream) → Str → AccessScope → Action Download
unfolding download_of
get_artifact_content opens artifact_id scope = do
  stream ← opens scope artifact_id
  pure (download_of stream)

unfoldable pub list_artifacts_page :
    (ℕ → Json) → ListsArtifacts → AccessScope → Option Str → Option Cursor → ℕ → Action Json
list_artifacts_page instant artifacts scope job_id cursor limit = do
  page ← artifacts scope job_id cursor limit
  pure (page_view (map (λ r. artifact_summary instant r) page.items) page.next_cursor)

-- `current_scope`, for the value of `X-User-Id`.
unfoldable pub current_scope : Unicode → Str → Option Str → Action AccessScope
unfolding resolve
current_scope u default_principal_id user_id = do
  principal ← resolve u default_principal_id user_id
  pure (scope_for principal)

pub record PageParams : Type 0 where
  pub cursor : Option Cursor
  pub limit : ℕ

abbrev pub decoded_cursor : Codec → Option Str → Result (Option Cursor)
decoded_cursor codec none = ok none
decoded_cursor codec (some token) = elim (decode_cursor codec token) [
  | ok cursor ↦ ok (some cursor)
  | err e ↦ err e
]

abbrev pub too_long : Option Str → Bool
too_long none = false
too_long (some token) = ltb 512 (length token)

-- `page_params`: the bounds are those of the `Query` of each, which refuses what is out of them.
unfoldable pub page_params : Codec → ℕ → Option Str → ℕ → Result PageParams
page_params codec page_max_limit cursor limit =
    if ltb limit 1 || ltb page_max_limit limit || too_long cursor
    then err Error.value_error
    else elim (decoded_cursor codec cursor) [
      | ok position ↦ ok (record { cursor = position; limit = limit })
      | err e ↦ err e
    ]

abbrev pub is_up : Result Bool → Bool
is_up (ok reachable) = reachable
is_up (err e) = false

-- `health`, by the answer of the probe, where an exception is no answer.
unfoldable pub health : Str → Result Bool → ℕ × Json
health version answer =
    let up = is_up answer in
    (
      if up then 200 else 503,
      document (
          (codes "schema_version", Json.text schema_version)
          ∷ (codes "status", Json.text (if up then codes "ok" else codes "degraded"))
          ∷ (codes "database", Json.text (if up then codes "up" else codes "down"))
          ∷ (codes "version", Json.text version)
          ∷ []),
    )
