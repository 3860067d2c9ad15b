-- ===== src/Examples/Objects.antt =====
-- A key, its uri, and the chunks of five bytes.
use growtrics_challenge.Common.{ℕ, ◌≡◌, ◌≤◌, refl, List, [], ◌∷◌, All, length, arith}
use growtrics_challenge.Common.Text.{Str, codes, str_eq}
use growtrics_challenge.Common.Split.{split_on, strip_prefix}
use growtrics_challenge.Effects.{ok, err}
use growtrics_challenge.Domain.Errors.{Error}
use growtrics_challenge.Storage.Objects.{
  ensure_safe_key, build_storage_uri, parse_storage_uri, key_after, stream,
}
use growtrics_challenge.Storage.Objects.Uris.{build_storage_uri-parse_storage_uri}
use growtrics_challenge.Storage.Objects.Streams.{joined, stream-joined}

abbrev key : Str
key = codes "artifacts/job_a/h.mp4"

abbrev uri : Str
uri = codes "memory://lessons/artifacts/job_a/h.mp4"

built : build_storage_uri (codes "memory") (codes "lessons") key ≡ ok uri
unfolding build_storage_uri ensure_safe_key split_on str_eq
built = refl

parsed : parse_storage_uri uri (codes "memory") (codes "lessons") ≡ ok key
unfolding parse_storage_uri key_after strip_prefix ensure_safe_key split_on str_eq
parsed = refl

climbing : ensure_safe_key (codes "artifacts/../secrets") ≡ err Error.value_error
unfolding ensure_safe_key split_on str_eq
climbing = refl

build_storage_uri-parse_storage_uri_example :
    build_storage_uri (codes "memory") (codes "lessons") key ≡ ok uri
build_storage_uri-parse_storage_uri_example =
    build_storage_uri-parse_storage_uri (codes "memory") (codes "lessons") uri key parsed

abbrev content : List ℕ
content = 7 ∷ 8 ∷ 9 ∷ 10 ∷ 11 ∷ []

two_at_a_time : stream 2 content ≡ (7 ∷ 8 ∷ []) ∷ (9 ∷ 10 ∷ []) ∷ (11 ∷ []) ∷ []
unfolding stream
two_at_a_time = refl

stream-joined_example :
    (joined (stream 2 content) ≡ content) × All (λ part. length part ≤ 2) (stream 2 content)
stream-joined_example = stream-joined 2 content (omega arith)
