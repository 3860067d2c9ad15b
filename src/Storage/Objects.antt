-- ===== src/Storage/Objects.antt =====
-- src/app/storage/objects/ports.py, the rules of every object store, and the store in memory of
-- src/app/storage/memory/objects.py. `UnsafeObjectKeyError` and `UnknownStorageUriError` are
-- `ValueError`s. The media types, which only tests read, are left out.
pub mod Uris
pub mod Streams
use growtrics_challenge.Common.{
  ℕ, zero, suc, Bool, true, false, ◌&&◌, ◌||◌, Option, none, some, List, [], ◌∷◌, ◌++◌, length,
  take, drop, if◌then◌else◌, ltb, ◌==◌,
}
use growtrics_challenge.Common.Text.{Str, codes, str_eq}
use growtrics_challenge.Common.Split.{split_on, strip_prefix}
use growtrics_challenge.Common.Dict.{Dict, lookup, put}
use growtrics_challenge.Domain.Errors.{Error, ErrorCode}
use growtrics_challenge.Effects.{Result, ok, err}
use growtrics_challenge.Effects.Pure.{◌>>=◌, ◌>>◌}
use growtrics_challenge.Storage.State.{World, Action}

abbrev pub max_key_chars : ℕ
max_key_chars = 512

-- `any(p(c) for c in s)`
abbrev pub any_char : (ℕ → Bool) → Str → Bool
any_char p [] = false
any_char p (c ∷ cs) = p c || any_char p cs

abbrev pub is_control : ℕ → Bool
is_control c = ltb c 32 || (c == 127)

abbrev pub is_relative : Str → Bool
is_relative segment = str_eq segment [] || str_eq segment (codes ".") || str_eq segment (codes "..")

abbrev pub any_segment : (Str → Bool) → List Str → Bool
any_segment p [] = false
any_segment p (s ∷ ss) = p s || any_segment p ss

abbrev pub is_blank_key : Str → Bool
is_blank_key [] = true
is_blank_key (c ∷ cs) = false

-- The tests in order; each refusal is the same error.
abbrev pub is_unsafe : Str → Bool
is_unsafe key =
    is_blank_key key
    || ltb max_key_chars (length key)
    || any_char (λ c. c == 92) key
    || any_char (λ c. c == b':') key
    || any_char is_control key
    || any_segment is_relative (split_on b'/' key)

unfoldable pub ensure_safe_key : Str → Result Str
unfolding split_on
ensure_safe_key key = if is_unsafe key then err Error.value_error else ok key

-- `f"{scheme}://{bucket}/"`
abbrev pub uri_prefix : Str → Str → Str
uri_prefix scheme bucket = scheme ++ (codes "://" ++ (bucket ++ codes "/"))

unfoldable pub build_storage_uri : Str → Str → Str → Result Str
build_storage_uri scheme bucket key = do
  safe ← ensure_safe_key key
  ok (uri_prefix scheme bucket ++ safe)

unfoldable pub key_after : Option Str → Result Str
key_after none = err Error.value_error
key_after (some key) = ensure_safe_key key

unfoldable pub parse_storage_uri : Str → Str → Str → Result Str
unfolding key_after
parse_storage_uri storage_uri scheme bucket =
    key_after (strip_prefix (uri_prefix scheme bucket) storage_uri)

abbrev pub missing_object : Error
missing_object =
    Error.domain ErrorCode.artifact_not_ready ((codes "reason", codes "object_missing") ∷ [])

abbrev pub memory_scheme : Str
memory_scheme = codes "memory"

module _ (bucket : Str) where
  unfoldable pub safe_uri : Str → Result Str
  safe_uri key = do safe ← ensure_safe_key key; build_storage_uri memory_scheme bucket safe

  unfoldable pub store_at : Result Str → List ℕ → Action Str
  store_at (err e) content w = (err e, w)
  store_at (ok uri) content w = (ok uri, record w { objects = put uri content w.objects })

  -- `MemoryObjectStore.put`, which checks the key twice.
  unfoldable pub put_object : Str → List ℕ → Action Str
  unfolding store_at
  put_object key content w = store_at (safe_uri key) content w

  unfoldable pub known_object : Result Str → Option (List ℕ) → Result (List ℕ)
  known_object (err e) found = err e
  known_object (ok key) none = err missing_object
  known_object (ok key) (some content) = ok content

  -- `MemoryObjectStore.open`: the bytes that are streamed, or the refusal before the first chunk.
  unfoldable pub open_object : Str → Action (List ℕ)
  unfolding known_object
  open_object uri w =
      (known_object (parse_storage_uri uri memory_scheme bucket) (lookup uri w.objects), w)

  size_of : Result Str → Option (List ℕ) → Result (Option ℕ)
  size_of (err e) found = err e
  size_of (ok key) none = ok none
  size_of (ok key) (some content) = ok (some (length content))

  -- `MemoryObjectStore.stat`, by its size.
  unfoldable pub stat_object : Str → Action (Option ℕ)
  unfolding size_of
  stat_object uri w =
      (size_of (parse_storage_uri uri memory_scheme bucket) (lookup uri w.objects), w)

-- `MemoryObjectStore._stream`: the slices of `chunk_bytes` bytes. The fuel `len(data)` is enough
-- for chunks that are not empty.
unfoldable pub chunks : ℕ → ℕ → List ℕ → List (List ℕ)
chunks chunk_bytes zero content = []
chunks chunk_bytes (suc fuel) [] = []
chunks chunk_bytes (suc fuel) (b ∷ bs) =
    take chunk_bytes (b ∷ bs) ∷ chunks chunk_bytes fuel (drop chunk_bytes (b ∷ bs))

unfoldable pub stream : ℕ → List ℕ → List (List ℕ)
unfolding chunks
stream chunk_bytes content = chunks chunk_bytes (length content) content
