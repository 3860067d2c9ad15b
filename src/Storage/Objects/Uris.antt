-- ===== src/Storage/Objects/Uris.antt =====
-- `build_storage_uri` and `parse_storage_uri`, one after the other.
use growtrics_challenge.Common.{◌≡◌, sym, ap, ◌∙◌, false, ◌++◌, Bool-cases, Option-cases, inl, inr}
use growtrics_challenge.Common.Text.{Str}
use growtrics_challenge.Common.Split.{strip_prefix, strip_prefix-append, strip_prefix-eq-some}
use growtrics_challenge.Effects.{Result, ok}
use growtrics_challenge.Effects.Pure.{returned}
use growtrics_challenge.Storage.Objects.{
  ensure_safe_key, is_unsafe, build_storage_uri, parse_storage_uri, key_after, uri_prefix, safe_uri,
  memory_scheme,
}

pub ensure_safe_key-eq-ok :
    (key safe : Str) → ensure_safe_key key ≡ ok safe → (safe ≡ key) × (is_unsafe key ≡ false)
unfolding ensure_safe_key
ensure_safe_key-eq-ok key safe h = elim (Bool-cases (is_unsafe key)) [
  | inl unsafe ↦ absurd (cc (rw unsafe at h))
  | inr fine ↦
      let q : ◌≡◌ {A = Result Str} (ok key) (ok safe) = rw fine at h in
      let same : key ≡ safe = cc q in (sym same, fine)
]

pub build_storage_uri-eq-ok :
    (scheme bucket key uri : Str)
    → build_storage_uri scheme bucket key ≡ ok uri
    → (uri ≡ uri_prefix scheme bucket ++ key) × (ensure_safe_key key ≡ ok key)
unfolding build_storage_uri
build_storage_uri-eq-ok scheme bucket key uri h =
    let (safe, checked, built) = returned (ensure_safe_key key) _ h in
    let (same, fine) = ensure_safe_key-eq-ok key safe checked in
    let q : ◌≡◌ {A = Result Str} (ok (uri_prefix scheme bucket ++ safe)) (ok uri) = built in
    let image : uri_prefix scheme bucket ++ safe ≡ uri = cc q in
    (sym image ∙ ap (λ k. uri_prefix scheme bucket ++ k) same, checked ∙ ap ok same)

pub safe_uri-eq-ok :
    (bucket key uri : Str)
    → safe_uri bucket key ≡ ok uri
    → uri ≡ uri_prefix memory_scheme bucket ++ key
unfolding safe_uri
safe_uri-eq-ok bucket key uri h =
    let (safe, checked, built) = returned (ensure_safe_key key) _ h in
    let (same, _) = ensure_safe_key-eq-ok key safe checked in
    (build_storage_uri-eq-ok memory_scheme bucket safe uri built).0
    ∙ ap (λ k. uri_prefix memory_scheme bucket ++ k) same

-- A uri that was built for a key is parsed back to the key, for any scheme and bucket.
pub parse_storage_uri-build_storage_uri :
    (scheme bucket key uri : Str)
    → build_storage_uri scheme bucket key ≡ ok uri
    → parse_storage_uri uri scheme bucket ≡ ok key
unfolding parse_storage_uri key_after
parse_storage_uri-build_storage_uri scheme bucket key uri h =
    let (image, checked) = build_storage_uri-eq-ok scheme bucket key uri h in
    ap (λ u. key_after (strip_prefix (uri_prefix scheme bucket) u)) image
    ∙ ap key_after (strip_prefix-append (uri_prefix scheme bucket) key)
    ∙ checked

-- A uri that is parsed to a key is the uri that is built for it, for any scheme and bucket.
pub build_storage_uri-parse_storage_uri :
    (scheme bucket uri key : Str)
    → parse_storage_uri uri scheme bucket ≡ ok key
    → build_storage_uri scheme bucket key ≡ ok uri
unfolding parse_storage_uri key_after build_storage_uri
build_storage_uri-parse_storage_uri scheme bucket uri key h =
    elim (Option-cases (strip_prefix (uri_prefix scheme bucket) uri)) [
      | inl foreign ↦ absurd (cc (rw foreign at h))
      | inr (rest, found) ↦
          let checked = rw found at h in
          let (same, fine) = ensure_safe_key-eq-ok rest key checked in
          rw (ap ensure_safe_key same ∙ checked) (
            ap (λ k. ok (uri_prefix scheme bucket ++ k)) same
            ∙ ap ok (sym (strip_prefix-eq-some (uri_prefix scheme bucket) uri rest found)))
    ]

pub parse_storage_uri-safe_uri :
    (bucket key uri : Str)
    → safe_uri bucket key ≡ ok uri
    → (k : Str) × (parse_storage_uri uri memory_scheme bucket ≡ ok k)
unfolding safe_uri
parse_storage_uri-safe_uri bucket key uri h =
    let (safe, _, built) = returned (ensure_safe_key key) _ h in
    (safe, parse_storage_uri-build_storage_uri memory_scheme bucket safe uri built)
