-- ===== src/Domain/Ids.antt =====
-- src/app/domain/ids.py: Crockford base32, the joined names, the id patterns and the derivations.
-- `uuid5` is Python's and a parameter; of it the model uses that a UUID has sixteen bytes.
pub mod Radix
pub mod Crockford
pub mod Joined
pub mod Shapes
use growtrics_challenge.Common.{
  ℕ, zero, suc, ◌+◌, ◌*◌, ◌/◌, ◌%◌, ◌^◌, ◌<◌, ◌≡◌, Bool, true, false, ◌&&◌, ◌||◌, not, Option, none,
  some, List, [], ◌∷◌, ◌++◌, map, length, ltb, leb, ◌==◌, if◌then◌else◌, All,
}
use growtrics_challenge.Common.Split.{strip_prefix}
use growtrics_challenge.Common.Text.{Str, codes, decimal, str_eq}
use growtrics_challenge.Domain.Errors.{ErrorCode, Error}
use growtrics_challenge.Effects.{Result, ok, err}
use growtrics_challenge.Effects.Pure.{◌>>=◌}

abbrev pub crockford_alphabet : Str
crockford_alphabet = codes "0123456789ABCDEFGHJKMNPQRSTVWXYZ"

-- `CROCKFORD_ALPHABET[i]`; the callers' index is below 32.
abbrev pub char_at : Str → ℕ → ℕ
char_at [] i = 0
char_at (c ∷ cs) zero = c
char_at (c ∷ cs) (suc i) = char_at cs i

unfoldable pub alphabet_char : ℕ → ℕ
alphabet_char i = char_at crockford_alphabet i

-- `_ALPHABET_INDEX.get(char)`
abbrev pub index_from : ℕ → Str → ℕ → Option ℕ
index_from i [] c = none
index_from i (x ∷ xs) c = let rest = index_from (suc i) xs c in if x == c then some i else rest

unfoldable pub alphabet_index : ℕ → Option ℕ
alphabet_index c = index_from 0 crockford_alphabet c

abbrev pub id_byte_length : ℕ
id_byte_length = 16

abbrev pub id_body_length : ℕ
id_body_length = 26

-- `int.from_bytes(raw, "big")`, continuing from a value read so far.
unfoldable pub from_bytes : ℕ → List ℕ → ℕ
from_bytes value [] = value
from_bytes value (b ∷ bs) = from_bytes (value * 256 + b) bs

-- `value.to_bytes(n, "big")` in front of the bytes written so far.
unfoldable pub to_bytes : ℕ → ℕ → List ℕ → List ℕ
to_bytes zero value written = written
to_bytes (suc n) value written = to_bytes n (value / 256) ((value % 256) ∷ written)

-- The loop of `encode_crockford`, from the last position to the first.
unfoldable pub encode_loop : ℕ → ℕ → Str → Str
encode_loop zero value out = out
encode_loop (suc n) value out = encode_loop n (value / 32) (alphabet_char (value % 32) ∷ out)

abbrev pub bad_id : Str → Error
bad_id expected =
    Error.domain ErrorCode.invalid_request
      ((codes "field", codes "id") ∷ (codes "expected", expected) ∷ [])

unfoldable pub encode_crockford : List ℕ → Result Str
encode_crockford raw =
    if length raw == id_byte_length
    then ok (encode_loop id_body_length (from_bytes 0 raw) [])
    else err (
        Error.domain ErrorCode.invalid_request
          ((codes "field", codes "raw") ∷ (codes "expected", codes "16 bytes") ∷ []))

-- A digit is below 32, so `(value << 5) | digit` is a sum.
unfoldable pub decode_loop : ℕ → Str → Result ℕ
decode_loop value [] = ok value
decode_loop value (c ∷ cs) = elim (alphabet_index c) [
  | none ↦ err (bad_id (codes "base32"))
  | some digit ↦ decode_loop (value * 32 + digit) cs
]

unfoldable pub decode_crockford : Str → Result (List ℕ)
decode_crockford s =
    if length s == id_body_length
    then (do
      value ← decode_loop 0 s
      if ltb value (2 ^ 128)
          then ok (to_bytes id_byte_length value [])
          else err (bad_id (codes "128 bits")))
    else err (bad_id (codes "26 characters"))

-- `part.replace(c, s)` for one character `c`.
unfoldable pub replace_char : ℕ → Str → Str → Str
replace_char c s [] = []
replace_char c s (x ∷ xs) = (if x == c then s else x ∷ []) ++ replace_char c s xs

-- `\` becomes `\\`, then `|` becomes `\|`.
unfoldable pub escape_part : Str → Str
unfolding replace_char
escape_part part = replace_char b'|' (92 ∷ b'|' ∷ []) (replace_char 92 (92 ∷ 92 ∷ []) part)

-- `sep.join(parts)`
unfoldable pub join_with : Str → List Str → Str
join_with sep [] = []
join_with sep (p ∷ []) = p
join_with sep (p ∷ q ∷ ps) = p ++ (sep ++ join_with sep (q ∷ ps))

unfoldable pub join_id_parts : List Str → Str
unfolding join_with escape_part
join_id_parts parts = join_with (b'|' ∷ []) (map escape_part parts)

-- `[0-9A-HJKMNP-TV-Z]`
unfoldable pub is_body_char : ℕ → Bool
is_body_char c =
    (leb b'0' c && leb c b'9')
    || (leb b'A' c && leb c b'H')
    || (c == b'J')
    || (c == b'K')
    || (c == b'M')
    || (c == b'N')
    || (leb b'P' c && leb c b'T')
    || (leb b'V' c && leb c b'Z')

abbrev pub all_chars : (ℕ → Bool) → Str → Bool
all_chars p [] = true
all_chars p (c ∷ cs) = p c && all_chars p cs

-- `re.fullmatch(prefix + body + "{lo,hi}", value)` for a class of characters.
unfoldable pub matches_id : Str → (ℕ → Bool) → ℕ → ℕ → Str → Bool
unfolding strip_prefix
matches_id prefix p lo hi value = elim (strip_prefix prefix value) [
  | none ↦ false
  | some body ↦ leb lo (length body) && leb (length body) hi && all_chars p body
]

pub is_job_id : Str → Bool
unfolding matches_id is_body_char
is_job_id = matches_id (codes "job_") is_body_char 26 26

pub is_artifact_id : Str → Bool
unfolding matches_id is_body_char
is_artifact_id = matches_id (codes "art_") is_body_char 26 26

pub is_brief_id : Str → Bool
unfolding matches_id is_body_char
is_brief_id = matches_id (codes "brf_") is_body_char 26 26

pub is_trace_id : Str → Bool
unfolding matches_id is_body_char
is_trace_id = matches_id (codes "tr_") is_body_char 26 26

pub is_work_item_id : Str → Bool
unfolding matches_id is_body_char
is_work_item_id = matches_id (codes "wi_") is_body_char 26 26

pub is_session_id : Str → Bool
unfolding matches_id is_body_char
is_session_id = matches_id (codes "ses_") is_body_char 26 26

pub is_request_key : Str → Bool
unfolding matches_id is_body_char
is_request_key = matches_id (codes "req_") is_body_char 26 26

-- `[A-Za-z0-9_.:-]`
unfoldable pub is_token_char : ℕ → Bool
is_token_char c =
    (leb b'A' c && leb c b'Z')
    || (leb b'a' c && leb c b'z')
    || (leb b'0' c && leb c b'9')
    || (c == b'_')
    || (c == b'.')
    || (c == b':')
    || (c == b'-')

unfoldable pub is_principal_id : Str → Bool
unfolding matches_id is_token_char
is_principal_id = matches_id (codes "u_") is_token_char 1 64

unfoldable pub is_chat_context_id : Str → Bool
unfolding matches_id is_token_char
is_chat_context_id = matches_id [] is_token_char 1 128

-- `uuid5(namespace, name).bytes`, the namespace by its text.
pub record Uuid : Type 0 where
  pub uuid5 : Str → Str → List ℕ
  pub length-uuid5 : (namespace name : Str) → length (uuid5 namespace name) ≡ 16
  pub uuid5_bytes : (namespace name : Str) → All (λ b. b < 256) (uuid5 namespace name)

abbrev pub ns_job : Str
ns_job = codes "f50c4698-3f66-55a0-af08-9be8efd7c715"

abbrev pub ns_brief : Str
ns_brief = codes "8d3dddd1-c277-5610-9838-d8358d40a811"

abbrev pub ns_art : Str
ns_art = codes "29669cfd-e4ba-540d-bd22-a872f24fdbe3"

abbrev pub ns_work_item : Str
ns_work_item = codes "40832641-47e3-56db-b1db-d9f13e81ba22"

abbrev pub ns_trace : Str
ns_trace = codes "2e715f24-09ea-5cc5-bd9f-65ec7b994fd8"

abbrev pub ns_session : Str
ns_session = codes "f9b79c27-84d7-588d-aa70-1b740b195490"

unfoldable pub mint_request_key : List ℕ → Result Str
mint_request_key entropy = do body ← encode_crockford entropy; ok (codes "req_" ++ body)

module _ (u : Uuid) where
  unfoldable pub derive : Str → Str → Str → Result Str
  derive namespace prefix name = do
    body ← encode_crockford (u.uuid5 namespace name)
    ok (prefix ++ body)

  unfoldable pub derive_job_id : Str → Result Str
  derive_job_id request_key = derive ns_job (codes "job_") request_key

  unfoldable pub derive_brief_id : Str → Result Str
  derive_brief_id job_id = derive ns_brief (codes "brf_") job_id

  unfoldable pub derive_artifact_id : Str → Str → Result Str
  derive_artifact_id job_id content_hash =
      derive ns_art (codes "art_") (join_id_parts (job_id ∷ content_hash ∷ []))

  unfoldable pub derive_work_item_id : Str → Result Str
  derive_work_item_id job_id = derive ns_work_item (codes "wi_") job_id

  unfoldable pub derive_trace_id : Str → ℕ → Result Str
  derive_trace_id job_id attempt =
      derive ns_trace (codes "tr_") (join_id_parts (job_id ∷ decimal attempt ∷ []))

  unfoldable pub derive_session_id : Str → ℕ → Result Str
  derive_session_id job_id attempt =
      derive ns_session (codes "ses_") (join_id_parts (job_id ∷ decimal attempt ∷ []))
