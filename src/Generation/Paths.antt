-- ===== src/Generation/Paths.antt =====
-- `normalise_rel_path` of src/app/generation/acl.py.
pub mod Plain
use growtrics_challenge.Common.{
  ℕ, Bool, true, false, ◌&&◌, ◌||◌, Option, none, some, List, [], ◌∷◌, length, if◌then◌else◌, ltb,
  leb, ◌==◌,
}
use growtrics_challenge.Common.Split.{split_on}
use growtrics_challenge.Common.Text.{Str, codes, str_eq}
use growtrics_challenge.Domain.Contracts.{harvest_root}
use growtrics_challenge.Domain.Errors.{Error, ErrorCode, Details}
use growtrics_challenge.Domain.Ids.{all_chars, join_with}
use growtrics_challenge.Effects.{Result, ok, err}
use growtrics_challenge.Effects.Pure.{◌>>=◌, ◌>>◌}

-- `_reject(reason, **details)`
abbrev pub rejected : Str → Details → Error
rejected reason details =
    Error.domain ErrorCode.generation_failed ((codes "reason", reason) ∷ details)

abbrev pub max_path_depth : ℕ
max_path_depth = 4

abbrev pub is_alphanumeric : ℕ → Bool
is_alphanumeric c =
    (leb b'A' c && leb c b'Z') || (leb b'a' c && leb c b'z') || (leb b'0' c && leb c b'9')

abbrev pub is_name_char : ℕ → Bool
is_name_char c = is_alphanumeric c || (c == b'.') || (c == b'_') || (c == b'-')

-- `[A-Za-z0-9][A-Za-z0-9._-]{0,63}`
unfoldable pub is_component : Str → Bool
is_component [] = false
is_component (c ∷ cs) = is_alphanumeric c && leb (length cs) 63 && all_chars is_name_char cs

abbrev pub starts_with : ℕ → Str → Bool
starts_with c [] = false
starts_with c (x ∷ xs) = x == c

-- The loop over the components: the first one that is not a plain name decides.
unfoldable pub check_components : List Str → Result (Unit {0})
check_components [] = ok tt
check_components (part ∷ parts) =
    let rest = check_components parts in
    if str_eq part (codes "..")
    then err (rejected (codes "parent_traversal") [])
    else if is_component part
    then rest
    else err (rejected (codes "bad_component") [])

-- `components[0]`; a split has at least one component.
abbrev pub first_is : Str → List Str → Bool
first_is root [] = false
first_is root (part ∷ parts) = str_eq part root

check_shape : List Str → Result Str
check_shape parts =
    if first_is harvest_root parts
    then if ltb (length parts) 2
      then err (rejected (codes "outside_harvest_root") [])
      else if ltb max_path_depth (length parts)
      then err (rejected (codes "path_too_deep") [])
      else ok (join_with (b'/' ∷ []) parts)
    else err (rejected (codes "outside_harvest_root") [])

unfoldable pub normalise_rel_path : Str → Result Str
unfolding check_shape check_components split_on
normalise_rel_path raw =
    let checked = do check_components (split_on b'/' raw); check_shape (split_on b'/' raw)
    in if starts_with b'/' raw then err (rejected (codes "absolute_path") []) else checked
