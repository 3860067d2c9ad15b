-- ===== src/Intake/Templates.antt =====
-- The template pack of src/app/intake/rendering.py: the reading of a file of it, and the substitution
-- of Python's `string.Template`.
use growtrics_challenge.Common.{
  ℕ, Bool, true, false, ◌&&◌, ◌||◌, not, Option, none, some, [], ◌∷◌, ◌++◌, if◌then◌else◌, leb,
  ◌==◌,
}
use growtrics_challenge.Common.Dict.{Dict, lookup}
use growtrics_challenge.Common.Text.{Str, codes}
use growtrics_challenge.Domain.Errors.{Error, ErrorCode}
use growtrics_challenge.Domain.Ids.{all_chars}
use growtrics_challenge.Effects.{Result, ok, err}
use growtrics_challenge.Effects.Pure.{◌>>=◌, ◌>>◌}
use growtrics_challenge.Generation.Paths.{is_alphanumeric, starts_with}

-- `_NAME_ALLOWED`
abbrev pub name_allowed : ℕ → Bool
name_allowed c = is_alphanumeric c || (c == b'.') || (c == b'_') || (c == b'-')

abbrev pub is_empty_name : Str → Bool
is_empty_name [] = true
is_empty_name (c ∷ cs) = false

abbrev pub template_error : Str → Str → Error
template_error name reason =
    Error.domain ErrorCode.invalid_request ((codes "field", name) ∷ (codes "reason", reason) ∷ [])

abbrev pub plain_name : Str → Str → Result (Unit {0})
plain_name part name =
    if is_empty_name part || not (all_chars name_allowed part) || starts_with b'.' part
    then err (template_error name (codes "not_a_plain_name"))
    else ok tt

-- `path.is_file()` and `path.read_text()`, for a version of the pack and a name: the text, where
-- there is a file.
abbrev pub Pack : Type 0
Pack = Str → Str → Option Str

abbrev pub text_in_pack : Option Str → Result Str
text_in_pack none = err (template_error (codes "template") (codes "unknown_template"))
text_in_pack (some text) = ok text

-- `PackageTemplateSource.read`
unfoldable pub read_template : Pack → Str → Str → Result Str
read_template pack template_version name = do
  plain_name template_version (codes "template_version")
  plain_name name (codes "name")
  text_in_pack (pack template_version name)

-- What is being read: text, what follows a `$`, a name, what follows `${`, a name in braces.
pub data Reading : Type 0 where
  text after_dollar after_brace : Reading
  named braced : Str → Reading

abbrev pub is_name_start : ℕ → Bool
is_name_start c = (leb b'A' c && leb c b'Z') || (leb b'a' c && leb c b'z') || (c == b'_')

abbrev pub is_name_rest : ℕ → Bool
is_name_rest c = is_alphanumeric c || (c == b'_')

-- `mapping[named]`, a `KeyError` where it has no such name.
abbrev pub value_of : Option Str → Result Str
value_of none = err Error.other
value_of (some value) = ok value

-- One character that is not part of a placeholder.
abbrev pub text_char : ℕ → Str × Reading
text_char c = if c == b'$' then ([], Reading.after_dollar) else (c ∷ [], Reading.text)

-- What one character adds to the document, and what is read after it.
unfoldable pub read_char : Dict Str → Reading → ℕ → Result (Str × Reading)
read_char values Reading.text c = ok (text_char c)
read_char values Reading.after_dollar c =
    if c == b'$'
    then ok (c ∷ [], Reading.text)
    else if c == b'{'
    then ok ([], Reading.after_brace)
    else if is_name_start c
    then ok ([], Reading.named (c ∷ []))
    else err Error.value_error
read_char values Reading.after_brace c =
    if is_name_start c then ok ([], Reading.braced (c ∷ [])) else err Error.value_error
read_char values (Reading.named read) c =
    if is_name_rest c
    then ok ([], Reading.named (read ++ (c ∷ [])))
    else (value_of (lookup read values) >>= λ value. ok (value ++ (text_char c).0, (text_char c).1))
read_char values (Reading.braced read) c =
    if is_name_rest c
    then ok ([], Reading.braced (read ++ (c ∷ [])))
    else if c == b'}'
    then (value_of (lookup read values) >>= λ value. ok (value, Reading.text))
    else err Error.value_error

unfoldable pub read_end : Dict Str → Reading → Result Str
read_end values Reading.text = ok []
read_end values (Reading.named read) = value_of (lookup read values)
read_end values _ = err Error.value_error

unfoldable pub substitute_from : Dict Str → Reading → Str → Result Str
unfolding read_char read_end
substitute_from values reading [] = read_end values reading
substitute_from values reading (c ∷ cs) = do
  next ← read_char values reading c
  rest ← substitute_from values next.1 cs
  ok (next.0 ++ rest)

-- `Template(template).substitute(values)`
unfoldable pub substitute : Dict Str → Str → Result Str
unfolding substitute_from
substitute values template = substitute_from values Reading.text template

-- `_render`
unfoldable pub render_template : Pack → Str → Str → Dict Str → Result Str
unfolding read_template substitute
render_template pack version name values = do
  template ← read_template pack version name
  substitute values template
