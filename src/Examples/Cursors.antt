-- ===== src/Examples/Cursors.antt =====
-- A cursor under a simple stand-in for base64: four characters for each one of the payload.
use growtrics_challenge.Common.{
  ℕ, ◌+◌, ◌-◌, ◌%◌, ◌≡◌, ◌≢◌, refl, sym, ap, ◌∙◌, Option, none, some, [], ◌∷◌, All, length, arith,
}
use mathlib.Core.List.{append-nil}
use growtrics_challenge.Common.Text.{Str, codes}
use growtrics_challenge.Domain.Cursors.{
  Codec, encode_cursor, decode_cursor, strip_right, decode_cursor-encode_cursor,
}
use growtrics_challenge.Domain.Records.{Cursor}
use growtrics_challenge.Effects.{ok}

abbrev spread : Str → Str
spread [] = []
spread (c ∷ s) = (c + 100) ∷ 100 ∷ 100 ∷ 100 ∷ spread s

abbrev onto : ℕ → Option Str → Option Str
onto c none = none
onto c (some s) = some (c ∷ s)

abbrev gather : Str → Option Str
gather [] = some []
gather (a ∷ b ∷ c ∷ d ∷ s) = onto (a - 100) (gather s)
gather _ = none

gather-spread : (s : Str) → gather (spread s) ≡ some s
gather-spread [] = refl
gather-spread (c ∷ s) =
    let back : c + 100 - 100 ≡ c = omega arith in
    ap (onto (c + 100 - 100)) (gather-spread s) ∙ ap (λ x. some (x ∷ s)) back

spread-All : (s : Str) → All (λ c. c ≢ b'=') (spread s)
spread-All [] = tt
spread-All (c ∷ s) = (
  (λ e. omega arith),
  ((λ e. omega arith), ((λ e. omega arith), ((λ e. omega arith), spread-All s))),
)

length-spread : (s : Str) → (length (spread s) + 0) % 4 ≡ 0
length-spread [] = refl
length-spread (c ∷ s) = omega (arith, length-spread s)

abbrev first_of : Str → Option ℕ
first_of [] = none
first_of (c ∷ s) = some (c - 100)

abbrev codec : Codec
codec = record {
  isoformat = λ t. (t + 100) ∷ [];
  fromisoformat = first_of;
  b64encode = spread;
  b64decode = gather;
  fromisoformat-isoformat = λ t. ap (λ x. some x) (omega arith);
  isoformat_chars = λ t. ((λ e. omega arith), tt);
  b64decode-b64encode = gather-spread;
  b64encode_groups =
      λ s. (spread s, 0, sym (append-nil (spread s)), spread-All s, omega arith, length-spread s);
}

abbrev cursor : Cursor
cursor = record { created_at = 5; id = codes "job_a" }

decode_cursor-encode_cursor_example : decode_cursor codec (encode_cursor codec cursor) ≡ ok cursor
unfolding encode_cursor strip_right
decode_cursor-encode_cursor_example =
    decode_cursor-encode_cursor codec cursor refl refl (omega arith)
