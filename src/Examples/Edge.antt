-- ===== src/Examples/Edge.antt =====
-- A claimed name, and a refusal.
use growtrics_challenge.Common.{true, ◌≡◌, refl, some, [], ◌∷◌}
use growtrics_challenge.Common.Dict.{lookup}
use growtrics_challenge.Common.Split.{strip_prefix}
use growtrics_challenge.Common.Text.{codes, str_eq, decimal, digits_of}
use growtrics_challenge.Access.{resolve, normalise_principal_id, strip, strip_start, strip_end}
use growtrics_challenge.Access.Callers.{IsAdmitted, resolve-IsAdmitted}
use growtrics_challenge.Api.{
  ValidationError, details_from_validation_error, limit_in, http_status_for,
}
use growtrics_challenge.Domain.Errors.{ErrorCode}
use growtrics_challenge.Domain.Ids.{is_principal_id, matches_id, is_token_char, join_with}
use growtrics_challenge.Domain.Records.{Principal}
use growtrics_challenge.Effects.{ok}
use growtrics_challenge.Examples.Data.{empty}
use growtrics_challenge.Examples.Intake.{plain_unicode}

claimed_name :
    normalise_principal_id plain_unicode (some (codes " u_ann ")) (codes "u_demo") ≡ codes "u_ann"
unfolding normalise_principal_id strip strip_start strip_end is_principal_id matches_id
    is_token_char strip_prefix
claimed_name = refl

unusable_name :
    normalise_principal_id plain_unicode (some (codes "ann/../root")) (codes "u_demo")
    ≡ codes "u_demo"
unfolding normalise_principal_id strip strip_start strip_end is_principal_id matches_id
    is_token_char strip_prefix
unusable_name = refl

failed_generation : http_status_for ErrorCode.generation_failed ≡ 500
unfolding http_status_for
failed_generation = refl

overlong : ValidationError
overlong = record {
  loc = codes "body" ∷ codes "text" ∷ [];
  rule = codes "string_too_long";
  msg = codes "too long";
  ctx = some ((codes "max_length", codes "500") ∷ []);
}

refused :
    details_from_validation_error (overlong ∷ overlong ∷ [])
    ≡ (codes "field", codes "body.text")
      ∷ (codes "rule", codes "string_too_long")
      ∷ (codes "reason", codes "too long")
      ∷ (codes "limit", codes "500")
      ∷ (codes "error_count", codes "2")
      ∷ []
unfolding details_from_validation_error limit_in lookup str_eq join_with decimal digits_of overlong
refused = refl

default_fits : is_principal_id (codes "u_demo") ≡ true
unfolding is_principal_id matches_id is_token_char strip_prefix
default_fits = refl

resolve-IsAdmitted_example :
    (is_principal_id
        (normalise_principal_id plain_unicode (some (codes " u_ann ")) (codes "u_demo"))
      ≡ true)
    × ((p : Principal) × ((resolve plain_unicode (codes "u_demo") (some (codes " u_ann ")) empty).0
          ≡ ok p)
        × IsAdmitted
            (normalise_principal_id plain_unicode (some (codes " u_ann ")) (codes "u_demo"))
            empty
            p
            (resolve plain_unicode (codes "u_demo") (some (codes " u_ann ")) empty).1)
resolve-IsAdmitted_example =
    resolve-IsAdmitted plain_unicode (codes "u_demo") default_fits (some (codes " u_ann ")) empty
