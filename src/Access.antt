-- ===== src/Access.antt =====
-- src/app/access/stub.py: a caller is who it claims to be, or the default, and has a row.
pub mod Callers
use growtrics_challenge.Common.{ℕ, Option, none, some, [], ◌∷◌, false, if◌then◌else◌}
use growtrics_challenge.Common.Text.{Str}
use growtrics_challenge.Domain.Ids.{is_principal_id}
use growtrics_challenge.Domain.Records.{Principal, AccessScope}
use growtrics_challenge.Intake.Sanitiser.{Unicode}
use growtrics_challenge.Storage.Principals.{upsert_principal}
use growtrics_challenge.Storage.State.{Action}

module _ (u : Unicode) where
  unfoldable pub strip_start : Str → Str
  strip_start [] = []
  strip_start (c ∷ cs) = let rest = strip_start cs in if u.is_space c then rest else c ∷ cs

  -- A character, unless it is a space with nothing after it.
  abbrev pub put_before : ℕ → Str → Str
  put_before c [] = if u.is_space c then [] else c ∷ []
  put_before c (d ∷ ds) = c ∷ d ∷ ds

  unfoldable pub strip_end : Str → Str
  strip_end [] = []
  strip_end (c ∷ cs) = put_before c (strip_end cs)

  -- `claimed.strip()`
  unfoldable pub strip : Str → Str
  unfolding strip_start strip_end
  strip text = strip_end (strip_start text)

  unfoldable pub normalise_principal_id : Option Str → Str → Str
  unfolding strip
  normalise_principal_id none fallback = fallback
  normalise_principal_id (some claimed) fallback =
      if is_principal_id (strip claimed) then strip claimed else fallback

  -- `DemoPrincipalResolver.resolve`
  unfoldable pub resolve : Str → Option Str → Action Principal
  unfolding normalise_principal_id
  resolve default_principal_id claimed_id =
      let principal_id = normalise_principal_id claimed_id default_principal_id in
      upsert_principal principal_id principal_id

-- `scope_for`
abbrev pub scope_for : Principal → AccessScope
scope_for principal = record { principal_id = principal.principal_id; ownership_enforced = false }
