-- ===== src/Storage/Principals.antt =====
-- `MemoryPrincipalRepository` of src/app/storage/memory/access.py.
use growtrics_challenge.Common.{Option, none, some}
use growtrics_challenge.Common.Dict.{lookup, put}
use growtrics_challenge.Common.Text.{Str}
use growtrics_challenge.Domain.Records.{Principal}
use growtrics_challenge.Effects.{ok}
use growtrics_challenge.Effects.Exec.{pure, ◌>>=◌}
use growtrics_challenge.Storage.State.{Action, now}

abbrev pub insert_principal : Principal → Action Principal
insert_principal principal w = (
  ok principal,
  record w {
    database = record w.database { principals = put principal.principal_id principal w.principals };
  },
)

unfoldable pub upsert_at : Option Principal → Str → Str → Action Principal
upsert_at (some existing) principal_id external_id = pure existing
upsert_at none principal_id external_id = do
  at ← now
  insert_principal
      (record { principal_id = principal_id; external_id = external_id; created_at = at })

unfoldable pub upsert_principal : Str → Str → Action Principal
unfolding upsert_at
upsert_principal principal_id external_id w =
    upsert_at (lookup principal_id w.principals) principal_id external_id w
