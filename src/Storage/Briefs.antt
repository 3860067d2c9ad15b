-- ===== src/Storage/Briefs.antt =====
-- `MemoryBriefRepository` of src/app/storage/memory/briefs.py.
use growtrics_challenge.Common.{Option, none, some}
use growtrics_challenge.Common.Text.{Str}
use growtrics_challenge.Common.Dict.{lookup, put}
use growtrics_challenge.Domain.Errors.{Error}
use growtrics_challenge.Domain.Records.{BriefRecord}
use growtrics_challenge.Effects.{ok, err}
use growtrics_challenge.Storage.State.{Action}

unfoldable pub seal_at : Option BriefRecord → BriefRecord → Action BriefRecord
seal_at (some old) b w = (err Error.integrity, w)
seal_at none b w =
    (ok b, record w { database = record w.database { briefs = put b.brief_id b w.briefs } })

unfoldable pub insert_brief : BriefRecord → Action BriefRecord
unfolding seal_at
insert_brief b w = seal_at (lookup b.brief_id w.briefs) b w

unfoldable pub load_brief : Str → Action (Option BriefRecord)
load_brief brief_id w = (ok (lookup brief_id w.briefs), w)
