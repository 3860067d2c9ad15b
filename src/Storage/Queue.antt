-- ===== src/Storage/Queue.antt =====
-- src/app/storage/memory/queue.py: `MemoryWorkQueue` over `work_items`.
pub mod Claim
pub mod Lapse
pub mod Exhausted
pub mod Calls
pub mod Leases
use growtrics_challenge.Common.{
  ℕ, zero, suc, ◌+◌, Bool, true, false, ◌&&◌, ◌||◌, not, Option, none, some, List, [], ◌∷◌, keep_if,
  if◌then◌else◌, leb,
}
use growtrics_challenge.Common.Text.{Str}
use growtrics_challenge.Common.Order.{Key, key_order}
use growtrics_challenge.Common.Sort.{sort_by, min_by}
use growtrics_challenge.Common.Dict.{Dict, lookup, put, remove, values}
use growtrics_challenge.Domain.Records.{ClaimedWorkItem}
use growtrics_challenge.Effects.{Result, ok, err}
use growtrics_challenge.Effects.Exec.{pure, lift, ◌>>=◌, ◌>>◌}
use growtrics_challenge.Storage.State.{
  WorkItemRow, is_claimable, held_by, claimed, released, as_claimed, World, Action, now, seconds,
}

-- `policy.lease_expired`: inclusive at the deadline.
unfoldable pub lease_expired : ℕ → ℕ → Bool
lease_expired claimed_until at = leb claimed_until at

-- `policy.lease_deadline`
unfoldable pub lease_deadline : ℕ → ℕ → ℕ
lease_deadline at lease_seconds = at + seconds lease_seconds

abbrev pub work_key : WorkItemRow → Key
work_key row = (row.available_at, row.item_id)

abbrev pub set_items : Dict WorkItemRow → World → World
set_items items w = record w { database = record w.database { work_items = items } }

-- `self._database.work_items[row.item_id] = row`
abbrev pub store_row : WorkItemRow → Action (Unit {0})
store_row row w = (ok tt, set_items (put row.item_id row w.work_items) w)

abbrev pub claimable_rows : World → ℕ → List WorkItemRow
claimable_rows w at = keep_if (λ row. is_claimable row at) (values w.work_items)

take_row : WorkItemRow → Str → ℕ → Action (Option ClaimedWorkItem)
unfolding claimed as_claimed
take_row row owner until = do
  let held = claimed row owner until row.claim_count
  store_row held
  item ← lift (as_claimed held)
  pure (some item)

claim_from : List WorkItemRow → Str → ℕ → Action (Option ClaimedWorkItem)
unfolding take_row
claim_from [] owner until = pure none
claim_from (row ∷ rows) owner until = take_row (min_by key_order work_key row rows) owner until

unfoldable pub claim : Str → ℕ → Action (Option ClaimedWorkItem)
unfolding claim_from
claim owner lease_seconds = do
  at ← now
  rows ← (λ w. (ok (claimable_rows w at), w))
  claim_from rows owner (at + seconds lease_seconds)

-- The row under an id, while this owner holds it.
abbrev pub held_row : Option WorkItemRow → Str → Option WorkItemRow
held_row none owner = none
held_row (some row) owner = if held_by row owner then some row else none

abbrev pub our_row : Str → Str → World → Option WorkItemRow
our_row item_id owner w = held_row (lookup item_id w.work_items) owner

unfoldable pub renew : Option WorkItemRow → Str → Str → ℕ → Action (Option ClaimedWorkItem)
unfolding claimed as_claimed
renew none item_id owner lease_seconds = pure none
renew (some row) item_id owner lease_seconds = do
  at ← now
  let renewed = claimed row owner (at + seconds lease_seconds) row.claim_count
  (λ w. (ok tt, set_items (put item_id renewed w.work_items) w))
  item ← lift (as_claimed renewed)
  pure (some item)

unfoldable pub heartbeat : Str → Str → ℕ → Action (Option ClaimedWorkItem)
unfolding renew held_by
heartbeat item_id owner lease_seconds w =
    renew (our_row item_id owner w) item_id owner lease_seconds w

give_back : Option WorkItemRow → Str → Action (Unit {0})
unfolding released
give_back none item_id w = (ok tt, w)
give_back (some row) item_id w = (ok tt, set_items (put item_id (released row) w.work_items) w)

unfoldable pub release : Str → Str → Action (Unit {0})
unfolding give_back held_by
release item_id owner w = give_back (our_row item_id owner w) item_id w

unfoldable pub delete_held : Option WorkItemRow → Str → Action (Unit {0})
delete_held none item_id w = (ok tt, w)
delete_held (some row) item_id w = (ok tt, set_items (remove item_id w.work_items) w)

unfoldable pub complete : Str → Str → Action (Unit {0})
unfolding delete_held held_by
complete item_id owner w = delete_held (our_row item_id owner w) item_id w

abbrev pub until_passed : Option Str → Option ℕ → ℕ → Bool
until_passed none until at = false
until_passed (some owner) none at = false
until_passed (some owner) (some until) at = lease_expired until at

unfoldable pub lapsed : WorkItemRow → ℕ → Bool
unfolding lease_expired
lapsed row at = until_passed row.claimed_by row.claimed_until at

unfoldable pub hand_back : WorkItemRow → WorkItemRow
unfolding released
hand_back row = record (released row) { claim_count = row.claim_count + 1 }

-- What makes `reclaim` continue with the next row.
unfoldable pub is_skipped : WorkItemRow → ℕ → ℕ → Bool
unfolding lapsed
is_skipped row at max_claims = not (lapsed row at) || leb max_claims row.claim_count

-- The loop of `reclaim` over the rows as they were when it began.
unfoldable pub reclaim_loop : List (Str × WorkItemRow) → ℕ → ℕ → ℕ → Action ℕ
reclaim_loop [] at max_claims handed_back w = (ok handed_back, w)
reclaim_loop ((item_id, row) ∷ rows) at max_claims handed_back w =
    let skip = reclaim_loop rows at max_claims handed_back w in
    let next =
      reclaim_loop rows at max_claims (handed_back + 1)
        (set_items (put item_id (hand_back row) w.work_items) w) in
    if is_skipped row at max_claims then skip else next

unfoldable pub reclaim : ℕ → ℕ → Action ℕ
unfolding reclaim_loop is_skipped hand_back
reclaim at max_claims w = reclaim_loop w.work_items at max_claims 0 w

cons_claim : Result ClaimedWorkItem → Result (List ClaimedWorkItem) → Result (List ClaimedWorkItem)
cons_claim (ok item) (ok items) = ok (item ∷ items)
cons_claim (ok item) (err e) = err e
cons_claim (err e) rest = err e

-- `tuple(row.as_claimed() for row in rows)`
unfoldable pub claims_of : List WorkItemRow → Result (List ClaimedWorkItem)
unfolding cons_claim as_claimed
claims_of [] = ok []
claims_of (row ∷ rows) = cons_claim (as_claimed row) (claims_of rows)

unfoldable pub exhausted_rows : World → ℕ → ℕ → List WorkItemRow
unfolding lapsed
exhausted_rows w at max_claims =
    sort_by key_order work_key
      (keep_if (λ row. lapsed row at && leb max_claims row.claim_count) (values w.work_items))

unfoldable pub exhausted : ℕ → ℕ → Action (List ClaimedWorkItem)
unfolding exhausted_rows claims_of
exhausted at max_claims w = (claims_of (exhausted_rows w at max_claims), w)

abbrev is_there : Option WorkItemRow → Bool
is_there none = false
is_there (some row) = true

-- `pop(item_id, None) is not None`
unfoldable pub discard : Str → Action Bool
discard item_id w =
    (ok (is_there (lookup item_id w.work_items)), set_items (remove item_id w.work_items) w)
