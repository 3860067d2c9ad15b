-- ===== src/Examples/Queue.antt =====
-- The queue with one row, free or held.
use growtrics_challenge.Common.{
  ◌≡◌, ◌≢◌, refl, ap, true, false, none, some, List, [], ◌∷◌, All, ◌⊎◌, arith,
}
use growtrics_challenge.Common.Text.{Str, codes, str_eq}
use growtrics_challenge.Common.Dict.{lookup, values}
use growtrics_challenge.Effects.{ok}
use growtrics_challenge.Storage.State.{WorkItemRow}
use growtrics_challenge.Storage.Queue.{claim, claimable_rows, reclaim}
use growtrics_challenge.Storage.Queue.Claim.{claim_oldest, Takes, IsBusy, IsHandedOut, ticked}
use growtrics_challenge.Storage.Queue.Lapse.{lookup-reclaim, IsSwept}
use growtrics_challenge.Storage.Queue.Calls.{
  Call, claim_call, heartbeat_call, complete_call, reclaim_call, perform_all, IsQueue,
  perform_all-IsQueue,
}
use growtrics_challenge.Storage.Queue.Leases.{perform_all-held}
use growtrics_challenge.Examples.Data.{item_id, owner, row, held, with_row}

abbrev rival : Str
rival = codes "worker-2"

claim_oldest_example :
    ((claimable_rows (with_row row) 100 ≡ [])
      × (claim owner 60 (with_row row) ≡ (ok none, ticked (with_row row)))
      × All (IsBusy owner 60 (with_row row)) (values (with_row row).work_items))
    ⊎ ((r : WorkItemRow) × Takes owner 60 (with_row row) r × IsHandedOut owner 60 (with_row row) r)
claim_oldest_example = claim_oldest owner 60 (with_row row)

lookup-reclaim_example :
    IsSwept 300 3
      (lookup item_id (with_row held).work_items)
      (lookup item_id (reclaim 300 3 (with_row held)).1.work_items)
unfolding lookup
lookup-reclaim_example = lookup-reclaim 300 3 (with_row held) item_id (refl, tt)

one_row : IsQueue 3 (with_row row)
unfolding lookup
one_row = record {
  table = record { keyed = (refl, tt); unique = (refl, tt) };
  counted = (omega arith, tt);
}

held_row : IsQueue 3 (with_row held)
unfolding lookup
held_row = record {
  table = record { keyed = (refl, tt); unique = (refl, tt) };
  counted = (omega arith, tt);
}

abbrev lapse_twice : List Call
lapse_twice = claim_call owner 0 ∷ reclaim_call 300 3 ∷ claim_call rival 0 ∷ reclaim_call 900 3 ∷ []

perform_all-IsQueue_example : IsQueue 3 (perform_all lapse_twice (with_row row))
perform_all-IsQueue_example =
    perform_all-IsQueue 3 lapse_twice (with_row row) (tt, (omega arith, (tt, (omega arith, tt))))
      one_row

abbrev rivals : List Call
rivals =
    heartbeat_call item_id rival 60
    ∷ claim_call rival 60
    ∷ complete_call item_id rival
    ∷ reclaim_call 299 3
    ∷ []

others : rival ≢ owner
unfolding str_eq
others e = let q : false ≡ true = ap (λ s. str_eq s owner) e in cc q

perform_all-held_example :
    lookup item_id (perform_all rivals (with_row held)).work_items ≡ some held
unfolding lookup str_eq
perform_all-held_example =
    perform_all-held item_id owner 300 held refl refl 3 rivals (with_row held) held_row
      (tt, (tt, (tt, (omega arith, tt)))) (others, (tt, (others, (omega arith, tt)))) refl
