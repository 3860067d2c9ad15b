-- ===== src/Storage/Queue/Exhausted.antt =====
-- `MemoryWorkQueue.exhausted` and `reclaim`: they return, and leave the jobs alone.
use growtrics_challenge.Common.{
  ℕ, ◌+◌, ◌≡◌, refl, ap, true, false, List, [], ◌∷◌, All, Bool-cases, Option-cases, inl, inr, arith,
  ◌&&◌, leb, keep_if, In-of_keep_if, All_of,
}
use growtrics_challenge.Common.Dict.{Dict, Unique, Unique-put, put, values}
use growtrics_challenge.Domain.Records.{ClaimedWorkItem}
use growtrics_challenge.Effects.{Result, ok}
use growtrics_challenge.Storage.State.{World, WorkItemRow, as_claimed}
use growtrics_challenge.Storage.Queue.{
  lapsed, reclaim_loop, is_skipped, hand_back, set_items, claims_of, exhausted, exhausted_rows,
  work_key,
}
use growtrics_challenge.Storage.Queue.Claim.{claim_of}
use growtrics_challenge.Common.Order.{key_order}
use growtrics_challenge.Common.Sort.{All-sort_by}

-- A row whose lease has lapsed has the owner and the end that `as_claimed` asserts.
as_claimed-lapsed :
    (row : WorkItemRow) (at : ℕ)
    → lapsed row at ≡ true
    → (item : ClaimedWorkItem) × (as_claimed row ≡ ok item)
unfolding lapsed as_claimed
as_claimed-lapsed row at late = elim (Option-cases row.claimed_by) [
  | inl free ↦ let never : false ≡ true = rw free at late in absurd (cc never)
  | inr (owner, held) ↦ elim (Option-cases row.claimed_until) [
    | inl endless ↦ let never : false ≡ true = rw (held, endless) at late in absurd (cc never)
    | inr (until, ends) ↦ (claim_of row owner until, rw (held, ends) refl)
  ]
]

claims_of-lapsed :
    (rows : List WorkItemRow) (at : ℕ)
    → All (λ row. lapsed row at ≡ true) rows
    → (items : List ClaimedWorkItem) × (claims_of rows ≡ ok items)
unfolding claims_of
claims_of-lapsed [] at late = ([], refl)
claims_of-lapsed (row ∷ rows) at late =
    let (item, one) = as_claimed-lapsed row at late.0 in
    let (items, rest) = claims_of-lapsed rows at late.1 in (item ∷ items, rw (one, rest) refl)

-- `exhausted` returns, and changes nothing.
pub exhausted_returns :
    (w : World) (at max_claims : ℕ)
    → (items : List ClaimedWorkItem) × (exhausted at max_claims w ≡ (ok items, w))
unfolding exhausted exhausted_rows
exhausted_returns w at max_claims =
    let p = λ (row : WorkItemRow). lapsed row at && leb max_claims row.claim_count in
    let (items, e) = claims_of-lapsed (exhausted_rows w at max_claims) at (
      All-sort_by key_order work_key _ (keep_if p (values w.work_items)) (
        All_of _ (keep_if p (values w.work_items))
          (λ row i. let late = (In-of_keep_if p (values w.work_items) row i).1 in ground arith))) in
    (items, ap (λ r. (r, w)) e)

-- What a loop of `reclaim` ends with, beside the rows of the queue.
pub record IsReclaimed (w : World) (end : Result ℕ × World) : Type 0 where
  pub result : (n : ℕ) × (end.0 ≡ ok n)
  pub jobs_stay : end.1.jobs ≡ w.jobs
  pub clock_stays : end.1.time ≡ w.time
  pub items_unique : Unique end.1.work_items

pub reclaim_loop-IsReclaimed :
    (rows : Dict WorkItemRow) (at max_claims n : ℕ) (w : World)
    → Unique w.work_items
    → IsReclaimed w (reclaim_loop rows at max_claims n w)
unfolding reclaim_loop
reclaim_loop-IsReclaimed [] at max_claims n w h = record {
  result = (n, refl);
  jobs_stay = refl;
  clock_stays = refl;
  items_unique = h;
}
reclaim_loop-IsReclaimed ((id, row) ∷ rows) at max_claims n w h =
    elim (Bool-cases (is_skipped row at max_claims)) [
      | inl e ↦ rw e (reclaim_loop-IsReclaimed rows at max_claims n w h)
      | inr e ↦
          let v = set_items (put id (hand_back row) w.work_items) w in
          let rest =
            reclaim_loop-IsReclaimed rows at max_claims (n + 1) v
              (Unique-put id (hand_back row) w.work_items h) in
          rw e (record {
            result = rest.result;
            jobs_stay = rest.jobs_stay;
            clock_stays = rest.clock_stays;
            items_unique = rest.items_unique;
          })
    ]
