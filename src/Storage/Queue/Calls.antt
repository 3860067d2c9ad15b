-- ===== src/Storage/Queue/Calls.antt =====
-- Sequences of calls of `MemoryWorkQueue`, and the invariant of its table.
use growtrics_challenge.Common.{
  ℕ, ◌+◌, ◌≤◌, ◌≡◌, refl, ◌∙◌, true, Option, some, List, [], ◌∷◌, All, Bool-cases, Option-cases,
  inl, inr, arith, All_in,
}
use growtrics_challenge.Common.Text.{Str}
use growtrics_challenge.Common.Dict.{
  Dict, lookup, put, remove, values, Entries, Entries-put, Entries-remove, Entries-lookup,
  Unique-put, Unique-remove, Entries-values,
}
use growtrics_challenge.Storage.State.{WorkItemRow, held_by, claimed, released, World}
use growtrics_challenge.Storage.Queue.{
  claim, heartbeat, release, complete, reclaim, reclaim_loop, discard, our_row, renew, give_back,
  delete_held, is_skipped, hand_back, set_items,
}
use growtrics_challenge.Storage.Queue.Claim.{IsTable, claim_oldest, ticked}

-- The calls that change the queue, by their arguments.
pub data Call : Type 0 where
  claim_call : Str → ℕ → Call
  heartbeat_call : Str → Str → ℕ → Call
  release_call : Str → Str → Call
  complete_call : Str → Str → Call
  reclaim_call : ℕ → ℕ → Call
  discard_call : Str → Call

-- The state after a call, whatever it returned.
unfoldable pub perform : Call → World → World
perform (claim_call owner lease) w = (claim owner lease w).1
perform (heartbeat_call item_id owner lease) w = (heartbeat item_id owner lease w).1
perform (release_call item_id owner) w = (release item_id owner w).1
perform (complete_call item_id owner) w = (complete item_id owner w).1
perform (reclaim_call at max_claims) w = (reclaim at max_claims w).1
perform (discard_call item_id) w = (discard item_id w).1

unfoldable pub perform_all : List Call → World → World
perform_all [] w = w
perform_all (c ∷ cs) w = perform_all cs (perform c w)

-- The invariant of the queue, for a limit on the `claim_count` of a row.
pub record IsQueue (limit : ℕ) (w : World) : Type 0 where
  pub table : IsTable w.work_items
  pub counted : Entries (λ k row. row.claim_count ≤ limit) w.work_items

-- A call whose limit, if it has one, is the given one.
abbrev pub Limits : ℕ → Call → Type 0
Limits limit (reclaim_call at max_claims) = max_claims ≤ limit
Limits limit _ = Unit

module _ (limit : ℕ) where
  put-IsQueue :
      (row : WorkItemRow) (w : World)
      → row.claim_count ≤ limit
      → IsQueue limit w
      → IsQueue limit (set_items (put row.item_id row w.work_items) w)
  put-IsQueue row w h q = record {
    table = record {
      keyed = Entries-put _ row.item_id row w.work_items refl q.table.keyed;
      unique = Unique-put row.item_id row w.work_items q.table.unique;
    };
    counted = Entries-put _ row.item_id row w.work_items h q.counted;
  }

  remove-IsQueue :
      (k : Str) (w : World) → IsQueue limit w → IsQueue limit (set_items (remove k w.work_items) w)
  remove-IsQueue k w q = record {
    table = record {
      keyed = Entries-remove _ k w.work_items q.table.keyed;
      unique = Unique-remove k w.work_items q.table.unique;
    };
    counted = Entries-remove _ k w.work_items q.counted;
  }

  ticked-IsQueue : (w : World) → IsQueue limit w → IsQueue limit (ticked w)
  ticked-IsQueue w q = record { table = q.table; counted = q.counted }

  -- Storing a changed row back under its id.
  put_under :
      (k : Str) (row : WorkItemRow) (w : World)
      → k ≡ row.item_id
      → row.claim_count ≤ limit
      → IsQueue limit w
      → IsQueue limit (set_items (put k row w.work_items) w)
  put_under k row w e h q = rw e (put-IsQueue row w h q)

  count_of_lookup :
      (k : Str) (w : World) {row : WorkItemRow}
      → IsQueue limit w
      → lookup k w.work_items ≡ some row
      → (k ≡ row.item_id) × (row.claim_count ≤ limit)
  count_of_lookup k w q e =
      (Entries-lookup _ k w.work_items q.table.keyed e, Entries-lookup _ k w.work_items q.counted e)

  claim-IsQueue :
      (owner : Str) (lease : ℕ) (w : World)
      → IsQueue limit w
      → IsQueue limit (claim owner lease w).1
  claim-IsQueue owner lease w q = elim (claim_oldest owner lease w) [
    | inl (_, e, _) ↦ rw e (ticked-IsQueue w q)
    | inr (row, takes, _) ↦
        let h : row.claim_count ≤ limit =
          All_in (λ r. r.claim_count ≤ limit) (values w.work_items) row
            (Entries-values _ w.work_items q.counted) takes.in_table in
        rw takes.result
          (unfold claimed in put_under row.item_id _ (ticked w) refl h (ticked-IsQueue w q))
  ]

  -- Our row, when the table has it and we hold it.
  pub our_row-some :
      (item_id owner : Str) (w : World) (row : WorkItemRow)
      → our_row item_id owner w ≡ some row
      → (lookup item_id w.work_items ≡ some row) × (held_by row owner ≡ true)
  our_row-some item_id owner w row e = elim (Option-cases (lookup item_id w.work_items)) [
    | inl n ↦ absurd (cc (rw n at e))
    | inr (r, s) ↦ elim (Bool-cases (held_by r owner)) [
      | inr b ↦ absurd (cc (rw (s, b) at e))
      | inl b ↦
          let p : ◌≡◌ {A = Option WorkItemRow} (some r) (some row) = rw (s, b) at e in
          let q : r ≡ row = cc p in (s ∙ p, rw (← q) b)
    ]
  ]

  heartbeat-IsQueue :
      (item_id owner : Str) (lease : ℕ) (w : World)
      → IsQueue limit w
      → IsQueue limit (heartbeat item_id owner lease w).1
  unfolding heartbeat renew
  heartbeat-IsQueue item_id owner lease w q = elim (Option-cases (our_row item_id owner w)) [
    | inl e ↦ rw e q
    | inr (row, e) ↦
        let (there, _) = our_row-some item_id owner w row e in
        let (id, h) = count_of_lookup item_id w q there in
        rw e (unfold claimed in put_under item_id _ (ticked w) id h (ticked-IsQueue w q))
  ]

  release-IsQueue :
      (item_id owner : Str) (w : World)
      → IsQueue limit w
      → IsQueue limit (release item_id owner w).1
  unfolding release give_back
  release-IsQueue item_id owner w q = elim (Option-cases (our_row item_id owner w)) [
    | inl e ↦ rw e q
    | inr (row, e) ↦
        let (there, _) = our_row-some item_id owner w row e in
        let (id, h) = count_of_lookup item_id w q there in
        rw e (unfold released in put_under item_id _ w id h q)
  ]

  complete-IsQueue :
      (item_id owner : Str) (w : World)
      → IsQueue limit w
      → IsQueue limit (complete item_id owner w).1
  unfolding complete delete_held
  complete-IsQueue item_id owner w q = elim (Option-cases (our_row item_id owner w)) [
    | inl e ↦ rw e q
    | inr (row, e) ↦ rw e (remove-IsQueue item_id w q)
  ]

  reclaim_loop-IsQueue :
      (rows : Dict WorkItemRow) (at max_claims n : ℕ) (w : World)
      → max_claims ≤ limit
      → Entries (λ k row. k ≡ row.item_id) rows
      → IsQueue limit w
      → IsQueue limit (reclaim_loop rows at max_claims n w).1
  unfolding reclaim_loop
  reclaim_loop-IsQueue [] at max_claims n w m h q = q
  reclaim_loop-IsQueue ((id, row) ∷ rows) at max_claims n w m h q =
      elim (Bool-cases (is_skipped row at max_claims)) [
        | inl e ↦ rw e (reclaim_loop-IsQueue rows at max_claims n w m h.1 q)
        | inr e ↦
            let fits : row.claim_count + 1 ≤ limit = unfold is_skipped in ground arith in
            rw e (
              reclaim_loop-IsQueue rows at max_claims (n + 1) _ m h.1
                (unfold hand_back released in put_under id (hand_back row) w h.0 fits q))
      ]

  -- Every call keeps the invariant of the queue.
  pub perform-IsQueue :
      (c : Call) (w : World) → Limits limit c → IsQueue limit w → IsQueue limit (perform c w)
  unfolding perform reclaim discard
  perform-IsQueue (claim_call owner lease) w l q = claim-IsQueue owner lease w q
  perform-IsQueue (heartbeat_call id owner lease) w l q = heartbeat-IsQueue id owner lease w q
  perform-IsQueue (release_call id owner) w l q = release-IsQueue id owner w q
  perform-IsQueue (complete_call id owner) w l q = complete-IsQueue id owner w q
  perform-IsQueue (reclaim_call at max_claims) w l q =
      reclaim_loop-IsQueue w.work_items at max_claims 0 w l q.table.keyed q
  perform-IsQueue (discard_call id) w l q = remove-IsQueue id w q

  -- From a well-formed queue whose rows have a `claim_count` of at most a limit, after any calls,
  -- no `max_claims` of a `reclaim` among them being over the limit: the table of work items holds
  -- each row under its own id, no id twice, and no row has a `claim_count` over the limit.
  pub perform_all-IsQueue :
      (cs : List Call) (w : World)
      → All (Limits limit) cs
      → IsQueue limit w
      → IsQueue limit (perform_all cs w)
  unfolding perform_all
  perform_all-IsQueue [] w l q = q
  perform_all-IsQueue (c ∷ cs) w l q =
      perform_all-IsQueue cs (perform c w) l.1 (perform-IsQueue c w l.0 q)
