-- ===== src/Storage/Queue/Lapse.antt =====
-- `MemoryWorkQueue.reclaim`: its loop, row by row.
use growtrics_challenge.Common.{
  ℕ, ◌+◌, ◌≡◌, refl, ◌∙◌, true, Option, none, some, [], ◌∷◌, if◌then◌else◌, arith, ◌≤◌, ◌<◌, ◌⊎◌,
  ◌↔◌, inl, inr, false, Bool-cases, not, leb, ◌||◌,
}
use growtrics_challenge.Common.Text.{Str, str_eq, str_eq_iff}
use growtrics_challenge.Common.Dict.{Dict, lookup, put, lookup-put, Unique}
use growtrics_challenge.Storage.State.{WorkItemRow, World, released}
use growtrics_challenge.Storage.Queue.{
  until_passed, lapsed, lease_expired, is_skipped, hand_back, reclaim_loop, reclaim, set_items,
}

module _ (at max_claims : ℕ) where
  -- What a row becomes: handed back if its claim has lapsed and its count is below the limit.
  abbrev pub swept : Option WorkItemRow → Option WorkItemRow
  swept none = none
  swept (some row) = some (if is_skipped row at max_claims then row else hand_back row)

  -- A row that the loop has still to visit decides what the table says under its id.
  abbrev put_over : Option WorkItemRow → Option WorkItemRow → Option WorkItemRow
  put_over none old = old
  put_over (some row) old = if is_skipped row at max_claims then old else some (hand_back row)

  reclaim_loop-lookup :
      (rows : Dict WorkItemRow) (n : ℕ) (w : World) (k : Str)
      → Unique rows
      → lookup k (reclaim_loop rows at max_claims n w).1.work_items
        ≡ put_over (lookup k rows) (lookup k w.work_items)
  unfolding reclaim_loop lookup
  reclaim_loop-lookup [] n w k u = refl
  reclaim_loop-lookup ((id, row) ∷ rows) n w k u =
      let w' = set_items (put id (hand_back row) w.work_items) w in
      let here : str_eq id k ≡ true → lookup k rows ≡ none =
        λ e. rw (← (str_eq_iff id k).0 e) u.0 in
      ground (
        arith,
        here,
        lookup-put id k (hand_back row) w.work_items,
        reclaim_loop-lookup rows n w k u.1,
        reclaim_loop-lookup rows (n + 1) w' k u.1,
      )

  put_over_self : (o : Option WorkItemRow) → put_over o o ≡ swept o
  put_over_self none = refl
  put_over_self (some row) = ground arith

  -- `swept` under every id, on a table with no id twice.
  pub reclaim-swept :
      (w : World) (k : Str)
      → Unique w.work_items
      → lookup k (reclaim at max_claims w).1.work_items ≡ swept (lookup k w.work_items)
  unfolding reclaim
  reclaim-swept w k u =
      reclaim_loop-lookup w.work_items 0 w k u ∙ put_over_self (lookup k w.work_items)

  -- A row whose claim ended at the instant or before it, and was not the last one it may lose.
  abbrev pub IsReclaimable : WorkItemRow → Type 0
  IsReclaimable row =
      ((owner : Str) × (row.claimed_by ≡ some owner))
      × ((until : ℕ) × (row.claimed_until ≡ some until) × (until ≤ at))
      × (row.claim_count < max_claims)

  -- The row that such a row becomes: free, in its place in the queue, with one more claim counted.
  abbrev pub handed_back : WorkItemRow → WorkItemRow
  handed_back row = record {
    item_id = row.item_id;
    job_id = row.job_id;
    available_at = row.available_at;
    created_at = row.created_at;
    claimed_by = none;
    claimed_until = none;
    claim_count = row.claim_count + 1;
  }

  -- What an id has afterwards, by what it had before.
  abbrev pub IsSwept : Option WorkItemRow → Option WorkItemRow → Type 0
  IsSwept none after = after ≡ none
  IsSwept (some row) after =
      (IsReclaimable row × (after ≡ some (handed_back row)))
      ⊎ (¬ (IsReclaimable row) × (after ≡ some row))

  -- The same of the three columns that the test of the loop reads.
  abbrev MayLapse : Option Str → Option ℕ → ℕ → Type 0
  MayLapse by ends count =
      ((owner : Str) × (by ≡ some owner))
      × ((until : ℕ) × (ends ≡ some until) × (until ≤ at))
      × (count < max_claims)

  columns_iff :
      (by : Option Str) (ends : Option ℕ) (count : ℕ)
      → ((not (until_passed by ends at) || leb max_claims count) ≡ false) ↔ MayLapse by ends count
  unfolding lease_expired
  columns_iff none ends count = (λ e. cc e, λ ((_, same), _, _). cc same)
  columns_iff (some owner) none count = (λ e. cc e, λ (_, (_, same, _), _). cc same)
  columns_iff (some owner) (some until) count = (
    λ e. ((owner, refl), (until, refl, ground arith), ground arith),
    λ ((_, _), (later, same, passed), below). ground arith,
  )

  is_skipped_iff : (row : WorkItemRow) → (is_skipped row at max_claims ≡ false) ↔ IsReclaimable row
  unfolding is_skipped lapsed
  is_skipped_iff row = columns_iff row.claimed_by row.claimed_until row.claim_count

  swept-IsSwept : (o : Option WorkItemRow) → IsSwept o (swept o)
  unfolding hand_back released
  swept-IsSwept none = refl
  swept-IsSwept (some row) = elim (Bool-cases (is_skipped row at max_claims)) [
    | inl e ↦ rw e (inr (λ r. cc (e, (is_skipped_iff row).1 r), refl))
    | inr e ↦ rw e (inl ((is_skipped_iff row).0 e, refl))
  ]

  -- `reclaim` on a table with no id twice: an id without a row has none afterwards; a row whose
  -- claim ended at the given instant or before it, and whose `claim_count` is below `max_claims`,
  -- is free afterwards, with a `claim_count` one higher and its other columns as they were; any
  -- other row is as it was.
  pub lookup-reclaim :
      (w : World) (k : Str)
      → Unique w.work_items
      → IsSwept (lookup k w.work_items) (lookup k (reclaim at max_claims w).1.work_items)
  lookup-reclaim w k u = rw (reclaim-swept w k u) (swept-IsSwept (lookup k w.work_items))
