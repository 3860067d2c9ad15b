-- ===== src/Storage/Queue/Claim.antt =====
-- `MemoryWorkQueue.claim`: which row it hands out.
use growtrics_challenge.Common.{
  ℕ, ◌+◌, ◌≡◌, refl, true, false, none, some, List, [], ◌∷◌, All, In, In-of_keep_if, inl, inr, ◌⊎◌,
  ◌≢◌, ◌<◌, ◌≤◌, ◌*◌, All_of, All_in, In-keep_if, Bool-cases, Option-cases, subst, ap, leb, arith,
}
use growtrics_challenge.Common.Text.{Str}
use growtrics_challenge.Common.Order.{key_lt, key_order}
use growtrics_challenge.Common.Sort.{min_by, min_by-In, min_by-least}
use growtrics_challenge.Common.Dict.{Dict, put, values, Unique, Entries}
use growtrics_challenge.Domain.Records.{ClaimedWorkItem}
use growtrics_challenge.Effects.{ok}
use growtrics_challenge.Storage.State.{
  WorkItemRow, is_claimable, claimed, as_claimed, World, seconds,
}
use growtrics_challenge.Storage.Queue.{
  claim, claim_from, take_row, claimable_rows, set_items, work_key,
}

-- The table of work items: each row under its own id, no id twice.
pub record IsTable (items : Dict WorkItemRow) : Type 0 where
  pub keyed : Entries (λ k row. k ≡ row.item_id) items
  pub unique : Unique items

-- The item that a claim hands out for a row.
abbrev pub claim_of : WorkItemRow → Str → ℕ → ClaimedWorkItem
claim_of row owner until = record {
  item_id = row.item_id;
  job_id = row.job_id;
  claimed_by = owner;
  claimed_until = until;
  claim_count = row.claim_count;
}

-- The state after one reading of the clock.
abbrev pub ticked : World → World
ticked w = record w { reads = w.reads + 1 }

module _ (owner : Str) (lease : ℕ) (w : World) where
  abbrev at : ℕ
  at = w.time w.reads

  abbrev until : ℕ
  until = at + seconds lease

  -- The oldest claimable row is taken: its position comes before every other one's, it is claimed
  -- for the owner until the end of the lease, and no other row changes.
  pub record Takes (row : WorkItemRow) : Type 0 where
    pub in_table : In row (values w.work_items)
    pub free : is_claimable row at ≡ true
    pub oldest : All (λ r. key_lt (work_key r) (work_key row) ≡ false) (claimable_rows w at)
    pub result : claim owner lease w ≡ (
      ok (some (claim_of row owner until)),
      set_items (put row.item_id (claimed row owner until row.claim_count) w.work_items) (ticked w),
    )

  claim_split :
      (rows : List WorkItemRow)
      → claimable_rows w at ≡ rows
      → ((rows ≡ []) × (claim owner lease w ≡ (ok none, ticked w)))
        ⊎ ((row : WorkItemRow) × Takes row)
  unfolding claim claim_from take_row claimed as_claimed
  claim_split [] e = inl (refl, rw e refl)
  claim_split (r ∷ rs) e =
      let row = min_by key_order work_key r rs in
      let chosen : In row (claimable_rows w at) =
        rw e (min_by-In key_order work_key r rs row refl) in
      let (there, free) = In-of_keep_if (λ x. is_claimable x at) (values w.work_items) row chosen in
      inr (
        row,
        record {
          in_table = there;
          free = free;
          oldest = rw e (min_by-least key_order work_key r rs row refl);
          result = rw e refl;
        },
      )

  -- A row that somebody holds, or whose turn has not come.
  abbrev pub IsBusy : WorkItemRow → Type 0
  IsBusy r = (r.claimed_by ≢ none) ⊎ (at < r.available_at)

  -- The row is free and its turn has come; every row is busy or does not come before it; and in the
  -- table it is held by the owner until the lease ends, its other columns as they were.
  pub record IsHandedOut (row : WorkItemRow) : Type 0 where
    pub unclaimed : row.claimed_by ≡ none
    pub due : row.available_at ≤ at
    pub first :
        All
          (λ r.
            IsBusy r ⊎ (key_lt (r.available_at, r.item_id) (row.available_at, row.item_id) ≡ false))
          (values w.work_items)
    pub stored :
        (claim owner lease w).1.work_items
        ≡ put row.item_id
            (record {
              item_id = row.item_id;
              job_id = row.job_id;
              available_at = row.available_at;
              created_at = row.created_at;
              claimed_by = some owner;
              claimed_until = some (w.time w.reads + lease * 1000000);
              claim_count = row.claim_count;
            })
            w.work_items

  IsBusy-unclaimable : (r : WorkItemRow) → is_claimable r at ≡ false → IsBusy r
  unfolding is_claimable
  IsBusy-unclaimable r e = elim (Option-cases r.claimed_by) [
    | inl free ↦ let late : leb r.available_at at ≡ false = rw free at e in inr (ground arith)
    | inr (holder, held) ↦ inl (λ free. cc (held, free))
  ]

  claimable_free :
      (r : WorkItemRow) → is_claimable r at ≡ true → (r.claimed_by ≡ none) × (r.available_at ≤ at)
  unfolding is_claimable
  claimable_free r e = elim (Option-cases r.claimed_by) [
    | inl free ↦ let ready : leb r.available_at at ≡ true = rw free at e in (free, ground arith)
    | inr (holder, held) ↦ let never : false ≡ true = rw held at e in absurd (cc never)
  ]

  IsBusy-all : claimable_rows w at ≡ [] → All IsBusy (values w.work_items)
  IsBusy-all e = All_of IsBusy (values w.work_items) (λ r i. elim (Bool-cases (is_claimable r at)) [
    | inr unable ↦ IsBusy-unclaimable r unable
    | inl able ↦
        let there = In-keep_if (λ x. is_claimable x at) (values w.work_items) r able i in
        absurd (subst (In r) e there)
  ])

  Takes-IsHandedOut : (row : WorkItemRow) → Takes row → IsHandedOut row
  unfolding claimed
  Takes-IsHandedOut row t =
      let (free, ready) = claimable_free row t.free in
      record {
        unclaimed = free;
        due = ready;
        first = All_of _ (values w.work_items) (λ r i. elim (Bool-cases (is_claimable r at)) [
          | inr unable ↦ inl (IsBusy-unclaimable r unable)
          | inl able ↦ inr (
              All_in _ (claimable_rows w at) r t.oldest
                (In-keep_if (λ x. is_claimable x at) (values w.work_items) r able i))
        ]);
        stored = ap (λ x. x.1.work_items) t.result;
      }

  -- Either every row is held or not yet due, and `claim` returns `None`, or it takes a free row
  -- that is due and that no other such row comes before, by the instant it is due and then by its
  -- id, holds it for the owner until the lease ends, and changes no other row.
  pub claim_oldest :
      ((claimable_rows w (w.time w.reads) ≡ [])
        × (claim owner lease w ≡ (ok none, ticked w))
        × All IsBusy (values w.work_items))
      ⊎ ((row : WorkItemRow) × Takes row × IsHandedOut row)
  claim_oldest = elim (claim_split (claimable_rows w at) refl) [
    | inl (free, e) ↦ inl (free, e, IsBusy-all free)
    | inr (row, t) ↦ inr (row, t, Takes-IsHandedOut row t)
  ]
