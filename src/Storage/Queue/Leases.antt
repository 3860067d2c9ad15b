-- ===== src/Storage/Queue/Leases.antt =====
-- Sequences of calls of `MemoryWorkQueue` by owners that do not hold a row.
use growtrics_challenge.Common.{
  ℕ, ◌<◌, ◌≡◌, ◌≢◌, refl, ap, sym, ◌∙◌, true, false, Option, some, List, [], ◌∷◌, All, Option-cases,
  inl, inr, arith,
}
use growtrics_challenge.Common.Text.{Str, str_eq, str_eq_iff, eq_of_str_eq}
use growtrics_challenge.Common.Dict.{
  Dict, lookup, put, remove, lookup-put, lookup-remove, Unique, lookup_of_In,
}
use growtrics_challenge.Storage.State.{WorkItemRow, is_claimable, held_by, World}
use growtrics_challenge.Storage.Queue.{
  claim, heartbeat, release, complete, reclaim, discard, our_row, renew, give_back, delete_held,
  lapsed, is_skipped,
}
use growtrics_challenge.Storage.Queue.Claim.{IsTable, claim_oldest}
use growtrics_challenge.Storage.Queue.Lapse.{reclaim-swept}
use growtrics_challenge.Storage.Queue.Calls.{
  Call, claim_call, heartbeat_call, release_call, complete_call, reclaim_call, discard_call,
  perform, perform_all, IsQueue, Limits, our_row-some, perform-IsQueue,
}

-- A call that may not touch the row that a holder has under an id until an instant.
abbrev pub LeavesAlone : Str → Str → ℕ → Call → Type 0
LeavesAlone k holder until (claim_call owner lease) = Unit
LeavesAlone k holder until (heartbeat_call item_id owner lease) = owner ≢ holder
LeavesAlone k holder until (release_call item_id owner) = owner ≢ holder
LeavesAlone k holder until (complete_call item_id owner) = owner ≢ holder
LeavesAlone k holder until (reclaim_call at max_claims) = at < until
LeavesAlone k holder until (discard_call item_id) = item_id ≢ k

module _ (k holder : Str) (until : ℕ) (row : WorkItemRow) (by : row.claimed_by ≡ some holder)
    (till : row.claimed_until ≡ some until) where
  abbrev Has : World → Type 0
  Has w = lookup k w.work_items ≡ some row

  -- Another owner's row is not under the id.
  not_ours :
      (item_id owner : Str) (w : World) (r : WorkItemRow)
      → owner ≢ holder
      → Has w
      → our_row item_id owner w ≡ some r
      → item_id ≢ k
  not_ours item_id owner w r ne h e same =
      let (there, held) = our_row-some 0 item_id owner w r e in
      let q : ◌≡◌ {A = Option WorkItemRow} (some r) (some row) =
        sym there ∙ ap (λ z. lookup z w.work_items) same ∙ h in
      let same_row : r ≡ row = cc q in
      let held' : str_eq holder owner ≡ true = unfold held_by in (rw (same_row, by) at held) in
      ne (sym (eq_of_str_eq holder owner held'))

  lookup-put_ne :
      (j : Str) (r : WorkItemRow) (items : Dict WorkItemRow)
      → j ≢ k
      → lookup k (put j r items) ≡ lookup k items
  lookup-put_ne j r items ne = ground (arith, lookup-put j k r items, str_eq_iff j k)

  lookup-remove_ne :
      (j : Str) (items : Dict WorkItemRow) → j ≢ k → lookup k (remove j items) ≡ lookup k items
  lookup-remove_ne j items ne = ground (arith, lookup-remove j k items, str_eq_iff j k)

  claim-Has :
      (owner : Str) (lease : ℕ) (w : World)
      → IsTable w.work_items
      → Has w
      → Has (claim owner lease w).1
  claim-Has owner lease w t h = elim (claim_oldest owner lease w) [
    | inl (_, e, _) ↦ rw e h
    | inr (r, takes, _) ↦
        let other : r.item_id ≢ k = λ same.
          let there : lookup k w.work_items ≡ some r =
            ap (λ z. lookup z w.work_items) (sym same)
            ∙ lookup_of_In (λ x. x.item_id) w.work_items r t.unique t.keyed takes.in_table in
          let q : ◌≡◌ {A = Option WorkItemRow} (some r) (some row) = sym there ∙ h in
          let same_row : r ≡ row = cc q in
          unfold is_claimable in (cc (rw (same_row, by) at takes.free)) in
        rw takes.result (lookup-put_ne r.item_id _ w.work_items other ∙ h)
  ]

  heartbeat-Has :
      (item_id owner : Str) (lease : ℕ) (w : World)
      → owner ≢ holder
      → Has w
      → Has (heartbeat item_id owner lease w).1
  unfolding heartbeat renew
  heartbeat-Has item_id owner lease w ne h = elim (Option-cases (our_row item_id owner w)) [
    | inl e ↦ rw e h
    | inr (r, e) ↦
        rw e (lookup-put_ne item_id _ w.work_items (not_ours item_id owner w r ne h e) ∙ h)
  ]

  release-Has :
      (item_id owner : Str) (w : World) → owner ≢ holder → Has w → Has (release item_id owner w).1
  unfolding release give_back
  release-Has item_id owner w ne h = elim (Option-cases (our_row item_id owner w)) [
    | inl e ↦ rw e h
    | inr (r, e) ↦
        rw e (lookup-put_ne item_id _ w.work_items (not_ours item_id owner w r ne h e) ∙ h)
  ]

  complete-Has :
      (item_id owner : Str) (w : World) → owner ≢ holder → Has w → Has (complete item_id owner w).1
  unfolding complete delete_held
  complete-Has item_id owner w ne h = elim (Option-cases (our_row item_id owner w)) [
    | inl e ↦ rw e h
    | inr (r, e) ↦
        rw e (lookup-remove_ne item_id w.work_items (not_ours item_id owner w r ne h e) ∙ h)
  ]

  reclaim-Has :
      (at max_claims : ℕ) (w : World)
      → Unique w.work_items
      → at < until
      → Has w
      → Has (reclaim at max_claims w).1
  reclaim-Has at max_claims w u lt h =
      let live : lapsed row at ≡ false = unfold lapsed in rw (by, till) (ground arith) in
      let kept : is_skipped row at max_claims ≡ true = unfold is_skipped in rw live refl in
      reclaim-swept at max_claims w k u ∙ rw h (rw kept refl)

  perform-Has :
      (c : Call) (w : World)
      → IsTable w.work_items
      → LeavesAlone k holder until c
      → Has w
      → Has (perform c w)
  unfolding perform discard
  perform-Has (claim_call owner lease) w t l h = claim-Has owner lease w t h
  perform-Has (heartbeat_call item_id owner lease) w t l h = heartbeat-Has item_id owner lease w l h
  perform-Has (release_call item_id owner) w t l h = release-Has item_id owner w l h
  perform-Has (complete_call item_id owner) w t l h = complete-Has item_id owner w l h
  perform-Has (reclaim_call at max_claims) w t l h = reclaim-Has at max_claims w t.unique l h
  perform-Has (discard_call item_id) w t l h = lookup-remove_ne item_id w.work_items l ∙ h

  -- Whatever calls the other owners make on a well-formed queue, in any number and order, with no
  -- `max_claims` over the limit of the queue, a row that its holder has claimed until an instant
  -- stays as it is, so long as each `reclaim` comes before that instant and no call discards the
  -- row.
  pub perform_all-held :
      (limit : ℕ) (cs : List Call) (w : World)
      → IsQueue limit w
      → All (Limits limit) cs
      → All (LeavesAlone k holder until) cs
      → lookup k w.work_items ≡ some row
      → lookup k (perform_all cs w).work_items ≡ some row
  unfolding perform_all
  perform_all-held limit [] w q m l h = h
  perform_all-held limit (c ∷ cs) w q m l h =
      perform_all-held limit cs (perform c w) (perform-IsQueue limit c w m.0 q) m.1 l.1
        (perform-Has c w q.table l.0 h)
