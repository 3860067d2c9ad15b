-- ===== src/Orchestration/Sweeper/Passes.antt =====
-- The passes of a tick: each returns, and does to the tables only what a tick may.
use growtrics_challenge.Common.{
  ℕ, ◌≡◌, refl, sym, ap, ◌∙◌, subst, Bool, true, false, some, List, [], ◌∷◌, All-map, Bool-cases,
  Option-cases, inl, inr, arith,
}
use growtrics_challenge.Common.Text.{Str}
use growtrics_challenge.Common.Dict.{lookup, Entries-lookup}
use growtrics_challenge.Domain.Enums.{JobStatus, status_eq, is_terminal}
use growtrics_challenge.Domain.Ids.{Uuid}
use growtrics_challenge.Domain.Records.{ClaimedWorkItem}
use growtrics_challenge.Effects.{Result, ok, err}
use growtrics_challenge.Effects.Exec.{◌>>=◌}
use growtrics_challenge.Effects.Triples.{Ends, Post, >>=-Ends}
use growtrics_challenge.Storage.State.{World, Action, now}
use growtrics_challenge.Storage.Jobs.{untouched, list_untouched_since}
use growtrics_challenge.Storage.Jobs.Untouched.{IsJobTable, untouched-All, untouched-StrictSorted}
use growtrics_challenge.Storage.Queue.{reclaim, discard}
use growtrics_challenge.Storage.Queue.Exhausted.{reclaim_loop-IsReclaimed}
use growtrics_challenge.Storage.Queue.Lapse.{reclaim-swept}
use growtrics_challenge.Orchestration.Sweeper.{
  give_up_on, give_up_on_found, drop_unless, fail_each, fail_item, fail_items,
}
use growtrics_challenge.Orchestration.Sweeper.Batch.{fail_each-All, gives_up}
use growtrics_challenge.Orchestration.Sweeper.Pending.{AreWaiting-StrictSorted}
use growtrics_challenge.Orchestration.Sweeper.Swept.{
  Sweeps, Sweeps-trans, discard-Sweeps, give_up_on-Sweeps, fail_each-Sweeps,
}

module _ (u : Uuid) where
  -- The action returns, and does to the tables only what a tick may.
  abbrev pub Passes : {A : Type 0} → World → Action A → World → Type 0
  Passes w m v = Ends (λ _ after. Sweeps u w after) (λ _ _. ⊥) m v

  passes :
      {A : Type 0} (w v : World) (m : Action A) (a : A)
      → (m v).0 ≡ ok a
      → Sweeps u w (m v).1
      → Passes w m v
  passes w v m a e h = rw e h

  pub returned :
      {A : Type 0} (w v : World) (m : Action A)
      → Passes w m v
      → (a : A) × ((m v).0 ≡ ok a) × Sweeps u w (m v).1
  returned {A} w v m h = go (m v).0 refl h
    where
      go :
          (r : Result A)
          → (m v).0 ≡ r
          → Post (λ _ after. Sweeps u w after) (λ _ _. ⊥) r (m v).1
          → (a : A) × ((m v).0 ≡ ok a) × Sweeps u w (m v).1
      go (ok a) e h = (a, e, h)
      go (err x) e h = absurd h

  pub then_passes :
      {A B : Type 0} (w v : World) (m : Action A) (f : A → Action B)
      → Passes w m v
      → ((a : A) (t : World) → Sweeps u w t → Passes w (f a) t)
      → Passes w (m >>= f) v
  then_passes w v m f =
      >>=-Ends (λ _ after. Sweeps u w after) (λ _ after. Sweeps u w after) (λ _ _. ⊥) m f v

  pub now_passes : (w v : World) → Sweeps u w v → Passes w now v
  now_passes w v h = record {
    sweepable = record {
      jobs_table = h.sweepable.jobs_table;
      items_unique = h.sweepable.items_unique;
    };
    clock = h.clock;
    rows = h.rows;
    gone = h.gone;
  }

  -- The loop over what a query of unfinished jobs found.
  pub fail_each_passes :
      (status : JobStatus) (at cutoff limit failed : ℕ) (w v : World)
      → ((s : JobStatus) → status_eq s status ≡ true → is_terminal s ≡ false)
      → Sweeps u w v
      → Passes w (list_untouched_since status cutoff limit >>= (λ l. fail_each u l at failed)) v
  unfolding list_untouched_since untouched
  fail_each_passes status at cutoff limit failed w v unfinished h =
      let table = h.sweepable.jobs_table in
      let l = untouched v status cutoff limit in
      let waiting =
        AreWaiting-StrictSorted u at v l
          (All-map (λ j late. (late.0, unfinished j.status (ground arith))) l
            (untouched-All v table status cutoff limit))
          (untouched-StrictSorted v table status cutoff limit) in
      passes w v (fail_each u l at failed) _ (fail_each-All u at l v failed waiting).0
        (Sweeps-trans u w v _ h (fail_each-Sweeps u at l v failed h.sweepable waiting))

  found_passes :
      (id : Str) (at : ℕ) (w v : World)
      → Sweeps u w v
      → Passes w (give_up_on_found u (lookup id v.jobs) at) v
  unfolding give_up_on_found give_up_on
  found_passes id at w v h = elim (Option-cases (lookup id v.jobs)) [
    | inl missing ↦ rw missing h
    | inr (job, found) ↦ elim (Bool-cases (is_terminal job.status)) [
      | inl over ↦ rw (found, over) h
      | inr live ↦
          let same = Entries-lookup _ id v.jobs h.sweepable.jobs_table.keyed found in
          let row : lookup job.job_id v.jobs ≡ some job =
            ap (λ z. lookup z v.jobs) (sym same) ∙ found in
          rw found (
            passes w v (give_up_on u job at) true (gives_up u at job v row live).0
              (Sweeps-trans u w v _ h (give_up_on-Sweeps u job at v h.sweepable row live)))
    ]
  ]

  drop_passes :
      (gave_up : Bool) (i : Str) (w v : World) → Sweeps u w v → Passes w (drop_unless u gave_up i) v
  unfolding drop_unless discard
  drop_passes true i w v h = h
  drop_passes false i w v h = Sweeps-trans u w v _ h (discard-Sweeps u i v h.sweepable)

  pub fail_items_passes :
      (items : List ClaimedWorkItem) (at failed : ℕ) (w v : World)
      → Sweeps u w v
      → Passes w (fail_items u items at failed) v
  unfolding fail_items fail_item
  fail_items_passes [] at failed w v h = h
  fail_items_passes (item ∷ items) at failed w v h =
      then_passes w v (fail_item u item at) _
        (then_passes w v (give_up_on_found u (lookup item.job_id v.jobs) at) _
          (found_passes item.job_id at w v h)
          (λ gave_up t first.
            then_passes w t (drop_unless u gave_up item.item_id) _
              (drop_passes gave_up item.item_id w t first) (λ _ _ second. second)))
        (λ gave_up t first. fail_items_passes items at _ w t first)

  pub reclaim_passes :
      (at max_claims : ℕ) (w v : World) → Sweeps u w v → Passes w (reclaim at max_claims) v
  unfolding reclaim
  reclaim_passes at max_claims w v h =
      let unique = h.sweepable.items_unique in
      let image = reclaim_loop-IsReclaimed v.work_items at max_claims 0 v unique in
      let after = (reclaim at max_claims v).1 in
      passes w v (reclaim at max_claims) image.result.0 image.result.1 (
        Sweeps-trans u w v after h (record {
          sweepable = record {
            jobs_table = subst IsJobTable (sym image.jobs_stay) h.sweepable.jobs_table;
            items_unique = image.items_unique;
          };
          clock = image.clock_stays;
          rows = λ k job there. inl (ap (lookup k) image.jobs_stay ∙ there);
          gone = λ i missing.
              unfold reclaim in reclaim-swept at max_claims v i unique ∙ rw missing refl;
        }))
