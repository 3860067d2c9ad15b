-- ===== src/Storage/Jobs/Untouched.antt =====
-- `list_untouched_since`: which rows of the job table it lists.
use growtrics_challenge.Common.{
  ℕ, zero, suc, ◌≤◌, min, ◌≡◌, ◌≢◌, refl, ap, ◌∙◌, Bool, true, some, List, [], ◌∷◌, All, In,
  All-take, Bool-cases, inl, inr, arith, length, take, keep_if, count_if, In-of_keep_if, In-keep_if,
  All_of,
}
use growtrics_challenge.Common.Order.{key_order}
use growtrics_challenge.Common.Sort.{
  sort_by, StrictSorted, DistinctKeys, StrictSorted-sort_by, All-sort_by, length-sort_by,
  In-sort_by,
}
use growtrics_challenge.Common.Dict.{Dict, lookup, values, Unique, Entries, lookup_of_In}
use growtrics_challenge.Domain.Enums.{JobStatus}
use growtrics_challenge.Domain.Records.{JobRecord}
use growtrics_challenge.Storage.State.{World}
use growtrics_challenge.Storage.Jobs.{untouched, is_untouched, touched_key}

-- The job table: each row under its own id, no id twice.
pub record IsJobTable (jobs : Dict JobRecord) : Type 0 where
  pub keyed : Entries (λ k job. k ≡ job.job_id) jobs
  pub unique : Unique jobs

module _ {A : Type 0} where
  length-take : (n : ℕ) (xs : List A) → length (take n xs) ≡ min n (length xs)
  length-take zero xs = omega arith
  length-take (suc n) [] = omega arith
  length-take (suc n) (x ∷ xs) = omega (arith, length-take n xs)

  take_whole : (n : ℕ) (xs : List A) → length xs ≤ n → take n xs ≡ xs
  take_whole zero [] h = refl
  take_whole zero (x ∷ xs) h = absurd (omega arith)
  take_whole (suc n) [] h = refl
  take_whole (suc n) (x ∷ xs) h = ap (λ l. x ∷ l) (take_whole n xs (omega arith))

  length-keep_if : (p : A → Bool) (xs : List A) → length (keep_if p xs) ≡ count_if p xs
  length-keep_if p [] = refl
  length-keep_if p (x ∷ xs) = elim (Bool-cases (p x)) [
    | inl e ↦ rw e (ap suc (length-keep_if p xs))
    | inr e ↦ rw e (length-keep_if p xs)
  ]

StrictSorted-take :
    (n : ℕ) (l : List JobRecord)
    → StrictSorted key_order touched_key l
    → StrictSorted key_order touched_key (take n l)
StrictSorted-take zero l h = tt
StrictSorted-take (suc n) [] h = tt
StrictSorted-take (suc n) (j ∷ l) h = (All-take _ n l h.0, StrictSorted-take n l h.1)

-- The rows of a table that a test keeps have different keys, since they have different ids.
DistinctKeys-keep_values :
    (p : JobRecord → Bool) (d : Dict JobRecord)
    → Unique d
    → Entries (λ k job. k ≡ job.job_id) d
    → DistinctKeys key_order touched_key (keep_if p (values d))
DistinctKeys-keep_values p [] unique keyed = tt
DistinctKeys-keep_values p ((k, job) ∷ d) unique keyed =
    let rest = DistinctKeys-keep_values p d unique.1 keyed.1 in
    let apart : All (λ b. touched_key job ≢ touched_key b) (keep_if p (values d)) =
      All_of _ (keep_if p (values d)) (λ b i q.
        let found = lookup_of_In (λ j. j.job_id) d b unique.1 keyed.1 (In-of_keep_if p _ b i).0 in
        let same : k ≡ b.job_id = keyed.0 ∙ ap (λ x. x.1) q in
        cc (found, unique.0, ap (λ x. lookup x d) same)) in
    elim (Bool-cases (p job)) [ inl e ↦ rw e (apart, rest) | inr e ↦ rw e rest ]

module _ (w : World) (table : IsJobTable w.jobs) (status : JobStatus) (moment limit : ℕ) where
  abbrev is_late : JobRecord → Bool
  is_late = is_untouched status moment

  abbrev sorted : List JobRecord
  sorted = sort_by key_order touched_key (keep_if is_late (values w.jobs))

  length-sorted : length sorted ≡ count_if is_late (values w.jobs)
  length-sorted =
      length-sort_by key_order touched_key (keep_if is_late (values w.jobs))
      ∙ length-keep_if is_late (values w.jobs)

  -- Each job of the list is a row of the table, in the status and untouched.
  pub untouched-All :
      All
        (λ j. (lookup j.job_id w.jobs ≡ some j) × (is_late j ≡ true))
        (untouched w status moment limit)
  unfolding untouched
  untouched-All = All-take _ limit sorted (
      All-sort_by key_order touched_key _ (keep_if is_late (values w.jobs)) (
        All_of _ (keep_if is_late (values w.jobs)) (λ j i.
          let (there, late) = In-of_keep_if is_late (values w.jobs) j i in
          (lookup_of_In (λ x. x.job_id) w.jobs j table.unique table.keyed there, late))))

  -- The list is strictly ordered by the instant of the last write, then by the id.
  pub untouched-StrictSorted : StrictSorted key_order touched_key (untouched w status moment limit)
  unfolding untouched
  untouched-StrictSorted = StrictSorted-take limit sorted (
      StrictSorted-sort_by key_order touched_key (keep_if is_late (values w.jobs))
        (DistinctKeys-keep_values is_late w.jobs table.unique table.keyed))

  -- Its length: all such rows, or the limit.
  pub length-untouched :
      length (untouched w status moment limit) ≡ min limit (count_if is_late (values w.jobs))
  unfolding untouched
  length-untouched = length-take limit sorted ∙ ap (λ n. min limit n) length-sorted

  -- No such row is left out when there are at most the limit.
  pub In-untouched :
      (j : JobRecord)
      → In j (values w.jobs)
      → is_late j ≡ true
      → count_if is_late (values w.jobs) ≤ limit
      → In j (untouched w status moment limit)
  unfolding untouched
  In-untouched j there late few =
      rw (take_whole limit sorted (omega (arith, length-sorted)))
        (In-sort_by key_order touched_key j _ (In-keep_if is_late (values w.jobs) j late there))
