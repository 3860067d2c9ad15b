-- ===== src/Api/Limits/Capped.antt =====
-- Every application behind the cap.
use growtrics_challenge.Common.{
  ℕ, suc, ◌+◌, ◌≤◌, ◌<◌, ◌≡◌, ◌≢◌, ◌⊎◌, inl, inr, refl, ap, ◌∙◌, true, false, Option, none, some,
  List, [], ◌∷◌, arith, All, Bool-cases,
}
use growtrics_challenge.Api.Limits.{
  Message, Reply, App, Event, Counting, body_length, run_plain, counts, is_dropped, run_counting,
}

abbrev pub handed : Option Message → ℕ
handed none = 0
handed (some m) = body_length m

-- The bytes of body that an application was handed.
abbrev pub bytes_of : List Event → ℕ
bytes_of [] = 0
bytes_of (Event.received got ∷ events) = handed got + bytes_of events
bytes_of (Event.sent reply ∷ events) = bytes_of events

abbrev pub replies : List Event → List Reply
replies [] = []
replies (Event.received got ∷ events) = replies events
replies (Event.sent reply ∷ events) = reply ∷ replies events

abbrev pub IsMessage : Reply → Type 0
IsMessage (Reply.message words) = Unit
IsMessage (Reply.refusal status body) = ⊥

module _ (max_bytes : ℕ) (incoming : ℕ → Message) where
  counts-bound :
      (m : Message) (s : Counting)
      → let (t, got) = counts max_bytes m s in
        (s.counted ≤ max_bytes
          → (handed got + s.counted ≡ t.counted) × (t.counted ≤ max_bytes)
            ⊎ (handed got ≡ 0) × (max_bytes < t.counted))
        × (max_bytes < s.counted → (handed got ≡ 0) × (max_bytes < t.counted))
  counts-bound (Message.request body) s = ground arith
  counts-bound (Message.other kind) s = ground arith

  pub run-bound :
      (app : App) (n : ℕ) (s : Counting)
      → let events = (run_counting max_bytes incoming app n s).0 in
        (s.counted ≤ max_bytes → bytes_of events + s.counted ≤ max_bytes)
        × (max_bytes < s.counted → bytes_of events ≡ 0)
  unfolding run_counting
  run-bound App.returned n s = ground arith
  run-bound App.too_large n s = ground arith
  run-bound App.failed n s = ground arith
  run-bound (App.receive next) n s =
      let (t, got) = counts max_bytes (incoming n) s in
      ground (arith, counts-bound (incoming n) s, run-bound (next got) (suc n) t)
  run-bound (App.send words rest) n s = elim (Bool-cases (is_dropped s)) [
    | inl e ↦ rw e (run-bound rest n s)
    | inr e ↦ rw e (run-bound rest n (record s { answered = true }))
  ]

  pub run-messages :
      (app : App) (n : ℕ) (s : Counting)
      → All IsMessage (replies (run_counting max_bytes incoming app n s).0)
  unfolding run_counting
  run-messages App.returned n s = tt
  run-messages App.too_large n s = tt
  run-messages App.failed n s = tt
  run-messages (App.receive next) n s =
      let (t, got) = counts max_bytes (incoming n) s in run-messages (next got) (suc n) t
  run-messages (App.send words rest) n s = elim (Bool-cases (is_dropped s)) [
    | inl e ↦ rw e (run-messages rest n s)
    | inr e ↦ rw e (tt, run-messages rest n (record s { answered = true }))
  ]

  -- Both flags stay up.
  counts-flags :
      (m : Message) (s : Counting)
      → let t = (counts max_bytes m s).0 in
        (s.exceeded ≡ true → t.exceeded ≡ true) × (t.answered ≡ s.answered)
  counts-flags (Message.request body) s = ground arith
  counts-flags (Message.other kind) s = ground arith

  run-flags :
      (app : App) (n : ℕ) (s : Counting)
      → let t = (run_counting max_bytes incoming app n s).1 in
        (s.exceeded ≡ true → t.exceeded ≡ true) × (s.answered ≡ true → t.answered ≡ true)
  unfolding run_counting
  run-flags App.returned n s = ground arith
  run-flags App.too_large n s = ground arith
  run-flags App.failed n s = ground arith
  run-flags (App.receive next) n s =
      let (t, got) = counts max_bytes (incoming n) s in
      ground (arith, counts-flags (incoming n) s, run-flags (next got) (suc n) t)
  run-flags (App.send words rest) n s = elim (Bool-cases (is_dropped s)) [
    | inl e ↦ rw e (run-flags rest n s)
    | inr e ↦ rw e (ground (arith, run-flags rest n (record s { answered = true })))
  ]

  pub run-answered :
      (app : App) (n : ℕ) (s : Counting)
      → s.answered ≡ false
      → let (events, t, end) = run_counting max_bytes incoming app n s in
        (t.answered ≡ false) × (replies events ≡ []) ⊎ (t.answered ≡ true) × (replies events ≢ [])
  unfolding run_counting
  run-answered App.returned n s h = inl (h, refl)
  run-answered App.too_large n s h = inl (h, refl)
  run-answered App.failed n s h = inl (h, refl)
  run-answered (App.receive next) n s h =
      let (t, got) = counts max_bytes (incoming n) s in
      run-answered (next got) (suc n) t ((counts-flags (incoming n) s).1 ∙ h)
  run-answered (App.send words rest) n s h = elim (Bool-cases (is_dropped s)) [
    | inl e ↦ rw e (run-answered rest n s h)
    | inr e ↦
        rw e (inr ((run-flags rest n (record s { answered = true })).1 refl, λ q. absurd (cc q)))
  ]

  -- Behind a cap that is not reached, an application runs as with nothing in front of it.
  counts_within :
      (m : Message) (s : Counting)
      → let (t, got) = counts max_bytes m s in
        (t.exceeded ≡ false → got ≡ some m)
        × (s.exceeded ≡ false
            → body_length m + s.counted ≤ max_bytes
            → (t.exceeded ≡ false) × (t.counted ≡ body_length m + s.counted))
  counts_within (Message.request body) s = ground arith
  counts_within (Message.other kind) s = ground arith

  was_within :
      (app : App) (n : ℕ) (s : Counting)
      → (run_counting max_bytes incoming app n s).1.exceeded ≡ false
      → s.exceeded ≡ false
  was_within app n s h = ground (arith, run-flags app n s)

  pub not_dropped : (s : Counting) → s.exceeded ≡ false → is_dropped s ≡ false
  not_dropped s h = rw h refl

  pub run-transparent :
      (app : App) (n : ℕ) (s : Counting)
      → let (events, t, end) = run_counting max_bytes incoming app n s in
        t.exceeded ≡ false → (events, end) ≡ run_plain incoming app n
  unfolding run_counting run_plain
  run-transparent App.returned n s h = refl
  run-transparent App.too_large n s h = refl
  run-transparent App.failed n s h = refl
  run-transparent (App.receive next) n s h =
      let (t, got) = counts max_bytes (incoming n) s in
      let same = (counts_within (incoming n) s).0 (was_within (next got) (suc n) t h) in
      ap (λ r. (Event.received got ∷ r.0, r.1)) (run-transparent (next got) (suc n) t h)
      ∙ ap
          (λ g. (
            Event.received g ∷ (run_plain incoming (next g) (suc n)).0,
            (run_plain incoming (next g) (suc n)).1,
          ))
          same
  run-transparent (App.send words rest) n s h =
      let calm = not_dropped s (was_within (App.send words rest) n s h) in
      rw calm (
        ap (λ r. (Event.sent (Reply.message words) ∷ r.0, r.1))
          (run-transparent rest n (record s { answered = true }) (rw calm at h)))

  pub run-fits :
      (app : App) (n : ℕ) (s : Counting)
      → s.exceeded ≡ false
      → bytes_of (run_plain incoming app n).0 + s.counted ≤ max_bytes
      → (run_counting max_bytes incoming app n s).1.exceeded ≡ false
  unfolding run_counting run_plain
  run-fits App.returned n s h fits = h
  run-fits App.too_large n s h fits = h
  run-fits App.failed n s h fits = h
  run-fits (App.receive next) n s h fits =
      let (t, got) = counts max_bytes (incoming n) s in
      let (same, within) = counts_within (incoming n) s in
      let (still, more) = within h (omega (arith, fits)) in
      let e = ap (λ g. bytes_of (run_plain incoming (next g) (suc n)).0) (same still) in
      run-fits (next got) (suc n) t still (omega (arith, e, more, fits))
  run-fits (App.send words rest) n s h fits =
      rw (not_dropped s h) (run-fits rest n (record s { answered = true }) h fits)
