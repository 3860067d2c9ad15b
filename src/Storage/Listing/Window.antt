-- ===== src/Storage/Listing/Window.antt =====
-- The window behind a page, and where the next page starts.
use growtrics_challenge.Common.{
  ℕ, zero, suc, ◌<◌, ◌≤◌, ◌≡◌, refl, ap, subst, Bool, true, false, Option, none, some, List, [],
  ◌∷◌, ◌++◌, length, take, drop, keep_if, if◌then◌else◌, ◌==◌, ==_iff, All, arith, Bool-cases, inl,
  inr,
}
use growtrics_challenge.Common.Order.{Key, key_lt, key_order, key_lt_irrefl, key_lt_trans, flip}
use growtrics_challenge.Common.Sort.{StrictSorted}
use growtrics_challenge.Domain.Records.{Cursor}
use growtrics_challenge.Storage.Listing.{get_last?, is_empty, cursor_at, cursor_of, next_of}

module _ {A : Type 0} (key : A → Key) where
  -- Each row is strictly newer than all the later ones.
  abbrev pub Newest : List A → Type 0
  Newest l = StrictSorted (flip key_order) key l

  abbrev pub older : Key → A → Bool
  older k row = key_lt (key row) k

  key_lt_asym : (a b : Key) → key_lt a b ≡ true → key_lt b a ≡ false
  key_lt_asym a b h = elim (Bool-cases (key_lt b a)) [
    | inl k ↦ cc (key_lt_trans a b a h k, key_lt_irrefl a)
    | inr k ↦ k
  ]

  keep_if-All : (p : A → Bool) (l : List A) → All (λ x. p x ≡ true) l → keep_if p l ≡ l
  keep_if-All p [] h = refl
  keep_if-All p (x ∷ l) h = rw (h.0, keep_if-All p l h.1) refl

  All-keep_if : (P : A → Type 0) (p : A → Bool) (l : List A) → All P l → All P (keep_if p l)
  All-keep_if P p [] h = tt
  All-keep_if P p (x ∷ l) h = elim (Bool-cases (p x)) [
    | inl e ↦ rw e (h.0, All-keep_if P p l h.1)
    | inr e ↦ rw e (All-keep_if P p l h.1)
  ]

  pub Newest-keep_if : (p : A → Bool) (l : List A) → Newest l → Newest (keep_if p l)
  Newest-keep_if p [] h = tt
  Newest-keep_if p (x ∷ l) h = elim (Bool-cases (p x)) [
    | inl e ↦ rw e (All-keep_if _ p l h.0, Newest-keep_if p l h.1)
    | inr e ↦ rw e (Newest-keep_if p l h.1)
  ]

  pub last-All :
      (P : A → Type 0) (n : ℕ) (l : List A) (r : A) → All P l → get_last? (take n l) ≡ some r → P r
  last-All P zero l r h e = cc
  last-All P (suc n) [] r h e = cc
  last-All P (suc zero) (x ∷ l) r h e = let q : x ≡ r = cc in rw (← q) h.0
  last-All P (suc (suc n)) (x ∷ []) r h e = let q : x ≡ r = cc in rw (← q) h.0
  last-All P (suc (suc n)) (x ∷ y ∷ l) r h e = last-All P (suc n) (y ∷ l) r h.1 e

  -- The rows older than the last one of a window are the rows after the window.
  pub older-drop :
      (n : ℕ) (l : List A) (r : A)
      → Newest l
      → get_last? (take n l) ≡ some r
      → keep_if (older (key r)) l ≡ drop n l
  older-drop zero l r s e = cc
  older-drop (suc n) [] r s e = cc
  older-drop (suc zero) (x ∷ l) r s e =
      let q : x ≡ r = cc in
      let first : key_lt (key x) (key r) ≡ false = rw q (key_lt_irrefl (key r)) in
      let rest : All (λ b. key_lt (key b) (key r) ≡ true) l =
        subst (λ (z : A). All (λ b. key_lt (key b) (key z) ≡ true) l) q s.0 in
      rw first (keep_if-All (older (key r)) l rest)
  older-drop (suc (suc n)) (x ∷ []) r s e =
      let q : x ≡ r = cc in rw (← q) (rw (key_lt_irrefl (key x)) refl)
  older-drop (suc (suc n)) (x ∷ y ∷ l) r s e =
      let lt : key_lt (key r) (key x) ≡ true = last-All _ (suc n) (y ∷ l) r s.0 e in
      rw (key_lt_asym _ _ lt) (older-drop (suc n) (y ∷ l) r s.1 e)

  -- Keeping what is older than a row that is itself older than `k` needs no second test.
  pub keep_if_twice :
      (k k' : Key) (l : List A)
      → key_lt k' k ≡ true
      → keep_if (older k') (keep_if (older k) l) ≡ keep_if (older k') l
  keep_if_twice k k' [] h = refl
  keep_if_twice k k' (x ∷ l) h = elim (Bool-cases (key_lt (key x) k)) [
    | inl e ↦ rw e (ap (λ t. if older k' x then x ∷ t else t) (keep_if_twice k k' l h))
    | inr e ↦
        let f : key_lt (key x) k' ≡ false = elim (Bool-cases (key_lt (key x) k')) [
          | inl g ↦ cc (key_lt_trans (key x) k' k g h)
          | inr g ↦ g
        ] in
        rw e (rw f (keep_if_twice k k' l h))
  ]

  take_all : (n : ℕ) (l : List A) → length l ≡ length (take n l) → take n l ≡ l
  take_all zero [] h = refl
  take_all zero (x ∷ l) h = absurd (omega arith)
  take_all (suc n) [] h = refl
  take_all (suc n) (x ∷ l) h = ap (λ t. x ∷ t) (take_all n l (omega arith))

  pub take-append-drop : (n : ℕ) (l : List A) → take n l ++ drop n l ≡ l
  take-append-drop zero l = refl
  take-append-drop (suc n) [] = refl
  take-append-drop (suc n) (x ∷ l) = ap (λ t. x ∷ t) (take-append-drop n l)

  pub length-drop-lt :
      (n : ℕ) (l : List A) (r : A) → get_last? (take n l) ≡ some r → length (drop n l) < length l
  length-drop-lt zero l r e = cc
  length-drop-lt (suc n) [] r e = cc
  length-drop-lt (suc n) (x ∷ l) r e = omega (arith, length-drop-le n l)
    where
      length-drop-le : (n : ℕ) (l : List A) → length (drop n l) ≤ length l
      length-drop-le zero l = omega arith
      length-drop-le (suc n) [] = omega arith
      length-drop-le (suc n) (x ∷ l) = omega (arith, length-drop-le n l)

  last_of_nonempty : (l : List A) → is_empty l ≡ false → (r : A) × (get_last? l ≡ some r)
  last_of_nonempty [] h = cc
  last_of_nonempty (x ∷ []) h = (x, refl)
  last_of_nonempty (x ∷ y ∷ l) h = last_of_nonempty (y ∷ l) refl

module _ {A : Type 0} (key : A → Key) where
  pub All-older : (p : A → Bool) (l : List A) → All (λ x. p x ≡ true) (keep_if p l)
  All-older p [] = tt
  All-older p (x ∷ l) = elim (Bool-cases (p x)) [
    | inl e ↦ rw e (e, All-older p l)
    | inr e ↦ rw e (All-older p l)
  ]

  empty-take : (n : ℕ) (l : List A) → 0 < n → is_empty (take n l) ≡ true → take n l ≡ l
  empty-take zero l h e = absurd (omega arith)
  empty-take (suc n) [] h e = refl
  empty-take (suc n) (x ∷ l) h e = cc

  -- Without a next cursor the window was the whole rest.
  pub next_of-none : (n : ℕ) (l : List A) → 0 < n → next_of key l (take n l) ≡ none → take n l ≡ l
  unfolding next_of
  next_of-none n l h e = elim (Bool-cases (is_empty (take n l))) [
    | inl empty ↦ empty-take n l h empty
    | inr full ↦ elim (Bool-cases (length l == length (take n l))) [
      | inl same ↦ take_all key n l ((==_iff _ _).0 same)
      | inr more ↦
          let (r, last) = last_of_nonempty key (take n l) full in
          let c : cursor_of key (get_last? (take n l)) ≡ none = rw (full, more) at e in
          let d : ◌≡◌ {A = Option Cursor} (some (cursor_at key r)) none = rw last at c in cc d
    ]
  ]

  -- The next cursor is the position of the window's last row.
  pub next_of-some :
      (n : ℕ) (l : List A) (c : Cursor)
      → next_of key l (take n l) ≡ some c
      → (r : A) × (get_last? (take n l) ≡ some r) × (c ≡ cursor_at key r)
  unfolding next_of
  next_of-some n l c e = elim (Bool-cases (is_empty (take n l))) [
    | inl empty ↦ absurd (cc (rw empty at e))
    | inr full ↦ elim (Bool-cases (length l == length (take n l))) [
      | inl same ↦ absurd (cc (rw (full, same) at e))
      | inr more ↦
          let (r, last) = last_of_nonempty key (take n l) full in
          let d : cursor_of key (get_last? (take n l)) ≡ some c = rw (full, more) at e in
          let f : ◌≡◌ {A = Option Cursor} (some (cursor_at key r)) (some c) = rw last at d in
          (r, last, cc f)
    ]
  ]
