-- ===== src/Effects/Triples.antt =====
-- What holds after an action, by the way it ended, with the rule for `>>=`.
use growtrics_challenge.Domain.Errors.{Error}
use growtrics_challenge.Common.{◌≡◌, refl, subst}
use growtrics_challenge.Effects.Outcome.{Result, ok, err}
use growtrics_challenge.Effects.Exec.{Exec, continue, lift, ◌>>=◌}

module _ {S A : Type 0} where
  -- `Q` of the value and the state after a return, `R` of the error and the state after a raise.
  abbrev pub Post : (A → S → Type 0) → (Error → S → Type 0) → Result A → S → Type 0
  Post Q R (ok a) s = Q a s
  Post Q R (err e) s = R e s

  abbrev pub Ends : (A → S → Type 0) → (Error → S → Type 0) → Exec S A → S → Type 0
  Ends Q R m s = Post Q R (m s).0 (m s).1

module _ {S A B : Type 0} (Q : A → S → Type 0) (Q' : B → S → Type 0) (R : Error → S → Type 0) where
  continue-Post :
      (r : Result A) (s : S) (f : A → Exec S B)
      → Post Q R r s
      → ((a : A) (t : S) → Q a t → Ends Q' R (f a) t)
      → Post Q' R (continue r f s).0 (continue r f s).1
  continue-Post (ok a) s f h k = k a s h
  continue-Post (err e) s f h k = h

  pub >>=-Ends :
      (m : Exec S A) (f : A → Exec S B) (s : S)
      → Ends Q R m s
      → ((a : A) (t : S) → Q a t → Ends Q' R (f a) t)
      → Ends Q' R (m >>= f) s
  >>=-Ends m f s h k = continue-Post (m s).0 (m s).1 f h k

module _ {S A : Type 0} (Q Q' : A → S → Type 0) (R R' : Error → S → Type 0) where
  pub Post-map :
      (r : Result A) (s : S)
      → Post Q R r s
      → ((a : A) → Q a s → Q' a s)
      → ((e : Error) → R e s → R' e s)
      → Post Q' R' r s
  Post-map (ok a) s h f g = f a h
  Post-map (err e) s h f g = g e h

module _ {S A : Type 0} (Q : A → S → Type 0) (R : Error → S → Type 0) where
  -- What holds of every end holds of a return.
  pub Post_ok : (r : Result A) (s : S) (a : A) → r ≡ ok a → Post Q R r s → Q a s
  Post_ok r s a e h = subst (λ (x : Result A). Post Q R x s) e h

module _ {S A B : Type 0} (Q : B → S → Type 0) (R : Error → S → Type 0) where
  -- A pure call first: its error ends the action where it stands.
  pub lift-Ends :
      (r : Result A) (f : A → Exec S B) (s : S)
      → ((e : Error) → R e s)
      → ((a : A) → r ≡ ok a → Ends Q R (f a) s)
      → Ends Q R (lift r >>= f) s
  lift-Ends (ok a) f s stop k = k a refl
  lift-Ends (err e) f s stop k = stop e

module _ {S A : Type 0} (P : S → Type 0) where
  -- What holds however the action ends holds of its last state.
  pub Post-always : (r : Result A) (s : S) → Post (λ _ t. P t) (λ _ t. P t) r s → P s
  Post-always (ok a) s h = h
  Post-always (err e) s h = h

  pub Post-every : (r : Result A) (s : S) → P s → Post (λ _ t. P t) (λ _ t. P t) r s
  Post-every (ok a) s h = h
  Post-every (err e) s h = h
