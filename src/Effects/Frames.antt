-- ===== src/Effects/Frames.antt =====
-- Actions that leave a part of the state as it was, however they end.
use growtrics_challenge.Common.{◌≡◌, refl, ◌∙◌}
use growtrics_challenge.Effects.Outcome.{Result, ok, err}
use growtrics_challenge.Effects.Exec.{Exec, continue, lift, ◌>>=◌}

module _ {S V : Type 0} (view : S → V) where
  abbrev pub Keeps : {A : Type 0} → Exec S A → Type 0
  Keeps m = (s : S) → view (m s).1 ≡ view s

  pub lift-Keeps : {A : Type 0} (r : Result A) → Keeps (lift r)
  lift-Keeps r s = refl

  continue-view :
      {A B : Type 0} (r : Result A) (s : S) (f : A → Exec S B)
      → ((a : A) → Keeps (f a))
      → view (continue r f s).1 ≡ view s
  continue-view (ok a) s f k = k a s
  continue-view (err e) s f k = refl

  pub >>=-Keeps :
      {A B : Type 0} (m : Exec S A) (f : A → Exec S B)
      → Keeps m
      → ((a : A) → Keeps (f a))
      → Keeps (m >>= f)
  >>=-Keeps m f h k s = continue-view (m s).0 (m s).1 f k ∙ h s

  -- A pure call first.
  pub lift_then-Keeps :
      {A B : Type 0} (r : Result A) (f : A → Exec S B)
      → ((a : A) → Keeps (f a))
      → Keeps (lift r >>= f)
  lift_then-Keeps r f k = >>=-Keeps (lift r) f (lift-Keeps r) k
