-- ===== src/Effects/Pure.antt =====
-- `do` for calls that touch no state.
use growtrics_challenge.Common.{◌≡◌, refl}
use growtrics_challenge.Effects.Outcome.{Result, ok, err}

infixl 5 ◌>>=◌ ◌>>◌
abbrev pub ◌>>=◌ {ℓ κ} : {A : Type ℓ} {B : Type κ} → Result A → (A → Result B) → Result B
err raised >>= next = err raised
ok value >>= next = next value

abbrev pub ◌>>◌ {κ} : {B : Type κ} → Result (Unit {0}) → Result B → Result B
call >> rest = call >>= λ _. rest

-- A chain that returned: its first call returned, and so did the rest.
pub returned {ℓ κ} :
    {A : Type ℓ} {B : Type κ} {value : B} (call : Result A) (next : A → Result B)
    → (call >>= next) ≡ ok value
    → (found : A) × (call ≡ ok found) × (next found ≡ ok value)
returned (err raised) next e = cc
returned (ok found) next e = (found, refl, e)
