-- ===== src/Access/Callers.antt =====
-- The principals that a claimed name resolves to.
use growtrics_challenge.Common.{
  ◌≡◌, ◌≢◌, refl, sym, ◌∙◌, true, Option, none, some, Bool-cases, arith, inl, inr,
}
use growtrics_challenge.Common.Dict.{lookup, put, lookup-put, lookup-put_self}
use growtrics_challenge.Common.Text.{Str, str_eq_iff}
use growtrics_challenge.Access.{strip, normalise_principal_id, resolve}
use growtrics_challenge.Domain.Ids.{is_principal_id}
use growtrics_challenge.Domain.Records.{Principal}
use growtrics_challenge.Effects.{ok}
use growtrics_challenge.Intake.Sanitiser.{Unicode}
use growtrics_challenge.Storage.Principals.{upsert_principal, upsert_at}
use growtrics_challenge.Storage.State.{World}

-- The row that a call returned is the one that is under the id, where there was one before it is that
-- one, and the other rows stand.
pub record IsAdmitted (id : Str) (w : World) (p : Principal) (t : World) : Type 0 where
  pub under_id : lookup id t.principals ≡ some p
  pub first_seen : (q : Principal) → lookup id w.principals ≡ some q → q ≡ p
  pub others : (k : Str) → k ≢ id → lookup k t.principals ≡ lookup k w.principals
  pub again : upsert_principal id id t ≡ (ok p, t)

found_again :
    (id : Str) (p : Principal) (t : World)
    → lookup id t.principals ≡ some p
    → upsert_principal id id t ≡ (ok p, t)
unfolding upsert_principal upsert_at
found_again id p t e = rw e refl

lookup-put_other :
    (id k : Str) (p : Principal) (w : World)
    → k ≢ id
    → lookup k (put id p w.principals) ≡ lookup k w.principals
lookup-put_other id k p w d = ground (arith, lookup-put id k p w.principals, str_eq_iff id k)

upsert_admits :
    (id : Str) (w : World) (found : Option Principal)
    → lookup id w.principals ≡ found
    → (p : Principal) × ((upsert_at found id id w).0 ≡ ok p)
      × IsAdmitted id w p (upsert_at found id id w).1
unfolding upsert_at
upsert_admits id w (some p) e = (
  p,
  refl,
  record {
    under_id = e;
    first_seen = λ q h. (let x : ◌≡◌ {A = Option Principal} (some q) (some p) = sym h ∙ e in cc x);
    others = λ k d. refl;
    again = found_again id p w e;
  },
)
upsert_admits id w none e =
    let p : Principal = record {
      principal_id = id;
      external_id = id;
      created_at = w.time w.reads;
    } in
    (
      p,
      refl,
      record {
        under_id = lookup-put_self id p w.principals;
        first_seen = λ q h. (let x : ◌≡◌ {A = Option Principal} (some q) none = sym h ∙ e in cc x);
        others = λ k d. lookup-put_other id k p w d;
        again = found_again id p _ (lookup-put_self id p w.principals);
      },
    )

module _ (u : Unicode) (default_principal_id : Str)
    (valid : is_principal_id default_principal_id ≡ true) where
  normalise-IsValid :
      (claimed_id : Option Str)
      → is_principal_id (normalise_principal_id u claimed_id default_principal_id) ≡ true
  unfolding normalise_principal_id
  normalise-IsValid none = valid
  normalise-IsValid (some claimed) = elim (Bool-cases (is_principal_id (strip u claimed))) [
    | inl fits ↦ rw (fits, fits) refl
    | inr unfit ↦ rw (unfit, valid) refl
  ]

  -- With a default that is a principal id, whatever a caller claims: the id that the claim is read
  -- as is a principal id; `resolve` returns the row under that id, the one that was there before
  -- when there was one, and leaves the other rows as they were; resolving the id again in the
  -- table that it leaves returns the same row and changes nothing.
  pub resolve-IsAdmitted :
      (claimed_id : Option Str) (w : World)
      → (is_principal_id (normalise_principal_id u claimed_id default_principal_id) ≡ true)
        × ((p : Principal) × ((resolve u default_principal_id claimed_id w).0 ≡ ok p)
            × IsAdmitted
                (normalise_principal_id u claimed_id default_principal_id)
                w
                p
                (resolve u default_principal_id claimed_id w).1)
  unfolding resolve upsert_principal
  resolve-IsAdmitted claimed_id w = (
    normalise-IsValid claimed_id,
    upsert_admits (normalise_principal_id u claimed_id default_principal_id) w
        (lookup (normalise_principal_id u claimed_id default_principal_id) w.principals) refl,
  )
