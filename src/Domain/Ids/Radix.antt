-- ===== src/Domain/Ids/Radix.antt =====
-- Numbers and their big-endian digits in a base.
use growtrics_challenge.Common.{
  ℕ, zero, suc, ◌+◌, ◌*◌, ◌/◌, ◌%◌, ◌^◌, ◌<◌, ◌≡◌, refl, List, [], ◌∷◌, ◌++◌, length, All, arith,
  ap, ◌∙◌,
}
use native.Mathlib.Nat.{
  pow-suc, pow-zero, div-lt_iff_lt-mul, div-add-mod', mul-add-div_right, div-eq_of_lt,
  mul-add-mod_self_right, mod-eq_of_lt, mod-lt,
}

module _ (b : ℕ) where
  -- The value of digits after a value read so far.
  unfoldable pub undigits : ℕ → List ℕ → ℕ
  undigits value [] = value
  undigits value (d ∷ ds) = undigits (value * b + d) ds

  -- `n` digits of a value, in front of those written so far.
  unfoldable pub digits : ℕ → ℕ → List ℕ → List ℕ
  digits zero value out = out
  digits (suc n) value out = digits n (value / b) ((value % b) ∷ out)

pub length-digits : (b n value : ℕ) (out : List ℕ) → length (digits b n value out) ≡ n + length out
unfolding digits
length-digits b zero value out = omega arith
length-digits b (suc n) value out = omega (arith, length-digits b n (value / b) ((value % b) ∷ out))

module _ {b : ℕ} (pos : 0 < b) where
  shift :
      (n value start : ℕ) → (start * b ^ n + value / b) * b + value % b ≡ start * b ^ suc n + value
  shift n value start = rw pow-suc (omega (arith, div-add-mod' value b))

  -- Reading what was written gives the value that fits.
  pub undigits-digits :
      (n value start : ℕ) (out : List ℕ)
      → value < b ^ n
      → undigits b start (digits b n value out) ≡ undigits b (start * b ^ n + value) out
  unfolding undigits digits
  undigits-digits zero value start out h =
      let small : value < 1 = rw (pow-zero b) at h in
      let e : start ≡ start * b ^ 0 + value = rw (pow-zero b) (omega arith) in
      ap (λ v. undigits b v out) e
  undigits-digits (suc n) value start out h =
      let small : value / b < b ^ n = (div-lt_iff_lt-mul pos).1 (rw (← pow-suc) h) in
      undigits-digits n (value / b) start ((value % b) ∷ out) small
      ∙ ap (λ v. undigits b v out) (shift n value start)

  last-digit : (value d : ℕ) → d < b → ((value * b + d) / b ≡ value) × ((value * b + d) % b ≡ d)
  last-digit value d h = (
    rw (mul-add-div_right pos value d, div-eq_of_lt h) (omega arith),
    rw (mul-add-mod_self_right value b d) (mod-eq_of_lt h),
  )

  -- Writing what was read gives the digits back.
  pub digits-undigits :
      (ds : List ℕ) (m value : ℕ) (out : List ℕ)
      → All (λ d. d < b) ds
      → digits b (m + length ds) (undigits b value ds) out ≡ digits b m value (ds ++ out)
  unfolding undigits digits
  digits-undigits [] m value out h =
      let e : m + 0 ≡ m = omega arith in ap (λ k. digits b k value out) e
  digits-undigits (d ∷ ds) m value out h =
      let (quotient, rest) = last-digit value d h.0 in
      let e : m + suc (length ds) ≡ suc m + length ds = omega arith in
      rw e (digits-undigits ds (suc m) (value * b + d) out h.1 ∙ rw (quotient, rest) refl)

  pub digits-small :
      (n value : ℕ) (out : List ℕ) → All (λ d. d < b) out → All (λ d. d < b) (digits b n value out)
  unfolding digits
  digits-small zero value out h = h
  digits-small (suc n) value out h =
      digits-small n (value / b) ((value % b) ∷ out) (mod-lt value pos, h)

  -- The value of `n` digits lies below `b ^ n`.
  pub undigits-lt :
      (ds : List ℕ) (value : ℕ) (n : ℕ)
      → All (λ d. d < b) ds
      → value < b ^ n
      → undigits b value ds < b ^ (n + length ds)
  unfolding undigits
  undigits-lt [] value n h v = let e : n + 0 ≡ n = omega arith in rw e v
  undigits-lt (d ∷ ds) value n h v =
      let e : n + suc (length ds) ≡ suc n + length ds = omega arith in
      rw e (undigits-lt ds (value * b + d) (suc n) h.1 (rw pow-suc (grind arith)))
