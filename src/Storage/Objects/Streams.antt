-- ===== src/Storage/Objects/Streams.antt =====
-- The chunks of a stream.
use growtrics_challenge.Common.{
  ℕ, zero, suc, ◌≤◌, ◌<◌, ◌≡◌, refl, ap, ◌∙◌, List, [], ◌∷◌, ◌++◌, All, length, take, drop,
  length-take-le, arith,
}
use growtrics_challenge.Storage.Objects.{chunks, stream}

-- `b"".join(parts)`
abbrev pub joined : List (List ℕ) → List ℕ
joined [] = []
joined (p ∷ ps) = p ++ joined ps

take-drop : (n : ℕ) (l : List ℕ) → take n l ++ drop n l ≡ l
take-drop zero l = refl
take-drop (suc n) [] = refl
take-drop (suc n) (x ∷ l) = ap (λ r. x ∷ r) (take-drop n l)

length-drop-le : (n : ℕ) (l : List ℕ) → length (drop n l) ≤ length l
length-drop-le zero l = omega arith
length-drop-le (suc n) [] = omega arith
length-drop-le (suc n) (x ∷ l) = omega (arith, length-drop-le n l)

joined-chunks :
    (n fuel : ℕ) (content : List ℕ)
    → 0 < n
    → length content ≤ fuel
    → joined (chunks n fuel content) ≡ content
unfolding chunks
joined-chunks n zero [] some_bytes enough = refl
joined-chunks n zero (b ∷ bs) some_bytes enough = absurd (omega (arith, enough))
joined-chunks n (suc fuel) [] some_bytes enough = refl
joined-chunks zero (suc fuel) (b ∷ bs) some_bytes enough = absurd (omega (arith, some_bytes))
joined-chunks (suc n) (suc fuel) (b ∷ bs) some_bytes enough =
    let fits : length (drop n bs) ≤ fuel = omega (arith, length-drop-le n bs, enough) in
    ap (λ r. (b ∷ take n bs) ++ r) (joined-chunks (suc n) fuel (drop n bs) some_bytes fits)
    ∙ ap (λ r. b ∷ r) (take-drop n bs)

chunks-All : (n fuel : ℕ) (content : List ℕ) → All (λ part. length part ≤ n) (chunks n fuel content)
unfolding chunks
chunks-All n zero content = tt
chunks-All n (suc fuel) [] = tt
chunks-All n (suc fuel) (b ∷ bs) = (length-take-le n (b ∷ bs), chunks-All n fuel (drop n (b ∷ bs)))

-- The chunks of an object, of at most a number of bytes that is not zero, are together the object,
-- and none is longer than that number.
pub stream-joined :
    (n : ℕ) (content : List ℕ)
    → 0 < n
    → (joined (stream n content) ≡ content) × All (λ part. length part ≤ n) (stream n content)
unfolding stream
stream-joined n content some_bytes = (
  joined-chunks n (length content) content some_bytes (omega arith),
  chunks-All n (length content) content,
)
