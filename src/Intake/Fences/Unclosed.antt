-- ===== src/Intake/Fences/Unclosed.antt =====
-- A fence and the texts that it encloses.
use growtrics_challenge.Common.{
  ℕ, zero, suc, ◌+◌, ◌≤◌, ◌<◌, ◌≡◌, refl, subst, List, [], ◌∷◌, ◌++◌, In, if◌then◌else◌, ◌==◌, max,
  inl, inr, arith,
}
use growtrics_challenge.Common.Text.{Str}
use growtrics_challenge.Intake.Fences.{replicate, fence_char, longest_from, longest_in, fence_for}

longest_from-ge : (run longest : ℕ) (s : Str) → longest ≤ longest_from run longest s
unfolding longest_from
longest_from-ge run longest [] = omega arith
longest_from-ge run longest (c ∷ s) =
    let n : ℕ = if c == fence_char then run + 1 else 0 in
    omega (arith, longest_from-ge n (max longest n) s)

-- A run that stands first, behind `run` characters of the same kind.
run_first :
    (run longest k : ℕ) (post : Str)
    → run ≤ longest
    → run + k ≤ longest_from run longest (replicate k fence_char ++ post)
unfolding longest_from
run_first run longest zero post h = omega (arith, longest_from-ge run longest post)
run_first run longest (suc k) post h =
    omega (arith, run_first (run + 1) (max longest (run + 1)) k post (omega arith))

run_anywhere :
    (run longest k : ℕ) (pre post : Str)
    → run ≤ longest
    → k ≤ longest_from run longest (pre ++ (replicate k fence_char ++ post))
unfolding longest_from
run_anywhere run longest k [] post h = omega (arith, run_first run longest k post h)
run_anywhere run longest k (c ∷ pre) post h =
    let n : ℕ = if c == fence_char then run + 1 else 0 in
    run_anywhere n (max longest n) k pre post (omega arith)

longest_in-ge : (longest : ℕ) (texts : List Str) → longest ≤ longest_in longest texts
unfolding longest_in
longest_in-ge longest [] = omega arith
longest_in-ge longest (text ∷ texts) =
    omega (arith, longest_from-ge 0 longest text, longest_in-ge (longest_from 0 longest text) texts)

run_among :
    (longest k : ℕ) (texts : List Str) (pre post : Str)
    → In (pre ++ (replicate k fence_char ++ post)) texts
    → k ≤ longest_in longest texts
unfolding longest_in
run_among longest k [] pre post i = absurd i
run_among longest k (text ∷ texts) pre post (inl e) =
    let here : k ≤ longest_from 0 longest text =
      subst (λ t. k ≤ longest_from 0 longest t) e
        (run_anywhere 0 longest k pre post (omega arith)) in
    omega (arith, here, longest_in-ge (longest_from 0 longest text) texts)
run_among longest k (text ∷ texts) pre post (inr i) =
    run_among (longest_from 0 longest text) k texts pre post i

-- The fence for a list of texts is a number of backticks, at least three and more than any run of
-- backticks that occurs anywhere in any of the texts.
pub fence_for_unclosed :
    (texts : List Str)
    → (n : ℕ) × (fence_for texts ≡ replicate n fence_char)
      × (3 ≤ n)
      × ((k : ℕ) (pre post : Str) → In (pre ++ (replicate k fence_char ++ post)) texts → k < n)
unfolding fence_for
fence_for_unclosed texts = (
  max 3 (longest_in 0 texts + 1),
  refl,
  omega arith,
  λ k pre post i. omega (arith, run_among 0 k texts pre post i),
)
