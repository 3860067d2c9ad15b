-- ===== src/Intake/Fences.antt =====
-- `fence_for` of src/app/intake/rendering.py: a fence that no text of the learner closes.
pub mod Unclosed
use growtrics_challenge.Common.{ℕ, zero, suc, ◌+◌, List, [], ◌∷◌, if◌then◌else◌, ◌==◌, max}
use growtrics_challenge.Common.Text.{Str}

abbrev pub min_fence_length : ℕ
min_fence_length = 3

abbrev pub fence_char : ℕ
fence_char = 96

-- `char * n`
abbrev pub replicate : ℕ → ℕ → Str
replicate zero c = []
replicate (suc n) c = c ∷ replicate n c

-- The inner loop, over the variables `run` and `longest`.
unfoldable pub longest_from : ℕ → ℕ → Str → ℕ
longest_from run longest [] = longest
longest_from run longest (c ∷ cs) =
    let next_run = if c == fence_char then run + 1 else 0 in
    longest_from next_run (max longest next_run) cs

unfoldable pub longest_in : ℕ → List Str → ℕ
unfolding longest_from
longest_in longest [] = longest
longest_in longest (text ∷ texts) = longest_in (longest_from 0 longest text) texts

unfoldable pub fence_for : List Str → Str
unfolding longest_in
fence_for texts = replicate (max min_fence_length (longest_in 0 texts + 1)) fence_char
