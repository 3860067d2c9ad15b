-- ===== src/Common/Split.antt =====
-- `s.split(sep)` for a separator of one character, and `s.startswith(prefix)` with what follows.
use growtrics_challenge.Common.Tests.{◌==◌, if◌then◌else◌, Bool-cases, ==_iff}
use growtrics_challenge.Common.Text.{Str}
use Prim.Native.Nat.{ℕ}
use mathlib.Core.Path.{◌≡◌, refl}
use mathlib.Core.Logic.{inl, inr}
use mathlib.Core.Option.{Option, none, some}
use mathlib.Core.List.{List, [], ◌∷◌, ◌++◌}
use native.Mathlib.Omega.{arith}

abbrev pub onto_first : ℕ → List Str → List Str
onto_first c [] = (c ∷ []) ∷ []
onto_first c (part ∷ parts) = (c ∷ part) ∷ parts

unfoldable pub split_on : ℕ → Str → List Str
split_on sep [] = [] ∷ []
split_on sep (c ∷ cs) =
    let rest = split_on sep cs in if c == sep then [] ∷ rest else onto_first c rest

-- What follows a prefix, when the text has it.
unfoldable pub strip_prefix : Str → Str → Option Str
strip_prefix [] s = some s
strip_prefix (p ∷ ps) [] = none
strip_prefix (p ∷ ps) (c ∷ cs) = let rest = strip_prefix ps cs in if p == c then rest else none

pub strip_prefix-append : (p s : Str) → strip_prefix p (p ++ s) ≡ some s
unfolding strip_prefix
strip_prefix-append [] s = refl
strip_prefix-append (c ∷ p) s = ground (arith, strip_prefix-append p s)

pub strip_prefix-eq-some : (p t s : Str) → strip_prefix p t ≡ some s → t ≡ p ++ s
unfolding strip_prefix
strip_prefix-eq-some [] t s h = let q : ◌≡◌ {A = Option Str} (some t) (some s) = h in cc q
strip_prefix-eq-some (c ∷ p) [] s h = absurd (cc h)
strip_prefix-eq-some (c ∷ p) (d ∷ t) s h = elim (Bool-cases (c == d)) [
  | inl same ↦
      let rest = strip_prefix-eq-some p t s (rw same at h) in
      let first : c ≡ d = (==_iff c d).0 same in cc (first, rest)
  | inr other ↦ absurd (cc (rw other at h))
]
