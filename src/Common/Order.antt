-- ===== src/Common/Order.antt =====
-- Strict total orders on sort keys, and the key `(datetime, id)` of every listing and queue.
use growtrics_challenge.Common.Tests.{ltb, ◌==◌}
use growtrics_challenge.Common.Text.{Str, str_lt, str_lt_irrefl, str_lt_trans, str_lt_total}
use Prim.Native.Nat.{ℕ}
use mathlib.Core.Path.{◌≡◌}
use mathlib.Core.Bool.{Bool, true, false, ◌&&◌, ◌||◌}
use native.Mathlib.Omega.{arith}

pub record Order (K : Type 0) : Type 0 where
  pub lt : K → K → Bool
  pub irrefl : (a : K) → lt a a ≡ false
  pub trans : (a b c : K) → lt a b ≡ true → lt b c ≡ true → lt a c ≡ true
  pub total : (a b : K) → lt a b ≡ false → lt b a ≡ false → a ≡ b

abbrev pub str_order : Order Str
str_order = record {
  lt = str_lt;
  irrefl = str_lt_irrefl;
  trans = str_lt_trans;
  total = str_lt_total;
}

-- Python compares tuples from the left.
abbrev pub Key : Type 0
Key = ℕ × Str

unfoldable pub key_lt : Key → Key → Bool
key_lt (t, i) (u, j) = ltb t u || ((t == u) && str_lt i j)

pub key_lt_irrefl : (a : Key) → key_lt a a ≡ false
unfolding key_lt
key_lt_irrefl (t, i) = ground (arith, str_lt_irrefl i)

pub key_lt_trans : (a b c : Key) → key_lt a b ≡ true → key_lt b c ≡ true → key_lt a c ≡ true
unfolding key_lt
key_lt_trans (t, i) (u, j) (v, k) h g = ground (arith, str_lt_trans i j k)

pub key_lt_total : (a b : Key) → key_lt a b ≡ false → key_lt b a ≡ false → a ≡ b
unfolding key_lt
key_lt_total (t, i) (u, j) h g = ground (arith, str_lt_total i j)

abbrev pub key_order : Order Key
key_order = record {
  lt = key_lt;
  irrefl = key_lt_irrefl;
  trans = key_lt_trans;
  total = key_lt_total;
}

-- `reverse=True`
abbrev pub flip : {K : Type 0} → Order K → Order K
flip o = record {
  lt = λ a b. o.lt b a;
  irrefl = o.irrefl;
  trans = λ a b c h k. o.trans c b a k h;
  total = λ a b h k. o.total a b k h;
}
