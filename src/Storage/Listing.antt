-- ===== src/Storage/Listing.antt =====
-- `keyset_page` of src/app/storage/memory/state.py. The token of a position, `Cursor.encode`, is an
-- argument.
pub mod Window
pub mod Walk
use growtrics_challenge.Common.{
  ℕ, zero, suc, ◌≡◌, refl, Bool, true, false, ◌||◌, Option, none, some, List, [], ◌∷◌, length, take,
  keep_if, if◌then◌else◌, ◌==◌,
}
use growtrics_challenge.Common.Text.{Str}
use growtrics_challenge.Common.Order.{Key, key_lt, key_order, flip}
use growtrics_challenge.Common.Sort.{sort_by}
use growtrics_challenge.Domain.Records.{Cursor, Page}

-- `window[-1]`
abbrev pub get_last? : {A : Type 0} → List A → Option A
get_last? [] = none
get_last? (x ∷ []) = some x
get_last? (x ∷ y ∷ l) = get_last? (y ∷ l)

abbrev pub is_empty : {A : Type 0} → List A → Bool
is_empty [] = true
is_empty (x ∷ l) = false

abbrev pub position : Cursor → Key
position c = (c.created_at, c.id)

module _ {A : Type 0} (sort_key : A → Key) where
  -- The rows strictly before the cursor, newest first.
  unfoldable pub window_from : List A → Option Cursor → List A
  window_from rows none = sort_by (flip key_order) sort_key rows
  window_from rows (some c) =
      keep_if (λ row. key_lt (sort_key row) (position c)) (sort_by (flip key_order) sort_key rows)

  abbrev pub cursor_at : A → Cursor
  cursor_at row = let k : Key = sort_key row in record { created_at = k.0; id = k.1 }

  abbrev pub cursor_of : Option A → Option Cursor
  cursor_of none = none
  cursor_of (some row) = some (cursor_at row)

  -- Where the next page starts; nowhere after the last page.
  unfoldable pub next_of : List A → List A → Option Cursor
  next_of ordered window =
      if is_empty window || length ordered == length window
      then none
      else cursor_of (get_last? window)

  unfoldable pub keyset_page : (Cursor → Str) → List A → Option Cursor → ℕ → Page A
  keyset_page token rows cursor limit =
      let ordered = window_from rows cursor in
      let window = take limit ordered in
      record {
        items = window;
        next_cursor = elim (next_of ordered window) [ none ↦ none | some c ↦ some (token c) ];
      }
