-- ===== src/Storage/Listing/Walk.antt =====
-- A client that follows the cursors of `keyset_page`.
use growtrics_challenge.Common.{
  ℕ, zero, suc, ◌<◌, ◌≡◌, refl, sym, ap, ◌∙◌, true, Option, none, some, List, [], ◌++◌, length,
  take, drop, keep_if, arith, Option-cases, inl, inr,
}
use mathlib.Core.List.{append-nil}
use growtrics_challenge.Common.Text.{Str}
use growtrics_challenge.Common.Order.{Key, key_lt, key_order, flip}
use growtrics_challenge.Common.Sort.{sort_by, DistinctKeys, StrictSorted-sort_by, length-sort_by}
use growtrics_challenge.Domain.Records.{Cursor, Page}
use growtrics_challenge.Storage.Listing.{
  get_last?, position, window_from, cursor_at, next_of, keyset_page,
}
use growtrics_challenge.Storage.Listing.Window.{
  Newest, older, Newest-keep_if, last-All, older-drop, keep_if_twice, take-append-drop,
  length-drop-lt, All-older, next_of-none, next_of-some,
}

module _ {A : Type 0} (key : A → Key) (rows : List A) (limit : ℕ) where
  -- A client that asks for pages until there is no next cursor; `fuel` bounds the requests.
  abbrev page_items : Option Cursor → List A
  page_items cursor = take limit (window_from key rows cursor)

  pub read_all : ℕ → Option Cursor → List A
  read_all zero cursor = []
  read_all (suc fuel) cursor =
      page_items cursor ++ elim (next_of key (window_from key rows cursor) (page_items cursor)) [
        | none ↦ []
        | some c ↦ read_all fuel (some c)
      ]

  module _ (distinct : DistinctKeys (flip key_order) key rows) (positive : 0 < limit) where
    window-Newest : (cursor : Option Cursor) → Newest key (window_from key rows cursor)
    unfolding window_from
    window-Newest none = StrictSorted-sort_by (flip key_order) key rows distinct
    window-Newest (some c) =
        Newest-keep_if key (older key (position c)) _
          (StrictSorted-sort_by (flip key_order) key rows distinct)

    -- After the last row of a page the listing goes on with the first row that was not shown.
    window-next :
        (cursor : Option Cursor) (r : A)
        → get_last? (page_items cursor) ≡ some r
        → window_from key rows (some (cursor_at key r)) ≡ drop limit (window_from key rows cursor)
    unfolding window_from
    window-next none r e = older-drop key limit _ r (window-Newest none) e
    window-next (some c) r e =
        let k : Key = position c in
        let all : List A = sort_by (flip key_order) key rows in
        let lt : key_lt (key r) k ≡ true =
          last-All key _ limit (keep_if (older key k) all) r (All-older key (older key k) all) e in
        sym (keep_if_twice key k (key r) all lt)
        ∙ older-drop key limit (keep_if (older key k) all) r (window-Newest (some c)) e

    pub read_all-window :
        (fuel : ℕ) (cursor : Option Cursor)
        → length (window_from key rows cursor) < fuel
        → read_all fuel cursor ≡ window_from key rows cursor
    unfolding read_all
    read_all-window zero cursor h = absurd (omega arith)
    read_all-window (suc fuel) cursor h =
        elim (Option-cases (next_of key (window_from key rows cursor) (page_items cursor))) [
          | inl stop ↦
              rw stop (append-nil (page_items cursor) ∙ next_of-none key limit _ positive stop)
          | inr (c, go) ↦
              let (r, last, at) = next_of-some key limit (window_from key rows cursor) c go in
              let next = window-next cursor r last in
              let fewer = length-drop-lt key limit (window_from key rows cursor) r last in
              let rest : read_all fuel (some c) ≡ drop limit (window_from key rows cursor) =
                ap (λ d. read_all fuel (some d)) at
                ∙ read_all-window fuel (some (cursor_at key r)) (rw next (omega arith))
                ∙ next in
              rw go (
                ap (λ l. page_items cursor ++ l) rest
                ∙ take-append-drop key limit (window_from key rows cursor))
        ]

    -- Pages read until there is no next cursor, joined, are all the rows, newest first.
    pub read_all-rows :
        (fuel : ℕ)
        → length (sort_by (flip key_order) key rows) < fuel
        → read_all fuel none ≡ sort_by (flip key_order) key rows
    unfolding window_from
    read_all-rows fuel h = read_all-window fuel none h

module _ {A : Type 0} (key : A → Key) (rows : List A) (limit : ℕ) (token : Cursor → Str)
    (decode : Str → Option Cursor) where
  -- The client's loop over `keyset_page`: it hands each `next_cursor` back as it came.
  abbrev page : Option Cursor → Page A
  page cursor = keyset_page key token rows cursor limit

  abbrev resume : Option Str → Option Cursor
  resume none = none
  resume (some t) = decode t

  unfoldable pub read_pages : ℕ → Option Cursor → List A
  read_pages zero cursor = []
  read_pages (suc fuel) cursor =
      (page cursor).items
      ++ elim (resume (page cursor).next_cursor) [ none ↦ [] | some c ↦ read_pages fuel (some c) ]

  module _ (round_trip : (c : Cursor) → decode (token c) ≡ some c) where
    resume-next :
        (o : Option Cursor) → resume (elim o [ none ↦ none | some c ↦ some (token c) ]) ≡ o
    resume-next none = refl
    resume-next (some c) = round_trip c

    read_pages-read_all :
        (fuel : ℕ) (cursor : Option Cursor)
        → read_pages fuel cursor ≡ read_all key rows limit fuel cursor
    unfolding read_pages read_all keyset_page
    read_pages-read_all zero cursor = refl
    read_pages-read_all (suc fuel) cursor =
        elim (Option-cases
          (next_of key (window_from key rows cursor) (page_items key rows limit cursor))) [
            | inl stop ↦ rw stop refl
            | inr (c, go) ↦ rw go (
                rw (round_trip c) (
                  ap (λ l. page_items key rows limit cursor ++ l)
                    (read_pages-read_all fuel (some c))))
          ]

    -- Rows with distinct positions, a page size that is not zero, and a cursor encoding that
    -- decodes: the pages that a client reads by following `next_cursor` from the first page, at
    -- most one more than there are rows, joined together are all the rows, each once, newest
    -- first.
    pub read_pages-rows :
        (fuel : ℕ)
        → DistinctKeys (flip key_order) key rows
        → 0 < limit
        → length rows < fuel
        → read_pages fuel none ≡ sort_by (flip key_order) key rows
    read_pages-rows fuel distinct positive h =
        read_pages-read_all fuel none
        ∙ read_all-rows key rows limit distinct positive fuel
            (rw (length-sort_by (flip key_order) key rows) h)
