-- ===== src/Listing/Feed/Naive.antt =====
-- internal/listing/query_naive.go against query_optimized.go: the same page, and what it costs.
use gearshare.Prelude.{
  ℕ, suc, ◌+◌, ◌*◌, ◌≡◌, ap, ◌∙◌, none, some, List, [], ◌∷◌, arith, All, All-map, find, select,
  filter_map, ◌==◌, length,
}
use gearshare.Prelude.Int.{ℤ}
use gearshare.Model.User.{User}
use gearshare.Model.Category.{Category}
use gearshare.Model.Listing.{Listing, is_active}
use gearshare.Listing.Feed.Ties.{Untied, newest_first-Untied}
use gearshare.Store.{page_select, feed_select, Tables, World, ok, reader, query, tick}
use gearshare.Listing.Repository.{newest_first, page, active_page, list_active_page}
use gearshare.Review.{summary_of, get_rating_summary}
use gearshare.User.{get_by_id as get_user}
use gearshare.Category.{get_by_id as get_category}
use gearshare.Listing.Feed.{naive_items, naive_feed, joined_row, optimized_feed}
use gearshare.Listing.Feed.Rows.{
  Linked, All-actives, All-active_page, Total, filter_map-page, joined_row-Linked,
}

-- The same world after statements that only read.
abbrev pub at : ℕ → World → World
at c w = record w { clock = c }

pub get_user-found :
    (id : ℕ) (w : World) (u : User)
    → w.faults w.clock ≡ none
    → find (λ x. x.id == id) (reader w).users ≡ some u
    → get_user id w ≡ (ok u, tick w)
unfolding get_user query
get_user-found id w u q h = ground (arith, q, h)

get_category-found :
    (id : ℕ) (w : World) (c : Category)
    → w.faults w.clock ≡ none
    → find (λ x. x.id == id) (reader w).categories ≡ some c
    → get_category id w ≡ (ok c, tick w)
unfolding get_category query
get_category-found id w c q h = ground (arith, q, h)

get_rating_summary-quiet :
    (id : ℕ) (w : World)
    → w.faults w.clock ≡ none
    → get_rating_summary id w ≡ (ok (summary_of w.sql_avg (reader w) id), tick w)
unfolding get_rating_summary query
get_rating_summary-quiet id w q = ground (arith, q)

pub list_active_page-quiet :
    (limit offset : ℕ) (w : World)
    → w.faults w.clock ≡ none
    → list_active_page limit offset w
      ≡ (ok (active_page (w.tie_rank page_select w.clock) limit offset (reader w)), tick w)
unfolding list_active_page query
list_active_page-quiet limit offset w q = ground (arith, q)

-- The loop over the page, from any number of statements on.
naive_items-quiet :
    (w : World)
    → ((n : ℕ) → w.faults n ≡ none)
    → (ls : List Listing) → All (Linked (reader w)) ls
    → (c : ℕ)
    → naive_items ls (at c w)
      ≡ (ok (filter_map (joined_row w.sql_avg (reader w)) ls), at (c + 3 * length ls) w)
unfolding naive_items filter_map reader
naive_items-quiet w q [] h c = ground arith
naive_items-quiet w q (l ∷ ls) (h, hs) c =
    let s = summary_of w.sql_avg (reader w) l.id in
    let rest = naive_items-quiet w q ls hs (c + 3) in
    let row = joined_row-Linked w.sql_avg (reader w) l h in
    let e : c + 3 + 3 * length ls ≡ c + 3 * suc (length ls) = omega arith in
    ground (
      arith,
      get_user-found l.owner_id (at c w) h.0.0 (q c) h.0.1,
      get_category-found l.category_id (at (c + 1) w) h.1.0 (q (c + 1)) h.1.1,
      get_rating_summary-quiet l.id (at (c + 2) w) (q (c + 2)),
      rest,
      row,
      e,
    )

pub optimized_feed-quiet :
    (limit offset : ℕ) (w : World)
    → w.faults w.clock ≡ none
    → optimized_feed limit offset w ≡ (
      ok (
          page limit offset (
            filter_map (joined_row w.sql_avg (reader w)) (
              newest_first
                (w.tie_rank feed_select w.clock)
                (select (λ l. is_active l.status) (reader w).listings)))),
      tick w,
    )
unfolding optimized_feed query
optimized_feed-quiet limit offset w q = ground (arith, q)

-- Every row of a page has a joined row where the foreign keys hold, and the two orders are one where no two
-- active listings have the same created_at.
pub joined_page :
    (limit offset : ℕ) (avg : List ℤ → ℕ) (rank rank' : Listing → ℕ) (t : Tables)
    → All (Linked t) t.listings
    → Untied (select (λ l. is_active l.status) t.listings)
    → filter_map (joined_row avg t) (active_page rank limit offset t)
      ≡ page limit offset (
          filter_map
            (joined_row avg t)
            (newest_first rank' (select (λ l. is_active l.status) t.listings)))
unfolding active_page
joined_page limit offset avg rank rank' t linked untied =
    let rows = newest_first rank (select (λ l. is_active l.status) t.listings) in
    filter_map-page (joined_row avg t) limit offset rows (
      All-map {P = Linked t} {Q = Total (joined_row avg t)}
        (λ l h. (_, joined_row-Linked avg t l h)) rows (All-actives (Linked t) rank t linked))
    ∙ ap (λ ls. page limit offset (filter_map (joined_row avg t) ls))
        (newest_first-Untied rank rank' (select (λ l. is_active l.status) t.listings) untied)

-- Where no statement fails, every listing's owner and category are there and no two active listings have the same
-- created_at, the loop and the JOIN answer with the same page, however MySQL orders ties; the loop takes 1 + 3 N
-- statements for its N rows, and the JOIN takes 1.
pub naive_feed-optimized_feed :
    (limit offset : ℕ) (w : World)
    → ((n : ℕ) → w.faults n ≡ none)
    → All (Linked (reader w)) (reader w).listings
    → Untied (select (λ l. is_active l.status) (reader w).listings)
    → ((naive_feed limit offset w).0 ≡ (optimized_feed limit offset w).0)
      × ((naive_feed limit offset w).1.clock
          ≡ w.clock
            + (1
                + 3
                  * length (active_page (w.tie_rank page_select w.clock) limit offset (reader w))))
      × ((optimized_feed limit offset w).1.clock ≡ w.clock + 1)
unfolding naive_feed
naive_feed-optimized_feed limit offset w q linked untied =
    let rank = w.tie_rank page_select w.clock in
    let rows = active_page rank limit offset (reader w) in
    let loop =
      naive_items-quiet w q rows
        (All-active_page (Linked (reader w)) rank limit offset (reader w) linked) (w.clock + 1) in
    let first = list_active_page-quiet limit offset w (q w.clock) in
    let second = optimized_feed-quiet limit offset w (q w.clock) in
    let same =
      joined_page limit offset w.sql_avg rank (w.tie_rank feed_select w.clock) (reader w) linked
        untied in
    ground (arith, loop, first, second, same)
