-- ===== src/Listing/Feed.antt =====
-- internal/listing: the browse feed by query_naive.go, loader.go and query_optimized.go.
pub mod Rows
pub mod Keyed
pub mod Ties
pub mod Naive
pub mod Batched
use gearshare.Prelude.{
  ℕ, String, Bool, Option, none, some, List, [], ◌∷◌, map, mem, map_get, filter_map, if◌then◌else◌,
  find, select, ◌==◌,
}
use gearshare.Prelude.Int.{ℤ}
use gearshare.Model.User.{User}
use gearshare.Model.Category.{Category}
use gearshare.Model.Review.{RatingSummary}
use gearshare.Model.Listing.{Listing, FeedItem, is_active}
use gearshare.Store.{
  Tables, M, ◌>>=◌, pure, query, get_avg, feed_select, get_rank, or_fail, no_rows,
}
use gearshare.Listing.Repository.{list_active_page, newest_first, page}
use gearshare.Review.{summary_of, get_rating_summary, get_rating_summaries}
use gearshare.User.{get_by_id as get_user, get_by_ids as get_users}
use gearshare.Category.{get_by_id as get_category, get_by_ids as get_categories}

abbrev pub feed_item : Listing → ℕ × String → ℕ × String → ℕ × ℕ → FeedItem
feed_item l owner cat rating = record {
  listing_id = l.id;
  title = l.title;
  price_per_day_cents = l.price_per_day_cents;
  deposit_cents = l.deposit_cents;
  owner_id = owner.0;
  owner_name = owner.1;
  category_id = cat.0;
  category_name = cat.1;
  review_count = rating.0;
  avg_rating = rating.1;
}

-- FeedServiceNaive: three statements for each listing of the page.
unfoldable pub naive_items : List Listing → M (List FeedItem)
naive_items [] = pure []
naive_items (l ∷ ls) = do
  owner ← get_user l.owner_id
  cat ← get_category l.category_id
  rating ← get_rating_summary l.id
  items ← naive_items ls
  pure (
      feed_item l (owner.id, owner.display_name) (cat.id, cat.name)
        (rating.review_count, rating.avg_rating)
      ∷ items)

unfoldable pub naive_feed : ℕ → ℕ → M (List FeedItem)
naive_feed limit offset = do rows ← list_active_page limit offset; naive_items rows

-- FeedServiceBatched: the ids without those seen, then one statement for each table. An id that a map
-- does not hold gives the zero value.
unfoldable pub distinct : List ℕ → List ℕ → List ℕ
distinct seen [] = []
distinct seen (n ∷ ns) =
    let fresh = distinct (n ∷ seen) ns in
    let rest = distinct seen ns in if mem n seen then rest else n ∷ fresh

abbrev pub owner_of : Option User → ℕ × String
owner_of none = (0, "")
owner_of (some u) = (u.id, u.display_name)

abbrev pub category_of : Option Category → ℕ × String
category_of none = (0, "")
category_of (some c) = (c.id, c.name)

abbrev pub rating_of : Option RatingSummary → ℕ × ℕ
rating_of none = (0, 0)
rating_of (some s) = (s.review_count, s.avg_rating)

unfoldable pub batched_items :
    List (ℕ × User) → List (ℕ × Category) → List (ℕ × RatingSummary) → List Listing → List FeedItem
batched_items owners cats ratings [] = []
batched_items owners cats ratings (l ∷ ls) =
    feed_item l (owner_of (map_get l.owner_id owners)) (category_of (map_get l.category_id cats))
      (rating_of (map_get l.id ratings))
    ∷ batched_items owners cats ratings ls

unfoldable pub batched_feed : ℕ → ℕ → M (List FeedItem)
batched_feed limit offset = do
  rows ← list_active_page limit offset
  owners ← get_users (distinct [] (map (λ l. l.owner_id) rows))
  cats ← get_categories (distinct [] (map (λ l. l.category_id) rows))
  ratings ← get_rating_summaries (map (λ l. l.id) rows)
  pure (batched_items owners cats ratings rows)

-- FeedServiceOptimized: the JOINs on primary keys drop a listing whose owner or category is missing,
-- and the LEFT JOIN on the ratings with its COALESCE keeps one without reviews.
unfoldable pub joined_row : (List ℤ → ℕ) → Tables → Listing → Option FeedItem
joined_row avg t l = elim (find (λ u. u.id == l.owner_id) t.users) [
  | none ↦ none
  | some u ↦ elim (find (λ c. c.id == l.category_id) t.categories) [
    | none ↦ none
    | some c ↦
        let s = summary_of avg t l.id in
        some (feed_item l (u.id, u.display_name) (c.id, c.name) (s.review_count, s.avg_rating))
  ]
]

unfoldable pub optimized_feed : ℕ → ℕ → M (List FeedItem)
optimized_feed limit offset = do
  avg ← get_avg
  rank ← get_rank feed_select
  query λ t. page limit offset (
      filter_map (joined_row avg t)
        (newest_first rank (select (λ l. is_active l.status) t.listings)))

-- The one listing of optimizedDetailQuery, whatever its status; sql.ErrNoRows is handed on.
unfoldable pub optimized_detail : ℕ → M FeedItem
optimized_detail id = do
  avg ← get_avg
  row ←
      query
        λ t. elim (find (λ l. l.id == id) t.listings) [ none ↦ none | some l ↦ joined_row avg t l ]
  or_fail row no_rows
