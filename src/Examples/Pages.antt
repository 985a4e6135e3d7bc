-- ===== src/Examples/Pages.antt =====
-- The theorems on the feed, the cache, the transactions and the listings at the example.
use gearshare.Prelude.{
  ℕ, ◌+◌, ◌*◌, ◌≤◌, ◌≡◌, refl, true, false, none, some, [], ◌∷◌, arith, find, select, filter_map,
  length, if◌then◌else◌,
}
use gearshare.Prelude.Int.{pos}
use gearshare.Model.Booking.{requested}
use gearshare.Model.Listing.{FeedItem}
use gearshare.Store.{
  World, ok, reader, query, is_err, feed, detail, feed_page, listing_unavailable, Fault, M,
}
use gearshare.Store.Tx.{within_transaction, tx_loop, attempt_tx, count_retry, is_retryable}
use gearshare.Store.Tx.Retries.{within_transaction-rollback}
use gearshare.Store.{fail, page_select}
use gearshare.Http.{json}
use gearshare.Cache.ListingCache.{get, get_feed, set_feed, lookup, invalidate_detail, same_key}
use gearshare.Cache.ListingCache.Freshness.{get-invalidate_detail}
use gearshare.Listing.Repository.{active_page, newest_first, insert_newest}
use gearshare.Listing.Feed.{naive_feed, batched_feed, optimized_feed, joined_row}
use gearshare.Listing.Feed.Naive.{naive_feed-optimized_feed}
use gearshare.Listing.Feed.Batched.{batched_feed-optimized_feed}
use gearshare.Listing.Handler.{feed_at, serve_feed}
use gearshare.Review.{summary_of}
use gearshare.Booking.Repository.{find_booking}
use gearshare.Listing.Service as Service
use gearshare.Listing.Service.{CreateInput, create}
use gearshare.Examples.{quiet, ann, tents}

abbrev here : World
here = quiet requested

naive_feed-optimized_feed_example :
    ((naive_feed 20 0 here).0 ≡ (optimized_feed 20 0 here).0)
    × ((naive_feed 20 0 here).1.clock
        ≡ 0 + (1 + 3 * length (active_page (here.tie_rank page_select 0) 20 0 (reader here))))
    × ((optimized_feed 20 0 here).1.clock ≡ 1)
unfolding reader find select
naive_feed-optimized_feed_example =
    naive_feed-optimized_feed 20 0 here (λ _. refl) (((ann, refl), (tents, refl)), tt) (tt, tt)

batched_feed-optimized_feed_example :
    ((batched_feed 20 0 here).0 ≡ (optimized_feed 20 0 here).0)
    × ((batched_feed 20 0 here).1.clock ≤ 4)
unfolding reader find select
batched_feed-optimized_feed_example =
    batched_feed-optimized_feed 20 0 here (λ _. refl) (((ann, refl), (tents, refl)), tt)
      ((refl, tt), (tt, tt)) (tt, tt) (tt, tt)

-- The page that the first request gets.
abbrev item : FeedItem
item = record {
  listing_id = 1;
  title = "Tent";
  price_per_day_cents = pos 1500;
  deposit_cents = pos 0;
  owner_id = 1;
  owner_name = "Ann";
  category_id = 1;
  category_name = "Tents";
  review_count = 1;
  avg_rating = 1;
}

abbrev later : World
later = record here {
  cache = (feed_at true 20 0 here).1.cache;
  primary = record (here.primary) { listings = [] };
}

served : (feed_at true 20 0 here).0 ≡ ok (json 200 (feed_page (item ∷ [])))
unfolding feed_at get_feed serve_feed lookup Service.feed query reader filter_map joined_row find
    summary_of newest_first insert_newest select find_booking set_feed
served = refl

abbrev stove : CreateInput
stove = record {
  owner_id = 1;
  category_id = 1;
  title = "Stove";
  description = "Gas";
  price_per_day_cents = pos 500;
  deposit_cents = pos 0;
}

abbrev cached : World
cached = record here {
  cache = (feed 20 20, feed_page []) ∷ (feed 20 0, feed_page (item ∷ [])) ∷ [];
}

get-invalidate_detail_example : (get (feed 20 20) (invalidate_detail 1 cached).1).0 ≡ (
    if same_key (feed 20 0) (feed 20 20)
    then ok none
    else if same_key (detail 1) (feed 20 20)
    then ok none
    else (get (feed 20 20) cached).0)
get-invalidate_detail_example = get-invalidate_detail 1 (feed 20 20) cached (λ _. refl)

-- A transaction whose function refuses.
abbrev refusal : M ℕ
refusal = fail listing_unavailable

no_fault : (n : ℕ) (x : Fault) → here.faults n ≡ some x → x.applied ≡ false
no_fault n x p = ground (arith, p)

refused : is_err (within_transaction refusal here).0 ≡ true
unfolding within_transaction tx_loop attempt_tx count_retry is_retryable
refused = refl

within_transaction-rollback_example : (within_transaction refusal here).1.primary ≡ here.primary
within_transaction-rollback_example =
    within_transaction-rollback refusal (λ _. refl) here no_fault refused
