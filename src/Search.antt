-- ===== src/Search.antt =====
-- internal/search/service.go, fallback_mysql.go and the limit of grpc_client.go. The circuit breaker
-- (sony/gobreaker) with the call of search-indexer behind it is a parameter: what it answers, or nothing
-- for any error. MySQL's LIKE is a parameter too.
pub mod Degraded
pub mod Remote
use gearshare.Prelude.{
  ℕ, String, Bool, true, false, ◌&&◌, ◌||◌, Option, none, some, List, [], ◌∷◌, map, filter_map,
  find, select, take, ◌==◌, if◌then◌else◌,
}
use gearshare.Prelude.Int.{ℤ, pos, ltb_ℤ, leb_ℤ, pos_part}
use gearshare.Prelude.Text.{codes}
use gearshare.Model.Listing.{Listing, is_active}
use gearshare.Store.{
  Tables, World, M, Result, ok, err, ◌>>=◌, pure, query, get_avg, search_select, get_rank, attempt,
}
use gearshare.Http.{Response, json, error, parse_int}
use gearshare.Listing.Repository.{newest_first}
use gearshare.Review.{summary_of}

pub data Source : Type 0 where
  elasticsearch mysql_fallback : Source

-- gearsharev1.SearchResult, and the fallback's row.
pub record Hit : Type 0 where
  pub listing_id : ℕ
  pub title : String
  pub price_per_day_cents : ℤ
  pub category_name : String
  pub avg_rating : ℕ

pub record SearchItem : Type 0 where
  pub hit : Hit
  pub source : Source

-- `GRPCClient.Search` bounds the limit before it narrows it to an int32.
unfoldable pub wire_limit : ℤ → ℤ
wire_limit limit =
    if leb_ℤ limit (pos 0) then pos 20 else if ltb_ℤ (pos 1000) limit then pos 1000 else limit

abbrev pub from_source : Source → List Hit → List SearchItem
from_source s = map λ h. record { hit = h; source = s }

-- The handler's limit.
unfoldable pub search_limit : String → ℕ
unfolding parse_int
search_limit v = elim (parse_int (codes v)) [
  | none ↦ 20
  | some n ↦ if ltb_ℤ (pos 0) n && leb_ℤ n (pos 100) then pos_part n else 20
]

module _ (like : String → String → Bool) where
  abbrev pub matches : String → Listing → Bool
  matches text l =
      if is_active l.status then like text l.title || like text l.description else false

  -- The JOIN with the category, the LEFT JOIN with the ratings, and the LIMIT.
  unfoldable pub fallback_row : (List ℤ → ℕ) → Tables → Listing → Option Hit
  fallback_row avg t l = elim (find (λ c. c.id == l.category_id) t.categories) [
    | none ↦ none
    | some c ↦ some (record {
      listing_id = l.id;
      title = l.title;
      price_per_day_cents = l.price_per_day_cents;
      category_name = c.name;
      avg_rating = (summary_of avg t l.id).avg_rating;
    })
  ]

  unfoldable pub fallback_search : String → ℕ → M (List Hit)
  fallback_search text limit = do
    avg ← get_avg
    rank ← get_rank search_select
    query λ t.
        take limit
          (filter_map (fallback_row avg t) (newest_first rank (select (matches text) t.listings)))

  abbrev pub degraded : Result (List Hit) → Result (List SearchItem)
  degraded (ok hits) = ok (from_source mysql_fallback hits)
  degraded (err e) = err e

  unfoldable pub fall_back : String → ℕ → M (List SearchItem)
  fall_back text limit w = let (r, w') = fallback_search text limit w in (degraded r, w')

  abbrev pub answered : String → ℕ → Option (List Hit) → M (List SearchItem)
  answered text limit none w = fall_back text limit w
  answered text limit (some hits) w = (ok (from_source elasticsearch hits), w)

  -- `remote` is none where there is no client.
  unfoldable pub search : Option (String → ℤ → Option (List Hit)) → String → ℕ → M (List SearchItem)
  search none text limit = fall_back text limit
  search (some call) text limit = answered text limit (call text (wire_limit (pos limit)))

  abbrev pub found : Result (List SearchItem) → Response (List SearchItem)
  found (ok items) = json 200 items
  found (err e) = error 500 "search failed"

  unfoldable pub handler :
      Option (String → ℤ → Option (List Hit)) → String → String → M (Response (List SearchItem))
  handler remote text limit_param = do
    r ← attempt (search remote text (search_limit limit_param))
    pure (found r)
