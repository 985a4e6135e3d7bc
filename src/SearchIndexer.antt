-- ===== src/SearchIndexer.antt =====
-- cmd/search-indexer: esindex.go, and the handlers of main.go. Elasticsearch and the circuit breaker are an
-- interface: their state, what they answer to a request, and the document that the index holds under an id.
-- JSON is not modelled: `decode` is what json.Unmarshal makes of a message.
pub mod Latest
pub mod Fresh
use gearshare.Prelude.{
  ℕ, String, Bool, true, false, ◌||◌, Option, none, some, List, [], ◌∷◌, map, ltb, ◌==◌,
  if◌then◌else◌,
}
use gearshare.Prelude.Int.{ℤ, pos, leb_ℤ}
use gearshare.Model.Listing.{Status}
use gearshare.Model.Event.{
  ListingEvent, ListingEventType, listing_created, listing_updated, listing_deleted,
}
use gearshare.Auth.Interceptor.{Rpc, reply, unavailable}
use gearshare.Search.{Hit}

-- `esDocument`. The average is the bit pattern of a float64.
pub record Document : Type 0 where
  pub listing_id : ℕ
  pub title : String
  pub description : String
  pub price_per_day_cents : ℤ
  pub category_name : String
  pub owner_name : String
  pub status : Status
  pub avg_rating : ℕ

-- A status code, or no answer.
pub data Answer : Type 0 where
  answered : ℕ → Answer
  unreachable : Answer

pub record Elastic (S : Type 0) : Type 0 where
  pub stored : ℕ → S → Option Document
  pub exists_index : S → Answer
  pub create_index : S → Answer × S
  pub index_document : ℕ → Document → S → Answer × S
  pub delete_document : ℕ → S → Answer × S
  pub multi_match : String → ℤ → S → Answer × List Document
  pub lets_through : S → Bool  -- the breaker runs the function that `Execute` is given
  pub record_result : Bool → S → S  -- and is told whether it returned nil

-- `res.IsError()`
abbrev pub is_error : ℕ → Bool
is_error status = ltb 299 status

-- The two readings of an answer: with the status looked at, and without.
abbrev pub accepted : Answer → Bool
accepted (answered status) = if is_error status then false else true
accepted unreachable = false

abbrev pub reached : Answer → Bool
reached (answered status) = true
reached unreachable = false

module _ {S : Type 0} (elastic : Elastic S) where
  unfoldable pub ensure_index : S → Bool × S
  ensure_index s = elim (elastic.exists_index s) [
    | unreachable ↦ (false, s)
    | answered status ↦
        if status == 200
        then (true, s)
        else (let (a, s') = elastic.create_index s in (accepted a, s'))
  ]

  -- `breaker.Execute`, for a request and the reading of its answer.
  abbrev pub execute : (Answer → Bool) → (S → Answer × S) → S → Bool × S
  execute good request s =
      let (a, s') = request s in
      if elastic.lets_through s then (good a, elastic.record_result (good a) s') else (false, s)

  unfoldable pub upsert : Document → S → Bool × S
  upsert doc = execute accepted (elastic.index_document doc.listing_id doc)

  -- The status of a delete is not looked at.
  unfoldable pub delete : ℕ → S → Bool × S
  delete id = execute reached (elastic.delete_document id)

  abbrev pub hit_of : Document → Hit
  hit_of d = record {
    listing_id = d.listing_id;
    title = d.title;
    price_per_day_cents = d.price_per_day_cents;
    category_name = d.category_name;
    avg_rating = d.avg_rating;
  }

  -- A search leaves the index as it is.
  unfoldable pub search : String → ℤ → S → Option (List Hit) × S
  search text limit s =
      let (a, found) = elastic.multi_match text limit s in
      if elastic.lets_through s
      then (
        if accepted a then some (map hit_of found) else none,
        elastic.record_result (accepted a) s,
      )
      else (none, s)

  abbrev pub document_of : ListingEvent → Document
  document_of e = record {
    listing_id = e.listing_id;
    title = e.title;
    description = e.description;
    price_per_day_cents = e.price_per_day_cents;
    category_name = e.category_name;
    owner_name = "";
    status = e.status;
    avg_rating = 0;
  }

  abbrev by_type : ListingEvent → ListingEventType → S → Bool × S
  by_type e listing_deleted = delete e.listing_id
  by_type e listing_created = upsert (document_of e)
  by_type e listing_updated = upsert (document_of e)

  unfoldable pub handle_event : ListingEvent → S → Bool × S
  unfolding upsert delete
  handle_event e = by_type e e.type

  -- The handler of the consumer of listing.events: whether it returns nil.
  abbrev decoded : Option ListingEvent → S → Bool × S
  decoded none s = (false, s)
  decoded (some e) s = handle_event e s

  unfoldable pub handle_message : {D : Type 0} → (D → Option ListingEvent) → D → S → Bool × S
  handle_message decode d s = decoded (decode d) s

  -- The gRPC methods.
  abbrev pub default_limit : ℤ → ℤ
  default_limit limit = if leb_ℤ limit (pos 0) then pos 20 else limit

  abbrev results : Option (List Hit) × S → Rpc (List Hit) × S
  results (none, s) = (unavailable "search backend unavailable", s)
  results (some hits, s) = (reply hits, s)

  unfoldable pub search_rpc : String → ℤ → S → Rpc (List Hit) × S
  unfolding search
  search_rpc text limit s = results (search text (default_limit limit) s)

  abbrev acked : Bool × S → Bool × Rpc (Unit {0}) × S
  acked (true, s) = (true, reply tt, s)
  acked (false, s) = (false, unavailable "search backend unavailable", s)

  unfoldable pub index_listing : Document → S → Bool × Rpc (Unit {0}) × S
  unfolding upsert
  index_listing request s = acked (upsert (record request { avg_rating = 0 }) s)
