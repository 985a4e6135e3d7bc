-- ===== src/Search/Degraded.antt =====
-- internal/search: what a client sees when search-indexer is away.
use gearshare.Prelude.{
  suc, ◌≤◌, ◌≡◌, refl, ap, String, Bool, true, Option, none, some, List, [], ◌∷◌, arith,
  Option-cases, inl, inr, length, length-take-le, take, select, filter_map,
}
use gearshare.Prelude.Int.{ℤ, pos, negsuc, leb_ℤ}
use gearshare.Prelude.Text.{codes}
use gearshare.Store.{search_select, World, ok, query, reader}
use gearshare.Http.{json, parse_int}
use gearshare.Listing.Repository.{newest_first}
use gearshare.Search.{
  Hit, Source, mysql_fallback, wire_limit, search_limit, from_source, fallback_row, fallback_search,
  fall_back, matches, search, handler,
}

-- The limit that goes over the wire fits an int32, whatever the caller's is.
pub wire_limit-bounds :
    (n : ℤ) → (leb_ℤ (pos 1) (wire_limit n) ≡ true) × (leb_ℤ (wire_limit n) (pos 1000) ≡ true)
unfolding wire_limit
wire_limit-bounds (pos n) = ground arith
wire_limit-bounds (negsuc n) = ground arith

search_limit-bounds : (v : String) → search_limit v ≤ 100
unfolding search_limit
search_limit-bounds v = elim (Option-cases (parse_int (codes v))) [
  | inl e ↦ ground (arith, e)
  | inr (pos n, e) ↦ ground (arith, e)
  | inr (negsuc n, e) ↦ ground (arith, e)
]

length-from_source : (s : Source) (hits : List Hit) → length (from_source s hits) ≡ length hits
length-from_source s [] = refl
length-from_source s (h ∷ hits) = ap suc (length-from_source s hits)

-- Where search-indexer gives no answer, by an error or by an open breaker, and MySQL does, the client gets
-- 200 with MySQL's rows, each marked as from the fallback, and at most a hundred of them.
pub handler-degraded :
    (like : String → String → Bool) (call : String → ℤ → Option (List Hit)) (text limit : String)
    (w : World)
    → ((n : ℤ) → call text n ≡ none)
    → w.faults w.clock ≡ none
    → (items : List Hit) × ((handler like (some call) text limit w).0
        ≡ ok (json 200 (from_source mysql_fallback items)))
      × (items
          ≡ take (search_limit limit) (
              filter_map (fallback_row like w.sql_avg (reader w)) (
                newest_first
                  (w.tie_rank search_select w.clock)
                  (select (matches like text) (reader w).listings))))
      × (length items ≤ 100)
unfolding handler search fall_back fallback_search query
handler-degraded like call text limit w away q =
    let n = search_limit limit in
    let rows = filter_map (fallback_row like w.sql_avg (reader w)) (
      newest_first (w.tie_rank search_select w.clock)
        (select (matches like text) (reader w).listings)) in
    (
      take n rows,
      ground (arith, away (wire_limit (pos n)), q),
      refl,
      omega (arith, length-take-le n rows, search_limit-bounds limit),
    )
