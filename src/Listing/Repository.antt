-- ===== src/Listing/Repository.antt =====
-- internal/listing/repository.go.
use gearshare.Prelude.{
  ℕ, suc, List, ◌∷◌, leb, ltb, ◌||◌, ◌&&◌, Bool, ◌==◌, [], if◌then◌else◌, find, select, take, drop,
}
use gearshare.Model.Listing.{Listing, is_active}
use gearshare.Store.{
  World, Tables, M, page_select, get_rank, query, exec, ◌>>=◌, or_fail, listing_not_found,
}

-- INSERT: the database sets the id and the two times.
abbrev pub add_listing : Listing → World → World
add_listing l w = record w {
  primary = record (w.primary) {
    listings =
        record l { id = w.next_listing; created_at = w.now; updated_at = w.now }
        ∷ w.primary.listings;
  };
  next_listing = suc w.next_listing;
}

unfoldable pub create : Listing → M ℕ
create l = exec (λ w. w.next_listing) (add_listing l)

unfoldable pub get_by_id : ℕ → M Listing
get_by_id id = do
  row ← query (λ t. find (λ l. l.id == id) t.listings)
  or_fail row listing_not_found

-- ORDER BY created_at DESC, and by the rank where that is the same.
abbrev pub before : (Listing → ℕ) → Listing → Listing → Bool
before rank l m =
    ltb m.created_at l.created_at || (m.created_at == l.created_at && leb (rank m) (rank l))

unfoldable pub insert_newest : (Listing → ℕ) → Listing → List Listing → List Listing
insert_newest rank l [] = l ∷ []
insert_newest rank l (m ∷ ms) =
    let later = insert_newest rank l ms in if before rank l m then l ∷ m ∷ ms else m ∷ later

unfoldable pub newest_first : (Listing → ℕ) → List Listing → List Listing
unfolding insert_newest
newest_first rank [] = []
newest_first rank (l ∷ ls) = insert_newest rank l (newest_first rank ls)

-- LIMIT ? OFFSET ?
abbrev pub page {ℓ} : {A : Type ℓ} → ℕ → ℕ → List A → List A
page limit offset xs = take limit (drop offset xs)

unfoldable pub active_page : (Listing → ℕ) → ℕ → ℕ → Tables → List Listing
active_page rank limit offset t =
    page limit offset (newest_first rank (select (λ l. is_active l.status) t.listings))

unfoldable pub list_active_page : ℕ → ℕ → M (List Listing)
list_active_page limit offset = do
  rank ← get_rank page_select
  query (active_page rank limit offset)
