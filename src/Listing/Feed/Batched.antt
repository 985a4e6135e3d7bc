-- ===== src/Listing/Feed/Batched.antt =====
-- internal/listing/loader.go against query_naive.go: four statements for the same page.
use gearshare.Prelude.{
  ℕ, suc, ◌+◌, ◌≤◌, ◌≡◌, refl, ap, sym, ◌∙◌, true, false, none, some, List, [], ◌∷◌, map, arith,
  All, find, select, filter_map, map_get, by_key, mem, ◌==◌, length, inl, inr, Bool-cases,
}
use gearshare.Prelude.Int.{ℤ}
use gearshare.Model.User.{User}
use gearshare.Model.Category.{Category}
use gearshare.Model.Review.{RatingSummary}
use gearshare.Model.Listing.{Listing}
use gearshare.Store.{Tables, World, ok, reader, query}
use gearshare.Listing.Repository.{active_page}
use gearshare.Review.{summary_of, summary_rows, ratings_of, get_rating_summaries}
use gearshare.User.{get_by_ids as get_users}
use gearshare.Category.{get_by_ids as get_categories}
use gearshare.Listing.Feed.{
  feed_item, distinct, owner_of, category_of, rating_of, batched_items, batched_feed, joined_row,
  optimized_feed,
}
use gearshare.Listing.Feed.Rows.{Linked, All-active_page, joined_row-Linked}
use gearshare.Listing.Feed.Keyed.{
  Unique, Only, map_get-by_key, map_get-missing, batch_get, by_key_none, All-listed, All-asked,
}
use gearshare.Listing.Feed.Ties.{Untied}
use gearshare.Model.Listing.{is_active}
use gearshare.Store.{page_select, feed_select}
use gearshare.Listing.Feed.Naive.{at, list_active_page-quiet, optimized_feed-quiet, joined_page}

module _ (avg : List ℤ → ℕ) (t : Tables) where
  id-summary_of : (j : ℕ) → (summary_of avg t j).listing_id ≡ j
  unfolding summary_of
  id-summary_of j = refl

  same_summary :
      (j id : ℕ)
      → ((summary_of avg t j).listing_id == id) ≡ true
      → summary_of avg t j ≡ summary_of avg t id
  same_summary j id p =
      let named : j ≡ id = ground (arith, p, id-summary_of j) in ap (summary_of avg t) named

  rows-Only :
      (id : ℕ) (ids : List ℕ)
      → Only (λ s. s.listing_id) id (summary_of avg t id) (summary_rows avg t ids)
  unfolding summary_rows
  rows-Only id [] = tt
  rows-Only id (j ∷ ids) = elim (Bool-cases (length (ratings_of t j) == 0)) [
    | inl e ↦ rw (e, summary_rows) (rows-Only id ids)
    | inr e ↦ rw (e, summary_rows) (same_summary j id, rows-Only id ids)
  ]

  rows-found :
      (id : ℕ) (ids : List ℕ)
      → (length (ratings_of t id) == 0) ≡ false
      → mem id ids ≡ true
      → find (λ s. s.listing_id == id) (summary_rows avg t ids) ≡ some (summary_of avg t id)
  unfolding summary_rows find mem
  rows-found id [] some_rated asked = ground (arith, asked)
  rows-found id (j ∷ ids) some_rated asked = elim (Bool-cases (j == id)) [
    | inl e ↦
        let named : j ≡ id = ground (arith, e) in
        let rated : (length (ratings_of t j) == 0) ≡ false =
          ap (λ k. length (ratings_of t k) == 0) named ∙ some_rated in
        ground (arith, e, rated, id-summary_of j, ap (summary_of avg t) named)
    | inr e ↦
        let rest = rows-found id ids some_rated (ground (arith, e, asked)) in
        ground (arith, e, rest, id-summary_of j)
  ]

  other_id :
      (id j : ℕ)
      → (length (ratings_of t id) == 0) ≡ true
      → (length (ratings_of t j) == 0) ≡ false
      → ((summary_of avg t j).listing_id == id) ≡ false
  other_id id j unrated rated = elim (Bool-cases (j == id)) [
    | inl e ↦
        let named : j ≡ id = ground (arith, e) in
        ground (arith, ap (λ k. length (ratings_of t k) == 0) named, unrated, rated)
    | inr e ↦ ground (arith, e, id-summary_of j)
  ]

  rows-missing :
      (id : ℕ) (ids : List ℕ)
      → (length (ratings_of t id) == 0) ≡ true
      → All (λ s. (s.listing_id == id) ≡ false) (summary_rows avg t ids)
  unfolding summary_rows
  rows-missing id [] unrated = tt
  rows-missing id (j ∷ ids) unrated = elim (Bool-cases (length (ratings_of t j) == 0)) [
    | inl e ↦ rw (e, summary_rows) (rows-missing id ids unrated)
    | inr e ↦ rw (e, summary_rows) (other_id id j unrated e, rows-missing id ids unrated)
  ]

  no_ratings :
      (id : ℕ)
      → (length (ratings_of t id) == 0) ≡ true
      → rating_of none ≡ ((summary_of avg t id).review_count, (summary_of avg t id).avg_rating)
  unfolding summary_of
  no_ratings id e = ground (arith, e)

  -- The maps that are read for a page.
  abbrev users_of : List Listing → List (ℕ × User)
  users_of ls =
      by_key (λ u. u.id) (select (λ u. mem u.id (distinct [] (map (λ l. l.owner_id) ls))) t.users)
        []

  abbrev categories_of : List Listing → List (ℕ × Category)
  categories_of ls =
      by_key (λ c. c.id)
        (select (λ c. mem c.id (distinct [] (map (λ l. l.category_id) ls))) t.categories) []

  abbrev ratings_for : List Listing → List (ℕ × RatingSummary)
  ratings_for ls = by_key (λ s. s.listing_id) (summary_rows avg t (map (λ l. l.id) ls)) []

  -- The map of the summaries gives what one query for the listing gives.
  summaries_get :
      (id : ℕ) (ids : List ℕ)
      → mem id ids ≡ true
      → rating_of (map_get id (by_key (λ s. s.listing_id) (summary_rows avg t ids) []))
        ≡ ((summary_of avg t id).review_count, (summary_of avg t id).avg_rating)
  unfolding map_get
  summaries_get id ids asked = elim (Bool-cases (length (ratings_of t id) == 0)) [
    | inr e ↦
        rw
          (map_get-by_key (λ s. s.listing_id) id (summary_of avg t id) (summary_rows avg t ids)
            (rows-Only id ids) (rows-found id ids e asked) [])
          refl
    | inl e ↦
        rw
          (map_get-missing (λ s. s.listing_id) id (summary_rows avg t ids) (rows-missing id ids e)
            [])
          (no_ratings id e)
  ]

  -- One item of the batch.
  item :
      (ls : List Listing) (l : Listing)
      → Unique (λ u. u.id) t.users
      → Unique (λ c. c.id) t.categories
      → Linked t l
      → mem l.owner_id (distinct [] (map (λ x. x.owner_id) ls)) ≡ true
      → mem l.category_id (distinct [] (map (λ x. x.category_id) ls)) ≡ true
      → mem l.id (map (λ x. x.id) ls) ≡ true
      → some (
          feed_item l
            (owner_of (map_get l.owner_id (users_of ls)))
            (category_of (map_get l.category_id (categories_of ls)))
            (rating_of (map_get l.id (ratings_for ls))))
        ≡ joined_row avg t l
  item ls l uu uc h a b c =
      let owner =
        batch_get (λ u. u.id) l.owner_id h.0.0 (distinct [] (map (λ x. x.owner_id) ls)) t.users uu a
          h.0.1 in
      let cat =
        batch_get (λ k. k.id) l.category_id h.1.0 (distinct [] (map (λ x. x.category_id) ls))
          t.categories uc b h.1.1 in
      let rating = summaries_get l.id (map (λ x. x.id) ls) c in
      rw (owner, cat, rating) (sym (joined_row-Linked avg t l h))

  items :
      (ls xs : List Listing)
      → Unique (λ u. u.id) t.users
      → Unique (λ c. c.id) t.categories
      → All (Linked t) xs
      → All (λ l. mem l.owner_id (distinct [] (map (λ x. x.owner_id) ls)) ≡ true) xs
      → All (λ l. mem l.category_id (distinct [] (map (λ x. x.category_id) ls)) ≡ true) xs
      → All (λ l. mem l.id (map (λ x. x.id) ls) ≡ true) xs
      → batched_items (users_of ls) (categories_of ls) (ratings_for ls) xs
        ≡ filter_map (joined_row avg t) xs
  unfolding batched_items filter_map
  items ls [] uu uc h a b c = refl
  items ls (x ∷ xs) uu uc (h, hs) (a, a2) (b, b2) (c, c2) =
      ground (arith, item ls x uu uc h a b c, items ls xs uu uc hs a2 b2 c2)

-- At most one statement that only reads.
abbrev Read : ℕ → World → World → Type 0
Read c w w' = (k : ℕ) × (k ≤ suc c) × (w' ≡ at k w)

-- The three batched reads, with or without ids.
get_users-quiet :
    (ids : List ℕ) (w : World) (c : ℕ)
    → w.faults c ≡ none
    → let (r, w') = get_users ids (at c w) in
      (r ≡ ok (by_key (λ u. u.id) (select (λ u. mem u.id ids) (reader w).users) [])) × Read c w w'
unfolding get_users reader query
get_users-quiet [] w c q =
    (ap ok (sym (by_key_none (λ u. u.id) (reader w).users)), (c, omega arith, refl))
get_users-quiet (n ∷ ids) w c q = (ground (arith, q), (suc c, omega arith, ground (arith, q)))

get_categories-quiet :
    (ids : List ℕ) (w : World) (c : ℕ)
    → w.faults c ≡ none
    → let (r, w') = get_categories ids (at c w) in
      (r ≡ ok (by_key (λ x. x.id) (select (λ x. mem x.id ids) (reader w).categories) []))
      × Read c w w'
unfolding get_categories reader query
get_categories-quiet [] w c q =
    (ap ok (sym (by_key_none (λ x. x.id) (reader w).categories)), (c, omega arith, refl))
get_categories-quiet (n ∷ ids) w c q = (ground (arith, q), (suc c, omega arith, ground (arith, q)))

get_rating_summaries-quiet :
    (ids : List ℕ) (w : World) (c : ℕ)
    → w.faults c ≡ none
    → let (r, w') = get_rating_summaries ids (at c w) in
      (r ≡ ok (by_key (λ s. s.listing_id) (summary_rows w.sql_avg (reader w) ids) [])) × Read c w w'
unfolding get_rating_summaries reader query summary_rows by_key
get_rating_summaries-quiet [] w c q = (refl, (c, omega arith, refl))
get_rating_summaries-quiet (n ∷ ids) w c q =
    (ground (arith, q), (suc c, omega arith, ground (arith, q)))

-- Where no statement fails, every listing's owner and category are there, no two users and no two categories have
-- the same id and no two active listings the same created_at, the batched feed answers with the page of the JOIN,
-- however MySQL orders ties, in at most four statements whatever the number of rows.
pub batched_feed-optimized_feed :
    (limit offset : ℕ) (w : World)
    → ((n : ℕ) → w.faults n ≡ none)
    → All (Linked (reader w)) (reader w).listings
    → Unique (λ u. u.id) (reader w).users
    → Unique (λ c. c.id) (reader w).categories
    → Untied (select (λ l. is_active l.status) (reader w).listings)
    → ((batched_feed limit offset w).0 ≡ (optimized_feed limit offset w).0)
      × ((batched_feed limit offset w).1.clock ≤ w.clock + 4)
unfolding batched_feed
batched_feed-optimized_feed limit offset w q linked uu uc untied =
    let t = reader w in
    let rank = w.tie_rank page_select w.clock in
    let rows = active_page rank limit offset t in
    let whole =
      items w.sql_avg t rows rows uu uc (All-active_page (Linked t) rank limit offset t linked)
        (All-asked (λ l. l.owner_id) rows) (All-asked (λ l. l.category_id) rows)
        (All-listed (λ l. l.id) rows) in
    let first = list_active_page-quiet limit offset w (q w.clock) in
    let other = optimized_feed-quiet limit offset w (q w.clock) in
    let same =
      joined_page limit offset w.sql_avg rank (w.tie_rank feed_select w.clock) t linked untied in
    let (r1, (c1, h1, e1)) =
      get_users-quiet (distinct [] (map (λ l. l.owner_id) rows)) w (suc w.clock) (q _) in
    let (r2, (c2, h2, e2)) =
      get_categories-quiet (distinct [] (map (λ l. l.category_id) rows)) w c1 (q c1) in
    let (r3, (c3, h3, e3)) = get_rating_summaries-quiet (map (λ l. l.id) rows) w c2 (q c2) in
    ground (arith, whole, first, other, same, r1, h1, e1, r2, h2, e2, r3, h3, e3)
