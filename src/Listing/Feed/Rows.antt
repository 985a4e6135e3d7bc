-- ===== src/Listing/Feed/Rows.antt =====
-- internal/listing/query_optimized.go: the rows of the JOIN where the foreign keys hold.
use gearshare.Prelude.{
  ℕ, zero, suc, ◌≡◌, refl, ap, ◌∙◌, Bool, Option, some, List, [], ◌∷◌, All, find, select,
  filter_map, take, drop, ◌==◌, Bool-cases, inl, inr,
}
use gearshare.Prelude.Int.{ℤ}
use gearshare.Model.User.{User}
use gearshare.Model.Category.{Category}
use gearshare.Model.Listing.{Listing, is_active}
use gearshare.Store.{Tables}
use gearshare.Listing.Repository.{before, newest_first, insert_newest, page, active_page}
use gearshare.Review.{summary_of}
use gearshare.Listing.Feed.{feed_item, joined_row}

-- The foreign keys of a listing.
abbrev pub Linked : Tables → Listing → Type 0
Linked t l =
    ((u : User) × (find (λ x. x.id == l.owner_id) t.users ≡ some u))
    × ((c : Category) × (find (λ x. x.id == l.category_id) t.categories ≡ some c))

module _ {A : Type 0} (P : A → Type 0) where
  pub All-select : (p : A → Bool) (xs : List A) → All P xs → All P (select p xs)
  unfolding select
  All-select p [] h = tt
  All-select p (x ∷ xs) h = elim (Bool-cases (p x)) [
    | inl e ↦ rw (e, select) (h.0, All-select p xs h.1)
    | inr e ↦ rw (e, select) (All-select p xs h.1)
  ]

  All-drop : (n : ℕ) (xs : List A) → All P xs → All P (drop n xs)
  All-drop zero xs h = h
  All-drop (suc n) [] h = h
  All-drop (suc n) (x ∷ xs) h = All-drop n xs h.1

  All-take : (n : ℕ) (xs : List A) → All P xs → All P (take n xs)
  All-take zero xs h = tt
  All-take (suc n) [] h = tt
  All-take (suc n) (x ∷ xs) h = (h.0, All-take n xs h.1)

module _ (P : Listing → Type 0) (rank : Listing → ℕ) where
  All-insert_newest :
      (l : Listing) (ls : List Listing) → P l → All P ls → All P (insert_newest rank l ls)
  unfolding insert_newest
  All-insert_newest l [] p h = (p, tt)
  All-insert_newest l (m ∷ ms) p h = elim (Bool-cases (before rank l m)) [
    | inl e ↦ rw (e, insert_newest) (p, h)
    | inr e ↦ rw (e, insert_newest) (h.0, All-insert_newest l ms p h.1)
  ]

  pub All-newest_first : (ls : List Listing) → All P ls → All P (newest_first rank ls)
  unfolding newest_first
  All-newest_first [] h = tt
  All-newest_first (l ∷ ls) h =
      All-insert_newest l (newest_first rank ls) h.0 (All-newest_first ls h.1)

  -- What holds of every listing holds of the active ones in order, and of a page of them.
  pub All-actives :
      (t : Tables)
      → All P t.listings
      → All P (newest_first rank (select (λ l. is_active l.status) t.listings))
  All-actives t h = All-newest_first _ (All-select P (λ l. is_active l.status) t.listings h)

  pub All-active_page :
      (limit offset : ℕ) (t : Tables) → All P t.listings → All P (active_page rank limit offset t)
  unfolding active_page
  All-active_page limit offset t h = All-take P limit _ (All-drop P offset _ (All-actives t h))

module _ {A B : Type 0} (f : A → Option B) where
  -- Every element has a result.
  abbrev pub Total : A → Type 0
  Total x = (y : B) × (f x ≡ some y)

  filter_map-drop :
      (n : ℕ) (xs : List A) → All Total xs → filter_map f (drop n xs) ≡ drop n (filter_map f xs)
  unfolding filter_map
  filter_map-drop zero xs h = refl
  filter_map-drop (suc n) [] h = refl
  filter_map-drop (suc n) (x ∷ xs) (q, h) = rw (q.1, filter_map) (filter_map-drop n xs h)

  filter_map-take :
      (n : ℕ) (xs : List A) → All Total xs → filter_map f (take n xs) ≡ take n (filter_map f xs)
  unfolding filter_map
  filter_map-take zero xs h = refl
  filter_map-take (suc n) [] h = refl
  filter_map-take (suc n) (x ∷ xs) (q, h) =
      rw (q.1, filter_map) (ap (λ r. q.0 ∷ r) (filter_map-take n xs h))

  -- With no row dropped, the page of the results is made of the page of the rows.
  pub filter_map-page :
      (limit offset : ℕ) (xs : List A)
      → All Total xs
      → filter_map f (page limit offset xs) ≡ page limit offset (filter_map f xs)
  filter_map-page limit offset xs h =
      filter_map-take limit (drop offset xs) (All-drop Total offset xs h)
      ∙ ap (take limit) (filter_map-drop offset xs h)

pub joined_row-Linked :
    (avg : List ℤ → ℕ) (t : Tables) (l : Listing)
    → (h : Linked t l)
    → joined_row avg t l
      ≡ some (
          feed_item l
            (h.0.0.id, h.0.0.display_name)
            (h.1.0.id, h.1.0.name)
            ((summary_of avg t l.id).review_count, (summary_of avg t l.id).avg_rating))
unfolding joined_row
joined_row-Linked avg t l h = rw (joined_row, h.0.1, h.1.1) refl
