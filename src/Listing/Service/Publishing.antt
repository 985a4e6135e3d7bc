-- ===== src/Listing/Service/Publishing.antt =====
-- internal/listing/service.go: what a new listing tells the search index.
use gearshare.Prelude.{ℕ, ◌≡◌, ◌∙◌, String, Bool, ◌∷◌, arith, Bool-cases, inl, inr, if◌then◌else◌}
use gearshare.Model.Listing.{Listing}
use gearshare.Model.Event.{Effect, publish_listing, listing_created, topic_listing_events}
use gearshare.Store.{World, Result, Result-cases, ok, err, query, exec}
use gearshare.Listing.Repository as Rows
use gearshare.Category.{get_by_id as get_category}
use gearshare.Listing.Service.{CreateInput, new_listing, invalid, name_of, publish_created, create}

-- The event of a new listing: its row, and the name of its category or nothing.
abbrev pub event : Listing → String → Effect
event l category_name = publish_listing topic_listing_events l.id (record {
  type = listing_created;
  listing_id = l.id;
  title = l.title;
  description = l.description;
  price_per_day_cents = l.price_per_day_cents;
  category_name = category_name;
  status = l.status;
})

abbrev pub Published : Bool → World → Result Listing × World → Type 0
Published has_publisher w (ok l, v) =
    (name : String) × (v.sent ≡ (if has_publisher then event l name ∷ w.sent else w.sent))
Published has_publisher w (err e, v) = v.sent ≡ w.sent

create-Silent : (l : Listing) (w : World) → (Rows.create l w).1.sent ≡ w.sent
unfolding Rows.create exec
create-Silent l w = ground arith

get-Silent : (id : ℕ) (w : World) → (Rows.get_by_id id w).1.sent ≡ w.sent
unfolding Rows.get_by_id query
get-Silent id w = ground arith

category-Silent : (id : ℕ) (w : World) → (get_category id w).1.sent ≡ w.sent
unfolding get_category query
category-Silent id w = ground arith

published :
    (has_publisher : Bool) (w : World) (l : Listing) (name : String) (r : Result Listing)
    (v : World)
    → r ≡ ok l
    → v.sent ≡ (if has_publisher then event l name ∷ w.sent else w.sent)
    → Published has_publisher w (r, v)
published has_publisher w l name (ok l') v e s = (name, ground (arith, e, s))
published has_publisher w l name (err x) v e s = ground (arith, e)

-- A listing that is created is published exactly once, with the row that is returned, where there is a
-- publisher; one that is refused or fails is not published.
pub create-Published :
    (has_publisher : Bool) (input : CreateInput) (w : World)
    → Published has_publisher w (create has_publisher input w)
unfolding create publish_created
create-Published has_publisher input w =
    let w1 = (Rows.create (new_listing input) w).1 in
    elim (Bool-cases (invalid input)) [
      | inl bad ↦ ground (arith, bad)
      | inr fine ↦ elim (Result-cases (Rows.create (new_listing input) w).0) [
        | inr (e, p) ↦ ground (arith, fine, p, create-Silent (new_listing input) w)
        | inl (id, p) ↦ elim (Result-cases (Rows.get_by_id id w1).0) [
          | inr (e, q) ↦
              ground (arith, fine, p, q, create-Silent (new_listing input) w, get-Silent id w1)
          | inl (l, q) ↦
              let w2 = (Rows.get_by_id id w1).1 in
              let v = create has_publisher input w in
              let name = name_of (get_category l.category_id w2).0 in
              let before : (get_category l.category_id w2).1.sent ≡ w.sent =
                category-Silent l.category_id w2
                ∙ (get-Silent id w1 ∙ create-Silent (new_listing input) w) in
              published has_publisher w l name v.0 v.1 (ground (arith, fine, p, q))
                (ground (arith, fine, p, q, before))
        ]
      ]
    ]
