-- ===== src/SearchIndexer/Fresh.antt =====
-- internal/listing/service.go with cmd/search-indexer: a new listing on its way to the index. The broker is not
-- modelled: the events of the topic come in the order in which they were sent.
use gearshare.Prelude.{
  ℕ, ◌≡◌, refl, ap, ◌∙◌, String, true, some, List, [], ◌∷◌, ◌++◌, arith, ◌==◌, ==_iff,
  if◌then◌else◌,
}
use gearshare.Prelude.Text.{str_eq}
use gearshare.Model.Listing.{Listing}
use gearshare.Model.Event.{Effect, publish_listing, ListingEvent, topic_listing_events}
use gearshare.Store.{World, Result, ok, err}
use gearshare.Listing.Service.{CreateInput, create}
use gearshare.Listing.Service.Publishing.{event, Published, create-Published}
use gearshare.SearchIndexer.{Elastic, Document}
use gearshare.SearchIndexer.Latest.{Honest, last_about, handle_all, AllDone, shown_by, index-latest}

-- The messages of the consumer's topic among what was sent, the oldest first.
abbrev on_topic : Effect → List ListingEvent
on_topic (publish_listing topic key e) = if str_eq topic topic_listing_events then e ∷ [] else []
on_topic _ = []

unfoldable pub events : List Effect → List ListingEvent
events [] = []
events (e ∷ es) = events es ++ on_topic e

last_about-last :
    (id : ℕ) (es : List ListingEvent) (e : ListingEvent)
    → (e.listing_id == id) ≡ true
    → last_about id (es ++ e ∷ []) ≡ some e
unfolding last_about
last_about-last id [] e h = rw h refl
last_about-last id (d ∷ es) e h = rw (last_about-last id es e h) refl

Published-ok :
    (w : World) (r : Result Listing × World) (l : Listing)
    → Published true w r
    → r.0 ≡ ok l
    → (name : String) × (r.1.sent ≡ event l name ∷ w.sent)
Published-ok w (ok l', v) l (name, sent) h = (name, ground (arith, sent, h))
Published-ok w (err e, v) l sent h = absurd (cc)

abbrev pub indexed : Listing → String → Document
indexed l category_name = record {
  listing_id = l.id;
  title = l.title;
  description = l.description;
  price_per_day_cents = l.price_per_day_cents;
  category_name = category_name;
  owner_name = "";
  status = l.status;
  avg_rating = 0;
}

-- Once search-indexer has taken all events up to that of a new listing with no error, and no delete has failed
-- unseen, the index has the row that the creation returned, without an owner and with an average of 0, whatever it
-- held before and whatever was sent before.
pub create-indexed :
    {S : Type 0} (elastic : Elastic S) (input : CreateInput) (l : Listing) (w : World) (s : S)
    → Honest elastic
    → (create true input w).0 ≡ ok l
    → AllDone elastic (events (create true input w).1.sent) s
    → (name : String) × (elastic.stored l.id
          (handle_all elastic (events (create true input w).1.sent) s)
        ≡ some (indexed l name))
unfolding events
create-indexed elastic input l w s honest made done =
    let v = (create true input w).1 in
    let (name, sent) =
      Published-ok w (create true input w) l (create-Published true input w) made in
    let last =
      ap (λ o. last_about l.id (events o)) sent
      ∙ last_about-last l.id (events w.sent) _ ((==_iff l.id l.id).1 refl) in
    (
      name,
      index-latest elastic honest (events v.sent) l.id s done
          ∙ ap (λ o. shown_by elastic o (elastic.stored l.id s)) last,
    )
