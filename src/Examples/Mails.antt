-- ===== src/Examples/Mails.antt =====
-- The theorems on the mails of a dispute and on the index of a new listing, applied.
use gearshare.Prelude.{◌≡◌, refl, false, [], ◌∷◌, ◌++◌, arith, find}
use gearshare.Model.Booking.{Booking, active, disputed, can_transition}
use gearshare.Model.Event.{booking_disputed}
use gearshare.Store.{World, ok, reader}
use gearshare.Booking.Repository.{update_status, check_transition, write_transition, get_by_id}
use gearshare.Booking.Service.{transition, announce}
use gearshare.Booking.Service.Notices.{notices}
use gearshare.Notification.Remote.{deliver_all}
use gearshare.Notification.Remote.Mails.{due, transition-mails}
use gearshare.Examples.{quiet, stay_of, bob, ann, service}
use gearshare.Examples.Messages.{creds, start, calm, elastic, honest}
use gearshare.Prelude.{String, true, some}
use gearshare.Prelude.Int.{pos}
use gearshare.Model.Listing.{Listing, active as listed}
use gearshare.Listing.Service.{CreateInput, create}
use gearshare.SearchIndexer.Latest.{handle_all}
use gearshare.SearchIndexer.Fresh.{events, indexed, create-indexed}

abbrev afterwards : Booking
afterwards = record (stay_of disputed) { updated_at = 100 }

succeeds : (transition service 1 disputed booking_disputed (quiet active)).0 ≡ ok afterwards
unfolding transition update_status check_transition write_transition get_by_id announce
    gearshare.Store.query gearshare.Booking.Repository.find_booking can_transition
    gearshare.Store.exec gearshare.Booking.Repository.update_rows
    gearshare.Booking.Service.invalidate_listing_cache
    gearshare.Cache.ListingCache.invalidate_detail gearshare.Cache.ListingCache.del
    gearshare.Booking.Service.publish_event gearshare.Booking.Service.email_template_for
    gearshare.Booking.Service.queue_email_job
succeeds = refl

transition-mails_example :
    ((transition service 1 disputed booking_disputed (quiet active)).1.sent
      ≡ notices service booking_disputed afterwards 100 ++ [])
    × ((deliver_all
          (λ w. false)
          creds
          creds
          false
          (notices service booking_disputed afterwards 100)
          start).mails
        ≡ due service false booking_disputed bob ++ [])
unfolding find
transition-mails_example =
    transition-mails (λ w. false) (λ w. refl) creds (omega arith) (omega arith) (bob ∷ ann ∷ []) bob
      service false 1 disputed booking_disputed afterwards (quiet active) start succeeds calm refl

abbrev stove : CreateInput
stove = record {
  owner_id = 1;
  category_id = 1;
  title = "Stove";
  description = "Gas";
  price_per_day_cents = pos 300;
  deposit_cents = pos 0;
}

abbrev made : Listing
made = record {
  id = 2;
  owner_id = 1;
  category_id = 1;
  title = "Stove";
  description = "Gas";
  price_per_day_cents = pos 300;
  deposit_cents = pos 0;
  status = listed;
  created_at = 100;
  updated_at = 100;
}

creates : (create true stove (quiet active)).0 ≡ ok made
unfolding create gearshare.Listing.Repository.create gearshare.Store.exec
    gearshare.Listing.Repository.get_by_id gearshare.Store.query find
    gearshare.Listing.Service.publish_created
creates = refl

create-indexed_example :
    (name : String) × (elastic.stored 2
        (handle_all elastic (events (create true stove (quiet active)).1.sent) [])
      ≡ some (indexed made name))
unfolding create gearshare.Listing.Repository.create gearshare.Store.exec
    gearshare.Listing.Repository.get_by_id gearshare.Store.query find
    gearshare.Listing.Service.publish_created events gearshare.SearchIndexer.handle_event
    gearshare.Category.get_by_id
create-indexed_example =
    create-indexed elastic stove made (quiet active) [] honest creates ((refl, refl), tt)
