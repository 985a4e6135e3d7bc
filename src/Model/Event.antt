-- ===== src/Model/Event.antt =====
-- internal/booking/events.go, internal/listing/events.go and internal/eventbus/topics.go: what the
-- monolith sends to other processes. JSON is not modelled: a message is the value that is encoded.
use gearshare.Prelude.{ℕ, String}
use gearshare.Prelude.Int.{ℤ}
use gearshare.Model.Booking.{Status, Booking}
use gearshare.Model.Listing.{Status as ListingStatus}

pub data BookingEventType : Type 0 where
  booking_created booking_approved booking_activated booking_rejected : BookingEventType
  booking_cancelled booking_completed booking_disputed : BookingEventType

pub record BookingEvent : Type 0 where
  pub type : BookingEventType
  pub booking_id : ℕ
  pub listing_id : ℕ
  pub renter_id : ℕ
  pub status : Status
  pub occurred_at : ℕ

pub data ListingEventType : Type 0 where
  listing_created listing_updated listing_deleted : ListingEventType

pub record ListingEvent : Type 0 where
  pub type : ListingEventType
  pub listing_id : ℕ
  pub title : String
  pub description : String
  pub price_per_day_cents : ℤ
  pub category_name : String
  pub status : ListingStatus

-- `emailJob` of internal/booking/service.go.
pub record EmailJob : Type 0 where
  pub booking_id : ℕ
  pub renter_id : ℕ
  pub template : String

-- A Kafka message has a topic and a key, the decimal text of an id: here the id itself.
pub data Effect : Type 0 where
  publish_booking : String → ℕ → BookingEvent → Effect
  publish_listing : String → ℕ → ListingEvent → Effect
  queue_email : EmailJob → Effect
  send_transactional : ℕ → String → Effect
  push_owner : ℕ → Booking → Effect  -- realtime.Hub's PublishOwner

abbrev pub topic_booking_events : String
topic_booking_events = "booking.events"

abbrev pub topic_listing_events : String
topic_listing_events = "listing.events"
