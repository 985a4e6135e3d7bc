-- ===== src/Booking/Service.antt =====
-- internal/booking/service.go and the sending half of events.go. What is sent is recorded in
-- `sent`, newest first; a failure to send is only printed by the code, and so changes nothing here.
pub mod Lifecycle
pub mod Notices
pub mod Races
use gearshare.Prelude.{ℕ, String, Bool, true, false, Option, none, some, List, if◌then◌else◌}
use gearshare.Model.Booking.{
  Booking, Status, approved, rejected, active, completed, cancelled, disputed,
}
use gearshare.Model.Event.{
  BookingEventType, booking_created, booking_approved, booking_activated, booking_rejected,
  booking_cancelled, booking_completed, booking_disputed, publish_booking, queue_email,
  send_transactional, topic_booking_events,
}
use gearshare.Store.{World, M, ok, ◌>>=◌, ◌>>◌, pure, when, emit, get_now}
use gearshare.Cache.ListingCache.{invalidate_detail}
use gearshare.Booking.Repository.{get_by_id, update_status, list_for_owner}
use gearshare.Booking.Create.{CreateBookingInput, create_atomic}

-- Which of the optional dependencies are not nil.
pub record Service : Type 0 where
  pub has_publisher : Bool
  pub has_cache : Bool
  pub has_notifier : Bool
  pub has_sync : Bool

unfoldable pub publish_event : Service → BookingEventType → Booking → M (Unit {0})
publish_event s type b = do
  now ← get_now
  when s.has_publisher (
      emit (
        publish_booking topic_booking_events b.id (record {
          type = type;
          booking_id = b.id;
          listing_id = b.listing_id;
          renter_id = b.renter_id;
          status = b.status;
          occurred_at = now;
        })))

unfoldable pub queue_email_job : Service → ℕ → ℕ → String → M (Unit {0})
queue_email_job s booking_id renter_id template = when s.has_notifier (
    emit (
      queue_email (record { booking_id = booking_id; renter_id = renter_id; template = template })))

unfoldable pub invalidate_listing_cache : Service → ℕ → M (Unit {0})
invalidate_listing_cache s listing_id = when s.has_cache (invalidate_detail listing_id)

unfoldable pub create_booking : Service → CreateBookingInput → M Booking
create_booking s input = do
  b ← create_atomic input
  invalidate_listing_cache s b.listing_id
  publish_event s booking_created b
  pure b

unfoldable pub email_template_for : BookingEventType → Option String
email_template_for booking_approved = some "booking_approved"
email_template_for booking_disputed = some "booking_disputed"
email_template_for _ = none

abbrev pub is_disputed_event : BookingEventType → Bool
is_disputed_event booking_disputed = true
is_disputed_event _ = false

-- `if template, ok := emailTemplateFor(evtType); ok`
abbrev pub mail : Service → Booking → Option String → M (Unit {0})
mail s b none = pure tt
mail s b (some template) = queue_email_job s b.id b.renter_id template

-- What follows the status change: the cache, the event, the mail and the synchronous notice.
unfoldable pub announce : Service → BookingEventType → Booking → M (Unit {0})
announce s type b = do
  invalidate_listing_cache s b.listing_id
  publish_event s type b
  mail s b (email_template_for type)
  when (if is_disputed_event type then s.has_sync else false)
      (emit (send_transactional b.renter_id "booking_disputed"))

unfoldable pub transition : Service → ℕ → Status → BookingEventType → M Booking
transition s id to type = do update_status id to; b ← get_by_id id; announce s type b; pure b

unfoldable pub approve : Service → ℕ → M Booking
approve s id = transition s id approved booking_approved

unfoldable pub reject : Service → ℕ → M Booking
reject s id = transition s id rejected booking_rejected

unfoldable pub cancel : Service → ℕ → M Booking
cancel s id = transition s id cancelled booking_cancelled

unfoldable pub activate : Service → ℕ → M Booking
activate s id = transition s id active booking_activated

unfoldable pub complete : Service → ℕ → M Booking
complete s id = transition s id completed booking_completed

unfoldable pub dispute : Service → ℕ → M Booking
dispute s id = transition s id disputed booking_disputed
