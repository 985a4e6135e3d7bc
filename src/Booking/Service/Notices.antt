-- ===== src/Booking/Service/Notices.antt =====
-- internal/booking/service.go: who is told of a booking, and when.
use gearshare.Prelude.{
  ℕ, String, ◌≡◌, find, ◌==◌, some, Option-cases, inl, inr, Bool, List, [], ◌∷◌, ◌++◌, arith,
  if◌then◌else◌,
}
use gearshare.Model.Booking.{Booking, Status}
use gearshare.Model.Event.{
  BookingEventType, booking_created, booking_approved, booking_activated, booking_rejected,
  booking_cancelled, booking_completed, booking_disputed, Effect, publish_booking, queue_email,
  send_transactional, topic_booking_events,
}
use gearshare.Store.{World, reader, Result, ok, err, Result-cases, query, exec, CacheKey}
use gearshare.Cache.ListingCache.{del, invalidate_detail}
use gearshare.Booking.Repository.{
  get_by_id, check_transition, write_transition, update_status, find_booking,
}
use gearshare.Booking.Service.Lifecycle.{announce-Passes}
use gearshare.Store.Keeps.{Kept}
use gearshare.Booking.Service.{
  Service, email_template_for, invalidate_listing_cache, publish_event, queue_email_job, announce,
  transition,
}

-- A list of one effect where a dependency is there.
abbrev pub one_if : Bool → Effect → List Effect
one_if b e = if b then e ∷ [] else []

abbrev pub event_of : Service → BookingEventType → Booking → ℕ → List Effect
event_of s type b now = one_if s.has_publisher (
    publish_booking topic_booking_events b.id (record {
      type = type;
      booking_id = b.id;
      listing_id = b.listing_id;
      renter_id = b.renter_id;
      status = b.status;
      occurred_at = now;
    }))

abbrev pub mail_of : Service → Booking → String → List Effect
mail_of s b template =
    one_if s.has_notifier
      (queue_email (record { booking_id = b.id; renter_id = b.renter_id; template = template }))

abbrev pub sync_of : Service → Booking → List Effect
sync_of s b = one_if s.has_sync (send_transactional b.renter_id "booking_disputed")

-- All that a status change sends, newest first: an event always, a mail when a booking is approved or
-- disputed, a synchronous notice only when it is disputed.
abbrev pub notices : Service → BookingEventType → Booking → ℕ → List Effect
notices s booking_approved b now =
    mail_of s b "booking_approved" ++ event_of s booking_approved b now
notices s booking_disputed b now =
    sync_of s b ++ (mail_of s b "booking_disputed" ++ event_of s booking_disputed b now)
notices s booking_created b now = event_of s booking_created b now
notices s booking_activated b now = event_of s booking_activated b now
notices s booking_rejected b now = event_of s booking_rejected b now
notices s booking_cancelled b now = event_of s booking_cancelled b now
notices s booking_completed b now = event_of s booking_completed b now

abbrev Silent : World → World → Type 0
Silent w v = (v.sent ≡ w.sent) × (v.now ≡ w.now)

del-Silent : (k : CacheKey) (w : World) → Silent w (del k w).1
unfolding del
del-Silent k w = ground arith

invalidate-Silent :
    (s : Service) (id : ℕ) (w : World)
    → ((invalidate_listing_cache s id w).0 ≡ ok tt) × Silent w (invalidate_listing_cache s id w).1
unfolding invalidate_listing_cache invalidate_detail del
invalidate-Silent s id w = ground arith

announce-sent :
    (s : Service) (type : BookingEventType) (b : Booking) (w : World)
    → ((announce s type b w).0 ≡ ok tt)
      × ((announce s type b w).1.sent ≡ notices s type b w.now ++ w.sent)
unfolding announce publish_event queue_email_job email_template_for
announce-sent s booking_created b w = ground (arith, invalidate-Silent s b.listing_id w)
announce-sent s booking_approved b w = ground (arith, invalidate-Silent s b.listing_id w)
announce-sent s booking_activated b w = ground (arith, invalidate-Silent s b.listing_id w)
announce-sent s booking_rejected b w = ground (arith, invalidate-Silent s b.listing_id w)
announce-sent s booking_cancelled b w = ground (arith, invalidate-Silent s b.listing_id w)
announce-sent s booking_completed b w = ground (arith, invalidate-Silent s b.listing_id w)
announce-sent s booking_disputed b w = ground (arith, invalidate-Silent s b.listing_id w)

-- A status change that is refused or fails sends nothing and leaves the cache as it was.
abbrev Quiet : World → World → Type 0
Quiet w v = Silent w v × (v.cache ≡ w.cache)

update_status-Quiet : (id : ℕ) (to : Status) (w : World) → Quiet w (update_status id to w).1
unfolding update_status check_transition write_transition get_by_id query exec
update_status-Quiet id to w = ground arith

get_by_id-Quiet : (id : ℕ) (w : World) → Quiet w (get_by_id id w).1
unfolding get_by_id query
get_by_id-Quiet id w = ground arith

-- What has been sent when a request ends, by its result.
abbrev pub Told : Service → ℕ → BookingEventType → World → Result Booking × World → Type 0
Told s id type w (ok b, v) =
    (find (λ x. x.id == id) (reader v).bookings ≡ some b)
    × (v.sent ≡ notices s type b w.now ++ w.sent)
Told s id type w (err e, v) = (v.sent ≡ w.sent) × (v.cache ≡ w.cache)

get_by_id-shown :
    (id : ℕ) (w : World) (b : Booking)
    → (get_by_id id w).0 ≡ ok b
    → find (λ x. x.id == id) (reader (get_by_id id w).1).bookings ≡ some b
unfolding get_by_id query find_booking reader
get_by_id-shown id w b h = elim (Option-cases (find_booking id (reader w).bookings)) [
  | inl e ↦ absurd (ground (arith, e, h))
  | inr (r, e) ↦ ground (arith, e, h)
]

reader-Kept : (w v : World) → Kept w v → reader v ≡ reader w
unfolding reader
reader-Kept w v k = ground (arith, k.primary, k.replica)

-- A status change that succeeds returns the row that the reader then shows, and has sent the event, and
-- the mails that its type calls for, about that row, once each and after all that was sent before; one that
-- fails, or is refused, has sent nothing and left the cache alone.
pub transition-notices :
    (s : Service) (id : ℕ) (to : Status) (type : BookingEventType) (w : World)
    → Told s id type w (transition s id to type w)
unfolding transition
transition-notices s id to type w =
    let u = (update_status id to w).1 in
    let v = (get_by_id id u).1 in
    let before = update_status-Quiet id to w in
    let after = get_by_id-Quiet id u in
    elim (Result-cases (update_status id to w).0) [
      | inr (e, p) ↦ ground (arith, p, before)
      | inl (_, p) ↦ elim (Result-cases (get_by_id id u).0) [
        | inr (e, q) ↦ ground (arith, p, q, before, after)
        | inl (b, q) ↦
            let still : reader (announce s type b v).1 ≡ reader v =
              reader-Kept v (announce s type b v).1 (announce-Passes s type b v).1 in
            let shown : find (λ x. x.id == id) (reader (announce s type b v).1).bookings ≡ some b =
              rw still (get_by_id-shown id u b q) in
            ground (arith, p, q, before, after, announce-sent s type b v, shown)
      ]
    ]
