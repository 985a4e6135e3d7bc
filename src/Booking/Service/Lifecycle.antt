-- ===== src/Booking/Service/Lifecycle.antt =====
-- internal/booking/service.go: what a status change does to the tables. `id` is the booking, `to` the
-- new status; `type` only chooses the event.
use gearshare.Prelude.{
  ℕ, ◌≡◌, ◌∙◌, ◌⊎◌, inl, inr, true, Option, none, some, String, Option-cases, arith,
}
use gearshare.Model.Booking.{Booking, Status, can_transition}
use gearshare.Model.Event.{BookingEventType}
use gearshare.Store.{World, ok, Result-cases, reader, query, exec, CacheKey, detail, feed, ◌>>=◌}
use gearshare.Cache.ListingCache.{del, invalidate_detail}
use gearshare.Booking.Repository.{
  get_by_id, check_transition, write_transition, update_status, update_rows, find_booking,
}
use gearshare.Booking.Repository.Rows.{status_of}
use gearshare.Booking.Service.{
  Service, email_template_for, mail, invalidate_listing_cache, publish_event, queue_email_job,
  announce, transition,
}
use gearshare.Store.Keeps.{Kept, Kept-trans, Passes}

-- What follows the status change writes no table, and does not fail.
del-Passes : (k : CacheKey) (w : World) → Passes (del k) w
unfolding del
del-Passes k w = ground arith

invalidate_detail-Passes : (id : ℕ) (w : World) → Passes (invalidate_detail id) w
unfolding invalidate_detail
invalidate_detail-Passes id w =
    let w' = (del (detail id) w).1 in
    ground (arith, del-Passes (detail id) w, del-Passes (feed 20 0) w')

pub invalidate-Passes :
    (s : Service) (id : ℕ) (w : World) → Passes (invalidate_listing_cache s id) w
unfolding invalidate_listing_cache
invalidate-Passes s id w = ground (arith, invalidate_detail-Passes id w)

pub publish-Passes :
    (s : Service) (type : BookingEventType) (b : Booking) (w : World)
    → Passes (publish_event s type b) w
unfolding publish_event
publish-Passes s type b w = ground arith

mail-Passes : (s : Service) (b : Booking) (t : Option String) (w : World) → Passes (mail s b t) w
unfolding queue_email_job
mail-Passes s b none w = ground arith
mail-Passes s b (some t) w = ground arith

pub announce-Passes :
    (s : Service) (type : BookingEventType) (b : Booking) (w : World) → Passes (announce s type b) w
unfolding announce
announce-Passes s type b w =
    let w1 = (invalidate_listing_cache s b.listing_id w).1 in
    let w2 = (publish_event s type b w1).1 in
    ground (
      arith,
      invalidate-Passes s b.listing_id w,
      publish-Passes s type b w1,
      mail-Passes s b (email_template_for type) w2,
    )

pub get_by_id-Kept : (id : ℕ) (w : World) → Kept w (get_by_id id w).1
unfolding get_by_id query
get_by_id-Kept id w = ground arith

pub check_transition-Kept : (id : ℕ) (to : Status) (w : World) → Kept w (check_transition id to w).1
unfolding check_transition get_by_id query
check_transition-Kept id to w = ground arith

-- The check reads the row on `Reader()`, and passes only a change that the map allows.
pub check_transition-ok :
    (id : ℕ) (to : Status) (w : World)
    → (check_transition id to w).0 ≡ ok tt
    → (from : Status) × (status_of id (reader w).bookings ≡ some from)
      × (can_transition from to ≡ true)
unfolding check_transition get_by_id query status_of
check_transition-ok id to w h = elim (Option-cases (find_booking id (reader w).bookings)) [
  | inl e ↦ ground (arith, e)
  | inr (b, e) ↦ (b.status, ground (arith, e), ground (arith, e))
]

-- A status change that reached the table: the check passed, and the UPDATE was made.
abbrev pub Moved : ℕ → Status → World → World → Type 0
Moved id to w w' =
    (from : Status) × (now : ℕ) × (status_of id (reader w).bookings ≡ some from)
    × (can_transition from to ≡ true)
    × (w'.primary ≡ record (w.primary) { bookings = update_rows now id to w.primary.bookings })
    × (w'.replica ≡ w.replica)
    × (w'.next_booking ≡ w.next_booking)

write_transition-effect :
    (id : ℕ) (to : Status) (w v : World)
    → Kept w v
    → Kept w (write_transition id to v).1
      ⊎ ((write_transition id to v).1.primary
          ≡ record (w.primary) { bookings = update_rows v.now id to w.primary.bookings })
        × ((write_transition id to v).1.replica ≡ w.replica)
        × ((write_transition id to v).1.next_booking ≡ w.next_booking)
unfolding write_transition exec
write_transition-effect id to w v k = ground arith

update_status-Moved :
    (id : ℕ) (to : Status) (w : World)
    → Kept w (update_status id to w).1 ⊎ Moved id to w (update_status id to w).1
unfolding update_status
update_status-Moved id to w =
    let v = (check_transition id to w).1 in
    let k = check_transition-Kept id to w in
    elim (Result-cases (check_transition id to w).0) [
      | inr (e, p) ↦ rw (p, ◌>>=◌) (inl k)
      | inl (_, p) ↦ elim (write_transition-effect id to w v k) [
        | inl same ↦ rw (p, ◌>>=◌) (inl same)
        | inr (a, b, c) ↦
            let (from, found, allowed) = check_transition-ok id to w p in
            rw (p, ◌>>=◌) (inr (from, v.now, found, allowed, a, b, c))
      ]
    ]

-- What follows the UPDATE.
pub finish-Kept :
    (s : Service) (id : ℕ) (to : Status) (type : BookingEventType) (w : World)
    → Kept (update_status id to w).1 (transition s id to type w).1
unfolding transition
finish-Kept s id to type w =
    let v = (update_status id to w).1 in
    let k = get_by_id-Kept id v in
    elim (Result-cases (get_by_id id v).0) [
      | inl (b, p) ↦ ground (arith, p, k, announce-Passes s type b (get_by_id id v).1)
      | inr (e, p) ↦ ground (arith, p, k)
    ]

-- Whatever fails, the tables are as they were or the change is one that the map allows from the
-- status that the reader shows, and then it is the only change.
pub transition-Moved :
    (s : Service) (id : ℕ) (to : Status) (type : BookingEventType) (w : World)
    → Kept w (transition s id to type w).1 ⊎ Moved id to w (transition s id to type w).1
transition-Moved s id to type w =
    let k = finish-Kept s id to type w in
    elim (update_status-Moved id to w) [
      | inl same ↦ inl (Kept-trans same k)
      | inr (from, now, found, allowed, a, b, c) ↦
          inr (from, now, found, allowed, k.primary ∙ a, k.replica ∙ b, k.next_booking ∙ c)
    ]
