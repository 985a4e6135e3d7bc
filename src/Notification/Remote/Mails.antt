-- ===== src/Notification/Remote/Mails.antt =====
-- internal/booking/service.go with cmd/notification-service: the mails that a status change comes to.
use gearshare.Prelude.{
  ℕ, ◌≡◌, refl, ap, ◌∙◌, String, Bool, true, false, not, ◌&&◌, some, List, [], ◌∷◌, ◌++◌, arith,
  All, find, ◌==◌, if◌then◌else◌, same_refl, Bool-cases, inl, inr,
}
use gearshare.Model.Event.{
  BookingEventType, booking_created, booking_approved, booking_activated, booking_rejected,
  booking_cancelled, booking_completed, booking_disputed, Effect,
}
use gearshare.Model.User.{User}
use gearshare.Model.Booking.{Booking, Status}
use gearshare.Store.{World, Result, ok, err, tick}
use gearshare.Codec.Base64.RoundTrip.{IsByte}
use gearshare.Auth.Interceptor.{reply, unauthenticated}
use gearshare.Auth.Interceptor.Agreement.{intercept-client}
use gearshare.Booking.Service.{Service, transition}
use gearshare.Booking.Service.Notices.{
  event_of, mail_of, sync_of, notices, Told, transition-notices,
}
use gearshare.Notification.{
  Credentials, Mail, State, call_user_service, handle_email, send_transactional_rpc,
}
use gearshare.Notification as Notification
use gearshare.Notification.Emails.{Calm, get_user_contact-Calm, same_credentials, tick-Calm}
use gearshare.Notification.Remote.{serve_transactional, send_transactional, deliver_all}

-- The mails to a user by a status change, the newest first: one through the queue, and one more through the
-- synchronous call.
abbrev pub due : Service → Bool → BookingEventType → User → List Mail
due s network_down booking_approved u =
    if s.has_notifier then record { to = u.email; template = "booking_approved" } ∷ [] else []
due s network_down booking_disputed u =
    let m : Mail = record { to = u.email; template = "booking_disputed" } in
    (if s.has_sync && not network_down then m ∷ [] else [])
    ++ (if s.has_notifier then m ∷ [] else [])
due s network_down _ u = []

module _ (unreachable : World → Bool) (up : (w : World) → unreachable w ≡ false) (c : Credentials)
    (hu : All IsByte c.username) (hp : All IsByte c.password) where
  -- After one mail, if it is sent.
  abbrev after : Bool → Mail → State → State
  after true m s = record { world = tick s.world; mails = m ∷ s.mails }
  after false m s = s

  module _ (users : List User) (u : User) where
    after-Calm :
        (b : Bool) (m : Mail) (s : State) → Calm users s.world → Calm users (after b m s).world
    after-Calm true m s calm = tick-Calm users s.world calm
    after-Calm false m s calm = calm

    sends :
        (id : ℕ) (template : String) (s : State)
        → Calm users s.world
        → find (λ v. v.id == id) users ≡ some u
        → Notification.send_transactional (call_user_service unreachable c c) id template s
          ≡ (reply tt, after true (record { to = u.email; template = template }) s)
    unfolding Notification.send_transactional
    sends id template s calm f =
        let q =
          same_credentials unreachable c id s.world (up s.world) hu hp
          ∙ get_user_contact-Calm users id s.world calm in
        rw (q, f) refl

    remote-sends :
        (down : Bool) (id : ℕ) (template : String) (s : State)
        → Calm users s.world
        → find (λ v. v.id == id) users ≡ some u
        → (send_transactional unreachable c c down id template s).1
          ≡ after (not down) (record { to = u.email; template = template }) s
    unfolding send_transactional serve_transactional send_transactional_rpc
    remote-sends true id template s calm f = refl
    remote-sends false id template s calm f =
        let pair = c.username ++ b':' ∷ c.password in
        let sent =
          Notification.send_transactional (call_user_service unreachable c c) id template s in
        let e =
          intercept-client c.username c.password c.username c.password (λ m. (unauthenticated m, s))
            sent hu hp hu hp in
        rw (e, same_refl pair, sends id template s calm f) refl

    queue-sends :
        (b : Booking) (template : String) (s : State)
        → Calm users s.world
        → find (λ v. v.id == b.renter_id) users ≡ some u
        → (handle_email
            (call_user_service unreachable c c)
            (λ j. some j)
            (record { booking_id = b.id; renter_id = b.renter_id; template = template })
            s).1
          ≡ after true (record { to = u.email; template = template }) s
    unfolding handle_email
    queue-sends b template s calm f = ap (λ r. r.1) (sends b.renter_id template s calm f)

    delivered_queue :
        (v : Service) (down : Bool) (b : Booking) (template : String) (es : List Effect) (s : State)
        → Calm users (deliver_all unreachable c c down es s).world
        → find (λ v. v.id == b.renter_id) users ≡ some u
        → deliver_all unreachable c c down (mail_of v b template ++ es) s
          ≡ after v.has_notifier
              (record { to = u.email; template = template })
              (deliver_all unreachable c c down es s)
    unfolding deliver_all
    delivered_queue v down b template es s calm f = elim (Bool-cases v.has_notifier) [
      | inr e ↦ rw e refl
      | inl e ↦ rw e (queue-sends b template (deliver_all unreachable c c down es s) calm f)
    ]

    delivered_sync :
        (v : Service) (down : Bool) (b : Booking) (es : List Effect) (s : State)
        → Calm users (deliver_all unreachable c c down es s).world
        → find (λ v. v.id == b.renter_id) users ≡ some u
        → deliver_all unreachable c c down (sync_of v b ++ es) s
          ≡ after
              (v.has_sync && not down)
              (record { to = u.email; template = "booking_disputed" })
              (deliver_all unreachable c c down es s)
    unfolding deliver_all
    delivered_sync v down b es s calm f = elim (Bool-cases v.has_sync) [
      | inr e ↦ rw e refl
      | inl e ↦ rw e (
          remote-sends down b.renter_id "booking_disputed" (deliver_all unreachable c c down es s)
            calm f)
    ]

    delivered_event :
        (v : Service) (down : Bool) (type : BookingEventType) (b : Booking) (now : ℕ) (s : State)
        → deliver_all unreachable c c down (event_of v type b now) s ≡ s
    unfolding deliver_all
    delivered_event v down type b now s = elim (Bool-cases v.has_publisher) [
      | inr e ↦ rw e refl
      | inl e ↦ rw e refl
    ]

    after-mails :
        (b : Bool) (m : Mail) (s : State)
        → (after b m s).mails ≡ (if b then m ∷ [] else []) ++ s.mails
    after-mails true m s = refl
    after-mails false m s = refl

    queued :
        (v : Service) (down : Bool) (type : BookingEventType) (b : Booking) (template : String)
        (now : ℕ) (s : State)
        → Calm users s.world
        → find (λ x. x.id == b.renter_id) users ≡ some u
        → deliver_all unreachable c c down (mail_of v b template ++ event_of v type b now) s
          ≡ after v.has_notifier (record { to = u.email; template = template }) s
    queued v down type b template now s calm f =
        let e = delivered_event v down type b now s in
        delivered_queue v down b template (event_of v type b now) s (rw e calm) f
        ∙ ap (after v.has_notifier _) e

    delivered_notices :
        (v : Service) (down : Bool) (type : BookingEventType) (b : Booking) (now : ℕ) (s : State)
        → Calm users s.world
        → find (λ x. x.id == b.renter_id) users ≡ some u
        → (deliver_all unreachable c c down (notices v type b now) s).mails
          ≡ due v down type u ++ s.mails
    delivered_notices v down booking_approved b now s calm f =
        ap (λ r. r.mails) (queued v down booking_approved b "booking_approved" now s calm f)
        ∙ after-mails v.has_notifier _ s
    delivered_notices v down booking_disputed b now s calm f =
        let m : Mail = record { to = u.email; template = "booking_disputed" } in
        let q = queued v down booking_disputed b "booking_disputed" now s calm f in
        let es = mail_of v b "booking_disputed" ++ event_of v booking_disputed b now in
        let calm' : Calm users (deliver_all unreachable c c down es s).world =
          rw q (after-Calm v.has_notifier m s calm) in
        let synced = delivered_sync v down b es s calm' f in
        let both : (after (v.has_sync && not down) m (after v.has_notifier m s)).mails
            ≡ due v down booking_disputed u ++ s.mails =
          elim (Bool-cases (v.has_sync && not down)) [
            | inl e ↦ rw e (ap (λ ms. m ∷ ms) (after-mails v.has_notifier m s))
            | inr e ↦ rw e (after-mails v.has_notifier m s)
          ] in
        ap (λ r. r.mails) (synced ∙ ap (after (v.has_sync && not down) m) q) ∙ both
    delivered_notices v down booking_created b now s calm f =
        ap (λ r. r.mails) (delivered_event v down booking_created b now s)
    delivered_notices v down booking_activated b now s calm f =
        ap (λ r. r.mails) (delivered_event v down booking_activated b now s)
    delivered_notices v down booking_rejected b now s calm f =
        ap (λ r. r.mails) (delivered_event v down booking_rejected b now s)
    delivered_notices v down booking_cancelled b now s calm f =
        ap (λ r. r.mails) (delivered_event v down booking_cancelled b now s)
    delivered_notices v down booking_completed b now s calm f =
        ap (λ r. r.mails) (delivered_event v down booking_completed b now s)

  Told-ok :
      (v : Service) (id : ℕ) (type : BookingEventType) (w : World) (r : Result Booking × World)
      (b : Booking)
      → Told v id type w r
      → r.0 ≡ ok b
      → r.1.sent ≡ notices v type b w.now ++ w.sent
  Told-ok v id type w (ok b', w') b told h = ground (arith, told.1, h)
  Told-ok v id type w (err e, w') b told h = absurd (cc)

  -- With the same credential in both processes, while the service reaches the monolith and no statement fails, what a status change that succeeds
  -- sends to notification-service mails the booking's renter, at the address of the user's row: once for an
  -- approval with a queue, for a dispute once through the queue and once more through the synchronous call where it
  -- gets through, and not at all for any other change.
  pub transition-mails :
      (users : List User) (u : User) (v : Service) (down : Bool) (id : ℕ) (to : Status)
      (type : BookingEventType) (b : Booking) (w : World) (s : State)
      → (transition v id to type w).0 ≡ ok b
      → Calm users s.world
      → find (λ x. x.id == b.renter_id) users ≡ some u
      → ((transition v id to type w).1.sent ≡ notices v type b w.now ++ w.sent)
        × ((deliver_all unreachable c c down (notices v type b w.now) s).mails
            ≡ due v down type u ++ s.mails)
  transition-mails users u v down id to type b w s h calm f = (
    Told-ok v id type w (transition v id to type w) b (transition-notices v id to type w) h,
    delivered_notices users u v down type b w.now s calm f,
  )
