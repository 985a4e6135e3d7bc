-- ===== src/Notification/Emails.antt =====
-- cmd/notification-service/main.go with internal/queue and the monolith: which e-mails go out, and to whom.
use gearshare.Prelude.{
  ℕ, ◌≡◌, refl, sym, ap, ◌∙◌, Bool, true, false, Option, none, some, List, [], ◌∷◌, ◌++◌, arith,
  All, find, ◌==◌, map, Option-cases, inl, inr, same, same_refl, length, if◌then◌else◌,
}
use gearshare.Model.Event.{EmailJob}
use gearshare.Model.User.{User}
use gearshare.Store.{World, reader, query, tick}
use gearshare.User.{get_by_id}
use gearshare.Codec.Base64.RoundTrip.{IsByte}
use gearshare.Auth.Interceptor.{Rpc, reply, unauthenticated, not_found}
use gearshare.Auth.Interceptor.Agreement.{intercept-client}
use gearshare.Queue.{Topology, Channel, Signal, ack, nack, run}
use gearshare.Queue.Settled.{arrived, answers_in, answers, handled, run-settles}
use gearshare.Notification.{
  UserContact, contact_of, get_user_contact, Credentials, call_user_service, Mail, State,
  handle_email, send_transactional,
}

-- No statement fails, and reads show these users.
pub record Calm (users : List User) (w : World) : Type 0 where
  pub fine : (n : ℕ) → w.faults n ≡ none
  pub shown : (reader w).users ≡ users

abbrev found_contact : Option User → Rpc UserContact
found_contact none = not_found "user not found"
found_contact (some u) = reply (contact_of u)

pub get_user_contact-Calm :
    (users : List User) (id : ℕ) (w : World)
    → Calm users w
    → get_user_contact id w ≡ (found_contact (find (λ u. u.id == id) users), tick w)
unfolding get_user_contact get_by_id query
get_user_contact-Calm users id w calm =
    elim (Option-cases (find (λ u. u.id == id) (reader w).users)) [
      | inl e ↦ ground (arith, e, calm.fine w.clock, ap (find (λ u. u.id == id)) (sym calm.shown))
      | inr (u, e) ↦
          ground (arith, e, calm.fine w.clock, ap (find (λ u. u.id == id)) (sym calm.shown))
    ]

pub tick-Calm : (users : List User) (w : World) → Calm users w → Calm users (tick w)
unfolding reader
tick-Calm users w calm = record { fine = calm.fine; shown = calm.shown }

pub same_credentials :
    (down : World → Bool) (c : Credentials) (id : ℕ) (w : World)
    → down w ≡ false
    → All IsByte c.username
    → All IsByte c.password
    → call_user_service down c c id w ≡ get_user_contact id w
unfolding call_user_service
same_credentials down c id w up hu hp =
    let pair = c.username ++ b':' ∷ c.password in
    let allowed : (if same pair pair
          then get_user_contact id
          else (λ v. (unauthenticated "invalid credentials", v)))
        ≡ get_user_contact id =
      rw (same_refl pair) refl in
    rw up (
      ap (λ f. f w)
        (intercept-client c.username c.password c.username c.password
            (λ message. λ v. (unauthenticated message, v)) (get_user_contact id) hu hp hu hp
          ∙ allowed))

module _ {D : Type 0} (decode : D → Option EmailJob) (users : List User) where
  -- The mail that a delivery asks for, if it is a job for a user that there is.
  abbrev mail_for : EmailJob → Option User → Option Mail
  mail_for job none = none
  mail_for job (some u) = some (record { to = u.email; template = job.template })

  abbrev asked : Option EmailJob → Option Mail
  asked none = none
  asked (some job) = mail_for job (find (λ u. u.id == job.renter_id) users)

  abbrev pub mail_of : D → Option Mail
  mail_of d = asked (decode d)

  abbrev pub is_some : Option Mail → Bool
  is_some none = false
  is_some (some m) = true

  abbrev pub push : Option Mail → List Mail → List Mail
  push none mails = mails
  push (some m) mails = m ∷ mails

  abbrev pub push_all : List D → List Mail → List Mail
  push_all [] mails = mails
  push_all (d ∷ ds) mails = push_all ds (push (mail_of d) mails)

  abbrev next_world : Option EmailJob → World → World
  next_world none w = w
  next_world (some job) w = tick w

  next_world-Calm : (o : Option EmailJob) (w : World) → Calm users w → Calm users (next_world o w)
  next_world-Calm none w calm = calm
  next_world-Calm (some job) w calm = tick-Calm users w calm

  module _ (down : World → Bool) (up : (w : World) → down w ≡ false) (c : Credentials)
      (hu : All IsByte c.username) (hp : All IsByte c.password) where
    one_email :
        (d : D) (s : State)
        → Calm users s.world
        → handle_email (call_user_service down c c) decode d s ≡ (
          is_some (mail_of d),
          record { world = next_world (decode d) s.world; mails = push (mail_of d) s.mails },
        )
    unfolding handle_email send_transactional
    one_email d s calm = elim (Option-cases (decode d)) [
      | inl e ↦ rw e refl
      | inr (job, e) ↦
          let q =
            same_credentials down c job.renter_id s.world (up s.world) hu hp
            ∙ get_user_contact-Calm users job.renter_id s.world calm in
          elim (Option-cases (find (λ u. u.id == job.renter_id) users)) [
            | inl f ↦ rw (e, q, f) refl
            | inr (u, f) ↦ rw (e, q, f) refl
          ]
    ]

    -- By induction on the deliveries.
    all_emails :
        (ds : List D) (s : State)
        → Calm users s.world
        → (answers (handle_email (call_user_service down c c) decode) ds s
            ≡ map (λ d. if is_some (mail_of d) then ack d else nack d) ds)
          × ((handled (handle_email (call_user_service down c c) decode) ds s).mails
              ≡ push_all ds s.mails)
    all_emails [] s calm = (refl, refl)
    all_emails (d ∷ ds) s calm =
        let e = one_email d s calm in
        let (rest, mails) =
          all_emails ds
            (record { world = next_world (decode d) s.world; mails = push (mail_of d) s.mails })
            (next_world-Calm (decode d) s.world calm) in
        (
          rw (e, rest) refl,
          ap (λ r. (handled (handle_email (call_user_service down c c) decode) ds r.1).mails) e
              ∙ mails,
        )

    -- A notification consumer whose first call is not refused, with the credential that the monolith expects,
    -- and while the network to the monolith holds and no statement fails, mails the user of every job that reaches it, once and in order, to the
    -- e-mail address that the user's row has; it acknowledges exactly those deliveries, and sends to the
    -- dead-letter queue each one that is no job or a job for a user that there is not.
    pub emails-delivered :
        (t : Topology) (signals : List (Signal D)) (s : State) (ch : Channel D)
        → Calm users s.world
        → ch.fails (length ch.calls) ≡ false
        → ((run (handle_email (call_user_service down c c) decode) t signals s ch).1.mails
            ≡ push_all (arrived signals) s.mails)
          × (answers_in
                (run (handle_email (call_user_service down c c) decode) t signals s ch).2.calls
              ≡ answers_in ch.calls
                ++ map (λ d. if is_some (mail_of d) then ack d else nack d) (arrived signals))
    emails-delivered t signals s ch calm fine =
        let handler = handle_email (call_user_service down c c) decode in
        let (calls, state) = run-settles handler t signals s ch fine in
        let (settled, mails) = all_emails (arrived signals) s calm in
        (ap (λ v. v.mails) state ∙ mails, calls ∙ ap (λ a. answers_in ch.calls ++ a) settled)
