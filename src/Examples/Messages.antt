-- ===== src/Examples/Messages.antt =====
-- The theorems on queues, events and the search index at the example.
use gearshare.Prelude.{
  ℕ, zero, suc, ◌+◌, ◌≤◌, ◌≡◌, refl, String, Bool, true, false, Option, none, some, List, [], ◌∷◌,
  arith, length, map_get, select, find, ◌==◌,
}
use gearshare.Prelude.Int.{pos}
use gearshare.Prelude.Text.{codes}
use gearshare.Model.Booking.{requested}
use gearshare.Model.Listing.{active}
use gearshare.Model.Event.{EmailJob, ListingEvent, listing_created, listing_deleted}
use gearshare.Store.{reader}
use gearshare.Queue.{notifications_topology, ack, nack, Channel, Signal, delivery, cancelled, run}
use gearshare.Queue.Settled.{answers_in, run-settles}
use gearshare.Notification.{Credentials, State, call_user_service, handle_email}
use gearshare.Notification.Emails.{Calm, emails-delivered}
use gearshare.SearchIndexer.{Document, answered, Elastic, handle_event}
use gearshare.SearchIndexer.Latest.{Honest, handle_all, last_about, index-latest, index-interleaved}
use gearshare.Eventbus.{
  draining, Consumer, new_consumer, fetches, enqueues, takes, works, ends, Reach, here, next, work,
}
use gearshare.Eventbus.Bounded.{Conserved, Reach-Bounded, Reach-Conserved}
use gearshare.Examples.{quiet, bob, ann}

-- A handler that fails on zero and adds up what it takes.
abbrev pub sum_handler : ℕ → ℕ → Bool × ℕ
sum_handler zero s = (false, s)
sum_handler (suc n) s = (true, s + suc n)

abbrev open_channel : {D : Type 0} → Channel D
open_channel = record { calls = []; fails = λ _. false }

abbrev signals : List (Signal ℕ)
signals = delivery 3 ∷ delivery 0 ∷ delivery 2 ∷ cancelled ∷ delivery 9 ∷ []

run-settles_example :
    (answers_in (run sum_handler notifications_topology signals 0 open_channel).2.calls
      ≡ ack 3 ∷ nack 0 ∷ ack 2 ∷ [])
    × ((run sum_handler notifications_topology signals 0 open_channel).1 ≡ 5)
unfolding answers_in
run-settles_example = run-settles sum_handler notifications_topology signals 0 open_channel refl

-- Jobs that are sent as they are.
abbrev decode : Option EmailJob → Option EmailJob
decode job = job

abbrev job_for : ℕ → EmailJob
job_for user = record { booking_id = 1; renter_id = user; template = "booking_approved" }

abbrev jobs : List (Signal (Option EmailJob))
jobs = delivery (some (job_for 2)) ∷ delivery none ∷ delivery (some (job_for 7)) ∷ []

abbrev pub creds : Credentials
creds = record { username = codes "admin"; password = codes "pw" }

abbrev pub start : State
start = record { world = quiet requested; mails = [] }

pub calm : Calm (bob ∷ ann ∷ []) (quiet requested)
unfolding reader
calm = record { fine = λ _. refl; shown = refl }

emails-delivered_example :
    ((run
        (handle_email (call_user_service (λ w. false) creds creds) decode)
        notifications_topology
        jobs
        start
        open_channel).1.mails
      ≡ record { to = "bob@example.org"; template = "booking_approved" } ∷ [])
    × (answers_in
          (run
            (handle_email (call_user_service (λ w. false) creds creds) decode)
            notifications_topology
            jobs
            start
            open_channel).2.calls
        ≡ ack (some (job_for 2)) ∷ nack none ∷ nack (some (job_for 7)) ∷ [])
unfolding answers_in find
emails-delivered_example =
    emails-delivered decode (bob ∷ ann ∷ []) (λ w. false) (λ w. refl) creds (omega arith)
      (omega arith) notifications_topology jobs start open_channel calm refl

-- An index that keeps what was put last under an id, and never fails.
abbrev pub Index : Type 0
Index = List (ℕ × Option Document)

abbrev joined : Option (Option Document) → Option Document
joined none = none
joined (some d) = d

abbrev pub elastic : Elastic Index
elastic = record {
  stored = λ id. λ s. joined (map_get id s);
  exists_index = λ _. answered 200;
  create_index = λ s. (answered 200, s);
  index_document = λ id. λ doc. λ s. (answered 200, (id, some doc) ∷ s);
  delete_document = λ id. λ s. (answered 200, (id, none) ∷ s);
  multi_match = λ _. λ _. λ _. (answered 200, []);
  lets_through = λ _. true;
  record_result = λ _. λ s. s;
}

pub honest : Honest elastic
unfolding map_get
honest = record {
  indexed = λ id. λ doc. λ s. λ h. ground arith;
  index_apart = λ id. λ other. λ doc. λ s. λ h. ground (arith, h);
  deleted = λ id. λ s. λ h. ground arith;
  delete_apart = λ id. λ other. λ s. λ h. ground (arith, h);
  noted = λ id. λ good. λ s. refl;
}

abbrev event : ℕ → String → ListingEvent
event id title = record {
  type = listing_created;
  listing_id = id;
  title = title;
  description = "";
  price_per_day_cents = pos 100;
  category_name = "Tents";
  status = active;
}

abbrev gone : ListingEvent
gone = record (event 1 "") { type = listing_deleted }

index-latest_example :
    elastic.stored 1 (handle_all elastic (event 1 "Tent" ∷ event 2 "Stove" ∷ gone ∷ []) []) ≡ none
unfolding handle_event last_about
index-latest_example =
    index-latest elastic honest (event 1 "Tent" ∷ event 2 "Stove" ∷ gone ∷ []) 1 []
      ((refl, refl), ((refl, refl), ((refl, refl), tt)))

one_way_or_the_other :
    (id : ℕ)
    → select (λ e. e.listing_id == id) (event 1 "Tent" ∷ event 2 "Stove" ∷ [])
      ≡ select (λ e. e.listing_id == id) (event 2 "Stove" ∷ event 1 "Tent" ∷ [])
unfolding select
one_way_or_the_other id = ground arith

index-interleaved_example :
    elastic.stored 2 (handle_all elastic (event 1 "Tent" ∷ event 2 "Stove" ∷ []) [])
    ≡ elastic.stored 2 (handle_all elastic (event 2 "Stove" ∷ event 1 "Tent" ∷ []) [])
unfolding handle_event
index-interleaved_example =
    index-interleaved elastic honest (event 1 "Tent" ∷ event 2 "Stove" ∷ [])
      (event 2 "Stove" ∷ event 1 "Tent" ∷ []) [] ((refl, refl), ((refl, refl), tt))
      ((refl, refl), ((refl, refl), tt)) one_way_or_the_other 2

-- One message that is fetched, queued, taken and handled, and the end.
abbrev empty : Consumer ℕ ℕ
empty = new_consumer 0

abbrev fetched : Consumer ℕ ℕ
fetched = record empty { held = some 3; fetched = 3 ∷ [] }

abbrev queued : Consumer ℕ ℕ
queued = record fetched { held = none; jobs = 3 ∷ [] }

abbrev taken : Consumer ℕ ℕ
taken = record queued { jobs = []; busy = 3 ∷ [] }

abbrev ended : Consumer ℕ ℕ
ended = record taken { phase = draining }

abbrev worked : Consumer ℕ ℕ
worked = work sum_handler 3 [] ended

ended_reached : Reach sum_handler (new_consumer 0) ended
ended_reached =
    next
      (next
        (next (next here (fetches 3 empty refl refl)) (enqueues 3 fetched refl refl (omega arith)))
        (takes 3 [] queued refl (omega arith)))
      (ends taken refl)

reached : Reach sum_handler (new_consumer 0) worked
reached = next ended_reached (works [] 3 [] ended refl)

Reach-Bounded_example :
    (length worked.jobs ≤ 16)
    × (length worked.busy ≤ 4)
    × (length worked.fetched
        ≤ 21 + (length worked.dropped + length worked.succeeded + length worked.failed))
    × (worked.committed ≡ worked.succeeded)
Reach-Bounded_example = Reach-Bounded sum_handler 0 worked reached

Reach-Conserved_example : Conserved sum_handler (λ n. n == 3) worked
Reach-Conserved_example = Reach-Conserved sum_handler (λ n. n == 3) 0 worked reached
