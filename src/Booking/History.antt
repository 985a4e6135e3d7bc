-- ===== src/Booking/History.antt =====
-- Histories of internal/booking/service.go: any calls of the service, one after the other. A call is one step, so
-- that two calls that overlap in time, whose check and write the code does not lock, are no history; what they
-- can do is in Booking/Service/Races. Between the calls the other tables, the clock, the faults and the replica
-- may change.
pub mod Bookings
pub mod Statuses
use gearshare.Prelude.{ℕ, ◌≡◌, none}
use gearshare.Model.Booking.{Booking}
use gearshare.Store.{World, M}
use gearshare.Booking.Create.{CreateBookingInput}
use gearshare.Booking.Service.{
  Service, create_booking, approve, reject, cancel, activate, complete, dispute,
}

pub data Move : Type 0 where
  approves rejects cancels activates completes disputes : Move

abbrev pub perform : Service → Move → ℕ → M Booking
perform s approves id = approve s id
perform s rejects id = reject s id
perform s cancels id = cancel s id
perform s activates id = activate s id
perform s completes id = complete s id
perform s disputes id = dispute s id

-- What happens between the calls writes no booking and no block, and adds no replica where there is none. The
-- other tables may change, and a replica may come to show anything.
pub record Around (w v : World) : Type 0 where
  pub bookings : v.primary.bookings ≡ w.primary.bookings
  pub blocks : v.primary.blocks ≡ w.primary.blocks
  pub next_booking : v.next_booking ≡ w.next_booking
  pub single : w.replica ≡ none → v.replica ≡ none

pub data Step (s : Service) : World → World → Type 0 where
  creates : (input : CreateBookingInput) (w : World) → Step s w (create_booking s input w).1
  moves : (m : Move) (id : ℕ) (w : World) → Step s w (perform s m id w).1
  around : {w v : World} → Around w v → Step s w v

pub data Reach (s : Service) (w : World) : World → Type 0 where
  here : Reach s w w
  next : {u v : World} → Reach s w u → Step s u v → Reach s w v
