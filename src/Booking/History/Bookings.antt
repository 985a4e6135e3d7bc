-- ===== src/Booking/History/Bookings.antt =====
-- What holds of the blocks and the bookings after any history: no listing is booked twice for a day,
-- and no booking is without its block.
use gearshare.Prelude.{
  ℕ, ◌≡◌, refl, ap, All-map, Bool-cases, ◌∙◌, ◌⊎◌, inl, inr, Bool, true, false, ◌&&◌, ◌||◌, none,
  some, List, [], ◌∷◌, arith, ◌==◌, All,
}
use gearshare.Model.Booking.{
  Booking, Status, approved, rejected, active, completed, cancelled, disputed,
}
use gearshare.Model.Availability.{Block}
use gearshare.Store.{World, Tables, Result-cases}
use gearshare.Store.Keeps.{Kept}
use gearshare.Booking.Create.{CreateBookingInput, create_atomic}
use gearshare.Booking.Create.Outcome.{create_atomic-Booked}
use gearshare.Booking.Create.Overlap.{NoOverlap, create_atomic-NoOverlap}
use gearshare.Booking.Repository.{update_rows, with_status}
use gearshare.Prelude.Int.{ℤ}
use gearshare.Booking.Create.Atomic.{booking_row, block_row}
use gearshare.Booking.Service.{
  Service, create_booking, approve, reject, cancel, activate, complete, dispute,
  invalidate_listing_cache,
}
use gearshare.Model.Event.{
  booking_created, booking_approved, booking_rejected, booking_cancelled, booking_activated,
  booking_completed, booking_disputed,
}
use gearshare.Booking.Service.Lifecycle.{transition-Moved, Moved, invalidate-Passes, publish-Passes}
use gearshare.Booking.History.{
  Move, approves, rejects, cancels, activates, completes, disputes, perform, Step, creates, moves,
  around, Reach, here, next,
}

-- After the transaction CreateBooking writes no table.
pub create_booking-Kept :
    (s : Service) (input : CreateBookingInput) (w : World)
    → Kept (create_atomic input w).1 (create_booking s input w).1
unfolding create_booking
create_booking-Kept s input w =
    let v = (create_atomic input w).1 in
    elim (Result-cases (create_atomic input w).0) [
      | inl (b, p) ↦ ground (
        arith,
        p,
        invalidate-Passes s b.listing_id v,
        publish-Passes s booking_created b (invalidate_listing_cache s b.listing_id v).1,
      )
      | inr (e, p) ↦ ground (arith, p)
    ]

some_change :
    (id : ℕ) (to : Status) (w v : World)
    → Kept w v ⊎ Moved id to w v
    → Kept w v ⊎ ((t : Status) × Moved id t w v)
some_change id to w v (inl k) = inl k
some_change id to w v (inr m) = inr (to, m)

-- A call of the service that changes a status leaves the tables, or makes one allowed change.
pub perform-Moved :
    (s : Service) (m : Move) (id : ℕ) (w : World)
    → Kept w (perform s m id w).1 ⊎ ((to : Status) × Moved id to w (perform s m id w).1)
unfolding approve reject cancel activate complete dispute
perform-Moved s approves id w =
    some_change id _ w _ (transition-Moved s id approved booking_approved w)
perform-Moved s rejects id w =
    some_change id _ w _ (transition-Moved s id rejected booking_rejected w)
perform-Moved s cancels id w =
    some_change id _ w _ (transition-Moved s id cancelled booking_cancelled w)
perform-Moved s activates id w =
    some_change id _ w _ (transition-Moved s id active booking_activated w)
perform-Moved s completes id w =
    some_change id _ w _ (transition-Moved s id completed booking_completed w)
perform-Moved s disputes id w =
    some_change id _ w _ (transition-Moved s id disputed booking_disputed w)

-- A block with the dates of a booking that names it.
abbrev pub blocks_for : Booking → Block → Bool
blocks_for b k =
    (elim k.booking_id [ none ↦ false | some id ↦ id == b.id ])
    && (k.listing_id == b.listing_id && (k.start_date == b.start_date && k.end_date == b.end_date))

unfoldable pub has_block : Booking → List Block → Bool
has_block b [] = false
has_block b (k ∷ ks) = blocks_for b k || has_block b ks

-- Every booking has its block.
abbrev pub Paired : Tables → Type 0
Paired t = All (λ b. has_block b t.blocks ≡ true) t.bookings

has_block-with_status :
    (now : ℕ) (to : Status) (b : Booking) (ks : List Block)
    → has_block (with_status now to b) ks ≡ has_block b ks
unfolding has_block
has_block-with_status now to b [] = refl
has_block-with_status now to b (k ∷ ks) = ground (arith, has_block-with_status now to b ks)

update_rows-Paired :
    (now id : ℕ) (to : Status) (ks : List Block) (bs : List Booking)
    → All (λ b. has_block b ks ≡ true) bs
    → All (λ b. has_block b ks ≡ true) (update_rows now id to bs)
unfolding update_rows
update_rows-Paired now id to ks [] h = tt
update_rows-Paired now id to ks (b ∷ bs) h = elim (Bool-cases (b.id == id)) [
  | inl e ↦ rw e (has_block-with_status now to b ks ∙ h.0, update_rows-Paired now id to ks bs h.1)
  | inr e ↦ rw e (h.0, update_rows-Paired now id to ks bs h.1)
]

has_block-cons :
    (b : Booking) (k : Block) (ks : List Block)
    → has_block b ks ≡ true
    → has_block b (k ∷ ks) ≡ true
unfolding has_block
has_block-cons b k ks h = ground arith

has_block-new :
    (input : CreateBookingInput) (total : ℤ) (id block now : ℕ) (ks : List Block)
    → has_block (booking_row input total id now) (block_row input total block id now ∷ ks) ≡ true
unfolding has_block
has_block-new input total id block now ks = ground arith

-- A booking request keeps every booking with its block.
create_atomic-Paired :
    (input : CreateBookingInput) (w : World)
    → Paired w.primary
    → Paired (create_atomic input w).1.primary
create_atomic-Paired input w h = elim (create_atomic-Booked input w) [
  | inl (same, _) ↦ rw same.0 h
  | inr (l, total, id, block, now, _, _, _, _, _, wrote) ↦ rw wrote (
    has_block-new input total id block now w.primary.blocks,
    All-map (λ b. has_block-cons b (block_row input total block id now) w.primary.blocks)
        w.primary.bookings h,
  )
]

perform-Paired :
    (s : Service) (m : Move) (id : ℕ) (w : World)
    → Paired w.primary
    → Paired (perform s m id w).1.primary
perform-Paired s m id w h = elim (perform-Moved s m id w) [
  | inl k ↦ rw k.primary h
  | inr (to, (from, now, _, _, e, _, _)) ↦
      rw e (update_rows-Paired now id to w.primary.blocks w.primary.bookings h)
]

Step-Paired : (s : Service) {w v : World} → Step s w v → Paired w.primary → Paired v.primary
Step-Paired s (creates input w) h =
    rw (create_booking-Kept s input w).primary (create_atomic-Paired input w h)
Step-Paired s (moves m id w) h = perform-Paired s m id w h
Step-Paired s (around a) h = rw (a.bookings, a.blocks) h

-- After any history of calls, with any faults and any replica, every booking row has a block of the
-- same listing and dates that names it, if that held before.
pub Reach-Paired : (s : Service) {w v : World} → Reach s w v → Paired w.primary → Paired v.primary
Reach-Paired s here h = h
Reach-Paired s (next r st) h = Step-Paired s st (Reach-Paired s r h)

-- No status change touches a block: those of a cancelled or rejected booking stay.
pub perform-blocks :
    (s : Service) (m : Move) (id : ℕ) (w : World)
    → (perform s m id w).1.primary.blocks ≡ w.primary.blocks
perform-blocks s m id w = elim (perform-Moved s m id w) [
  | inl k ↦ ap (λ (t : Tables). t.blocks) k.primary
  | inr (to, (from, now, _, _, e, _, _)) ↦ ap (λ (t : Tables). t.blocks) e
]

Step-NoOverlap :
    (s : Service) {w v : World}
    → Step s w v
    → NoOverlap w.primary.blocks
    → NoOverlap v.primary.blocks
Step-NoOverlap s (creates input w) h =
    rw (create_booking-Kept s input w).primary (create_atomic-NoOverlap input w h)
Step-NoOverlap s (moves m id w) h = rw (perform-blocks s m id w) h
Step-NoOverlap s (around a) h = rw a.blocks h

-- After any history of calls, with any faults and any replica, no two blocks of one listing share a
-- day, if none did before.
pub Reach-NoOverlap :
    (s : Service) {w v : World}
    → Reach s w v
    → NoOverlap w.primary.blocks
    → NoOverlap v.primary.blocks
Reach-NoOverlap s here h = h
Reach-NoOverlap s (next r st) h = Step-NoOverlap s st (Reach-NoOverlap s r h)
