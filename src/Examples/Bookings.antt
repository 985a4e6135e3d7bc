-- ===== src/Examples/Bookings.antt =====
-- The theorems on bookings at the example.
use gearshare.Prelude.{◌*◌, ◌≡◌, ◌⊎◌, refl, true, false, none, some, arith, find, count_where}
use gearshare.Prelude.Int.{pos, ◌*ℤ◌}
use gearshare.Model.Booking.{Status, requested, approved, rejected, can_transition}
use gearshare.Model.Event.{booking_approved}
use gearshare.Store.{World, reader, ok, err, booking_not_found, is_err}
use gearshare.Store.Keeps.{Kept}
use gearshare.Booking.Pricing.{day_ns, nights_between, calculate_total_price_cents}
use gearshare.Booking.Pricing.Exact.{calculate_total_price_cents_days}
use gearshare.Booking.Repository.{find_booking, check_transition, write_transition}
use gearshare.Booking.Repository.Rows.{status_of}
use gearshare.Booking.Create.{create_atomic}
use gearshare.Booking.Create.Atomic.{with_rows}
use gearshare.Booking.Create.Outcome.{Unchanged, Booked, create_atomic-Booked}
use gearshare.Booking.Create.Overlap.{NoOverlap}
use gearshare.Booking.Create.Answer.{create_atomic-lagging}
use gearshare.Booking.Service.{create_booking, transition}
use gearshare.Booking.Service.Lifecycle.{Moved, transition-Moved}
use gearshare.Booking.Service.Notices.{Told, transition-notices}
use gearshare.Booking.Service.Races.{check_transition-race}
use gearshare.Booking.History.{perform, approves, Reach, here, next, creates, moves}
use gearshare.Booking.History.Bookings.{Paired, has_block, Reach-Paired, Reach-NoOverlap}
use gearshare.Booking.History.Statuses.{Leads, IsSingle, Reach-Follows}
use gearshare.Examples.{quiet, world_with, tables, service, free_days, tent}

-- A booking of free days and then an approval of the first one.
abbrev booked_world : World
booked_world = (create_booking service free_days (quiet requested)).1

abbrev approved_world : World
approved_world = (perform service approves 1 booked_world).1

history : Reach service (quiet requested) approved_world
history = next (next here (creates free_days (quiet requested))) (moves approves 1 booked_world)

single : (st : Status) → IsSingle (quiet st)
single st = record { one_pool = refl; fresh = (omega arith, tt) }

Reach-NoOverlap_example : NoOverlap approved_world.primary.blocks
Reach-NoOverlap_example =
    Reach-NoOverlap service {w = quiet requested} {v = approved_world} history (tt, tt)

Reach-Paired_example : Paired approved_world.primary
unfolding has_block
Reach-Paired_example =
    Reach-Paired service {w = quiet requested} {v = approved_world} history (refl, tt)

create_atomic-Booked_example :
    (Unchanged free_days (quiet requested) (create_atomic free_days (quiet requested)).1
      × (is_err (create_atomic free_days (quiet requested)).0 ≡ true))
    ⊎ Booked free_days (quiet requested) (create_atomic free_days (quiet requested)).1
create_atomic-Booked_example = create_atomic-Booked free_days (quiet requested)

abbrev lagging : World
lagging = world_with requested (some (tables requested)) (λ _. none) false

create_atomic-lagging_example :
    ((create_atomic free_days lagging).0 ≡ err booking_not_found)
    × ((create_atomic free_days lagging).1.primary
        ≡ with_rows free_days (pos 3000) 2 2 100 (tables requested))
unfolding find reader calculate_total_price_cents ◌*ℤ◌ nights_between count_where find_booking
create_atomic-lagging_example =
    create_atomic-lagging free_days tent lagging (λ _. refl) refl (pos 3000) refl refl
      (tables requested) refl refl

Reach-Follows_example :
    (to : Status) × (status_of 1 approved_world.primary.bookings ≡ some to) × Leads requested to
unfolding status_of
Reach-Follows_example =
    Reach-Follows service 1 {w = quiet requested} {v = approved_world} history (single requested)
      requested refl

transition-Moved_example :
    Kept (quiet requested) (transition service 1 approved booking_approved (quiet requested)).1
    ⊎ Moved 1 approved
        (quiet requested)
        (transition service 1 approved booking_approved (quiet requested)).1
transition-Moved_example = transition-Moved service 1 approved booking_approved (quiet requested)

transition-notices_example :
    Told service 1 booking_approved
      (quiet requested)
      (transition service 1 approved booking_approved (quiet requested))
transition-notices_example =
    transition-notices service 1 approved booking_approved (quiet requested)

check_transition-race_example :
    let (r1, w1) = check_transition 1 rejected (quiet requested) in
    let (r2, w2) = check_transition 1 approved w1 in
    let (r3, w3) = write_transition 1 rejected w2 in
    let (r4, w4) = write_transition 1 approved w3 in
    (r1 ≡ ok tt)
    × (r2 ≡ ok tt)
    × (r3 ≡ ok tt)
    × (r4 ≡ ok tt)
    × (status_of 1 w4.primary.bookings ≡ some approved)
unfolding status_of can_transition
check_transition-race_example =
    check_transition-race 1 requested rejected approved (quiet requested) (λ _. refl) refl refl refl
      refl

calculate_total_price_cents_days_example :
    calculate_total_price_cents (10 * day_ns) (12 * day_ns) (pos 1500) ≡ ok (pos 4500)
calculate_total_price_cents_days_example = calculate_total_price_cents_days 10 2 1500 (omega arith)
