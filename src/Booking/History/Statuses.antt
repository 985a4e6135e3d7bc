-- ===== src/Booking/History/Statuses.antt =====
-- The lifecycle of a booking over any history, where one server answers reads and writes: its status
-- moves along the map of internal/booking/model.go, and a final status stays.
use gearshare.Prelude.{
  ℕ, ◌≡◌, refl, sym, ap, ◌∙◌, ◌↔◌, inl, inr, ◌≢◌, true, false, Bool, none, some, List, arith, ◌==◌,
  Bool-cases,
}
use gearshare.Model.Booking.{
  Booking, Status, requested, approved, rejected, active, completed, cancelled, disputed,
  can_transition,
}
use mathlib.Core.Bool.{false≢true}
use gearshare.Store.{World, reader}
use gearshare.Booking.Create.{create_atomic, CreateBookingInput}
use gearshare.Booking.Create.Atomic.{booking_row}
use gearshare.Booking.Create.Outcome.{create_atomic-Booked, create_atomic-replica}
use gearshare.Booking.Repository.{update_rows}
use gearshare.Booking.Repository.Rows.{
  Below, Below-mono, status_of, status_of-Below, update_rows-Below, status_of-update_rows,
  status_of-cons,
}
use gearshare.Booking.Service.{Service}
use gearshare.Booking.History.{Move, perform, Step, creates, moves, around, Reach, here, next}
use gearshare.Booking.History.Bookings.{create_booking-Kept, perform-Moved}

-- The lifecycle as a graph, read off the comment above `validTransitions`.
pub data Edge : Status → Status → Type 0 where
  approval : Edge requested approved
  rejection : Edge requested rejected
  withdrawal : Edge requested cancelled
  start : Edge approved active
  cancellation : Edge approved cancelled
  completion : Edge active completed
  objection : Edge active disputed

pub data Leads : Status → Status → Type 0 where
  stay : {s : Status} → Leads s s
  step : {s t u : Status} → Leads s t → Edge t u → Leads s u

ruleset edges = (approval, rejection, withdrawal, start, cancellation, completion, objection)

can_transition-Edge : (from to : Status) → can_transition from to ≡ true → Edge from to
unfolding can_transition
can_transition-Edge from to h = grind (arith, edges)

Edge-can_transition : {from to : Status} → Edge from to → can_transition from to ≡ true
unfolding can_transition
Edge-can_transition approval = refl
Edge-can_transition rejection = refl
Edge-can_transition withdrawal = refl
Edge-can_transition start = refl
Edge-can_transition cancellation = refl
Edge-can_transition completion = refl
Edge-can_transition objection = refl

-- `CanTransition` answers true exactly on the edges of the lifecycle.
pub can_transition_iff : (from to : Status) → (can_transition from to ≡ true) ↔ Edge from to
can_transition_iff from to = (can_transition-Edge from to, Edge-can_transition)

-- One server answers reads and writes, and the ids of the rows are below the next one to be given.
pub record IsSingle (w : World) : Type 0 where
  pub one_pool : w.replica ≡ none
  pub fresh : Below w.next_booking w.primary.bookings

-- What may become of the status under an id: it is found again, further along the lifecycle.
abbrev pub Follows : ℕ → World → World → Type 0
Follows id w v =
    (s : Status)
    → status_of id w.primary.bookings ≡ some s
    → (t : Status) × (status_of id v.primary.bookings ≡ some t) × Leads s t

Leads-trans : {s t u : Status} → Leads s t → Leads t u → Leads s u
Leads-trans p stay = p
Leads-trans p (step q e) = step (Leads-trans p q) e

Kept-Follows : (id : ℕ) (w v : World) → v.primary ≡ w.primary → Follows id w v
Kept-Follows id w v e s h = (s, rw e h, stay)

create-Follows :
    (id : ℕ) (input : CreateBookingInput) (w : World)
    → IsSingle w
    → Follows id w (create_atomic input w).1
create-Follows id input w v s h = elim (create_atomic-Booked input w) [
  | inl (same, _) ↦ (s, rw same.0 h, stay)
  | inr (l, total, new, block, now, _, _, _, above, _, wrote) ↦
      let other : new ≢ id =
        λ e. cc (status_of-Below w.next_booking w.primary.bookings v.fresh id (omega arith)) in
      (
        s,
        rw wrote (status_of-cons id (booking_row input total new now) w.primary.bookings other ∙ h),
        stay,
      )
]

reader-primary : (w : World) → w.replica ≡ none → reader w ≡ w.primary
unfolding reader
reader-primary w e = rw e

-- The row that an allowed change writes, at its own id and at any other.
update-Follows :
    (id j now : ℕ) (from to : Status) (bs : List Booking) (s : Status)
    → status_of j bs ≡ some from
    → can_transition from to ≡ true
    → status_of id bs ≡ some s
    → (t : Status) × (status_of id (update_rows now j to bs) ≡ some t) × Leads s t
update-Follows id j now from to bs s found allowed h = elim (Bool-cases (j == id)) [
  | inl same ↦
      let here : from ≡ s = ground (arith, same, found, h) in
      (
        to,
        ground (arith, status_of-update_rows id now j to bs, same, h),
        step stay (can_transition-Edge s to (rw here at allowed)),
      )
  | inr other ↦ (s, ground (arith, status_of-update_rows id now j to bs, other, h), stay)
]

perform-Follows :
    (s : Service) (m : Move) (j id : ℕ) (w : World) → IsSingle w → Follows id w (perform s m j w).1
perform-Follows s m j id w v st h = elim (perform-Moved s m j w) [
  | inl k ↦ Kept-Follows id w (perform s m j w).1 k.primary st h
  | inr (to, (from, now, found, allowed, e, _, _)) ↦ rw e (
      update-Follows id j now from to w.primary.bookings st
        (rw (reader-primary w v.one_pool) at found) allowed h)
]

create_atomic-IsSingle :
    (input : CreateBookingInput) (w : World)
    → Below w.next_booking w.primary.bookings
    → Below (create_atomic input w).1.next_booking (create_atomic input w).1.primary.bookings
create_atomic-IsSingle input w h = elim (create_atomic-Booked input w) [
  | inl (same, _) ↦ rw same.0 (Below-mono w.primary.bookings same.1 h)
  | inr (l, total, new, block, now, _, _, _, above, below, wrote) ↦
      rw wrote (below, Below-mono w.primary.bookings (omega arith) h)
]

perform-Below :
    (s : Service) (m : Move) (j : ℕ) (w : World)
    → Below w.next_booking w.primary.bookings
    → Below (perform s m j w).1.next_booking (perform s m j w).1.primary.bookings
perform-Below s m j w h = elim (perform-Moved s m j w) [
  | inl k ↦ rw (k.primary, k.next_booking) h
  | inr (to, (from, now, _, _, e, _, n)) ↦
      rw (e, n) (update_rows-Below w.next_booking now j to w.primary.bookings h)
]

perform-replica :
    (s : Service) (m : Move) (j : ℕ) (w : World) → (perform s m j w).1.replica ≡ w.replica
perform-replica s m j w = elim (perform-Moved s m j w) [
  | inl k ↦ k.replica
  | inr (to, (from, now, _, _, _, r, _)) ↦ r
]

Step-IsSingle : (s : Service) {w v : World} → Step s w v → IsSingle w → IsSingle v
Step-IsSingle s (creates input w) h =
    let k = create_booking-Kept s input w in
    record {
      one_pool = k.replica ∙ create_atomic-replica input w ∙ h.one_pool;
      fresh = rw (k.primary, k.next_booking) (create_atomic-IsSingle input w h.fresh);
    }
Step-IsSingle s (moves m id w) h = record {
  one_pool = perform-replica s m id w ∙ h.one_pool;
  fresh = perform-Below s m id w h.fresh;
}
Step-IsSingle s (around a) h = record {
  one_pool = a.single h.one_pool;
  fresh = rw (a.bookings, a.next_booking) h.fresh;
}

Step-Follows : (s : Service) (id : ℕ) {w v : World} → Step s w v → IsSingle w → Follows id w v
Step-Follows s id (creates input w) h st e =
    rw (create_booking-Kept s input w).primary (create-Follows id input w h st e)
Step-Follows s id (moves m j w) h st e = perform-Follows s m j id w h st e
Step-Follows s id (around a) h st e = (st, rw a.bookings e, stay)

Reach-IsSingle : (s : Service) {w v : World} → Reach s w v → IsSingle w → IsSingle v
Reach-IsSingle s here h = h
Reach-IsSingle s (next r st) h = Step-IsSingle s st (Reach-IsSingle s r h)

-- Where one server answers reads and writes, and no two calls overlap in time, so that nothing comes between the
-- check and the write of a status change, a booking that is in the table is there after any history of calls
-- and faults, with a status that the lifecycle leads to from the one it had.
pub Reach-Follows :
    (s : Service) (id : ℕ) {w v : World}
    → Reach s w v
    → IsSingle w
    → (from : Status) → status_of id w.primary.bookings ≡ some from
    → (to : Status) × (status_of id v.primary.bookings ≡ some to) × Leads from to
Reach-Follows s id here h st e = (st, e, stay)
Reach-Follows s id (next r last) h st e =
    let (mid, found, p) = Reach-Follows s id r h st e in
    let (end, found', q) = Step-Follows s id last (Reach-IsSingle s r h) mid found in
    (end, found', Leads-trans p q)

abbrev pub is_final : Status → Bool
is_final rejected = true
is_final completed = true
is_final cancelled = true
is_final disputed = true
is_final _ = false

not-Edge_final : {s t : Status} → Edge s t → is_final s ≡ false
not-Edge_final approval = refl
not-Edge_final rejection = refl
not-Edge_final withdrawal = refl
not-Edge_final start = refl
not-Edge_final cancellation = refl
not-Edge_final completion = refl
not-Edge_final objection = refl

Leads-is_final : {s t : Status} → Leads s t → is_final s ≡ true → t ≡ s
Leads-is_final stay f = refl
Leads-is_final {s} (step {t = m} p e) f =
    let same : m ≡ s = Leads-is_final p f in
    absurd (false≢true (sym (not-Edge_final e) ∙ ap is_final same ∙ f))

-- Where one server answers reads and writes, a booking that is rejected, completed, cancelled or
-- disputed stays so after any history of calls and faults in which no two calls overlap in time.
pub Reach_final :
    (s : Service) (id : ℕ) (st : Status) {w v : World}
    → Reach s w v
    → IsSingle w
    → is_final st ≡ true
    → status_of id w.primary.bookings ≡ some st
    → status_of id v.primary.bookings ≡ some st
Reach_final s id st r h f e =
    let (end, found, p) = Reach-Follows s id r h st e in found ∙ ap some (Leads-is_final p f)
