-- ===== src/Store/Keeps.antt =====
-- Actions that write no table: reads, sends, and what is made of them.
use gearshare.Prelude.{◌≡◌, ◌∙◌, arith}
use gearshare.Store.{World, M, ok}

-- The tables, the pools and the booking counter are as before.
pub record Kept (w w' : World) : Type 0 where
  pub primary : w'.primary ≡ w.primary
  pub replica : w'.replica ≡ w.replica
  pub next_booking : w'.next_booking ≡ w.next_booking

pub Kept-trans : {u v w : World} → Kept u v → Kept v w → Kept u w
Kept-trans p q = record {
  primary = q.primary ∙ p.primary;
  replica = q.replica ∙ p.replica;
  next_booking = q.next_booking ∙ p.next_booking;
}

pub Kept-refl : (w : World) → Kept w w
Kept-refl w = ground arith

-- The action succeeds as well.
abbrev pub Passes : M (Unit {0}) → World → Type 0
Passes m w = ((m w).0 ≡ ok tt) × Kept w (m w).1
