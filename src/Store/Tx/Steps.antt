-- ===== src/Store/Tx/Steps.antt =====
-- internal/db/tx.go: one turn of the retry loop, as an equation for each way that it can go on.
use gearshare.Prelude.{ℕ, zero, suc, ◌+◌, ◌≡◌, ◌⊎◌, inl, inr, true, arith, Bool-cases}
use gearshare.Store.{World, Result, err, Error, M, Result-cases}
use gearshare.Store.Tx.{is_retryable, attempt_tx, count_retry, tx_loop}

pub count_retry-primary : (n : ℕ) (w : World) → (count_retry n w).primary ≡ w.primary
unfolding count_retry
count_retry-primary n w = ground arith

pub count_retry-next_booking : (n : ℕ) (w : World) → (count_retry n w).next_booking ≡ w.next_booking
unfolding count_retry
count_retry-next_booking n w = ground arith

module _ {A : Type 0} (fn : M A) (left attempt : ℕ) (last : Error) (w : World) where
  abbrev pub turn : Result A × World
  turn = attempt_tx fn (count_retry attempt w)

  -- The loop ends with this attempt, or goes on after an error that may be retried.
  abbrev pub Turn : Type 0
  Turn =
      (tx_loop (suc left) attempt last fn w ≡ turn)
      ⊎ ((e : Error) × (turn.0 ≡ err e)
          × (is_retryable e ≡ true)
          × (tx_loop (suc left) attempt last fn w ≡ tx_loop left (attempt + 1) e fn turn.1))

  pub tx_loop-cases : Turn
  unfolding tx_loop
  tx_loop-cases = elim (Result-cases turn.0) [
    | inl (a, p) ↦ inl (ground arith)
    | inr (e, p) ↦ elim (Bool-cases (is_retryable e)) [
      | inl q ↦ inr (e, p, q, ground arith)
      | inr q ↦ inl (ground arith)
    ]
  ]

-- What every attempt keeps, the loop keeps.
pub tx_loop_inv :
    {A : Type 0} (P : World → Type 0) (fn : M A)
    → ((n : ℕ) (w : World) → P w → P (attempt_tx fn (count_retry n w)).1)
    → (left attempt : ℕ) (last : Error) (w : World) → P w
    → P (tx_loop left attempt last fn w).1
unfolding tx_loop
tx_loop_inv P fn keep zero attempt last w h = h
tx_loop_inv P fn keep (suc left) attempt last w h = elim (tx_loop-cases fn left attempt last w) [
  | inl p ↦ rw p (keep attempt w h)
  | inr (e, _, _, p) ↦ rw p (tx_loop_inv P fn keep left (attempt + 1) e _ (keep attempt w h))
]
