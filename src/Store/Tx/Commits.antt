-- ===== src/Store/Tx/Commits.antt =====
-- internal/db/tx.go: a transaction that returns a value is one run of its function, as it left the tables.
use gearshare.Prelude.{ℕ, zero, suc, ◌+◌, ◌≡◌, ap, sym, ◌∙◌, inl, inr, arith, Option-cases}
use gearshare.Store.{World, ok, Error, nil_error, M, Result-cases, tick}
use gearshare.Store.Tx.{attempt_tx, count_retry, tx_loop, max_tx_retries, within_transaction}
use gearshare.Store.Tx.Steps.{tx_loop-cases}

module _ {A : Type 0} (fn : M A) where
  abbrev pub Committed : A → World → Type 0
  Committed a after = (v : World) × ((fn v).0 ≡ ok a) × (after.primary ≡ (fn v).1.primary)

  attempt_tx-Committed :
      (a : A) (w : World) → (attempt_tx fn w).0 ≡ ok a → Committed a (attempt_tx fn w).1
  unfolding attempt_tx
  attempt_tx-Committed a w h = elim (Option-cases (w.faults w.clock)) [
    | inr (x, b) ↦ absurd (ground (arith, b, h))
    | inl b ↦ elim (Result-cases (fn (tick w)).0) [
      | inr (e, p) ↦ absurd (ground (arith, b, p, h))
      | inl (c, p) ↦ elim (Option-cases ((fn (tick w)).1.faults (fn (tick w)).1.clock)) [
        | inr (x, q) ↦ absurd (ground (arith, b, p, q, h))
        | inl q ↦ (tick w, ground (arith, b, p, q, h), ground (arith, b, p, q))
      ]
    ]
  ]

  tx_loop-Committed :
      (left attempt : ℕ) (last : Error) (a : A) (w : World)
      → (tx_loop left attempt last fn w).0 ≡ ok a
      → Committed a (tx_loop left attempt last fn w).1
  unfolding tx_loop
  tx_loop-Committed zero attempt last a w h = absurd (cc)
  tx_loop-Committed (suc left) attempt last a w h = elim (tx_loop-cases fn left attempt last w) [
    | inl p ↦ rw p (attempt_tx-Committed a (count_retry attempt w) (sym (ap (λ r. r.0) p) ∙ h))
    | inr (e, _, _, p) ↦
        rw p (tx_loop-Committed left (attempt + 1) e a _ (sym (ap (λ r. r.0) p) ∙ h))
  ]

  pub within_transaction-Committed :
      (a : A) (w : World)
      → (within_transaction fn w).0 ≡ ok a
      → Committed a (within_transaction fn w).1
  unfolding within_transaction
  within_transaction-Committed a w h = tx_loop-Committed max_tx_retries 0 nil_error a w h
