-- ===== src/Store/Tx/Retries.antt =====
-- internal/db/tx.go: how often a transaction is tried, and what is left of one that fails.
use gearshare.Prelude.{
  ℕ, zero, suc, ◌+◌, ◌≤◌, ◌≡◌, refl, ap, sym, ◌∙◌, inl, inr, true, false, some, arith, Option-cases,
}
use gearshare.Store.{World, Fault, Result-cases, Error, nil_error, is_err, M, tick}
use gearshare.Store.Tx.{attempt_tx, count_retry, tx_loop, max_tx_retries, within_transaction}
use gearshare.Store.Tx.Steps.{count_retry-primary, tx_loop-cases}

count_retry-faults : (n : ℕ) (w : World) → (count_retry n w).faults ≡ w.faults
unfolding count_retry
count_retry-faults n w = ground arith

module _ {A : Type 0} (fn : M A) where
  -- Where the function leaves the counter of retries alone, so does an attempt.
  retries-attempt :
      ((v : World) → (fn v).1.retries ≡ v.retries)
      → (w : World) → (attempt_tx fn w).1.retries ≡ w.retries
  unfolding attempt_tx
  retries-attempt h w = elim (Result-cases (fn (tick w)).0) [
    | inl (a, p) ↦ ground (arith, p, h (tick w))
    | inr (e, p) ↦ ground (arith, p, h (tick w))
  ]

  retries-count_retry : (n : ℕ) (w : World) → (count_retry n w).retries ≤ suc w.retries
  unfolding count_retry
  retries-count_retry n w = ground arith

  retries-count_first : (w : World) → (count_retry 0 w).retries ≡ w.retries
  unfolding count_retry
  retries-count_first w = ground arith

  tx_loop-retries :
      ((v : World) → (fn v).1.retries ≡ v.retries)
      → (left attempt : ℕ) (last : Error) (w : World)
      → (tx_loop left attempt last fn w).1.retries ≤ w.retries + left
  unfolding tx_loop
  tx_loop-retries h zero attempt last w = omega arith
  tx_loop-retries h (suc left) attempt last w =
      let one = retries-attempt h (count_retry attempt w) in
      let counted = retries-count_retry attempt w in
      elim (tx_loop-cases fn left attempt last w) [
        | inl p ↦ rw p (omega (arith, one, counted))
        | inr (e, _, _, p) ↦ rw p (
            omega (
              arith,
              one,
              counted,
              tx_loop-retries h left (attempt + 1) e (attempt_tx fn (count_retry attempt w)).1,
            ))
      ]

  -- The metric, which counts every attempt after the first, goes up by 2 at most in a transaction whose
  -- function itself leaves it alone.
  pub within_transaction-retries :
      ((v : World) → (fn v).1.retries ≡ v.retries)
      → (w : World) → (within_transaction fn w).1.retries ≤ w.retries + 2
  unfolding within_transaction
  within_transaction-retries h w =
      let one = retries-attempt h (count_retry 0 w) in
      elim (tx_loop-cases fn 2 0 nil_error w) [
        | inl p ↦ rw p (omega (arith, one, retries-count_first w))
        | inr (e, _, _, p) ↦ rw p (
            omega (
              arith,
              one,
              retries-count_first w,
              tx_loop-retries h 2 1 e (attempt_tx fn (count_retry 0 w)).1,
            ))
      ]

  -- No statement or commit that fails has taken effect.
  abbrev pub Clean : World → Type 0
  Clean w = (n : ℕ) (x : Fault) → w.faults n ≡ some x → x.applied ≡ false

  attempt_tx-rollback :
      ((v : World) → (fn v).1.faults ≡ v.faults)
      → (w : World) → Clean w
      → ((attempt_tx fn w).1.faults ≡ w.faults)
        × (is_err (attempt_tx fn w).0 ≡ true → (attempt_tx fn w).1.primary ≡ w.primary)
  unfolding attempt_tx
  attempt_tx-rollback h w clean =
      let v = (fn (tick w)).1 in
      let same : v.faults ≡ w.faults = h (tick w) in
      elim (Option-cases (w.faults w.clock)) [
        | inr (x, b) ↦ ground (arith, b)
        | inl b ↦ elim (Result-cases (fn (tick w)).0) [
          | inr (e, p) ↦ ground (arith, b, p, same)
          | inl (a, p) ↦ elim (Option-cases (v.faults v.clock)) [
            | inl c ↦ ground (arith, b, p, same, c)
            | inr (x, c) ↦
                ground (arith, b, p, same, c, clean v.clock x (ap (λ f. f v.clock) (sym same) ∙ c))
          ]
        ]
      ]

  tx_loop-rollback :
      ((v : World) → (fn v).1.faults ≡ v.faults)
      → (left attempt : ℕ) (last : Error) (w : World) → Clean w
      → is_err (tx_loop left attempt last fn w).0 ≡ true
      → (tx_loop left attempt last fn w).1.primary ≡ w.primary
  unfolding tx_loop
  tx_loop-rollback h zero attempt last w clean failed = refl
  tx_loop-rollback h (suc left) attempt last w clean failed =
      let w' = count_retry attempt w in
      let kept = count_retry-primary attempt w in
      let faults = count_retry-faults attempt w in
      let clean' : Clean w' = λ n x p. clean n x (ap (λ f. f n) (sym faults) ∙ p) in
      let (same, back) = attempt_tx-rollback h w' clean' in
      elim (tx_loop-cases fn left attempt last w) [
        | inl p ↦ rw p (back (sym (ap (λ r. is_err (r.0)) p) ∙ failed) ∙ kept)
        | inr (e, q, _, p) ↦
            let once = back (ap is_err q) in
            rw p (
              tx_loop-rollback h left (attempt + 1) e _
                (λ n x r. clean' n x (ap (λ f. f n) (sym same) ∙ r))
                (sym (ap (λ r. is_err (r.0)) p) ∙ failed)
              ∙ (once ∙ kept))
      ]

  -- Where no statement or commit that fails has taken effect, and the function does not change which
  -- ones fail, a transaction that returns an error leaves every table as it was, after any retries.
  pub within_transaction-rollback :
      ((v : World) → (fn v).1.faults ≡ v.faults)
      → (w : World) → Clean w
      → is_err (within_transaction fn w).0 ≡ true
      → (within_transaction fn w).1.primary ≡ w.primary
  unfolding within_transaction
  within_transaction-rollback h w clean failed =
      tx_loop-rollback h max_tx_retries 0 nil_error w clean failed
