-- ===== src/Store/Tx.antt =====
-- internal/db/tx.go: a transaction, and the retries of a deadlock or a lock-wait timeout. The locks
-- of SELECT … FOR UPDATE make a transaction one step; the sleep between two attempts and the
-- re-raised panic are left out.
pub mod Steps
pub mod Retries
pub mod Commits
use gearshare.Prelude.{ℕ, zero, suc, ◌+◌, Bool, false, true, ◌||◌, none, some, ◌==◌, if◌then◌else◌}
use gearshare.Store.{mysql, Error, db, nil_error, Tables, World, Result, ok, err, M, tick}

abbrev pub mysql_err_lock_deadlock : ℕ
mysql_err_lock_deadlock = 1213

abbrev pub mysql_err_lock_wait_timeout : ℕ
mysql_err_lock_wait_timeout = 1205

abbrev pub max_tx_retries : ℕ
max_tx_retries = 3

unfoldable pub is_retryable : Error → Bool
is_retryable (db (mysql number _)) =
    number == mysql_err_lock_deadlock || number == mysql_err_lock_wait_timeout
is_retryable _ = false

abbrev pub rollback : Tables → World → World
rollback before w = record w { primary = before }

-- A commit that fails may have gone through.
commit : {A : Type 0} → Tables → A → World → Result A × World
commit before a w = elim (w.faults w.clock) [
  | none ↦ (ok a, tick w)
  | some x ↦ (err (db x.error), if x.applied then tick w else rollback before (tick w))
]

finish : {A : Type 0} → Tables → Result A × World → Result A × World
unfolding commit
finish before (ok a, w) = commit before a w
finish before (err e, w) = (err e, rollback before w)

unfoldable pub attempt_tx : {A : Type 0} → M A → M A
unfolding finish
attempt_tx fn w = elim (w.faults w.clock) [
  | none ↦ finish w.primary (fn (tick w))
  | some x ↦ (err (db x.error), tick w)
]

unfoldable pub count_retry : ℕ → World → World
count_retry attempt w = if attempt == 0 then w else record w { retries = suc w.retries }

-- The loop, with the attempts left, those made, and `lastErr`.
unfoldable pub tx_loop : {A : Type 0} → ℕ → ℕ → Error → M A → M A
unfolding count_retry
tx_loop zero attempt last fn w = (err last, w)
tx_loop (suc left) attempt last fn w =
    let (r, w') = attempt_tx fn (count_retry attempt w) in
    elim r [
      | ok a ↦ (ok a, w')
      | err e ↦ elim (is_retryable e) [
        | true ↦ tx_loop left (attempt + 1) e fn w'
        | false ↦ (err e, w')
      ]
    ]

unfoldable pub within_transaction : {A : Type 0} → M A → M A
within_transaction fn = tx_loop max_tx_retries 0 nil_error fn
