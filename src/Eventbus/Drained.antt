-- ===== src/Eventbus/Drained.antt =====
-- internal/eventbus/kafka_consumer.go: after the channel is closed, the workers come to an end.
use gearshare.Prelude.{ℕ, suc, ◌+◌, ◌*◌, ◌-◌, ◌≡◌, Bool, [], length}
use gearshare.Eventbus.{Phase, fetching, draining, returned, Consumer, Step}
use gearshare.Eventbus.Held.{Held}

module _ {D S : Type 0} (handler : D → S → Bool × S) where
  abbrev to_return : Phase → ℕ
  to_return fetching = 0
  to_return draining = 1
  to_return returned = 0

  abbrev work_left : Consumer D S → ℕ
  work_left c = 2 * length c.jobs + length c.busy + (4 - c.exited) + to_return c.phase

  -- So many steps, one after the other.
  pub data Steps : ℕ → Consumer D S → Consumer D S → Type 0 where
    rest : {c : Consumer D S} → Steps 0 c c
    more :
        {n : ℕ} {c c' c'' : Consumer D S} → Step handler c c' → Steps n c' c'' → Steps (suc n) c c''

  -- `Run` has returned, and nothing is left in the channel or at a worker.
  abbrev pub Ended : Consumer D S → Type 0
  Ended c = (c.phase ≡ returned) × (c.jobs ≡ []) × (c.busy ≡ [])
