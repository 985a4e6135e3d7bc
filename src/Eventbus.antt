-- ===== src/Eventbus.antt =====
-- internal/eventbus/kafka_consumer.go: the fetch loop, the channel of jobs and the workers, as steps that may
-- come in any order. kafka-go's reader is not modelled: any message may be fetched, and a commit is the call.
pub mod Held
pub mod Bounded
pub mod Drained
pub mod Overtaken
use gearshare.Prelude.{
  ℕ, suc, ◌+◌, ◌*◌, ◌<◌, ◌≡◌, Bool, true, false, Option, none, some, List, [], ◌∷◌, ◌++◌, length,
  if◌then◌else◌,
}

abbrev pub worker_count : ℕ
worker_count = 4

abbrev pub queue_depth : ℕ
queue_depth = 16

-- The loop fetches, or it has closed the channel and waits for the workers, or `Run` has returned.
pub data Phase : Type 0 where
  fetching draining returned : Phase

-- The message that waits to be put into the channel, the channel's buffer with the oldest first, the messages that
-- workers have, and how many workers have left their loops and sent on `done`; then what was fetched, dropped, answered by the handler with or without an
-- error, and committed, each with the latest first.
pub record Consumer (D S : Type 0) : Type 0 where
  pub phase : Phase
  pub held : Option D
  pub jobs : List D
  pub busy : List D
  pub exited : ℕ
  pub state : S
  pub fetched : List D
  pub dropped : List D
  pub succeeded : List D
  pub failed : List D
  pub committed : List D

abbrev pub push_held : {D : Type 0} → Option D → List D → List D
push_held none ds = ds
push_held (some d) ds = d ∷ ds

module _ {D S : Type 0} where
  abbrev pub new_consumer : S → Consumer D S
  new_consumer s = record {
    phase = fetching;
    held = none;
    jobs = [];
    busy = [];
    exited = 0;
    state = s;
    fetched = [];
    dropped = [];
    succeeded = [];
    failed = [];
    committed = [];
  }

  module _ (handler : D → S → Bool × S) where
    -- A worker's turn: the handler, and a commit if it returned nil. An error of the commit is only logged.
    abbrev pub noted : Bool → D → Consumer D S → Consumer D S
    noted true d c = record c { succeeded = d ∷ c.succeeded; committed = d ∷ c.committed }
    noted false d c = record c { failed = d ∷ c.failed }

    unfoldable pub work : D → List D → Consumer D S → Consumer D S
    work d others c =
        let (good, s) = handler d c.state in noted good d (record c { busy = others; state = s })

    pub data Step : Consumer D S → Consumer D S → Type 0 where
      fetches :
          (d : D) (c : Consumer D S)
          → c.phase ≡ fetching
          → c.held ≡ none
          → Step c (record c { held = some d; fetched = d ∷ c.fetched })
      enqueues :
          (d : D) (c : Consumer D S)
          → c.phase ≡ fetching
          → c.held ≡ some d
          → length c.jobs < queue_depth
          → Step c (record c { held = none; jobs = c.jobs ++ d ∷ [] })
      takes :
          (d : D) (later : List D) (c : Consumer D S)
          → c.jobs ≡ d ∷ later
          → length c.busy + c.exited < worker_count
          → Step c (record c { jobs = later; busy = d ∷ c.busy })
      works :
          (before : List D) (d : D) (after : List D) (c : Consumer D S)
          → c.busy ≡ before ++ d ∷ after
          → Step c (work d (before ++ after) c)
      -- The fetch fails, or the context is done while a message waits.
      ends :
          (c : Consumer D S)
          → c.phase ≡ fetching
          → Step c
              (record c { phase = draining; held = none; dropped = push_held c.held c.dropped })
      -- A worker finds the channel closed and empty.
      exits :
          (c : Consumer D S)
          → c.phase ≡ draining
          → c.jobs ≡ []
          → length c.busy + c.exited < worker_count
          → Step c (record c { exited = suc c.exited })
      -- `Run` has received from `done` once for each worker.
      returns :
          (c : Consumer D S)
          → c.phase ≡ draining
          → c.exited ≡ worker_count
          → Step c (record c { phase = returned })

    pub data Reach (start : Consumer D S) : Consumer D S → Type 0 where
      here : Reach start start
      next : {c c' : Consumer D S} → Reach start c → Step c c' → Reach start c'
