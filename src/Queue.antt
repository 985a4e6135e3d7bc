-- ===== src/Queue.antt =====
-- internal/queue: the calls that rabbitmq.go, publisher.go and consumer.go make on an AMQP channel. The
-- broker is not modelled: what it delivers comes in from outside, and any call may fail.
pub mod Settled
use gearshare.Prelude.{
  ℕ, String, Bool, true, false, Option, none, some, List, [], ◌∷◌, ◌++◌, length, if◌then◌else◌,
}

pub record Topology : Type 0 where
  pub exchange : String
  pub queue : String
  pub routing_key : String
  pub dead_exchange : String
  pub dead_queue : String

abbrev pub notifications_topology : Topology
notifications_topology = record {
  exchange = "notifications";
  queue = "notifications.email";
  routing_key = "email";
  dead_exchange = "notifications.dlx";
  dead_queue = "notifications.email.dlq";
}

abbrev pub media_topology : Topology
media_topology = record {
  exchange = "media";
  queue = "media.thumbnail";
  routing_key = "thumbnail";
  dead_exchange = "media.dlx";
  dead_queue = "media.thumbnail.dlq";
}

-- A queue is durable, and has the dead-letter exchange of its arguments, if there is one. `nack` does not put
-- the delivery back in its queue.
pub data Call (D : Type 0) : Type 0 where
  exchange_declare : (name kind : String) → Call D
  queue_declare : (name : String) → Option String → Call D
  queue_bind : (queue key exchange : String) → Call D
  confirm close : Call D
  qos : ℕ → Call D
  consume : String → Call D
  publish : (exchange key : String) → (body : D) → Call D
  ack nack : D → Call D

-- A channel: the calls that were made, the latest first, and which of them fail, by the number made before.
pub record Channel (D : Type 0) : Type 0 where
  pub calls : List (Call D)
  pub fails : ℕ → Bool

-- What `ctx.Done()` and the channel of deliveries give a consumer.
pub data Signal (D : Type 0) : Type 0 where
  delivery : D → Signal D
  cancelled closed : Signal D

-- A consumer that is still waiting, or one that has returned nil or an error.
pub data Outcome : Type 0 where
  waiting stopped failed : Outcome

abbrev closing : Bool → Outcome
closing true = stopped
closing false = failed

module _ {D : Type 0} where
  unfoldable pub call : Call D → Channel D → Bool × Channel D
  call c ch =
      (if ch.fails (length ch.calls) then false else true, record ch { calls = c ∷ ch.calls })

  -- Calls one after the other, up to the first that fails.
  unfoldable pub run_calls : List (Call D) → Channel D → Bool × Channel D
  unfolding call
  run_calls [] ch = (true, ch)
  run_calls (c ∷ cs) ch =
      let after = call c ch in let rest = run_calls cs after.1 in if after.0 then rest else after

  abbrev pub declare_calls : Topology → List (Call D)
  declare_calls t =
      exchange_declare t.exchange "direct"
      ∷ exchange_declare t.dead_exchange "fanout"
      ∷ queue_declare t.dead_queue none
      ∷ queue_bind t.dead_queue "" t.dead_exchange
      ∷ queue_declare t.queue (some t.dead_exchange)
      ∷ queue_bind t.queue t.routing_key t.exchange
      ∷ []

  unfoldable pub declare : Topology → Channel D → Bool × Channel D
  unfolding run_calls
  declare t = run_calls (declare_calls t)

  unfoldable pub new_publisher : Channel D → Bool × Channel D
  unfolding run_calls
  new_publisher =
      run_calls (confirm ∷ declare_calls notifications_topology ++ declare_calls media_topology)

  unfoldable pub publish_body : Topology → D → Channel D → Bool × Channel D
  publish_body t body = call (publish t.exchange t.routing_key body)

  unfoldable pub new_consumer : Topology → ℕ → Channel D → Bool × Channel D
  unfolding run_calls
  new_consumer t prefetch = run_calls (declare_calls t ++ qos prefetch ∷ [])

  abbrev pub settle : Bool → D → Call D
  settle true d = ack d
  settle false d = nack d

  module _ {S : Type 0} (handler : D → S → Bool × S) where
    -- The loop of `Run`. The handler says whether it returned nil; the errors of Ack and Nack are dropped.
    unfoldable pub run_loop : List (Signal D) → S → Channel D → Outcome × S × Channel D
    unfolding call
    run_loop [] s ch = (waiting, s, ch)
    run_loop (cancelled ∷ later) s ch = let (good, ch') = call close ch in (closing good, s, ch')
    run_loop (closed ∷ later) s ch = (stopped, s, ch)
    run_loop (delivery d ∷ later) s ch =
        let (good, s') = handler d s in run_loop later s' (call (settle good d) ch).1

    unfoldable pub run : Topology → List (Signal D) → S → Channel D → Outcome × S × Channel D
    unfolding call run_loop
    run t signals s ch =
        let (good, ch') = call (consume t.queue) ch in
        let rest = run_loop signals s ch' in if good then rest else (failed, s, ch')
