-- ===== src/Realtime/Hub/Sequences.antt =====
-- internal/realtime/hub.go, with the streams of sse.go and websocket.go: any sequence of calls, where each
-- stream calls the `cancel` of its subscription once.
use gearshare.Prelude.{
  ℕ, zero, suc, ◌≤◌, ◌≡◌, refl, true, Option, none, some, List, [], ◌∷◌, arith, All, length,
  Bool-cases, inl, inr, ◌==◌,
}
use gearshare.Realtime.Hub.{
  Topic, owner, listing, same_topic, Channel, Hub, new_hub, subscribe, subscribed, publish, cancel,
  receive,
}
use gearshare.Realtime.Hub.Delivery.{Sound, Good, subscribe-Sound, publish-Sound, cancel-Sound}

-- A stream is closed or receives by its place among those that are there, if there are so many.
pub data Op : Type 0 where
  opens : Topic → Op
  publishes : Topic → (payload : List ℕ) → Op
  receives closes : ℕ → Op

abbrev nth : ℕ → List (Topic × ℕ) → Option (Topic × ℕ)
nth k [] = none
nth zero (s ∷ subs) = some s
nth (suc k) (s ∷ subs) = nth k subs

abbrev close_one : Option (Topic × ℕ) → Hub → Option Hub
close_one none h = some h
close_one (some (t, n)) h = cancel t n h

abbrev pub receive_one : Option (Topic × ℕ) → Hub → Hub
receive_one none h = h
receive_one (some (t, n)) h = record h { channels = receive n h.channels }

abbrev pub perform : Op → Hub → Option Hub
perform (opens t) h = some (subscribe t h).1
perform (publishes t payload) h = publish t payload h
perform (receives k) h = some (receive_one (nth k h.subs) h)
perform (closes k) h = close_one (nth k h.subs) h

-- A panic of the hub is the end.
abbrev then_all : List Op → Option Hub → Option Hub
then_all [] o = o
then_all (op ∷ ops) none = none
then_all (op ∷ ops) (some h) = then_all ops (perform op h)

abbrev pub perform_all : List Op → Hub → Option Hub
perform_all ops h = then_all ops (some h)

pub same_topic_refl : (t : Topic) → same_topic t t ≡ true
same_topic_refl (owner a) = ground arith
same_topic_refl (listing a) = ground arith

nth-subscribed :
    (k : ℕ) (subs : List (Topic × ℕ)) (t : Topic) (n : ℕ)
    → nth k subs ≡ some (t, n)
    → subscribed t n subs ≡ true
unfolding subscribed
nth-subscribed k [] t n h = absurd (cc)
nth-subscribed zero ((u, m) ∷ subs) t n h =
    let u_eq : u ≡ t = ground (arith, h) in
    let m_eq : m ≡ n = ground (arith, h) in rw (u_eq, m_eq) (ground (arith, same_topic_refl t))
nth-subscribed (suc k) ((u, m) ∷ subs) t n h = ground (arith, nth-subscribed k subs t n h)

abbrev taken : List (List ℕ) → List (List ℕ)
taken b = elim b [ [] ↦ [] | _ ∷ rest ↦ rest ]

length-taken : (b : List (List ℕ)) → length (taken b) ≤ length b
length-taken [] = omega arith
length-taken (p ∷ b) = omega arith

receive-Good :
    (next n : ℕ) (subs : List (Topic × ℕ)) (cs : List Channel)
    → All (Good next subs) cs
    → All (Good next subs) (receive n cs)
unfolding receive
receive-Good next n subs [] g = tt
receive-Good next n subs (c ∷ cs) g = (
  elim (Bool-cases (c.number == n)) [
    | inl p ↦ rw p (omega (arith, g.0.0, length-taken c.buffer), g.0.1, g.0.2)
    | inr p ↦ rw p (g.0)
  ],
  receive-Good next n subs cs g.1,
)

pub receive_one-Sound : (o : Option (Topic × ℕ)) (h : Hub) → Sound h → Sound (receive_one o h)
receive_one-Sound none h s = s
receive_one-Sound (some (t, n)) h s = record {
  channels = receive-Good h.next n h.subs h.channels s.channels;
  distinct = s.distinct;
  below = s.below;
}

-- One call goes through, and keeps the hub sound.
abbrev Goes : Option Hub → Type 0
Goes o = (h : Hub) × (o ≡ some h) × Sound h

close_one-Goes :
    (o : Option (Topic × ℕ)) (k : ℕ) (h : Hub) → nth k h.subs ≡ o → Sound h → Goes (close_one o h)
close_one-Goes none k h e s = (h, refl, s)
close_one-Goes (some (t, n)) k h e s =
    let (h', done, sound, _) = cancel-Sound t n h s (nth-subscribed k h.subs t n e) in
    (h', done, sound)

perform-Goes : (op : Op) (h : Hub) → Sound h → Goes (perform op h)
perform-Goes (opens t) h s = ((subscribe t h).1, refl, subscribe-Sound t h s)
perform-Goes (publishes t payload) h s = publish-Sound t payload h s
perform-Goes (receives k) h s =
    (receive_one (nth k h.subs) h, refl, receive_one-Sound (nth k h.subs) h s)
perform-Goes (closes k) h s = close_one-Goes (nth k h.subs) k h refl s

sequence-Goes : (ops : List Op) (h : Hub) → Sound h → Goes (perform_all ops h)
sequence-Goes [] h s = (h, refl, s)
sequence-Goes (op ∷ ops) h s =
    let (h', done, sound) = perform-Goes op h s in rw done (sequence-Goes ops h' sound)

-- Whatever streams open, receive and close, each closing once, and whatever is published in between, no call of
-- the hub panics: nothing is sent on a channel that is closed and none is closed twice; and no buffer is over
-- its size and no closed channel is subscribed.
pub perform_all-Sound : (ops : List Op) → (h : Hub) × (perform_all ops new_hub ≡ some h) × Sound h
perform_all-Sound ops =
    sequence-Goes ops new_hub (record { channels = tt; distinct = tt; below = tt })
