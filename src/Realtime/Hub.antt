-- ===== src/Realtime/Hub.antt =====
-- internal/realtime/hub.go. A channel is known by the number that `make` gives it; the lock makes each
-- operation one step. Sending on a closed channel and closing one twice are panics: `none`.
pub mod Delivery
pub mod Sequences
use gearshare.Prelude.{
  ℕ, suc, Bool, true, false, not, ◌&&◌, Option, none, some, List, [], ◌∷◌, ◌++◌, ltb, ◌==◌,
  if◌then◌else◌, length, select,
}

-- A key of `ownerSubs` or of `listingSubs`.
pub data Topic : Type 0 where
  owner listing : ℕ → Topic

abbrev pub same_topic : Topic → Topic → Bool
same_topic (owner a) (owner b) = a == b
same_topic (listing a) (listing b) = a == b
same_topic _ _ = false

pub record Channel : Type 0 where
  pub number : ℕ
  pub buffer : List (List ℕ)  -- the oldest payload first
  pub closed : Bool

pub record Hub : Type 0 where
  pub subs : List (Topic × ℕ)
  pub channels : List Channel
  pub next : ℕ

abbrev pub new_hub : Hub
new_hub = record { subs = []; channels = []; next = 0 }

abbrev pub subscriber_buffer_size : ℕ
subscriber_buffer_size = 8

-- SubscribeOwner and SubscribeListing.
unfoldable pub subscribe : Topic → Hub → ℕ × Hub
subscribe t h = (
  h.next,
  record {
    subs = (t, h.next) ∷ h.subs;
    channels = record { number = h.next; buffer = []; closed = false } ∷ h.channels;
    next = suc h.next;
  },
)

unfoldable pub subscribed : Topic → ℕ → List (Topic × ℕ) → Bool
subscribed t n [] = false
subscribed t n ((u, m) ∷ subs) =
    let later = subscribed t n subs in if same_topic u t && m == n then true else later

-- `case ch <- payload` or `default`: a full buffer drops the payload.
unfoldable pub deliver : List ℕ → Channel → Option Channel
deliver payload c =
    if c.closed
    then none
    else if ltb (length c.buffer) subscriber_buffer_size
    then some (record c { buffer = c.buffer ++ (payload ∷ []) })
    else some c

abbrev pub cons_channel : Option Channel → Option (List Channel) → Option (List Channel)
cons_channel (some c) (some cs) = some (c ∷ cs)
cons_channel _ _ = none

unfoldable pub deliver_all :
    Topic → List (Topic × ℕ) → List ℕ → List Channel → Option (List Channel)
deliver_all t subs payload [] = some []
deliver_all t subs payload (c ∷ cs) =
    let rest = deliver_all t subs payload cs in
    cons_channel (if subscribed t c.number subs then deliver payload c else some c) rest

-- PublishOwner and PublishListing.
unfoldable pub publish : Topic → List ℕ → Hub → Option Hub
publish t payload h = elim (deliver_all t h.subs payload h.channels) [
  | none ↦ none
  | some cs ↦ some (record h { channels = cs })
]

abbrev pub is_sub : Topic → ℕ → Topic × ℕ → Bool
is_sub t n (u, m) = same_topic u t && m == n

unfoldable pub close : ℕ → List Channel → Option (List Channel)
close n [] = some []
close n (c ∷ cs) =
    let rest = close n cs in
    if c.number == n
    then (if c.closed then none else cons_channel (some (record c { closed = true })) rest)
    else cons_channel (some c) rest

-- The `cancel` that a subscription returns.
unfoldable pub cancel : Topic → ℕ → Hub → Option Hub
cancel t n h = elim (close n h.channels) [
  | none ↦ none
  | some cs ↦ some (record h { subs = select (λ s. not (is_sub t n s)) h.subs; channels = cs })
]

-- A receive by the stream that owns the channel.
unfoldable pub receive : ℕ → List Channel → List Channel
receive n [] = []
receive n (c ∷ cs) =
    let rest = receive n cs in
    (if c.number == n then record c { buffer = elim c.buffer [ [] ↦ [] | _ ∷ rest ↦ rest ] } else c)
    ∷ rest
