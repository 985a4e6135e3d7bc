-- ===== src/Realtime/Streams.antt =====
-- internal/realtime/sse.go and websocket.go: the streams over the hub. What a stream waits for comes in as
-- events, and a write to the client may fail, by the number of frames that it has got. JSON is not modelled: the
-- snapshot is the list of blocks. A WebSocket handshake fails only for its origin.
pub mod Closed
use gearshare.Prelude.{
  ℕ, suc, String, Bool, true, false, Option, none, some, List, [], ◌∷◌, ◌++◌, if◌then◌else◌, length,
  find, ◌==◌,
}
use gearshare.Prelude.Text.{codes, str_eq}
use gearshare.Prelude.Int.{ℤ}
use gearshare.Model.Availability.{Block}
use gearshare.Store.{World, Result, ok, err}
use gearshare.Http.{Claims, parse_int, row_id}
use gearshare.Availability.{list_for_listing}
use gearshare.Realtime.Hub.{
  Topic, owner, listing, Channel, Hub, subscribe, publish, cancel, receive,
}

pub data Frame : Type 0 where
  connected : Frame
  snapshot : ℕ → List Block → Frame
  update : List ℕ → Frame

-- A stream with the hub around it: its subscription, the frames that were written, the latest first, whether
-- `cancel` was called, and whether the handler still runs.
pub record Stream : Type 0 where
  pub hub : Hub
  pub topic : Topic
  pub number : ℕ
  pub frames : List Frame
  pub cancelled : Bool
  pub running : Bool

-- What goes on around a stream: an update is published, the handler's loop gets a turn, the request's context
-- is done (SSE), the reader of the connection fails (WebSocket).
pub data Event : Type 0 where
  published : Topic → (payload : List ℕ) → Event
  turn done reader_failed : Event

module _ (fails : ℕ → Bool) where  -- which writes to the client fail
  -- Both handlers call `cancel` once: the one through a single defer, the other through sync.Once.
  abbrev pub with_hub : Stream → Option Hub → Option Stream
  with_hub s none = none
  with_hub s (some h) = some (record s { hub = h })

  unfoldable pub cancel_once : Stream → Option Stream
  cancel_once s =
      if s.cancelled
      then some s
      else with_hub (record s { cancelled = true }) (cancel s.topic s.number s.hub)

  -- `return`, with the deferred call.
  abbrev pub finish : Stream → Option Stream
  finish s = cancel_once (record s { running = false })

  -- A write, and what the handler does if it succeeds; on an error it returns.
  abbrev pub write : Frame → Stream → Option Stream
  write f s =
      if fails (length s.frames) then finish s else some (record s { frames = f ∷ s.frames })

  abbrev deliver_first : Stream → List (List ℕ) → Bool → Option Stream
  deliver_first s (payload ∷ later) closed =
      write (update payload)
        (record s { hub = record (s.hub) { channels = receive s.number s.hub.channels } })
  deliver_first s [] true = finish s
  deliver_first s [] false = some s

  abbrev from_channel : Stream → Option Channel → Option Stream
  from_channel s none = some s
  from_channel s (some c) = deliver_first s c.buffer c.closed

  -- A turn of the loop: the next update, the end of a channel that is closed and empty, or nothing yet.
  unfoldable pub take_turn : Stream → Option Stream
  take_turn s = from_channel s (find (λ c. c.number == s.number) s.hub.channels)

  abbrev pub if_running : Stream → Option Stream → Option Stream
  if_running s next = if s.running then next else some s

  unfoldable pub on_event : Event → Stream → Option Stream
  unfolding take_turn
  on_event (published t payload) s = with_hub s (publish t payload s.hub)
  on_event turn s = if_running s (take_turn s)
  on_event done s = if_running s (finish s)
  on_event reader_failed s = cancel_once s

  abbrev pub on_events : List Event → Option Stream → Option Stream
  on_events [] o = o
  on_events (e ∷ es) none = none
  on_events (e ∷ es) (some s) = on_events es (on_event e s)

  abbrev pub open_stream : Topic → Hub → List Frame → Stream
  open_stream t h frames =
      let (n, h') = subscribe t h in
      record { hub = h'; topic = t; number = n; frames = frames; cancelled = false; running = true }

  -- The answer of a handler: an error, or a stream that the events then move; none is a panic.
  pub data Answer : Type 0 where
    refused : ℕ → String → Answer
    streams : Option Stream → Answer

  -- BookingEvents: by the claims of the context, the token of the query, whether the writer can flush, and what
  -- goes on.
  abbrev claims_for : (List ℕ → Option Claims) → Option Claims → List ℕ → Option Claims
  claims_for verify none token = verify token
  claims_for verify (some claims) token = some claims

  abbrev stream_for : Bool → Hub → List Event → Option Claims → Answer
  stream_for flusher h es none = refused 401 "invalid or missing access token"
  stream_for false h es (some claims) = refused 500 "streaming not supported"
  stream_for true h es (some claims) =
      streams (on_events es (write connected (open_stream (owner claims.user_id) h [])))

  unfoldable pub booking_events :
      (List ℕ → Option Claims) → Option Claims → List ℕ → Bool → Hub → List Event → Answer
  unfolding on_event
  booking_events verify claims token flusher h es =
      stream_for flusher h es (claims_for verify claims token)

  -- CheckOrigin: the header has to be one of the configured origins.
  unfoldable pub check_origin : List String → String → Bool
  check_origin [] origin = false
  check_origin (o ∷ origins) origin =
      let later = check_origin origins origin in if str_eq o origin then true else later

  -- The snapshot is written if the blocks could be read; an error of that write is dropped.
  abbrev snapshot_frames : ℕ → Result (List Block) → List Frame
  snapshot_frames id (ok blocks) = if fails 0 then [] else snapshot id blocks ∷ []
  snapshot_frames id (err e) = []

  abbrev upgraded : Bool → ℕ → World → Hub → List Event → Answer × World
  upgraded false id w h es = (refused 403 "Forbidden", w)
  upgraded true id w h es =
      let (blocks, w') = list_for_listing id w in
      (streams (on_events es (some (open_stream (listing id) h (snapshot_frames id blocks)))), w')

  abbrev for_listing : Option ℤ → List String → String → World → Hub → List Event → Answer × World
  for_listing none origins origin w h es = (refused 400 "invalid listing id", w)
  for_listing (some id) origins origin w h es =
      upgraded (check_origin origins origin) (row_id id) w h es

  unfoldable pub listing_availability :
      List ℕ → List String → String → World → Hub → List Event → Answer × World
  unfolding on_event check_origin
  listing_availability id_text origins origin w h es =
      for_listing (parse_int id_text) origins origin w h es
