-- ===== src/Realtime/Streams/Closed.antt =====
-- internal/realtime/sse.go and websocket.go: a stream that ends leaves nothing behind.
use gearshare.Prelude.{
  ℕ, ◌≡◌, refl, sym, ◌∙◌, ◌⊎◌, inl, inr, Bool, true, false, Option, none, some, List, [], ◌∷◌,
  arith, length, Bool-cases,
}
use gearshare.Realtime.Hub.{Topic, Channel, Hub, subscribe, subscribed, publish}
use gearshare.Realtime.Hub.Delivery.{
  Sound, held, subscribe-Sound, publish-updated, publish-Sound, cancel-Sound,
}
use gearshare.Realtime.Hub.Sequences.{receive_one-Sound, same_topic_refl}
use gearshare.Realtime.Streams.{
  Frame, update, Stream, Event, published, turn, done, reader_failed, with_hub, cancel_once, finish,
  write, deliver_first, from_channel, take_turn, if_running, on_event, on_events, open_stream,
}

-- The hub is sound, and the stream either has its subscription and runs or waits to end, or has cancelled it.
pub record Kept (s : Stream) : Type 0 where
  pub sound : Sound s.hub
  pub subscription :
      ((s.cancelled ≡ false) × (subscribed s.topic s.number s.hub.subs ≡ true))
      ⊎ ((s.cancelled ≡ true) × (held s.number s.hub.subs ≡ false))

-- And a handler that has returned has cancelled it.
pub record Clean (s : Stream) : Type 0 where
  pub kept : Kept s
  pub over : (s.running ≡ true) ⊎ (s.cancelled ≡ true)

abbrev Goes : Option Stream → Type 0
Goes o = (s : Stream) × (o ≡ some s) × Clean s

module _ (fails : ℕ → Bool) where
  cancel_once-Goes : (s : Stream) → Kept s → Goes (cancel_once fails s)
  unfolding cancel_once
  cancel_once-Goes s k = elim k.subscription [
    | inr (p, h) ↦ (s, ground (arith, p), record { kept = k; over = inr p })
    | inl (p, there) ↦
        let (h', e, sound, gone) = cancel-Sound s.topic s.number s.hub k.sound there in
        (
          record s { cancelled = true; hub = h' },
          ground (arith, p, e),
          record {
            kept = record { sound = sound; subscription = inr (refl, gone) };
            over = inr refl;
          },
        )
  ]

  finish-Goes : (s : Stream) → Kept s → Goes (finish fails s)
  finish-Goes s k =
      cancel_once-Goes (record s { running = false })
        (record { sound = k.sound; subscription = k.subscription })

  write-Goes : (f : Frame) (s : Stream) → Clean s → Goes (write fails f s)
  write-Goes f s c = elim (Bool-cases (fails (length s.frames))) [
    | inl p ↦ rw p (finish-Goes s c.kept)
    | inr p ↦ rw p (
      record s { frames = f ∷ s.frames },
      refl,
      record {
        kept = record { sound = c.kept.sound; subscription = c.kept.subscription };
        over = c.over;
      },
    )
  ]

  deliver_first-Goes :
      (s : Stream) (buffer : List (List ℕ)) (closed : Bool)
      → Clean s
      → Goes (deliver_first fails s buffer closed)
  deliver_first-Goes s (payload ∷ later) closed c = write-Goes (update payload) _ (record {
    kept = record {
      sound = receive_one-Sound (some (s.topic, s.number)) s.hub c.kept.sound;
      subscription = c.kept.subscription;
    };
    over = c.over;
  })
  deliver_first-Goes s [] true c = finish-Goes s c.kept
  deliver_first-Goes s [] false c = (s, refl, c)

  from_channel-Goes : (s : Stream) (o : Option Channel) → Clean s → Goes (from_channel fails s o)
  from_channel-Goes s none c = (s, refl, c)
  from_channel-Goes s (some ch) c = deliver_first-Goes s ch.buffer ch.closed c

  if_running-Goes :
      (s : Stream) (o : Option Stream) → Clean s → Goes o → Goes (if_running fails s o)
  if_running-Goes s o c g = elim (Bool-cases s.running) [
    | inl p ↦ let (s', e, clean) = g in (s', ground (arith, p, e), clean)
    | inr p ↦ (s, ground (arith, p), c)
  ]

  published-Goes :
      (t : Topic) (payload : List ℕ) (s : Stream)
      → Clean s
      → Goes (with_hub fails s (publish t payload s.hub))
  published-Goes t payload s c =
      let (h', e, sound) = publish-Sound t payload s.hub c.kept.sound in
      let said = publish-updated t payload s.hub c.kept.sound in
      let same : h'.subs ≡ s.hub.subs = ground (arith, sym e ∙ said) in
      rw e (
        record s { hub = h' },
        refl,
        record {
          kept = record { sound = sound; subscription = rw same c.kept.subscription };
          over = c.over;
        },
      )

  on_event-Goes : (e : Event) (s : Stream) → Clean s → Goes (on_event fails e s)
  unfolding on_event take_turn
  on_event-Goes (published t payload) s c = published-Goes t payload s c
  on_event-Goes turn s c = if_running-Goes s _ c (from_channel-Goes s _ c)
  on_event-Goes done s c = if_running-Goes s _ c (finish-Goes s c.kept)
  on_event-Goes reader_failed s c = cancel_once-Goes s c.kept

  on_events-Goes : (es : List Event) (o : Option Stream) → Goes o → Goes (on_events fails es o)
  on_events-Goes [] o g = g
  on_events-Goes (e ∷ es) o (s, is, c) =
      rw is (on_events-Goes es (on_event fails e s) (on_event-Goes e s c))

  open-Clean :
      (t : Topic) (h : Hub) (frames : List Frame) → Sound h → Clean (open_stream fails t h frames)
  unfolding subscribe subscribed
  open-Clean t h frames sound = record {
    kept = record {
      sound = subscribe-Sound t h sound;
      subscription = inl (refl, ground (arith, same_topic_refl t));
    };
    over = inl refl;
  }

  -- A stream over a sound hub never panics, whatever is published, however its handler's turns, the end of its
  -- request and the failure of its reader interleave, and whichever writes fail: the hub stays sound, a
  -- subscription that is cancelled is cancelled once, and one of a handler that has returned is cancelled.
  pub on_events-Clean :
      (t : Topic) (h : Hub) (frames : List Frame) (es : List Event)
      → Sound h
      → (s : Stream) × (on_events fails es (some (open_stream fails t h frames)) ≡ some s) × Clean s
  on_events-Clean t h frames es sound =
      on_events-Goes es _ (open_stream fails t h frames, refl, open-Clean t h frames sound)
