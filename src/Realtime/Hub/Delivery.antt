-- ===== src/Realtime/Hub/Delivery.antt =====
-- internal/realtime/hub.go: no operation panics, and no buffer grows beyond its size.
use gearshare.Prelude.{
  ℕ, ◌≤◌, ◌<◌, ◌≡◌, refl, ap, sym, ◌∙◌, Bool, true, false, not, ◌&&◌, ◌||◌, some, List, [], ◌∷◌,
  ◌++◌, map, arith, ltb, ◌==◌, if◌then◌else◌, length, length-append, select, All, All-map,
  Bool-cases, inl, inr,
}
use gearshare.Realtime.Hub.{
  Topic, Channel, Hub, subscribe, subscribed, deliver, deliver_all, publish, is_sub, close, cancel,
  subscriber_buffer_size,
}

-- A channel that some subscription still holds.
pub held : ℕ → List (Topic × ℕ) → Bool
held n [] = false
held n ((u, m) ∷ subs) = m == n || held n subs

-- Every channel is in one subscription at most.
abbrev pub Distinct : List (Topic × ℕ) → Type 0
Distinct [] = Unit {0}
Distinct ((u, m) ∷ subs) = (held m subs ≡ false) × Distinct subs

-- A channel that is closed is in no subscription, and no buffer is over its size.
abbrev pub Good : ℕ → List (Topic × ℕ) → Channel → Type 0
Good next subs c =
    (length c.buffer ≤ subscriber_buffer_size)
    × (c.number < next)
    × (c.closed ≡ true → held c.number subs ≡ false)

pub record Sound (h : Hub) : Type 0 where
  pub channels : All (Good h.next h.subs) h.channels
  pub distinct : Distinct h.subs
  pub below : All (λ s. s.1 < h.next) h.subs

held-below : (n : ℕ) (subs : List (Topic × ℕ)) → All (λ s. s.1 < n) subs → held n subs ≡ false
unfolding held
held-below n [] h = refl
held-below n ((u, m) ∷ subs) h = ground (arith, held-below n subs h.1)

subscribed-held :
    (t : Topic) (n : ℕ) (subs : List (Topic × ℕ)) → subscribed t n subs ≡ true → held n subs ≡ true
unfolding subscribed held
subscribed-held t n [] h = ground (arith, h)
subscribed-held t n ((u, m) ∷ subs) h = elim (Bool-cases (m == n)) [
  | inl e ↦ ground (arith, e)
  | inr e ↦ ground (arith, e, subscribed-held t n subs (ground (arith, e, h)))
]

-- A subscription opens a channel of its own, and keeps the hub sound.
pub subscribe-Sound : (t : Topic) (h : Hub) → Sound h → Sound (subscribe t h).1
unfolding subscribe held
subscribe-Sound t h s = record {
  channels = (
    (omega arith, omega arith, λ p. ground (arith, p)),
    All-map (λ c g. (g.0, omega (arith, g.1), λ p. ground (arith, g.1, g.2 p))) h.channels
        s.channels,
  );
  distinct = (held-below h.next h.subs s.below, s.distinct);
  below = (omega arith, All-map (λ x b. omega (arith, b)) h.subs s.below);
}

-- What an update does to a channel: every subscriber of the topic with room gets the payload, last.
abbrev pub updated : Topic → List (Topic × ℕ) → List ℕ → Channel → Channel
updated t subs payload c =
    if subscribed t c.number subs && ltb (length c.buffer) subscriber_buffer_size
    then record c { buffer = c.buffer ++ (payload ∷ []) }
    else c

deliver_all-updated :
    (next : ℕ) (t : Topic) (subs : List (Topic × ℕ)) (payload : List ℕ) (cs : List Channel)
    → All (Good next subs) cs
    → deliver_all t subs payload cs ≡ some (map (updated t subs payload) cs)
unfolding deliver_all deliver
deliver_all-updated next t subs payload [] g = refl
deliver_all-updated next t subs payload (c ∷ cs) g =
    let rest = deliver_all-updated next t subs payload cs g.1 in
    elim (Bool-cases (subscribed t c.number subs)) [
      | inr e ↦ ground (arith, e, rest)
      | inl e ↦ elim (Bool-cases c.closed) [
        | inr unshut ↦ ground (arith, e, rest, unshut)
        | inl shut ↦ ground (arith, g.0.2 shut, subscribed-held t c.number subs e)
      ]
    ]

-- In a sound hub a publication never panics and never blocks: it appends the payload to the buffers of the
-- topic's subscribers that have room, and changes nothing else.
pub publish-updated :
    (t : Topic) (payload : List ℕ) (h : Hub)
    → Sound h
    → publish t payload h ≡ some (record h { channels = map (updated t h.subs payload) h.channels })
unfolding publish
publish-updated t payload h s =
    ground (arith, deliver_all-updated h.next t h.subs payload h.channels s.channels)

updated-Good :
    (next : ℕ) (t : Topic) (subs : List (Topic × ℕ)) (payload : List ℕ) (c : Channel)
    → Good next subs c
    → Good next subs (updated t subs payload c)
updated-Good next t subs payload c g =
    ground (arith, g.0, g.1, g.2, length-append c.buffer (payload ∷ []))

All-updated :
    (next : ℕ) (t : Topic) (subs : List (Topic × ℕ)) (payload : List ℕ) (cs : List Channel)
    → All (Good next subs) cs
    → All (Good next subs) (map (updated t subs payload) cs)
All-updated next t subs payload [] g = tt
All-updated next t subs payload (c ∷ cs) g =
    (updated-Good next t subs payload c g.0, All-updated next t subs payload cs g.1)

-- What is left of the subscriptions when one is cancelled.
held-select :
    (k : ℕ) (p : Topic × ℕ → Bool) (subs : List (Topic × ℕ))
    → held k subs ≡ false
    → held k (select p subs) ≡ false
unfolding held select
held-select k p [] h = refl
held-select k p ((u, m) ∷ subs) h = ground (arith, h, held-select k p subs (ground (arith, h)))

gone :
    (t : Topic) (n : ℕ) (subs : List (Topic × ℕ))
    → Distinct subs
    → subscribed t n subs ≡ true
    → held n (select (λ s. not (is_sub t n s)) subs) ≡ false
unfolding held select subscribed
gone t n [] d h = ground (arith, h)
gone t n ((u, m) ∷ subs) d h = elim (Bool-cases (m == n)) [
  | inl e ↦
      let same : m ≡ n = ground (arith, e) in
      let others : held n subs ≡ false = ap (λ k. held k subs) (sym same) ∙ d.0 in
      ground (
        arith,
        e,
        h,
        others,
        subscribed-held t n subs,
        held-select n (λ s. not (is_sub t n s)) subs others,
      )
  | inr e ↦ ground (arith, e, gone t n subs d.1 (ground (arith, e, h)))
]

close-some :
    (t : Topic) (n next : ℕ) (subs : List (Topic × ℕ)) (cs : List Channel)
    → Distinct subs
    → subscribed t n subs ≡ true
    → All (Good next subs) cs
    → (cs' : List Channel) × (close n cs ≡ some cs')
      × All (Good next (select (λ s. not (is_sub t n s)) subs)) cs'
unfolding close
close-some t n next subs [] d h g = ([], refl, tt)
close-some t n next subs (c ∷ cs) d h (g, gs) =
    let (rest, e, ok_rest) = close-some t n next subs cs d h gs in
    let left = select (λ s. not (is_sub t n s)) subs in
    elim (Bool-cases (c.number == n)) [
      | inl p ↦
          let same : c.number ≡ n = ground (arith, p) in
          let shut : held c.number left ≡ false = ap (λ k. held k left) same ∙ gone t n subs d h in
          let in_use : held c.number subs ≡ true =
            ap (λ k. held k subs) same ∙ subscribed-held t n subs h in
          let unshut : c.closed ≡ false = ground (arith, in_use, g.2) in
          (
            record c { closed = true } ∷ rest,
            ground (arith, p, e, unshut),
            ((g.0, g.1, λ _. shut), ok_rest),
          )
      | inr p ↦ (
        c ∷ rest,
        ground (arith, p, e),
        ((g.0, g.1, λ q. held-select c.number (λ s. not (is_sub t n s)) subs (g.2 q)), ok_rest),
      )
    ]

Distinct-select :
    (p : Topic × ℕ → Bool) (subs : List (Topic × ℕ)) → Distinct subs → Distinct (select p subs)
unfolding select
Distinct-select p [] d = tt
Distinct-select p ((u, m) ∷ subs) d = elim (Bool-cases (p (u, m))) [
  | inl e ↦ rw (e, select) (held-select m p subs d.0, Distinct-select p subs d.1)
  | inr e ↦ rw (e, select) (Distinct-select p subs d.1)
]

below-select :
    (n : ℕ) (p : Topic × ℕ → Bool) (subs : List (Topic × ℕ))
    → All (λ s. s.1 < n) subs
    → All (λ s. s.1 < n) (select p subs)
unfolding select
below-select n p [] b = tt
below-select n p (x ∷ subs) b = elim (Bool-cases (p x)) [
  | inl e ↦ rw (e, select) (b.0, below-select n p subs b.1)
  | inr e ↦ rw (e, select) (below-select n p subs b.1)
]

-- Cancelling a subscription that is there, in a sound hub, does not panic and leaves a sound hub, in which nobody holds
-- the channel.
pub cancel-Sound :
    (t : Topic) (n : ℕ) (h : Hub)
    → Sound h
    → subscribed t n h.subs ≡ true
    → (h' : Hub) × (cancel t n h ≡ some h') × Sound h' × (held n h'.subs ≡ false)
unfolding cancel
cancel-Sound t n h s there =
    let (cs, e, good) = close-some t n h.next h.subs h.channels s.distinct there s.channels in
    let subs = select (λ x. not (is_sub t n x)) h.subs in
    let h' : Hub = record h { subs = subs; channels = cs } in
    (
      h',
      ground (arith, e),
      record {
        channels = good;
        distinct = Distinct-select (λ x. not (is_sub t n x)) h.subs s.distinct;
        below = below-select h.next (λ x. not (is_sub t n x)) h.subs s.below;
      },
      gone t n h.subs s.distinct there,
    )

-- In a sound hub a publication leaves a sound hub, with every buffer at its eight payloads or below.
pub publish-Sound :
    (t : Topic) (payload : List ℕ) (h : Hub)
    → Sound h
    → (h' : Hub) × (publish t payload h ≡ some h') × Sound h'
publish-Sound t payload h s = (
  record h { channels = map (updated t h.subs payload) h.channels },
  publish-updated t payload h s,
  record {
    channels = All-updated h.next t h.subs payload h.channels s.channels;
    distinct = s.distinct;
    below = s.below;
  },
)
