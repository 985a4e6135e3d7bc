-- ===== src/Eventbus/Bounded.antt =====
-- internal/eventbus/kafka_consumer.go: what the consumer holds at any time, and what becomes of a message.
use gearshare.Prelude.{
  ℕ, ◌+◌, ◌≤◌, ◌≡◌, refl, ap, Bool, true, false, Option, none, some, List, [], ◌∷◌, ◌++◌, arith,
  length, count_where, count_where-append,
}
use gearshare.Eventbus.Held.{Reach-Held}
use gearshare.Eventbus.{
  Consumer, push_held, new_consumer, noted, work, Step, fetches, enqueues, takes, works, ends,
  exits, returns, Reach, here, next,
}

module _ {D S : Type 0} (handler : D → S → Bool × S) where
  -- How many of the messages that pass a test are somewhere.
  abbrev pub held_count : (D → Bool) → Option D → ℕ
  held_count p none = 0
  held_count p (some d) = count_where p (d ∷ [])

  abbrev pub Conserved : (D → Bool) → Consumer D S → Type 0
  Conserved p c =
      count_where p c.fetched
      ≡ held_count p c.held
        + count_where p c.jobs
        + count_where p c.busy
        + count_where p c.dropped
        + count_where p c.succeeded
        + count_where p c.failed

  count-removed :
      (p : D → Bool) (before : List D) (d : D) (after busy : List D)
      → busy ≡ before ++ d ∷ after
      → count_where p busy ≡ count_where p (before ++ after) + count_where p (d ∷ [])
  unfolding count_where
  count-removed p before d after busy e = ground (
    arith,
    ap (count_where p) e,
    count_where-append p before (d ∷ after),
    count_where-append p before after,
  )

  noted-Conserved :
      (p : D → Bool) (good : Bool) (d : D) (c : Consumer D S) (rest : List D)
      → count_where p c.busy ≡ count_where p rest + count_where p (d ∷ [])
      → Conserved p c
      → Conserved p (noted handler good d (record c { busy = rest }))
  noted-Conserved p true d c rest e h =
      omega (arith, e, h, count_where-append p (d ∷ []) c.succeeded)
  noted-Conserved p false d c rest e h = omega (arith, e, h, count_where-append p (d ∷ []) c.failed)

  push_held-count :
      (p : D → Bool) (held : Option D) (ds : List D)
      → count_where p (push_held held ds) ≡ held_count p held + count_where p ds
  push_held-count p none ds = omega arith
  push_held-count p (some d) ds = count_where-append p (d ∷ []) ds

  Step-Conserved :
      (p : D → Bool) (c c' : Consumer D S) → Step handler c c' → Conserved p c → Conserved p c'
  unfolding work
  Step-Conserved p c c' (fetches d _ f q) h =
      omega (arith, h, ap (held_count p) q, count_where-append p (d ∷ []) c.fetched)
  Step-Conserved p c c' (enqueues d _ f q room) h =
      omega (arith, h, ap (held_count p) q, count_where-append p c.jobs (d ∷ []))
  Step-Conserved p c c' (takes d later _ e room) h = omega (
    arith,
    h,
    ap (count_where p) e,
    count_where-append p (d ∷ []) later,
    count_where-append p (d ∷ []) c.busy,
  )
  Step-Conserved p c c' (works before d after _ e) h =
      noted-Conserved p (handler d c.state).0 d _ (before ++ after)
        (count-removed p before d after c.busy e) h
  Step-Conserved p c c' (ends _ f) h = omega (arith, h, push_held-count p c.held c.dropped)
  Step-Conserved p c c' (exits _ f empty room) h = h
  Step-Conserved p c c' (returns _ f all) h = h

  -- No message is lost, handled twice or made up: whichever messages are counted, those fetched are those that
  -- wait for the channel, in it, at a worker, dropped at the end, taken without an error and failed, each once.
  pub Reach-Conserved :
      (p : D → Bool) (s : S) (c : Consumer D S) → Reach handler (new_consumer s) c → Conserved p c
  unfolding count_where
  Reach-Conserved p s c here = refl
  Reach-Conserved p s c (next {c = c0} r step) =
      Step-Conserved p c0 c step (Reach-Conserved p s c0 r)

  count_where-all : (ds : List D) → count_where (λ d. true) ds ≡ length ds
  unfolding count_where
  count_where-all [] = refl
  count_where-all (d ∷ ds) = omega (arith, count_where-all ds)

  held_count-le : (o : Option D) → held_count (λ d. true) o ≤ 1
  unfolding count_where
  held_count-le none = omega arith
  held_count-le (some d) = omega arith

  -- However the fetches and the workers interleave, at most 16 messages wait in the channel, at most 4 are being
  -- handled, and all but 21 of those fetched have been handled or dropped at the end; the messages committed are
  -- those that the handler has taken without an error.
  pub Reach-Bounded :
      (s : S) (c : Consumer D S)
      → Reach handler (new_consumer s) c
      → (length c.jobs ≤ 16)
        × (length c.busy ≤ 4)
        × (length c.fetched ≤ 21 + (length c.dropped + length c.succeeded + length c.failed))
        × (c.committed ≡ c.succeeded)
  Reach-Bounded s c r =
      let h = Reach-Held handler s c r in
      let all : D → Bool = λ d. true in
      let total = Reach-Conserved all s c r in
      (
        omega (arith, h.buffered),
        omega (arith, h.at_work),
        omega (
          arith,
          total,
          h.buffered,
          h.at_work,
          held_count-le c.held,
          count_where-all c.fetched,
          count_where-all c.jobs,
          count_where-all c.busy,
          count_where-all c.dropped,
          count_where-all c.succeeded,
          count_where-all c.failed,
        ),
        h.kept,
      )
