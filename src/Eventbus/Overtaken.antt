-- ===== src/Eventbus/Overtaken.antt =====
-- internal/eventbus/kafka_consumer.go: what becomes of a message that another one of its partition overtakes. A
-- partition's messages have offsets, and the broker keeps one offset for the group: `resume` is where a consumer
-- that starts again goes on, by where the group began and what was committed, the latest first.
use gearshare.Prelude.{
  ℕ, suc, ◌≤◌, ◌<◌, ◌≡◌, refl, Bool, true, false, none, some, List, [], ◌∷◌, arith, All, ap, ◌==◌,
  count_where,
}
use gearshare.Eventbus.Bounded.{Reach-Conserved}
use gearshare.Eventbus.{
  Consumer, new_consumer, noted, work, fetches, enqueues, takes, works, Reach, here, next,
}

module _ {D S : Type 0} (handler : D → S → Bool × S) (offset : D → ℕ)
    (resume : ℕ → List D → ℕ) where
  -- What Kafka documents: a commit sets the group's offset to the one behind the message.
  pub record Committing : Type 0 where
    pub behind : (start : ℕ) (d : D) (ds : List D) → resume start (d ∷ ds) ≡ suc (offset d)

  abbrev pub waiting : S → D → D → Consumer D S
  waiting s d e = record (new_consumer s) { busy = e ∷ d ∷ []; fetched = e ∷ d ∷ [] }

  -- Two workers have a message each.
  waiting-Reach : (s : S) (d e : D) → Reach handler (new_consumer s) (waiting s d e)
  waiting-Reach s d e =
      let c0 : Consumer D S = new_consumer s in
      let c1 = record c0 { held = some d; fetched = d ∷ [] } in
      let c2 = record c1 { held = none; jobs = d ∷ [] } in
      let c3 = record c2 { jobs = []; busy = d ∷ [] } in
      let c4 = record c3 { held = some e; fetched = e ∷ d ∷ [] } in
      let c5 = record c4 { held = none; jobs = e ∷ [] } in
      next
        (next
          (next
            (next
              (next (next here (fetches d c0 refl refl)) (enqueues d c1 refl refl (omega arith)))
              (takes d [] c2 refl (omega arith)))
            (fetches e c3 refl refl))
          (enqueues e c4 refl refl (omega arith)))
        (takes e [] c5 refl (omega arith))

  abbrev pub same : D → D → Bool
  same d m = offset m == offset d

  none-behind :
      (d : D) (n : ℕ) (ms : List D)
      → offset d < n
      → All (λ m. n ≤ offset m) ms
      → count_where (same d) ms ≡ 0
  unfolding count_where
  none-behind d n [] h all = refl
  none-behind d n (m ∷ ms) h all = grind (arith, none-behind d n ms h all.1, all.0)

  -- One after the other.
  abbrev pub overtaken : S → D → D → Consumer D S
  overtaken s d e = work handler e [] (work handler d (e ∷ []) (waiting s d e))

  noted-busy : (good : Bool) (d : D) (c : Consumer D S) → (noted handler good d c).busy ≡ c.busy
  noted-busy true d c = refl
  noted-busy false d c = refl

  work-busy : (d : D) (others : List D) (c : Consumer D S) → (work handler d others c).busy ≡ others
  unfolding work
  work-busy d others c = noted-busy (handler d c.state).0 d _

  overtaken-Reach : (s : S) (d e : D) → Reach handler (new_consumer s) (overtaken s d e)
  overtaken-Reach s d e =
      let failing = works (e ∷ []) d [] (waiting s d e) refl in
      next (next (waiting-Reach s d e) failing)
        (works [] e [] _ (work-busy d (e ∷ []) (waiting s d e)))

  -- What the two turns leave behind.
  overtaken-state :
      (s s0 s1 : S) (d e : D)
      → handler d s ≡ (false, s0)
      → handler e s0 ≡ (true, s1)
      → overtaken s d e ≡ record (new_consumer s1) {
        fetched = e ∷ d ∷ [];
        succeeded = e ∷ [];
        failed = d ∷ [];
        committed = e ∷ [];
      }
  unfolding work
  overtaken-state s s0 s1 d e bad good = rw (bad, good) refl

  -- A message whose handler fails, while the next one of its partition is handled and committed, is gone: the
  -- consumer can come to where it has failed and the group's offset is behind it, and however one that starts
  -- again from that offset goes on, it neither fetches the message nor takes it without an error.
  pub overtaken-lost :
      Committing
      → (start : ℕ) (s s0 s1 : S) (d e : D) (c : Consumer D S) → offset d < offset e
      → handler d s ≡ (false, s0)
      → handler e s0 ≡ (true, s1)
      → Reach handler (new_consumer s1) c
      → All (λ m. resume start (e ∷ []) ≤ offset m) c.fetched
      → Reach handler (new_consumer s) (overtaken s d e)
        × ((overtaken s d e).failed ≡ d ∷ [])
        × ((overtaken s d e).committed ≡ e ∷ [])
        × (count_where (same d) c.fetched ≡ 0)
        × (count_where (same d) c.succeeded ≡ 0)
  overtaken-lost laws start s s0 s1 d e c less bad good reach later =
      let state = overtaken-state s s0 s1 d e bad good in
      let passed : offset d < resume start (e ∷ []) = omega (arith, less, laws.behind start e []) in
      let none_fetched = none-behind d (resume start (e ∷ [])) c.fetched passed later in
      (
        overtaken-Reach s d e,
        ap (λ o. o.failed) state,
        ap (λ o. o.committed) state,
        none_fetched,
        omega (arith, none_fetched, Reach-Conserved handler (same d) s1 c reach),
      )
