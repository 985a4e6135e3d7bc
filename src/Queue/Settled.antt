-- ===== src/Queue/Settled.antt =====
-- internal/queue/consumer.go: every delivery is answered.
use gearshare.Prelude.{
  ◌≡◌, refl, ◌∙◌, ap, sym, Bool, true, false, List, [], ◌∷◌, ◌++◌, arith, length, if◌then◌else◌,
}
use mathlib.Core.List.{append-nil, append_assoc}
use gearshare.Queue.{
  Topology, Call, ack, nack, close, Channel, Signal, delivery, cancelled, closed, call, settle,
  run_loop, run, consume,
}

module _ {D : Type 0} where
  -- The deliveries that come in before the consumer ends.
  abbrev pub arrived : List (Signal D) → List D
  arrived [] = []
  arrived (cancelled ∷ later) = []
  arrived (closed ∷ later) = []
  arrived (delivery d ∷ later) = d ∷ arrived later

  -- The acknowledgements among the calls, in the order in which the calls were made.
  unfoldable pub answers_in : List (Call D) → List (Call D)
  answers_in [] = []
  answers_in (ack d ∷ calls) = answers_in calls ++ ack d ∷ []
  answers_in (nack d ∷ calls) = answers_in calls ++ nack d ∷ []
  answers_in (_ ∷ calls) = answers_in calls

  module _ {S : Type 0} (handler : D → S → Bool × S) where
    -- The answers that the handler asks for, and the state that it leaves.
    abbrev pub answers : List D → S → List (Call D)
    answers [] s = []
    answers (d ∷ ds) s = (if (handler d s).0 then ack d else nack d) ∷ answers ds (handler d s).1

    abbrev pub handled : List D → S → S
    handled [] s = s
    handled (d ∷ ds) s = handled ds (handler d s).1

    answers_in-settle :
        (good : Bool) (d : D) (calls : List (Call D))
        → answers_in (settle good d ∷ calls)
          ≡ answers_in calls ++ (if good then ack d else nack d) ∷ []
    unfolding answers_in
    answers_in-settle true d calls = refl
    answers_in-settle false d calls = refl

    closed_now : (calls : List (Call D)) → answers_in (close ∷ calls) ≡ answers_in calls ++ []
    unfolding answers_in
    closed_now calls = sym (append-nil (answers_in calls))

    loop_settles :
        (signals : List (Signal D)) (s : S) (ch : Channel D)
        → (answers_in (run_loop handler signals s ch).2.calls
            ≡ answers_in ch.calls ++ answers (arrived signals) s)
          × ((run_loop handler signals s ch).1 ≡ handled (arrived signals) s)
    unfolding run_loop call
    loop_settles [] s ch = (sym (append-nil (answers_in ch.calls)), refl)
    loop_settles (cancelled ∷ later) s ch = (closed_now ch.calls, refl)
    loop_settles (closed ∷ later) s ch = (sym (append-nil (answers_in ch.calls)), refl)
    loop_settles (delivery d ∷ later) s ch =
        let (good, s') = handler d s in
        let (rest, kept) = loop_settles later s' (call (settle good d) ch).1 in
        (
          rest
              ∙ (ap (λ a. a ++ answers (arrived later) s') (answers_in-settle good d ch.calls)
                  ∙ append_assoc (answers_in ch.calls) ((if good then ack d else nack d) ∷ [])
                      (answers (arrived later) s')),
          kept,
        )

    -- A consumer whose first call is not refused answers every delivery that reaches it before it is cancelled
    -- or the channel closes: once, in the order of arrival, with an ack exactly where the handler returned no
    -- error and a nack to the dead-letter queue where it did, whatever calls fail; and the handler has then seen
    -- each of these deliveries once.
    pub run-settles :
        (t : Topology) (signals : List (Signal D)) (s : S) (ch : Channel D)
        → ch.fails (length ch.calls) ≡ false
        → (answers_in (run handler t signals s ch).2.calls
            ≡ answers_in ch.calls ++ answers (arrived signals) s)
          × ((run handler t signals s ch).1 ≡ handled (arrived signals) s)
    unfolding run call answers_in
    run-settles t signals s ch fine =
        let ch' = (call (consume t.queue) ch).1 in
        let e : run handler t signals s ch ≡ run_loop handler signals s ch' =
          ground (arith, fine) in
        rw e (loop_settles signals s ch')
