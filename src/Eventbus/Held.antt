-- ===== src/Eventbus/Held.antt =====
-- internal/eventbus/kafka_consumer.go: what the consumer holds at any time, and when its workers have left.
use gearshare.Prelude.{
  suc, ◌+◌, ◌≤◌, ◌≡◌, refl, ap, ◌⊎◌, inl, inr, Bool, true, false, List, [], ◌∷◌, ◌++◌, arith,
  length, length-append,
}
use gearshare.Eventbus.{
  worker_count, queue_depth, Phase, fetching, draining, returned, Consumer, new_consumer, noted,
  work, Step, fetches, enqueues, takes, works, ends, exits, returns, Reach, here, next,
}

abbrev pub is_fetching : Phase → Bool
is_fetching fetching = true
is_fetching draining = false
is_fetching returned = false

abbrev pub is_returned : Phase → Bool
is_returned fetching = false
is_returned draining = false
is_returned returned = true

module _ {D S : Type 0} (handler : D → S → Bool × S) where
  -- The channel and the workers are never over their limits, no worker has left while the channel is open or a
  -- message is in it, and `Run` has not returned while one is there.
  pub record Held (c : Consumer D S) : Type 0 where
    pub buffered : length c.jobs ≤ queue_depth
    pub at_work : length c.busy + c.exited ≤ worker_count
    pub kept : c.committed ≡ c.succeeded
    pub after_exit : (c.exited ≡ 0) ⊎ ((c.jobs ≡ []) × (is_fetching c.phase ≡ false))
    pub at_end : (is_returned c.phase ≡ false) ⊎ (c.exited ≡ worker_count)

  pub length-removed :
      (before : List D) (d : D) (after busy : List D)
      → busy ≡ before ++ d ∷ after
      → length busy ≡ suc (length (before ++ after))
  length-removed before d after busy e =
      omega (arith, ap length e, length-append before (d ∷ after), length-append before after)

  noted-Held : (good : Bool) (d : D) (c : Consumer D S) → Held c → Held (noted handler good d c)
  noted-Held true d c b = record {
    buffered = b.buffered;
    at_work = b.at_work;
    kept = ap (λ ds. d ∷ ds) b.kept;
    after_exit = b.after_exit;
    at_end = b.at_end;
  }
  noted-Held false d c b = record {
    buffered = b.buffered;
    at_work = b.at_work;
    kept = b.kept;
    after_exit = b.after_exit;
    at_end = b.at_end;
  }

  none_left : (c : Consumer D S) → Held c → c.phase ≡ fetching → c.exited ≡ 0
  none_left c b p = elim b.after_exit [ inl e ↦ e | inr (_, f) ↦ absurd (ground (arith, p, f)) ]

  Step-Held : (c c' : Consumer D S) → Step handler c c' → Held c → Held c'
  unfolding work
  Step-Held c c' (fetches d _ p q) b = record {
    buffered = b.buffered;
    at_work = b.at_work;
    kept = b.kept;
    after_exit = b.after_exit;
    at_end = b.at_end;
  }
  Step-Held c c' (enqueues d _ p q room) b = record {
    buffered = omega (arith, length-append c.jobs (d ∷ []), room);
    at_work = b.at_work;
    kept = b.kept;
    after_exit = inl (none_left c b p);
    at_end = b.at_end;
  }
  Step-Held c c' (takes d later _ e room) b = record {
    buffered = omega (arith, ap length e, b.buffered);
    at_work = omega (arith, room);
    kept = b.kept;
    after_exit = elim b.after_exit [ inl n ↦ inl n | inr (none, _) ↦ absurd (cc) ];
    at_end = b.at_end;
  }
  Step-Held c c' (works before d after _ e) b = noted-Held (handler d c.state).0 d _ (record {
    buffered = b.buffered;
    at_work = omega (arith, length-removed before d after c.busy e, b.at_work);
    kept = b.kept;
    after_exit = b.after_exit;
    at_end = b.at_end;
  })
  Step-Held c c' (ends _ p) b = record {
    buffered = b.buffered;
    at_work = b.at_work;
    kept = b.kept;
    after_exit = inl (none_left c b p);
    at_end = inl refl;
  }
  Step-Held c c' (exits _ p empty room) b = record {
    buffered = b.buffered;
    at_work = omega (arith, room);
    kept = b.kept;
    after_exit = inr (empty, ground (arith, p));
    at_end = inl (ground (arith, p));
  }
  Step-Held c c' (returns _ p all) b = record {
    buffered = b.buffered;
    at_work = b.at_work;
    kept = b.kept;
    after_exit = elim b.after_exit [
      | inl n ↦ absurd (omega (arith, n, all))
      | inr (empty, _) ↦ inr (empty, refl)
    ];
    at_end = inr all;
  }

  pub Reach-Held : (s : S) (c : Consumer D S) → Reach handler (new_consumer s) c → Held c
  Reach-Held s c here = record {
    buffered = omega arith;
    at_work = omega arith;
    kept = refl;
    after_exit = inl refl;
    at_end = inl refl;
  }
  Reach-Held s c (next {c = c0} r step) = Step-Held c0 c step (Reach-Held s c0 r)
