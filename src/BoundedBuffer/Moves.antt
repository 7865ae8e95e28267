-- ===== src/BoundedBuffer/Moves.antt =====
-- pthreads/pc-9.c: each step keeps what holds between the steps.
use tcp_and_parallel.Prelude.{
  ℕ, suc, ◌+◌, ◌≤◌, ◌<◌, ◌≡◌, ◌≢◌, refl, sym, ap, subst, ◌∙◌, inl, inr, true, false, List, [], ◌∷◌,
  ◌++◌, append_assoc, arith,
}
use tcp_and_parallel.BoundedBuffer.{
  queue_add, State, Producer, running, waiting, signalling, signalled,
}
use tcp_and_parallel.BoundedBuffer.Ring.{Holds, queue_add-Holds, queue_del-Holds}
use tcp_and_parallel.BoundedBuffer.Invariant.{upto, Inv, taken}

module _ (loops : ℕ) where
  pub waits-Inv :
      (s : State)
      → s.producer ≡ running
      → s.queue.full ≡ true
      → Inv loops s
      → Inv loops (record s { producer = waiting })
  waits-Inv s at full h = record {
    queued = h.queued;
    ring = h.ring;
    order = h.order;
    bound = h.bound;
    producer_reason = λ e. full;
    consumer_reason = λ w. elim (h.consumer_reason w) [ inl x ↦ inl x | inr x ↦ cc ];
  }

  pub add-Inv :
      (s : State)
      → s.i < loops
      → s.queue.full ≡ false
      → Inv loops s
      → Inv loops (record s { queue = queue_add s.queue s.i; i = s.i + 1; producer = signalling })
  add-Inv s more room h = record {
    queued = h.queued ++ s.i ∷ [];
    ring = queue_add-Holds s.queue s.i h.queued h.ring (ground (arith, h.ring.full, h.ring.few));
    order =
        let next : suc s.i ≡ s.i + 1 = omega arith in
        subst (λ (n : ℕ). s.received ++ (h.queued ++ s.i ∷ []) ≡ upto n) next
          (sym (append_assoc s.received h.queued (s.i ∷ []))
            ∙ ap (λ (xs : List ℕ). xs ++ s.i ∷ []) h.order);
    bound = omega arith;
    producer_reason = λ e. cc;
    consumer_reason = λ w. inr refl;
  }

  pub signal-Inv :
      (s : State)
      → Inv loops s
      → Inv loops (record s { producer = running; consumer_waits = false })
  signal-Inv s h = record {
    queued = h.queued;
    ring = h.ring;
    order = h.order;
    bound = h.bound;
    producer_reason = λ e. cc;
    consumer_reason = λ w. cc;
  }

  pub sleep-Inv :
      (s : State)
      → s.queue.empty ≡ true
      → Inv loops s
      → Inv loops (record s { consumer_waits = true })
  sleep-Inv s empty h = record {
    queued = h.queued;
    ring = h.ring;
    order = h.order;
    bound = h.bound;
    producer_reason = h.producer_reason;
    consumer_reason = λ w. inl empty;
  }

  pub signalled_ne : (p : Producer) → signalled p ≢ waiting
  unfolding signalled
  signalled_ne running e = cc
  signalled_ne waiting e = cc
  signalled_ne signalling e = cc

  pub take-Inv :
      (s : State) (xs : List ℕ)
      → Holds s.queue xs
      → s.received ++ xs ≡ upto s.i
      → s.i ≤ loops
      → s.queue.empty ≡ false
      → s.consumer_waits ≡ false
      → Inv loops (taken s)
  take-Inv s [] ring order bound some_there awake = absurd (ground (arith, ring.empty))
  take-Inv s (x ∷ xs) ring order bound some_there awake =
      let d = queue_del-Holds s.queue x xs ring in
      record {
        queued = xs;
        ring = d.1;
        order = rw d.0 (append_assoc s.received (x ∷ []) xs ∙ order);
        bound = bound;
        producer_reason = λ e. absurd (signalled_ne s.producer e);
        consumer_reason = λ w. cc;
      }

  pub wake-Inv :
      (s : State) → s.producer ≡ waiting → Inv loops s → Inv loops (record s { producer = running })
  wake-Inv s at h = record {
    queued = h.queued;
    ring = h.ring;
    order = h.order;
    bound = h.bound;
    producer_reason = λ e. cc;
    consumer_reason = λ w. elim (h.consumer_reason w) [ inl x ↦ inl x | inr x ↦ cc ];
  }

  pub wake_consumer-Inv :
      (s : State) → Inv loops s → Inv loops (record s { consumer_waits = false })
  wake_consumer-Inv s h = record {
    queued = h.queued;
    ring = h.ring;
    order = h.order;
    bound = h.bound;
    producer_reason = h.producer_reason;
    consumer_reason = λ w. cc;
  }
