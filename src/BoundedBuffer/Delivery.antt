-- ===== src/BoundedBuffer/Delivery.antt =====
-- pthreads/pc-9.c: the threads can always go on until the consumer has received everything.
use tcp_and_parallel.Prelude.{
  ℕ, zero, suc, ◌+◌, ◌*◌, ◌<◌, ◌≡◌, ◌≢◌, refl, inl, inr, true, false, Bool-cases, some, [], ◌∷◌,
  ltb, length, length-append, arith,
}
use tcp_and_parallel.BoundedBuffer.{
  queue_del, State, running, signalling, start, Event, produce, signal, consume, step, Reachable,
}
use tcp_and_parallel.BoundedBuffer.Order.{step-AllInv, Reachable-Inv}
use tcp_and_parallel.BoundedBuffer.Invariant.{Inv, taken}
use tcp_and_parallel.BoundedBuffer.Progress.{
  counts, to_signal-signalled, finish, added, step-signal, step-consume, step-produce,
  runs_at_empty,
}
use tcp_and_parallel.BoundedBuffer.Waits.{
  done, next, unsignalled, Delivers, to_signal, Producer-cases, Left,
}

module _ (loops : ℕ) where
  module _ (n : ℕ) (rest : (t : State) → Left loops n t → Inv loops t → Delivers loops t) where
    by :
        (s t : State) (e : Event)
        → unsignalled e ≡ false
        → step loops e s ≡ some t
        → Left loops n t
        → Inv loops s
        → Delivers loops s
    by s t e own at left h = next s t e own at (rest t left (step-AllInv loops e s h t at))

    by_signal :
        (s : State)
        → s.producer ≡ signalling
        → Left loops (suc n) s
        → Inv loops s
        → Delivers loops s
    unfolding to_signal
    by_signal s at left h =
        let before : to_signal s.producer ≡ 1 = rw at refl in
        by s _ signal refl (step-signal loops s at) (omega arith) h

    by_consume :
        (s : State)
        → s.consumer_waits ≡ false
        → s.queue.empty ≡ false
        → Left loops (suc n) s
        → Inv loops s
        → Delivers loops s
    by_consume s awake some_there left h =
        let count = length-append s.received ((queue_del s.queue).0 ∷ []) in
        let sig = to_signal-signalled loops s.producer in
        by s (taken s) consume refl (step-consume loops s awake some_there) (omega arith) h

    by_produce :
        (s : State)
        → s.producer ≡ running
        → s.i < loops
        → s.queue.full ≡ false
        → Left loops (suc n) s
        → Inv loops s
        → Delivers loops s
    unfolding to_signal
    by_produce s at more room left h =
        by s (added loops s) produce refl (step-produce loops s at more room) (omega arith) h

    at_empty :
        (s : State)
        → s.producer ≢ signalling
        → s.queue.empty ≡ true
        → Left loops (suc n) s
        → Inv loops s
        → Delivers loops s
    at_empty s other empty left h =
        let none_left : length h.queued ≡ 0 = ground (arith, h.ring.empty) in
        let room : s.queue.full ≡ false = ground (arith, h.ring.full, none_left) in
        elim (Bool-cases (ltb s.i loops)) [
          | inr no_more ↦
              done s (finish loops s h.queued h.order none_left (ground (arith, h.bound)))
          | inl more ↦ by_produce s (runs_at_empty loops s other room h) (ground arith) room left h
        ]

    awake :
        (s : State)
        → s.producer ≢ signalling
        → s.consumer_waits ≡ false
        → Left loops (suc n) s
        → Inv loops s
        → Delivers loops s
    awake s other up left h = elim (Bool-cases s.queue.empty) [
      | inl empty ↦ at_empty s other empty left h
      | inr some_there ↦ by_consume s up some_there left h
    ]

    asleep :
        (s : State)
        → s.producer ≢ signalling
        → s.consumer_waits ≡ true
        → Left loops (suc n) s
        → Inv loops s
        → Delivers loops s
    asleep s other waits left h = elim (h.consumer_reason waits) [
      | inl empty ↦ at_empty s other empty left h
      | inr signals ↦ absurd (other signals)
    ]

    silent :
        (s : State)
        → s.producer ≢ signalling
        → Left loops (suc n) s
        → Inv loops s
        → Delivers loops s
    silent s other left h = elim (Bool-cases s.consumer_waits) [
      | inl waits ↦ asleep s other waits left h
      | inr up ↦ awake s other up left h
    ]

    some_left : (s : State) → Left loops (suc n) s → Inv loops s → Delivers loops s
    some_left s left h = elim (Producer-cases s.producer) [
      | inl runs ↦ silent s (λ e. cc) left h
      | inr (inl waits) ↦ silent s (λ e. cc) left h
      | inr (inr signals) ↦ by_signal s signals left h
    ]

  deliver : (n : ℕ) (s : State) → Left loops n s → Inv loops s → Delivers loops s
  deliver zero s left h =
      let count = counts loops s h in
      done s (finish loops s h.queued h.order (omega (arith, h.bound)) (omega (arith, h.bound)))
  deliver (suc n) s left h = some_left n (λ t l ih. deliver n t l ih) s left h

  -- From every state that steps lead to, however the threads have been scheduled and woken, further
  -- steps of the two threads, none of them a wake-up without a signal, lead to a state where the
  -- consumer has received 0, 1 and so on, as many as the producer makes: there is no deadlock and no
  -- lost wake-up.
  pub Reachable-Delivers :
      (buf : ℕ → ℕ) (s : State) → Reachable loops (start buf) s → Delivers loops s
  Reachable-Delivers buf s r =
      deliver (3 * loops + to_signal s.producer) s (omega arith) (Reachable-Inv loops buf s r)
