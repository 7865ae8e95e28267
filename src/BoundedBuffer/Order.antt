-- ===== src/BoundedBuffer/Order.antt =====
-- pthreads/pc-9.c: what holds in every state that steps lead to.
use tcp_and_parallel.Prelude.{
  ℕ, ◌≡◌, refl, subst, Bool, true, false, Option, none, some, ltb, arith, if_ind,
}
use tcp_and_parallel.BoundedBuffer.{
  State, Producer, running, waiting, signalling, start, Event, produce, signal, consume,
  wake_producer, wake_consumer, produce_at, signal_at, consume_at, wake_at, step, Reachable, here,
  after,
}
use tcp_and_parallel.BoundedBuffer.Invariant.{Inv, start-Inv}
use tcp_and_parallel.BoundedBuffer.Moves.{
  waits-Inv, add-Inv, signal-Inv, sleep-Inv, take-Inv, wake-Inv, wake_consumer-Inv,
}

module _ (loops : ℕ) where
  some_inj : (s u : State) → some s ≡ some u → s ≡ u
  some_inj s u e = cc

  -- Whatever state a step leads to.
  abbrev AllInv : Option State → Type 0
  AllInv o = (u : State) → o ≡ some u → Inv loops u

  one-AllInv : (s : State) → Inv loops s → AllInv (some s)
  one-AllInv s h u e = subst (Inv loops) (some_inj s u e) h

  none-AllInv : AllInv none
  none-AllInv u e = cc

  produce-AllInv :
      (s : State) (p : Producer) → s.producer ≡ p → Inv loops s → AllInv (produce_at loops p s)
  unfolding produce_at
  produce-AllInv s running at h =
      if_ind AllInv (ltb s.i loops) _ none
        (λ more.
          if_ind AllInv s.queue.full _ _ (λ full. one-AllInv _ (waits-Inv loops s at full h))
            (λ room. one-AllInv _ (add-Inv loops s (ground arith) room h)))
        (λ done. none-AllInv)
  produce-AllInv s waiting at h = none-AllInv
  produce-AllInv s signalling at h = none-AllInv

  signal-AllInv : (s : State) (p : Producer) → Inv loops s → AllInv (signal_at p s)
  unfolding signal_at
  signal-AllInv s running h = none-AllInv
  signal-AllInv s waiting h = none-AllInv
  signal-AllInv s signalling h = one-AllInv _ (signal-Inv loops s h)

  consume-AllInv :
      (s : State) (w : Bool) → s.consumer_waits ≡ w → Inv loops s → AllInv (consume_at w s)
  unfolding consume_at
  consume-AllInv s true at h = none-AllInv
  consume-AllInv s false at h =
      if_ind AllInv s.queue.empty _ _ (λ empty. one-AllInv _ (sleep-Inv loops s empty h))
        (λ some_there.
          one-AllInv _ (take-Inv loops s h.queued h.ring h.order h.bound some_there at))

  wake-AllInv : (s : State) (p : Producer) → s.producer ≡ p → Inv loops s → AllInv (wake_at p s)
  unfolding wake_at
  wake-AllInv s running at h = none-AllInv
  wake-AllInv s waiting at h = one-AllInv _ (wake-Inv loops s at h)
  wake-AllInv s signalling at h = none-AllInv

  pub step-AllInv : (e : Event) (s : State) → Inv loops s → AllInv (step loops e s)
  unfolding step
  step-AllInv produce s h = produce-AllInv s s.producer refl h
  step-AllInv signal s h = signal-AllInv s s.producer h
  step-AllInv consume s h = consume-AllInv s s.consumer_waits refl h
  step-AllInv wake_producer s h = wake-AllInv s s.producer refl h
  step-AllInv wake_consumer s h =
      if_ind AllInv s.consumer_waits _ none (λ w. one-AllInv _ (wake_consumer-Inv loops s h))
        (λ w. none-AllInv)

  -- Whatever steps have led to a state, the values that the consumer has received and then those in
  -- the buffer are 0, 1 and so on up to what the producer has put into it; the buffer holds at most
  -- ten, `full` and `empty` tell when it holds ten and none; the producer waits only while the buffer
  -- is full; and the consumer waits only while it is empty or the producer is about to signal.
  pub Reachable-Inv : (buf : ℕ → ℕ) (s : State) → Reachable loops (start buf) s → Inv loops s
  Reachable-Inv buf s here = start-Inv loops buf
  Reachable-Inv buf s (after t u e r at) = step-AllInv e t (Reachable-Inv buf t r) u at
