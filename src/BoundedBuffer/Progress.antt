-- ===== src/BoundedBuffer/Progress.antt =====
-- pthreads/pc-9.c: the steps that a thread can take.
use tcp_and_parallel.Prelude.{
  ℕ, ◌+◌, ◌≤◌, ◌<◌, ◌≡◌, ◌≢◌, refl, sym, ap, ◌∙◌, inl, inr, Bool, true, false, some, List, [], ◌∷◌,
  ◌++◌, ltb, length, length-append, arith,
}
use tcp_and_parallel.BoundedBuffer.{
  queue_add, State, Producer, running, waiting, signalling, produce, signal, consume, produce_at,
  signal_at, signalled, consume_at, step,
}
use tcp_and_parallel.BoundedBuffer.Invariant.{upto, Inv, taken}
use tcp_and_parallel.BoundedBuffer.Waits.{length-upto, to_signal, Producer-cases, append_nil}

module _ (loops : ℕ) where
  pub counts : (s : State) (h : Inv loops s) → length s.received + length h.queued ≡ s.i
  counts s h = sym (length-append s.received h.queued) ∙ ap length h.order ∙ length-upto s.i

  pub to_signal-signalled : (p : Producer) → to_signal (signalled p) ≤ to_signal p
  unfolding signalled to_signal
  to_signal-signalled running = omega arith
  to_signal-signalled waiting = omega arith
  to_signal-signalled signalling = omega arith

  pub finish :
      (s : State) (xs : List ℕ)
      → s.received ++ xs ≡ upto s.i
      → length xs ≡ 0
      → s.i ≡ loops
      → s.received ≡ upto loops
  finish s [] order none_left all = sym (append_nil s.received) ∙ order ∙ ap upto all
  finish s (x ∷ xs) order none_left all = absurd (omega arith)

  abbrev pub added : State → State
  added s = record s { queue = queue_add s.queue s.i; i = s.i + 1; producer = signalling }

  pub step-signal :
      (s : State)
      → s.producer ≡ signalling
      → step loops signal s ≡ some (record s { producer = running; consumer_waits = false })
  unfolding step signal_at
  step-signal s at = ap (λ (p : Producer). signal_at p s) at

  pub step-consume :
      (s : State)
      → s.consumer_waits ≡ false
      → s.queue.empty ≡ false
      → step loops consume s ≡ some (taken s)
  unfolding step consume_at
  step-consume s awake some_there = ap (λ (w : Bool). consume_at w s) awake ∙ rw some_there refl

  pub step-produce :
      (s : State)
      → s.producer ≡ running
      → s.i < loops
      → s.queue.full ≡ false
      → step loops produce s ≡ some (added s)
  unfolding step produce_at
  step-produce s at more room =
      let test : ltb s.i loops ≡ true = ground arith in
      ap (λ (p : Producer). produce_at loops p s) at ∙ rw (test, room) refl

  -- The producer does not wait where there is room.
  pub runs_at_empty :
      (s : State)
      → s.producer ≢ signalling
      → s.queue.full ≡ false
      → Inv loops s
      → s.producer ≡ running
  runs_at_empty s other room h = elim (Producer-cases s.producer) [
    | inl runs ↦ runs
    | inr (inl waits) ↦ (let full = h.producer_reason waits in cc)
    | inr (inr signals) ↦ absurd (other signals)
  ]
