-- ===== src/BoundedBuffer/Waits.antt =====
-- pthreads/pc-9.c: how many steps are left.
use tcp_and_parallel.Prelude.{
  ℕ, zero, suc, ◌+◌, ◌*◌, ◌≤◌, ◌≡◌, refl, ap, ◌∙◌, ◌⊎◌, inl, inr, Bool, true, false, some, List, [],
  ◌∷◌, ◌++◌, length, length-append, arith,
}
use tcp_and_parallel.BoundedBuffer.{
  State, Producer, running, waiting, signalling, Event, produce, signal, consume, wake_producer,
  wake_consumer, step,
}
use tcp_and_parallel.BoundedBuffer.Invariant.{upto}

-- `pthread_cond_wait` returns without a signal.
abbrev pub unsignalled : Event → Bool
unsignalled produce = false
unsignalled signal = false
unsignalled consume = false
unsignalled wake_producer = true
unsignalled wake_consumer = true

-- Some steps, none of them a wake-up without a signal, lead to where the consumer has received all.
pub data Delivers (loops : ℕ) : State → Type 0 where
  done : (s : State) → s.received ≡ upto loops → Delivers loops s
  next :
      (s t : State) (e : Event)
      → unsignalled e ≡ false
      → step loops e s ≡ some t
      → Delivers loops t
      → Delivers loops s

pub length-upto : (n : ℕ) → length (upto n) ≡ n
length-upto zero = refl
length-upto (suc n) = length-append (upto n) (n ∷ []) ∙ omega (arith, length-upto n)

unfoldable pub to_signal : Producer → ℕ
to_signal running = 0
to_signal waiting = 0
to_signal signalling = 1

pub Producer-cases : (p : Producer) → (p ≡ running) ⊎ ((p ≡ waiting) ⊎ (p ≡ signalling))
Producer-cases running = inl refl
Producer-cases waiting = inr (inl refl)
Producer-cases signalling = inr (inr refl)

-- No more than `n` steps are left.
abbrev pub Left : ℕ → ℕ → State → Type 0
Left loops n s = 3 * loops + to_signal s.producer ≤ n + 2 * s.i + length s.received

pub append_nil : (xs : List ℕ) → xs ++ [] ≡ xs
append_nil [] = refl
append_nil (x ∷ xs) = ap (λ (ys : List ℕ). x ∷ ys) (append_nil xs)
