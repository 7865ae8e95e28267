-- ===== src/BoundedBuffer/Invariant.antt =====
-- pthreads/pc-9.c: what holds between the steps.
use tcp_and_parallel.Prelude.{ℕ, zero, suc, ◌≤◌, ◌≡◌, refl, ◌⊎◌, true, List, [], ◌∷◌, ◌++◌, arith}
use tcp_and_parallel.BoundedBuffer.{queue_del, State, waiting, signalling, start, signalled}
use tcp_and_parallel.BoundedBuffer.Ring.{Holds, queue_init-Holds}

-- 0, 1 and so on, `n` of them.
abbrev pub upto : ℕ → List ℕ
upto zero = []
upto (suc n) = upto n ++ n ∷ []

-- `queued` is what the buffer holds. The consumer has received what the producer has put into it, in
-- that order, less what is in the buffer. Who waits has a reason to, or will be woken.
pub record Inv (loops : ℕ) (s : State) : Type 0 where
  pub queued : List ℕ
  pub ring : Holds s.queue queued
  pub order : s.received ++ queued ≡ upto s.i
  pub bound : s.i ≤ loops
  pub producer_reason : s.producer ≡ waiting → s.queue.full ≡ true
  pub consumer_reason : s.consumer_waits ≡ true → (s.queue.empty ≡ true) ⊎ (s.producer ≡ signalling)

pub start-Inv : (loops : ℕ) (buf : ℕ → ℕ) → Inv loops (start buf)
unfolding start
start-Inv loops buf = record {
  queued = [];
  ring = queue_init-Holds buf;
  order = refl;
  bound = omega arith;
  producer_reason = λ e. cc;
  consumer_reason = λ e. cc;
}

abbrev pub taken : State → State
taken s = record s {
  queue = (queue_del s.queue).1;
  received = s.received ++ (queue_del s.queue).0 ∷ [];
  producer = signalled s.producer;
}
