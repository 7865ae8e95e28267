-- ===== src/BoundedBuffer.antt =====
-- pthreads/pc-9.c: a producer and a consumer with a ring buffer, a mutex and two conditions. What a
-- thread does between taking the mutex and giving it up, or waiting, is one step.
pub mod Ring
pub mod Order
pub mod Moves
pub mod Invariant
pub mod Delivery
pub mod Waits
pub mod Progress
use tcp_and_parallel.Prelude.{
  ℕ, zero, suc, ◌+◌, Bool, true, false, Option, none, some, List, [], ◌∷◌, ◌++◌, ltb, ◌==◌,
  if◌then◌else◌, update, ◌≡◌,
}

abbrev pub queuesize : ℕ
queuesize = 10

pub record Queue : Type 0 where
  pub buf : ℕ → ℕ
  pub head : ℕ
  pub tail : ℕ
  pub full : Bool
  pub empty : Bool

-- `buf` is what malloc gives.
unfoldable pub queue_init : (ℕ → ℕ) → Queue
queue_init buf = record { buf = buf; head = 0; tail = 0; full = false; empty = true }

abbrev pub next_place : ℕ → ℕ
next_place p = if p + 1 == queuesize then 0 else p + 1

unfoldable pub queue_add : Queue → ℕ → Queue
queue_add q in' =
    let tail = next_place q.tail in
    record {
      buf = update q.buf q.tail in';
      head = q.head;
      tail = tail;
      full = if tail == q.head then true else q.full;
      empty = false;
    }

-- The queue, and what is written to `*out`.
unfoldable pub queue_del : Queue → ℕ × Queue
queue_del q =
    let head = next_place q.head in
    (
      q.buf q.head,
      record q { head = head; empty = if head == q.tail then true else q.empty; full = false },
    )

-- Where the producer is: before it takes the mutex, in `pthread_cond_wait`, or before it signals.
pub data Producer : Type 0 where
  running : Producer
  waiting : Producer
  signalling : Producer

-- `i` is the producer's; the consumer waits or is before it takes the mutex. `received` is what it has
-- printed.
pub record State : Type 0 where
  pub queue : Queue
  pub i : ℕ
  pub producer : Producer
  pub consumer_waits : Bool
  pub received : List ℕ

unfoldable pub start : (ℕ → ℕ) → State
unfolding queue_init
start buf = record {
  queue = queue_init buf;
  i = 0;
  producer = running;
  consumer_waits = false;
  received = [];
}

-- A thread goes on, or `pthread_cond_wait` returns without a signal.
pub data Event : Type 0 where
  produce : Event
  signal : Event
  consume : Event
  wake_producer : Event
  wake_consumer : Event

-- `loops` is 4 in the code.
unfoldable pub produce_at : ℕ → Producer → State → Option State
unfolding queue_add
produce_at loops running s =
    if ltb s.i loops
    then (if s.queue.full
        then some (record s { producer = waiting })
        else some (record s { queue = queue_add s.queue s.i; i = s.i + 1; producer = signalling }))
    else none
produce_at loops waiting s = none
produce_at loops signalling s = none

unfoldable pub signal_at : Producer → State → Option State
signal_at signalling s = some (record s { producer = running; consumer_waits = false })
signal_at running s = none
signal_at waiting s = none

unfoldable pub signalled : Producer → Producer
signalled running = running
signalled waiting = running
signalled signalling = signalling

unfoldable pub consume_at : Bool → State → Option State
unfolding queue_del signalled
consume_at true s = none
consume_at false s =
    if s.queue.empty
    then some (record s { consumer_waits = true })
    else (let (d, q) = queue_del s.queue in
        some (record s {
          queue = q;
          received = s.received ++ d ∷ [];
          producer = signalled s.producer;
        }))

unfoldable pub wake_at : Producer → State → Option State
wake_at waiting s = some (record s { producer = running })
wake_at running s = none
wake_at signalling s = none

-- `none` where the thread cannot go on so.
unfoldable pub step : ℕ → Event → State → Option State
unfolding produce_at signal_at consume_at wake_at
step loops produce s = produce_at loops s.producer s
step loops signal s = signal_at s.producer s
step loops consume s = consume_at s.consumer_waits s
step loops wake_producer s = wake_at s.producer s
step loops wake_consumer s =
    if s.consumer_waits then some (record s { consumer_waits = false }) else none

-- What steps lead to.
pub data Reachable (loops : ℕ) (s : State) : State → Type 0 where
  here : Reachable loops s s
  after :
      (t u : State) (e : Event)
      → Reachable loops s t
      → step loops e t ≡ some u
      → Reachable loops s u
