-- ===== src/Tests/BoundedBuffer.antt =====
-- Runs of pthreads/pc-9.c.
use tcp_and_parallel.Prelude.{ℕ, ◌≡◌, refl, true, Option, none, some, List, [], ◌∷◌}
use tcp_and_parallel.BoundedBuffer.{
  queue_init, queue_add, queue_del, State, start, Event, produce, signal, consume, produce_at,
  signal_at, signalled, consume_at, wake_at, step, Reachable, here, after,
}
use tcp_and_parallel.BoundedBuffer.Order.{Reachable-Inv}
use tcp_and_parallel.BoundedBuffer.Invariant.{Inv}
use tcp_and_parallel.BoundedBuffer.Delivery.{Reachable-Delivers}
use tcp_and_parallel.BoundedBuffer.Waits.{Delivers}

abbrev zeros : ℕ → ℕ
zeros i = 0

abbrev then_step : ℕ → Event → Option State → Option State
then_step loops e none = none
then_step loops e (some s) = step loops e s

-- The last of the events comes first.
abbrev run : ℕ → List Event → Option State
run loops [] = some (start zeros)
run loops (e ∷ es) = then_step loops e (run loops es)

abbrev received_of : Option State → Option (List ℕ)
received_of none = none
received_of (some s) = some s.received

-- The consumer waits, is woken, and receives; the producer makes two.
woken :
    received_of (run 4 (consume ∷ signal ∷ produce ∷ consume ∷ signal ∷ produce ∷ consume ∷ []))
    ≡ some (0 ∷ 1 ∷ [])
unfolding step start queue_init queue_add queue_del produce_at signal_at consume_at wake_at
    signalled
woken = refl

-- The producer signals before it makes another.
twice : run 4 (produce ∷ produce ∷ []) ≡ none
unfolding step start queue_init queue_add produce_at
twice = refl

asleep : State
unfolding start
asleep = record (start zeros) { consumer_waits = true }

asleep_reached : Reachable 4 (start zeros) asleep
unfolding asleep step start queue_init consume_at
asleep_reached = after (start zeros) asleep consume here refl

Reachable-Inv_example : Inv 4 asleep
Reachable-Inv_example = Reachable-Inv 4 zeros asleep asleep_reached

Reachable-Delivers_example : Delivers 4 asleep
Reachable-Delivers_example = Reachable-Delivers 4 zeros asleep asleep_reached
