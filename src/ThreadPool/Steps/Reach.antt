-- ===== src/ThreadPool/Steps/Reach.antt =====
-- pthreads/thr_pool.c: the states that the steps lead to from a new pool.
use tcp_and_parallel.Prelude.{
  ℕ, ◌-◌, ◌≤◌, ◌≡◌, refl, inl, inr, Bool, true, ◌||◌, Option, some, ltb, ◌==◌, if◌then◌else◌, arith,
  if_ind, subst,
}
use tcp_and_parallel.ThreadPool.{Pool, State, next, member, without, at_start, thr_pool_create}
use tcp_and_parallel.ThreadPool.Steps.{
  Stage, test, after, worker, fuel, job_cleanup, Event, queue, enter, wake, wake_late, return, exit,
  call_wait, wake_wait, spurious_wait, call_destroy, wake_destroy, step,
}
use tcp_and_parallel.ThreadPool.Held.{Held, worker_cleanup-Held}
use tcp_and_parallel.ThreadPool.Steps.Kept.{Kept, test-Kept, top-Kept, late-Kept}
use tcp_and_parallel.ThreadPool.Steps.Append.{thr_pool_queue-Kept}
use tcp_and_parallel.ThreadPool.Steps.Sections.{
  length-without, job_cleanup-Held, wait_test-Held, destroy_on-Kept, call_destroy_on-Kept,
}

-- Any step that can be taken from a state in order follows no NULL pointer, ends, with no more than
-- four stages of the worker's loop, and leads to a state in order.
pub step-Kept : (ev : Event) (s : State) → Held 0 0 s → Kept (step ev s)
unfolding step
step-Kept (queue job made) s h = thr_pool_queue-Kept job made s h
step-Kept (enter t made) s h =
    if_ind Kept (member t s.entering) _ _
      (λ here.
        top-Kept 1 made t (record s { entering = without t s.entering })
          (record {
            active = h.active;
            counted = omega (arith, h.counted, length-without t s.entering here);
            idling = h.idling;
            bound = h.bound;
            ends = h.ends;
            fifo = h.fifo;
            heard = h.heard;
          }))
      (λ gone. tt)
step-Kept (wake t made) s h =
    if_ind Kept (member t s.waiting) _ _
      (λ here.
        test-Kept 2 made t (record s { waiting = without t s.waiting })
          (record {
            active = h.active;
            counted = omega (arith, h.counted, length-without t s.waiting here);
            idling = omega (arith, h.idling, length-without t s.waiting here);
            bound = h.bound;
            ends = h.ends;
            fifo = h.fifo;
            heard = h.heard;
          }))
      (λ gone. tt)
step-Kept (wake_late timedout t made) s h =
    if_ind Kept (member t s.lingering) _ _ (λ here. lingered timedout made t s h here) (λ gone. tt)
  where
    lingered :
        (timedout : Bool) (made : Option ℕ) (t : ℕ) (s : State)
        → Held 0 0 s
        → member t s.lingering ≡ true
        → Kept (
            worker fuel
              (if timedout then after true else test)
              made
              t
              (record s { lingering = without t s.lingering }))
    lingered timedout made t s h here =
        let h' : Held 1 1 (record s { lingering = without t s.lingering }) = record {
          active = h.active;
          counted = omega (arith, h.counted, length-without t s.lingering here);
          idling = omega (arith, h.idling, length-without t s.lingering here);
          bound = h.bound;
          ends = h.ends;
          fifo = h.fifo;
          heard = h.heard;
        } in
        if_ind
          (λ (g : Stage).
            Kept (worker fuel g made t (record s { lingering = without t s.lingering })))
          timedout _ _ (λ late. late-Kept made t _ h') (λ woken. test-Kept 2 made t _ h')
step-Kept (return t made) s h =
    if_ind Kept (member t s.running) _ _
      (λ here. top-Kept 1 made t (job_cleanup t s) (job_cleanup-Held t s h here)) (λ gone. tt)
step-Kept (exit t made) s h =
    if_ind Kept (member t s.running) _ _
      (λ here. worker_cleanup-Held made (job_cleanup t s) (job_cleanup-Held t s h here))
      (λ gone. tt)
step-Kept call_wait s h = wait_test-Held s h
step-Kept wake_wait s h =
    if_ind Kept (s.woken == 0) _ _ (λ none. tt)
      (λ some.
        wait_test-Held (record s { woken = s.woken - 1 })
          (record {
            active = h.active;
            counted = h.counted;
            idling = h.idling;
            bound = h.bound;
            ends = h.ends;
            fifo = h.fifo;
            heard = h.heard;
          }))
step-Kept spurious_wait s h =
    if_ind Kept (s.waiters == 0) _ _ (λ none. tt)
      (λ some.
        wait_test-Held (record s { waiters = s.waiters - 1 })
          (record {
            active = h.active;
            counted = h.counted;
            idling = h.idling;
            bound = h.bound;
            ends = h.ends;
            fifo = h.fifo;
            heard = (elim h.heard [ inl nobody ↦ inl (omega arith) | inr w ↦ inr w ]);
          }))
step-Kept call_destroy s h = call_destroy_on-Kept s.destroyer s h
step-Kept wake_destroy s h = destroy_on-Kept s.destroyer s h

-- The states that steps lead to from a new pool.
pub data Reachable (p : Pool) : State → Type 0 where
  start : Reachable p (at_start p)
  and_then : {s t : State} → Reachable p s → (ev : Event) → step ev s ≡ next t → Reachable p t

at_start-Held : (p : Pool) (lo hi l : ℕ) → thr_pool_create lo hi l ≡ some p → Held 0 0 (at_start p)
unfolding thr_pool_create
at_start-Held p lo hi l =
    if_ind (λ (o : Option Pool). o ≡ some p → Held 0 0 (at_start p)) (ltb hi lo || ltb hi 1) _ _
      (λ bad e. let no : ⊥ = ground arith in elim no [ ])
      (λ good e.
        subst (λ p. Held 0 0 (at_start p)) (some_inj _ _ e)
          (record {
            active = refl;
            counted = refl;
            idling = refl;
            bound = zero_le hi;
            ends = tt;
            fifo = refl;
            heard = inl refl;
          }))
  where
    some_inj : (p q : Pool) → some p ≡ some q → p ≡ q
    some_inj p q e = cc

    zero_le : (n : ℕ) → 0 ≤ n
    zero_le n = omega arith

-- In every state that steps lead to from a new pool: `pool_active` holds the threads that run a job;
-- `pool_nthreads` and `pool_idle` count the workers and the idle ones; there are at most
-- `pool_maximum` workers; `pool_tail` is the last job of the queue; the jobs have been started in the
-- order in which they were queued, each once; and no caller waits in `thr_pool_wait` when the queue
-- and `pool_active` are empty.
pub Reachable-Held :
    (lo hi l : ℕ) (p : Pool) (s : State)
    → thr_pool_create lo hi l ≡ some p
    → Reachable p s
    → Held 0 0 s
Reachable-Held lo hi l p _ e start = at_start-Held p lo hi l e
Reachable-Held lo hi l p t e (and_then {s = s} r ev move) =
    subst Kept move (step-Kept ev s (Reachable-Held lo hi l p s e r))
