-- ===== src/Tests/ThreadPool.antt =====
-- Runs of the thread pool of pthreads/thr_pool.c.
use tcp_and_parallel.Prelude.{
  true, false, none, some, [], ◌∷◌, ◌≡◌, ◌≢◌, refl, arith, ◌==◌, if◌then◌else◌,
}
use tcp_and_parallel.ThreadPool.{
  Pool, State, next, create_worker, take_job, worker_cleanup, notify_waiters, at_start,
  thr_pool_create, waits_active, woken_active, finished, absent,
}
use tcp_and_parallel.ThreadPool.Ring.{Ring, insert_pool, remove_pool}
use tcp_and_parallel.ThreadPool.Ring.Restored.{SameRing, insert_pool-remove_pool}
use tcp_and_parallel.ThreadPool.Held.{Held}
use tcp_and_parallel.ThreadPool.Steps.{
  queue, enter, exit, call_wait, call_destroy, wake_destroy, step,
}
use tcp_and_parallel.ThreadPool.Steps.Reach.{Reachable, start, and_then, Reachable-Held, step-Kept}
use tcp_and_parallel.ThreadPool.Steps.Kept.{Kept}
use tcp_and_parallel.ThreadPool.Steps.Destroy.{step-Hangs}
use tcp_and_parallel.ThreadPool.Steps.Hanging.{Hangs, HangsAfter}
use tcp_and_parallel.ThreadPool.Steps.Freed.{NoWorker, wake_destroy-NoWorker}

-- One thread at most, that stays.
abbrev one : Pool
one = record {
  active = [];
  head = [];
  tail = none;
  wait = false;
  destroy = false;
  linger = 0;
  minimum = 1;
  maximum = 1;
  nthreads = 0;
  idle = 0;
}

one-create : thr_pool_create 1 1 0 ≡ some one
unfolding thr_pool_create
one-create = refl

-- Job 50 is queued and taken by thread 7.
abbrev busy : State
busy = record {
  pool = record one { active = 7 ∷ []; nthreads = 1 };
  entering = [];
  waiting = [];
  lingering = [];
  running = 7 ∷ [];
  waiters = 0;
  woken = 0;
  destroyer = absent;
  submitted = 50 ∷ [];
  started = 50 ∷ [];
}

abbrev called : State
called = record (at_start one) {
  pool = record one { head = 50 ∷ []; tail = some 50; nthreads = 1 };
  entering = 7 ∷ [];
  submitted = 50 ∷ [];
}

called-step : step (queue (some 50) (some 7)) (at_start one) ≡ next called
unfolding step create_worker take_job worker_cleanup notify_waiters
called-step = refl

busy-step : step (enter 7 none) called ≡ next busy
unfolding step create_worker take_job worker_cleanup notify_waiters
busy-step = refl

busy-Reachable : Reachable one busy
busy-Reachable =
    and_then (and_then start (queue (some 50) (some 7)) called-step) (enter 7 none) busy-step

Reachable-Held_example : Held 0 0 busy
Reachable-Held_example = Reachable-Held 1 1 0 one busy one-create busy-Reachable

-- The pool is destroyed while job 51 waits and job 50 runs, and the thread is cancelled.
abbrev waits : State
waits = record busy {
  pool = record one {
    active = 7 ∷ [];
    head = 51 ∷ [];
    tail = some 51;
    nthreads = 1;
    wait = true;
    destroy = true;
  };
  destroyer = waits_active;
  submitted = 50 ∷ 51 ∷ [];
}

abbrev hanging : State
hanging = record waits { pool = record waits.pool { active = []; nthreads = 0 }; running = [] }

abbrev two_jobs : State
two_jobs = record busy {
  pool = record busy.pool { head = 51 ∷ []; tail = some 51 };
  submitted = 50 ∷ 51 ∷ [];
}

two_jobs-step : step (queue (some 51) none) busy ≡ next two_jobs
unfolding step create_worker take_job worker_cleanup notify_waiters
two_jobs-step = refl

waits-step : step call_destroy two_jobs ≡ next waits
unfolding step create_worker take_job worker_cleanup notify_waiters
waits-step = refl

hanging-step : step (exit 7 none) waits ≡ next hanging
unfolding step create_worker take_job worker_cleanup notify_waiters
hanging-step = refl

hanging-Reachable : Reachable one hanging
hanging-Reachable =
    and_then
      (and_then (and_then busy-Reachable (queue (some 51) none) two_jobs-step) call_destroy
        waits-step)
      (exit 7 none) hanging-step

other_event : call_wait ≢ wake_destroy
other_event e = ground arith

hanging-Hangs : Hangs hanging
hanging-Hangs = record { destroy = refl; left = refl; active = refl; running = refl; waits = refl }

step-Hangs_example : HangsAfter (step call_wait hanging)
step-Hangs_example = step-Hangs call_wait hanging hanging-Hangs other_event

-- With no job left behind the destroyer waits for the thread, and frees the pool.
abbrev quiet : State
quiet = record busy {
  pool = record busy.pool { wait = true; destroy = true };
  destroyer = waits_active;
}

abbrev last_gone : State
last_gone = record quiet {
  pool = record quiet.pool { active = []; nthreads = 0; wait = false };
  running = [];
  destroyer = woken_active;
}

abbrev freed : State
freed = record last_gone { destroyer = finished }

quiet-step : step call_destroy busy ≡ next quiet
unfolding step create_worker take_job worker_cleanup notify_waiters
quiet-step = refl

last_gone-step : step (exit 7 none) quiet ≡ next last_gone
unfolding step create_worker take_job worker_cleanup notify_waiters
last_gone-step = refl

freed-step : step wake_destroy last_gone ≡ next freed
unfolding step create_worker take_job worker_cleanup notify_waiters
freed-step = refl

wake_destroy-NoWorker_example : NoWorker freed
wake_destroy-NoWorker_example =
    wake_destroy-NoWorker 1 1 0 one last_gone freed one-create
      (and_then (and_then busy-Reachable call_destroy quiet-step) (exit 7 none) last_gone-step)
      freed-step refl

busy-Held : Held 0 0 busy
busy-Held = Reachable-Held 1 1 0 one busy one-create busy-Reachable

step-Kept_example : Kept (step (queue (some 51) none) busy)
step-Kept_example = step-Kept (queue (some 51) none) busy busy-Held

-- Two pools, 1 and 2, and a third that comes and goes.
abbrev ring : Ring
ring = record {
  forw = λ x. if x == 1 then 2 else 1;
  back = λ x. if x == 1 then 2 else 1;
  thr_pools = some 1;
}

insert_pool-remove_pool_example : SameRing 3 ring (remove_pool 3 (insert_pool 3 ring))
insert_pool-remove_pool_example =
    insert_pool-remove_pool 3 ring (refl, (λ e. ground arith), (λ e. ground arith))
