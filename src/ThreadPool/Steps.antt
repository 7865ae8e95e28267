-- ===== src/ThreadPool/Steps.antt =====
-- pthreads/thr_pool.c: `worker_thread`, `thr_pool_queue`, `thr_pool_wait` and `thr_pool_destroy`, as
-- steps. A signal on `pool_workcv` is not kept: as POSIX allows, a thread may wake without one.
pub mod Append
pub mod Destroy
pub mod Hanging
pub mod Freed
pub mod Kept
pub mod Reach
pub mod Sections
use tcp_and_parallel.Prelude.{
  ℕ, zero, suc, ◌+◌, ◌-◌, Bool, true, false, not, ◌&&◌, ◌||◌, Option, none, some, List, [], ◌∷◌,
  ◌++◌, leb, ltb, ◌==◌, if◌then◌else◌,
}
use tcp_and_parallel.ThreadPool.{
  Pool, Destroyer, absent, waits_active, woken_active, waits_threads, woken_threads, finished,
  State, Run, next, disabled, fault, out_of_fuel, is_empty, member, without, notify_waiters,
  create_worker, worker_cleanup, take_job,
}

-- The points of the worker's loop: its top, the test of the inner loop, and what follows that loop.
pub data Stage : Type 0 where
  top : Stage
  test : Stage
  after : Bool → Stage

pub after_head : Bool → Option ℕ → ℕ → List ℕ → State → Run → Run
after_head timedout made t [] s again =
    if timedout && ltb s.pool.minimum s.pool.nthreads then next (worker_cleanup made s) else again
after_head timedout made t (job ∷ rest) s again = next (take_job t job rest s)

-- The thread `t` goes on until it waits, runs a job or ends. `made` answers a `pthread_create`.
pub worker : ℕ → Stage → Option ℕ → ℕ → State → Run
unfolding after_head
worker zero stage made t s = out_of_fuel
worker (suc k) top made t s =
    let s' = record s { pool = record s.pool { idle = s.pool.idle + 1 } } in
    worker k test made t (if s.pool.wait then notify_waiters s' else s')
worker (suc k) test made t s =
    let found = worker k (after false) made t s in
    let late = worker k (after true) made t s in
    if is_empty s.pool.head && not s.pool.destroy
    then (if leb s.pool.nthreads s.pool.minimum
        then next (record s { waiting = t ∷ s.waiting })
        else if s.pool.linger == 0
        then late
        else next (record s { lingering = t ∷ s.lingering }))
    else found
worker (suc k) (after timedout) made t s =
    let s' = record s { pool = record s.pool { idle = s.pool.idle - 1 } } in
    let again = worker k top made t s' in
    if s.pool.destroy
    then next (worker_cleanup made s')
    else after_head timedout made t s.pool.head s' again

-- Enough for the longest way: from the time limit through the top to the next wait or the end.
abbrev pub fuel : ℕ
fuel = 4

-- `job_cleanup`
pub job_cleanup : ℕ → State → State
job_cleanup t s =
    let s' = record s {
      pool = record s.pool { active = without t s.pool.active };
      running = without t s.running;
    } in
    if s.pool.wait then notify_waiters s' else s'

-- `pool_tail->job_next = job`
pub link : ℕ → ℕ → List ℕ → List ℕ
link last job [] = []
link last job (x ∷ xs) = let rest = link last job xs in if x == last then x ∷ job ∷ [] else x ∷ rest

-- The new job as the last one.
pub append_job : ℕ → List ℕ → Option ℕ → Option (List ℕ)
unfolding link
append_job job [] tail = some (job ∷ [])
append_job job (x ∷ xs) none = none
append_job job (x ∷ xs) (some last) = some (link last job (x ∷ xs))

pub queued : Option ℕ → ℕ → Option (List ℕ) → State → Run
queued made job none s = fault
queued made job (some head) s =
    let s' = record s {
      pool = record s.pool { head = head; tail = some job };
      submitted = s.submitted ++ job ∷ [];
    } in
    next (
      if ltb 0 s.pool.idle
      then s'
      else if ltb s.pool.nthreads s.pool.maximum
      then create_worker made s'
      else s')

-- `job` is what `malloc` gives; it is no job in the queue.
pub thr_pool_queue : Option ℕ → Option ℕ → State → Run
unfolding append_job queued
thr_pool_queue none made s = next s
thr_pool_queue (some job) made s =
    if member job s.pool.head
    then disabled
    else queued made job (append_job job s.pool.head s.pool.tail) s

-- The loop of `thr_pool_wait`, from its test to the next wait or the return.
pub wait_test : State → State
wait_test s =
    if is_empty s.pool.head && is_empty s.pool.active
    then s
    else record s { pool = record s.pool { wait = true }; waiters = s.waiters + 1 }

pub destroy_threads : State → State
destroy_threads s = record s {
  destroyer = if s.pool.nthreads == 0 then finished else waits_threads;
}

-- Also when woken; `finished` is past `free(pool)`, with the jobs that are left in the queue.
pub destroy_active : State → State
unfolding destroy_threads
destroy_active s =
    if is_empty s.pool.active
    then destroy_threads s
    else record s { pool = record s.pool { wait = true }; destroyer = waits_active }

pub data Event : Type 0 where
  queue : (job made : Option ℕ) → Event
  enter : ℕ → Option ℕ → Event
  wake : ℕ → Option ℕ → Event
  wake_late : (timedout : Bool) → ℕ → Option ℕ → Event
  return : ℕ → Option ℕ → Event
  exit : ℕ → Option ℕ → Event
  call_wait : Event
  wake_wait : Event
  spurious_wait : Event
  call_destroy : Event
  wake_destroy : Event

-- The step of a woken destroyer, by where it is.
pub destroy_on : Destroyer → State → Run
unfolding destroy_active
destroy_on absent s = disabled
destroy_on waits_active s = next (destroy_active s)
destroy_on woken_active s = next (destroy_active s)
destroy_on waits_threads s = next (destroy_threads s)
destroy_on woken_threads s = next (destroy_threads s)
destroy_on finished s = disabled

pub call_destroy_on : Destroyer → State → Run
unfolding destroy_active
call_destroy_on absent s =
    next (destroy_active (record s { pool = record s.pool { destroy = true } }))
call_destroy_on waits_active s = disabled
call_destroy_on woken_active s = disabled
call_destroy_on waits_threads s = disabled
call_destroy_on woken_threads s = disabled
call_destroy_on finished s = disabled

-- One step. Where several things can happen, the event says which does.
unfoldable pub step : Event → State → Run
unfolding worker job_cleanup thr_pool_queue wait_test destroy_on call_destroy_on
step (queue job made) s = thr_pool_queue job made s
step (enter t made) s =
    if member t s.entering
    then worker fuel top made t (record s { entering = without t s.entering })
    else disabled
step (wake t made) s =
    if member t s.waiting
    then worker fuel test made t (record s { waiting = without t s.waiting })
    else disabled
step (wake_late timedout t made) s =
    if member t s.lingering
    then worker fuel (if timedout then after true else test) made t
        (record s { lingering = without t s.lingering })
    else disabled
step (return t made) s =
    if member t s.running then worker fuel top made t (job_cleanup t s) else disabled
step (exit t made) s =
    if member t s.running then next (worker_cleanup made (job_cleanup t s)) else disabled
step call_wait s = next (wait_test s)
step wake_wait s =
    if s.woken == 0 then disabled else next (wait_test (record s { woken = s.woken - 1 }))
step spurious_wait s =
    if s.waiters == 0 then disabled else next (wait_test (record s { waiters = s.waiters - 1 }))
step call_destroy s = call_destroy_on s.destroyer s
step wake_destroy s = destroy_on s.destroyer s
