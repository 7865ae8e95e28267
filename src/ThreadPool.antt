-- ===== src/ThreadPool.antt =====
-- pthreads/thr_pool.c: a pool of worker threads with a queue of jobs. What a thread does from taking
-- `pool_mutex` to giving it up, or to waiting on a condition, is one step of the whole.
pub mod Held
pub mod Ring
pub mod Steps
use tcp_and_parallel.Prelude.{
  ℕ, zero, suc, ◌+◌, ◌-◌, Bool, true, false, not, ◌&&◌, ◌||◌, Option, none, some, List, [], ◌∷◌,
  ◌++◌, leb, ltb, ◌==◌, if◌then◌else◌,
}

-- `struct thr_pool`, less the lock, the condition variables, the attributes and the ring of pools.
-- `wait` and `destroy` are the bits POOL_WAIT and POOL_DESTROY of `pool_flags`. A job is its address, and
-- an active thread its number.
pub record Pool : Type 0 where
  pub active : List ℕ
  pub head : List ℕ
  pub tail : Option ℕ
  pub wait : Bool
  pub destroy : Bool
  pub linger : ℕ
  pub minimum : ℕ
  pub maximum : ℕ
  pub nthreads : ℕ
  pub idle : ℕ

-- Where the thread that calls `thr_pool_destroy` is.
pub data Destroyer : Type 0 where
  absent : Destroyer
  waits_active : Destroyer  -- on `pool_waitcv`
  woken_active : Destroyer
  waits_threads : Destroyer  -- on `pool_busycv`
  woken_threads : Destroyer
  finished : Destroyer

-- The pool and the threads: workers before their first lock, on `pool_workcv` without and with a
-- time limit, and in a job; callers of `thr_pool_wait` on `pool_waitcv`, and those woken. `submitted` and
-- `started` are the jobs in the order in which they were queued and taken.
pub record State : Type 0 where
  pub pool : Pool
  pub entering : List ℕ
  pub waiting : List ℕ
  pub lingering : List ℕ
  pub running : List ℕ
  pub waiters : ℕ
  pub woken : ℕ
  pub destroyer : Destroyer
  pub submitted : List ℕ
  pub started : List ℕ

pub data Run : Type 0 where
  next : State → Run
  disabled : Run  -- no such thread is there
  fault : Run  -- NULL is followed
  out_of_fuel : Run

abbrev pub is_empty : List ℕ → Bool
is_empty [] = true
is_empty (x ∷ xs) = false

abbrev pub member : ℕ → List ℕ → Bool
member x [] = false
member x (y ∷ ys) = y == x || member x ys

-- Without its first occurrence.
abbrev pub without : ℕ → List ℕ → List ℕ
without x [] = []
without x (y ∷ ys) = let rest = without x ys in if y == x then ys else y ∷ rest

unfoldable pub thr_pool_create : (min_threads max_threads linger : ℕ) → Option Pool
thr_pool_create min_threads max_threads linger =
    if ltb max_threads min_threads || ltb max_threads 1
    then none
    else some (record {
      active = [];
      head = [];
      tail = none;
      wait = false;
      destroy = false;
      linger = linger;
      minimum = min_threads;
      maximum = max_threads;
      nthreads = 0;
      idle = 0;
    })

abbrev pub at_start : Pool → State
at_start p = record {
  pool = p;
  entering = [];
  waiting = [];
  lingering = [];
  running = [];
  waiters = 0;
  woken = 0;
  destroyer = absent;
  submitted = [];
  started = [];
}

-- A broadcast on `pool_waitcv`, and one on `pool_busycv`.
wake_waitcv : Destroyer → Destroyer
wake_waitcv absent = absent
wake_waitcv waits_active = woken_active
wake_waitcv woken_active = woken_active
wake_waitcv waits_threads = waits_threads
wake_waitcv woken_threads = woken_threads
wake_waitcv finished = finished

pub wake_busycv : Destroyer → Destroyer
wake_busycv absent = absent
wake_busycv waits_active = waits_active
wake_busycv woken_active = woken_active
wake_busycv waits_threads = woken_threads
wake_busycv woken_threads = woken_threads
wake_busycv finished = finished

unfoldable pub notify_waiters : State → State
unfolding wake_waitcv
notify_waiters s =
    if is_empty s.pool.head && is_empty s.pool.active
    then record s {
      pool = record s.pool { wait = false };
      waiters = 0;
      woken = s.woken + s.waiters;
      destroyer = wake_waitcv s.destroyer;
    }
    else s

-- `create_worker(pool) == 0` and `pool_nthreads++`; `made` is the number of the new thread, if
-- `pthread_create` makes one.
unfoldable pub create_worker : Option ℕ → State → State
create_worker none s = s
create_worker (some t) s = record s {
  pool = record s.pool { nthreads = s.pool.nthreads + 1 };
  entering = t ∷ s.entering;
}

unfoldable pub worker_cleanup : Option ℕ → State → State
unfolding create_worker wake_busycv
worker_cleanup made s =
    let n = s.pool.nthreads - 1 in
    let s' = record s { pool = record s.pool { nthreads = n } } in
    if s.pool.destroy
    then (if n == 0 then record s' { destroyer = wake_busycv s.destroyer } else s')
    else if not (is_empty s.pool.head) && ltb n s.pool.maximum
    then create_worker made s'
    else s'

-- The head of the queue is taken by the thread `t`, which leaves the lock to run it.
unfoldable pub take_job : ℕ → ℕ → List ℕ → State → State
take_job t job rest s = record s {
  pool = record s.pool {
    head = rest;
    tail = (elim s.pool.tail [ none ↦ none | some last ↦ if job == last then none else some last ]);
    active = t ∷ s.pool.active;
  };
  running = t ∷ s.running;
  started = s.started ++ job ∷ [];
}
