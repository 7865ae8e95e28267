-- ===== src/ThreadPool/Steps/Hanging.antt =====
-- pthreads/thr_pool.c: a destroyer that hangs, and the ends of workers and the entering of jobs.
use tcp_and_parallel.Prelude.{
  ℕ, zero, suc, ◌+◌, ◌-◌, ◌≡◌, refl, ap, true, false, not, ◌&&◌, Option, none, some, List, [], ◌∷◌,
  ◌++◌, ltb, ◌==◌, arith, if_ind,
}
use tcp_and_parallel.ThreadPool.{
  waits_active, State, Run, next, disabled, fault, out_of_fuel, is_empty, notify_waiters,
  create_worker, worker_cleanup, wake_busycv,
}
use tcp_and_parallel.ThreadPool.Steps.{Stage, top, test, after, worker, link, queued}

-- The destroyer waits for active threads, no thread is active, and a job is left in the queue.
pub record Hangs (s : State) : Type 0 where
  pub destroy : s.pool.destroy ≡ true
  pub left : is_empty s.pool.head ≡ false
  pub active : s.pool.active ≡ []
  pub running : s.running ≡ []
  pub waits : s.destroyer ≡ waits_active

abbrev pub HangsAfter : Run → Type 0
HangsAfter (next s) = Hangs s
HangsAfter disabled = Unit
HangsAfter fault = Unit
HangsAfter out_of_fuel = Unit

pub notify_waiters-Hangs : (s : State) → Hangs s → Hangs (notify_waiters s)
unfolding notify_waiters
notify_waiters-Hangs s h =
    if_ind Hangs (is_empty s.pool.head && is_empty s.pool.active) _ _
      (λ quiet. let no : ⊥ = ground (arith, h.left) in elim no [ ]) (λ busy. h)

pub worker_cleanup-Hangs : (made : Option ℕ) (s : State) → Hangs s → Hangs (worker_cleanup made s)
unfolding worker_cleanup wake_busycv
worker_cleanup-Hangs made s h =
    if_ind Hangs s.pool.destroy _ _
      (λ dying.
        if_ind Hangs (s.pool.nthreads - 1 == 0) _ _
          (λ last. record {
            destroy = h.destroy;
            left = h.left;
            active = h.active;
            running = h.running;
            waits = ap wake_busycv h.waits;
          })
          (λ other. record {
            destroy = h.destroy;
            left = h.left;
            active = h.active;
            running = h.running;
            waits = h.waits;
          }))
      (λ living. let no : ⊥ = ground (arith, h.destroy) in elim no [ ])

pub worker-Hangs :
    (k : ℕ) (g : Stage) (made : Option ℕ) (t : ℕ) (s : State)
    → Hangs s
    → HangsAfter (worker k g made t s)
unfolding worker
worker-Hangs zero g made t s h = tt
worker-Hangs (suc k) top made t s h =
    let s' = record s { pool = record s.pool { idle = s.pool.idle + 1 } } in
    let h' : Hangs s' = record {
      destroy = h.destroy;
      left = h.left;
      active = h.active;
      running = h.running;
      waits = h.waits;
    } in
    worker-Hangs k test made t _
      (if_ind Hangs s.pool.wait _ _ (λ w. notify_waiters-Hangs s' h') (λ w. h'))
worker-Hangs (suc k) test made t s h =
    if_ind HangsAfter (is_empty s.pool.head && not s.pool.destroy) _ _
      (λ none. let no : ⊥ = ground (arith, h.left) in elim no [ ])
      (λ some. worker-Hangs k (after false) made t s h)
worker-Hangs (suc k) (after timedout) made t s h =
    if_ind HangsAfter s.pool.destroy _ _
      (λ dying.
        worker_cleanup-Hangs made (record s { pool = record s.pool { idle = s.pool.idle - 1 } })
          (record {
            destroy = h.destroy;
            left = h.left;
            active = h.active;
            running = h.running;
            waits = h.waits;
          }))
      (λ living. let no : ⊥ = ground (arith, h.destroy) in elim no [ ])

pub link-left : (last job x : ℕ) (xs : List ℕ) → is_empty (link last job (x ∷ xs)) ≡ false
unfolding link
link-left last job x xs = if_ind (λ ys. is_empty ys ≡ false) (x == last) _ _ (λ a. refl) (λ b. refl)

pub create_worker-Hangs : (made : Option ℕ) (s : State) → Hangs s → Hangs (create_worker made s)
unfolding create_worker
create_worker-Hangs none s h = h
create_worker-Hangs (some t) s h = record {
  destroy = h.destroy;
  left = h.left;
  active = h.active;
  running = h.running;
  waits = h.waits;
}

pub queued-Hangs :
    (made : Option ℕ) (job : ℕ) (head : List ℕ) (s : State)
    → Hangs s
    → is_empty head ≡ false
    → HangsAfter (queued made job (some head) s)
unfolding queued
queued-Hangs made job head s h left =
    let s' : State = record s {
      pool = record s.pool { head = head; tail = some job };
      submitted = s.submitted ++ job ∷ [];
    } in
    let h' : Hangs s' = record {
      destroy = h.destroy;
      left = left;
      active = h.active;
      running = h.running;
      waits = h.waits;
    } in
    if_ind Hangs (ltb 0 s.pool.idle) _ _ (λ idle. h')
      (λ none.
        if_ind Hangs (ltb s.pool.nthreads s.pool.maximum) _ _
          (λ room. create_worker-Hangs made s' h') (λ full. h'))
