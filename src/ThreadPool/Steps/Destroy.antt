-- ===== src/ThreadPool/Steps/Destroy.antt =====
-- pthreads/thr_pool.c: what `thr_pool_destroy` waits for.
use tcp_and_parallel.Prelude.{
  ℕ, ◌-◌, ◌≡◌, ◌≢◌, refl, sym, true, ◌&&◌, Option, none, some, List, [], ◌∷◌, ◌==◌, if◌then◌else◌,
  arith, if_ind, subst,
}
use tcp_and_parallel.ThreadPool.{Destroyer, waits_active, State, is_empty, member, without}
use tcp_and_parallel.ThreadPool.Steps.{
  top, test, after, fuel, link, append_job, queued, thr_pool_queue, wait_test, Event, queue, enter,
  wake, wake_late, return, exit, call_wait, wake_wait, spurious_wait, call_destroy, wake_destroy,
  call_destroy_on, step,
}
use tcp_and_parallel.ThreadPool.Steps.Hanging.{
  Hangs, HangsAfter, worker-Hangs, link-left, queued-Hangs,
}

append_job-Hangs :
    (made : Option ℕ) (job : ℕ) (head : List ℕ) (tail : Option ℕ) (s : State)
    → Hangs s
    → HangsAfter (queued made job (append_job job head tail) s)
unfolding append_job queued
append_job-Hangs made job [] tail s h = queued-Hangs made job (job ∷ []) s h refl
append_job-Hangs made job (x ∷ xs) none s h = tt
append_job-Hangs made job (x ∷ xs) (some last) s h =
    queued-Hangs made job (link last job (x ∷ xs)) s h (link-left last job x xs)

thr_pool_queue-Hangs :
    (job made : Option ℕ) (s : State) → Hangs s → HangsAfter (thr_pool_queue job made s)
unfolding thr_pool_queue
thr_pool_queue-Hangs none made s h = h
thr_pool_queue-Hangs (some job) made s h =
    if_ind HangsAfter (member job s.pool.head) _ _ (λ old. tt)
      (λ new. append_job-Hangs made job s.pool.head s.pool.tail s h)

wait_test-Hangs : (s : State) → Hangs s → Hangs (wait_test s)
unfolding wait_test
wait_test-Hangs s h =
    if_ind Hangs (is_empty s.pool.head && is_empty s.pool.active) _ _ (λ quiet. h)
      (λ busy. record {
        destroy = h.destroy;
        left = h.left;
        active = h.active;
        running = h.running;
        waits = h.waits;
      })

call_destroy_on-Hangs :
    (d : Destroyer) (s : State) → d ≡ waits_active → HangsAfter (call_destroy_on d s)
unfolding call_destroy_on
call_destroy_on-Hangs d s e = subst (λ d. HangsAfter (call_destroy_on d s)) (sym e) tt

nobody : (t : ℕ) (xs : List ℕ) → xs ≡ [] → member t xs ≡ true → ⊥
nobody t [] e m = ground arith
nobody t (x ∷ xs) e m = ground arith

-- Where the destroyer waits for active threads, none is active, and a job is left in the queue, every
-- step of any thread leaves it so: nothing but a wake-up without a broadcast frees the destroyer.
pub step-Hangs : (ev : Event) (s : State) → Hangs s → ev ≢ wake_destroy → HangsAfter (step ev s)
unfolding step
step-Hangs (queue job made) s h other = thr_pool_queue-Hangs job made s h
step-Hangs (enter t made) s h other =
    if_ind HangsAfter (member t s.entering) _ _
      (λ here.
        worker-Hangs fuel top made t (record s { entering = without t s.entering })
          (record {
            destroy = h.destroy;
            left = h.left;
            active = h.active;
            running = h.running;
            waits = h.waits;
          }))
      (λ gone. tt)
step-Hangs (wake t made) s h other =
    if_ind HangsAfter (member t s.waiting) _ _
      (λ here.
        worker-Hangs fuel test made t (record s { waiting = without t s.waiting })
          (record {
            destroy = h.destroy;
            left = h.left;
            active = h.active;
            running = h.running;
            waits = h.waits;
          }))
      (λ gone. tt)
step-Hangs (wake_late timedout t made) s h other =
    if_ind HangsAfter (member t s.lingering) _ _
      (λ here.
        worker-Hangs fuel (if timedout then after true else test) made t
          (record s { lingering = without t s.lingering })
          (record {
            destroy = h.destroy;
            left = h.left;
            active = h.active;
            running = h.running;
            waits = h.waits;
          }))
      (λ gone. tt)
step-Hangs (return t made) s h other =
    if_ind HangsAfter (member t s.running) _ _
      (λ here. let no : ⊥ = nobody t s.running h.running here in elim no [ ]) (λ gone. tt)
step-Hangs (exit t made) s h other =
    if_ind HangsAfter (member t s.running) _ _
      (λ here. let no : ⊥ = nobody t s.running h.running here in elim no [ ]) (λ gone. tt)
step-Hangs call_wait s h other = wait_test-Hangs s h
step-Hangs wake_wait s h other =
    if_ind HangsAfter (s.woken == 0) _ _ (λ none. tt)
      (λ some.
        wait_test-Hangs (record s { woken = s.woken - 1 })
          (record {
            destroy = h.destroy;
            left = h.left;
            active = h.active;
            running = h.running;
            waits = h.waits;
          }))
step-Hangs spurious_wait s h other =
    if_ind HangsAfter (s.waiters == 0) _ _ (λ none. tt)
      (λ some.
        wait_test-Hangs (record s { waiters = s.waiters - 1 })
          (record {
            destroy = h.destroy;
            left = h.left;
            active = h.active;
            running = h.running;
            waits = h.waits;
          }))
step-Hangs call_destroy s h other = call_destroy_on-Hangs s.destroyer s h.waits
step-Hangs wake_destroy s h other = elim (other refl) [ ]
