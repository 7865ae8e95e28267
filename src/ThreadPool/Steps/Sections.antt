-- ===== src/ThreadPool/Steps/Sections.antt =====
-- pthreads/thr_pool.c: `job_cleanup`, and the loops of `thr_pool_wait` and `thr_pool_destroy`, keep the
-- pool in order.
use tcp_and_parallel.Prelude.{
  ℕ, suc, ◌+◌, ◌≡◌, refl, ap, inl, inr, true, ◌&&◌, List, [], ◌∷◌, ◌==◌, length, arith, Bool-cases,
  if_ind,
}
use tcp_and_parallel.ThreadPool.{
  Destroyer, absent, waits_active, woken_active, waits_threads, woken_threads, finished, State,
  is_empty, member, without, notify_waiters,
}
use tcp_and_parallel.ThreadPool.Steps.{
  job_cleanup, wait_test, destroy_threads, destroy_active, destroy_on, call_destroy_on,
}
use tcp_and_parallel.ThreadPool.Held.{Held}
use tcp_and_parallel.ThreadPool.Steps.Kept.{Kept}

pub length-without :
    (t : ℕ) (xs : List ℕ) → member t xs ≡ true → length xs ≡ suc (length (without t xs))
length-without t [] m = let no : ⊥ = ground arith in elim no [ ]
length-without t (x ∷ xs) m = elim (Bool-cases (x == t)) [
  | inl here ↦ rw here refl
  | inr other ↦ rw other (ap suc (length-without t xs (ground arith)))
]

pub job_cleanup-Held :
    (t : ℕ) (s : State) → Held 0 0 s → member t s.running ≡ true → Held 1 0 (job_cleanup t s)
unfolding job_cleanup notify_waiters
job_cleanup-Held t s h m =
    let same : without t s.pool.active ≡ without t s.running = ap (λ xs. without t xs) h.active in
    let counted : s.pool.nthreads
        ≡ 1
          + length s.entering
          + length s.waiting
          + length s.lingering
          + length (without t s.running) =
      omega (arith, h.counted, length-without t s.running m) in
    let quiet = is_empty s.pool.head && is_empty (without t s.pool.active) in
    if_ind (Held 1 0) s.pool.wait _ _
      (λ w.
        if_ind (Held 1 0) quiet _ _
          (λ q. record {
            active = same;
            counted = counted;
            idling = h.idling;
            bound = h.bound;
            ends = h.ends;
            fifo = h.fifo;
            heard = inl refl;
          })
          (λ b. record {
            active = same;
            counted = counted;
            idling = h.idling;
            bound = h.bound;
            ends = h.ends;
            fifo = h.fifo;
            heard = inr (w, b);
          }))
      (λ deaf. record {
        active = same;
        counted = counted;
        idling = h.idling;
        bound = h.bound;
        ends = h.ends;
        fifo = h.fifo;
        heard = (elim h.heard [
          | inl nobody ↦ inl nobody
          | inr w ↦ (let no : ⊥ = ground arith in elim no [ ])
        ]);
      })

pub wait_test-Held : (s : State) → Held 0 0 s → Held 0 0 (wait_test s)
unfolding wait_test
wait_test-Held s h =
    if_ind (Held 0 0) (is_empty s.pool.head && is_empty s.pool.active) _ _ (λ quiet. h)
      (λ busy. record {
        active = h.active;
        counted = h.counted;
        idling = h.idling;
        bound = h.bound;
        ends = h.ends;
        fifo = h.fifo;
        heard = inr (refl, busy);
      })

pub destroy_threads-Held : (s : State) → Held 0 0 s → Held 0 0 (destroy_threads s)
unfolding destroy_threads
destroy_threads-Held s h = record {
  active = h.active;
  counted = h.counted;
  idling = h.idling;
  bound = h.bound;
  ends = h.ends;
  fifo = h.fifo;
  heard = h.heard;
}

pub destroy_active-Held : (s : State) → Held 0 0 s → Held 0 0 (destroy_active s)
unfolding destroy_active
destroy_active-Held s h =
    if_ind (Held 0 0) (is_empty s.pool.active) _ _ (λ none. destroy_threads-Held s h)
      (λ some. record {
        active = h.active;
        counted = h.counted;
        idling = h.idling;
        bound = h.bound;
        ends = h.ends;
        fifo = h.fifo;
        heard = inr (refl, ground arith);
      })

pub destroy_on-Kept : (d : Destroyer) (s : State) → Held 0 0 s → Kept (destroy_on d s)
unfolding destroy_on
destroy_on-Kept absent s h = tt
destroy_on-Kept waits_active s h = destroy_active-Held s h
destroy_on-Kept woken_active s h = destroy_active-Held s h
destroy_on-Kept waits_threads s h = destroy_threads-Held s h
destroy_on-Kept woken_threads s h = destroy_threads-Held s h
destroy_on-Kept finished s h = tt

pub call_destroy_on-Kept : (d : Destroyer) (s : State) → Held 0 0 s → Kept (call_destroy_on d s)
unfolding call_destroy_on
call_destroy_on-Kept absent s h =
    destroy_active-Held (record s { pool = record s.pool { destroy = true } })
      (record {
        active = h.active;
        counted = h.counted;
        idling = h.idling;
        bound = h.bound;
        ends = h.ends;
        fifo = h.fifo;
        heard = h.heard;
      })
call_destroy_on-Kept waits_active s h = tt
call_destroy_on-Kept woken_active s h = tt
call_destroy_on-Kept waits_threads s h = tt
call_destroy_on-Kept woken_threads s h = tt
call_destroy_on-Kept finished s h = tt
