-- ===== src/ThreadPool/Steps/Kept.antt =====
-- pthreads/thr_pool.c: every step keeps the pool in order, follows no NULL pointer, and ends.
use tcp_and_parallel.Prelude.{
  ℕ, suc, ◌+◌, ◌-◌, ◌≡◌, refl, Bool, true, false, not, ◌&&◌, Option, List, [], ◌∷◌, leb, ltb, ◌==◌,
  if◌then◌else◌, arith, if_ind,
}
use tcp_and_parallel.ThreadPool.{
  State, Run, next, disabled, fault, out_of_fuel, is_empty, notify_waiters,
}
use tcp_and_parallel.ThreadPool.Steps.{top, test, after, after_head, worker, fuel}
use tcp_and_parallel.ThreadPool.Held.{Held, notify_waiters-Held, worker_cleanup-Held, take_job-Held}

-- A step that can be taken ends, in a state that is in order.
abbrev pub Kept : Run → Type 0
Kept (next s) = Held 0 0 s
Kept disabled = Unit
Kept fault = ⊥
Kept out_of_fuel = ⊥

after_head-Kept :
    (timedout : Bool) (made : Option ℕ) (t : ℕ) (head : List ℕ) (s : State) (again : Run)
    → head ≡ s.pool.head
    → Held 1 0 s
    → (is_empty head ≡ true → (timedout && ltb s.pool.minimum s.pool.nthreads) ≡ false → Kept again)
    → Kept (after_head timedout made t head s again)
unfolding after_head
after_head-Kept timedout made t [] s again e h go =
    if_ind Kept (timedout && ltb s.pool.minimum s.pool.nthreads) _ _
      (λ leave. worker_cleanup-Held made s h) (λ stay. go refl stay)
after_head-Kept timedout made t (job ∷ rest) s again e h go = take_job-Held t job rest s e h

not_idle :
    (s : State)
    → Held 1 1 s
    → Held 1 0 (record s { pool = record s.pool { idle = s.pool.idle - 1 } })
not_idle s h = record {
  active = h.active;
  counted = h.counted;
  idling = omega (arith, h.idling);
  bound = h.bound;
  ends = h.ends;
  fifo = h.fifo;
  heard = h.heard;
}

after-Kept :
    (k : ℕ) (timedout : Bool) (made : Option ℕ) (t : ℕ) (s : State)
    → Held 1 1 s
    → (s.pool.destroy ≡ false
        → is_empty s.pool.head ≡ true
        → (timedout && ltb s.pool.minimum s.pool.nthreads) ≡ false
        → Kept (worker k top made t (record s { pool = record s.pool { idle = s.pool.idle - 1 } })))
    → Kept (worker (suc k) (after timedout) made t s)
unfolding worker
after-Kept k timedout made t s h go =
    let s' = record s { pool = record s.pool { idle = s.pool.idle - 1 } } in
    if_ind Kept s.pool.destroy _ _ (λ dying. worker_cleanup-Held made s' (not_idle s h))
      (λ living. after_head-Kept timedout made t s.pool.head s' _ refl (not_idle s h) (go living))

pub test-Kept :
    (k : ℕ) (made : Option ℕ) (t : ℕ) (s : State)
    → Held 1 1 s
    → Kept (worker (suc (suc k)) test made t s)
unfolding worker
test-Kept k made t s h =
    if_ind Kept (is_empty s.pool.head && not s.pool.destroy) _ _
      (λ none.
        if_ind Kept (leb s.pool.nthreads s.pool.minimum) _ _
          (λ few. record {
            active = h.active;
            counted = omega (arith, h.counted);
            idling = omega (arith, h.idling);
            bound = h.bound;
            ends = h.ends;
            fifo = h.fifo;
            heard = h.heard;
          })
          (λ many.
            if_ind Kept (s.pool.linger == 0) _ _
              (λ now.
                after-Kept k true made t s h (λ a b c. let no : ⊥ = ground arith in elim no [ ]))
              (λ later. record {
                active = h.active;
                counted = omega (arith, h.counted);
                idling = omega (arith, h.idling);
                bound = h.bound;
                ends = h.ends;
                fifo = h.fifo;
                heard = h.heard;
              })))
      (λ some. after-Kept k false made t s h (λ a b c. let no : ⊥ = ground arith in elim no [ ]))

pub top-Kept :
    (k : ℕ) (made : Option ℕ) (t : ℕ) (s : State)
    → Held 1 0 s
    → Kept (worker (suc (suc (suc k))) top made t s)
unfolding worker
top-Kept k made t s h =
    let s' = record s { pool = record s.pool { idle = s.pool.idle + 1 } } in
    let h' : Held 1 1 s' = record {
      active = h.active;
      counted = h.counted;
      idling = omega (arith, h.idling);
      bound = h.bound;
      ends = h.ends;
      fifo = h.fifo;
      heard = h.heard;
    } in
    test-Kept k made t (if s.pool.wait then notify_waiters s' else s')
      (if_ind (Held 1 1) s.pool.wait _ _ (λ w. notify_waiters-Held 1 1 s' h') (λ w. h'))

pub late-Kept :
    (made : Option ℕ) (t : ℕ) (s : State) → Held 1 1 s → Kept (worker fuel (after true) made t s)
late-Kept made t s h = after-Kept 3 true made t s h (λ a b c. top-Kept 0 made t _ (not_idle s h))
