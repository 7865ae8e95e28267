-- ===== src/ThreadPool/Steps/Append.antt =====
-- pthreads/thr_pool.c: `thr_pool_queue` puts a job at the end of the queue.
use tcp_and_parallel.Prelude.{
  ℕ, ◌≡◌, refl, sym, ap, ◌∙◌, inl, inr, Bool, true, false, ◌&&◌, Option, none, some, List, [], ◌∷◌,
  ◌++◌, ltb, ◌==◌, arith, if_ind, append_assoc,
}
use tcp_and_parallel.ThreadPool.{State, is_empty, member}
use tcp_and_parallel.ThreadPool.Steps.{link, append_job, queued, thr_pool_queue}
use tcp_and_parallel.ThreadPool.Held.{Ends, Held, create_worker-Held}
use tcp_and_parallel.ThreadPool.Steps.Kept.{Kept}

-- The new job goes behind the last one.
link-last :
    (last job x : ℕ) (xs : List ℕ)
    → Ends (x ∷ xs) (some last)
    → member job (x ∷ xs) ≡ false
    → (link last job (x ∷ xs) ≡ x ∷ (xs ++ job ∷ [])) × Ends (x ∷ (xs ++ job ∷ [])) (some job)
unfolding link
link-last last job x [] h new =
    let same : (x == last) ≡ true = ground arith in (rw same refl, ((λ e. ground arith), refl))
link-last last job x (y ∷ ys) h new =
    let other : (x == last) ≡ false = ground arith in
    let more = link-last last job y ys h.1 (ground arith) in
    (rw other (ap (λ (zs : List ℕ). x ∷ zs) more.0), ((λ e. ground arith), more.1))

endless : (x : ℕ) (xs : List ℕ) → Ends (x ∷ xs) none → ⊥
endless x [] h = ground arith
endless x (y ∷ ys) h = endless y ys h.1

-- `thr_pool_queue` puts the job last.
append_job-last :
    (job : ℕ) (head : List ℕ) (tail : Option ℕ)
    → Ends head tail
    → member job head ≡ false
    → (append_job job head tail ≡ some (head ++ job ∷ [])) × Ends (head ++ job ∷ []) (some job)
unfolding append_job
append_job-last job [] tail h new = (refl, refl)
append_job-last job (x ∷ xs) none h new = elim (endless x xs h) [ ]
append_job-last job (x ∷ xs) (some last) h new =
    let l = link-last last job x xs h new in (ap some l.0, l.1)

not-empty : (xs : List ℕ) (x : ℕ) → is_empty (xs ++ x ∷ []) ≡ false
not-empty [] x = refl
not-empty (y ∷ ys) x = refl

queued-Kept :
    (made : Option ℕ) (job : ℕ) (s : State)
    → Held 0 0 s
    → Ends (s.pool.head ++ job ∷ []) (some job)
    → Kept (queued made job (some (s.pool.head ++ job ∷ [])) s)
unfolding queued
queued-Kept made job s h ends =
    let s' : State = record s {
      pool = record s.pool { head = s.pool.head ++ job ∷ []; tail = some job };
      submitted = s.submitted ++ job ∷ [];
    } in
    let h' : Held 0 0 s' = record {
      active = h.active;
      counted = h.counted;
      idling = h.idling;
      bound = h.bound;
      ends = ends;
      fifo =
          sym (append_assoc s.started s.pool.head (job ∷ []))
          ∙ ap (λ (xs : List ℕ). xs ++ job ∷ []) h.fifo;
      heard = (elim h.heard [
        | inl nobody ↦ inl nobody
        | inr w ↦
            inr (w.0, ap (λ (b : Bool). b && is_empty s.pool.active) (not-empty s.pool.head job))
      ]);
    } in
    if_ind (Held 0 0) (ltb 0 s.pool.idle) _ _ (λ idle. h')
      (λ none.
        if_ind (Held 0 0) (ltb s.pool.nthreads s.pool.maximum) _ _
          (λ room. create_worker-Held made s' h' (ground arith)) (λ full. h'))

pub thr_pool_queue-Kept :
    (job made : Option ℕ) (s : State) → Held 0 0 s → Kept (thr_pool_queue job made s)
unfolding thr_pool_queue
thr_pool_queue-Kept none made s h = h
thr_pool_queue-Kept (some job) made s h =
    if_ind Kept (member job s.pool.head) _ _ (λ old. tt)
      (λ new.
        let a = append_job-last job s.pool.head s.pool.tail h.ends new in
        rw a.0 (queued-Kept made job s h a.1))
