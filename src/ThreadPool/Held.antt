-- ===== src/ThreadPool/Held.antt =====
-- pthreads/thr_pool.c: what holds of the pool and the threads between two steps, and while one
-- worker is under way.
use tcp_and_parallel.Prelude.{
  ℕ, ◌+◌, ◌-◌, ◌≤◌, ◌<◌, ◌≡◌, ◌≢◌, refl, sym, ap, ◌∙◌, ◌⊎◌, inl, inr, true, false, not, ◌&&◌,
  Option, none, some, List, [], ◌∷◌, ◌++◌, ltb, ◌==◌, if◌then◌else◌, length, arith, Bool-cases,
  if_ind, ==_of_ne, subst, append_assoc,
}
use tcp_and_parallel.ThreadPool.{
  State, is_empty, notify_waiters, create_worker, worker_cleanup, take_job,
}

-- `tail` is the last job of the queue, and stands nowhere before.
abbrev pub Ends : List ℕ → Option ℕ → Type 0
Ends [] tail = Unit
Ends (x ∷ []) tail = tail ≡ some x
Ends (x ∷ y ∷ ys) tail = (tail ≢ some x) × Ends (y ∷ ys) tail

-- `threads` workers and `idle` idle ones are under way, in none of the lists.
pub record Held (threads idle : ℕ) (s : State) : Type 0 where
  pub active : s.pool.active ≡ s.running
  pub counted :
      s.pool.nthreads
      ≡ threads + length s.entering + length s.waiting + length s.lingering + length s.running
  pub idling : s.pool.idle ≡ idle + length s.waiting + length s.lingering
  pub bound : s.pool.nthreads ≤ s.pool.maximum
  pub ends : Ends s.pool.head s.pool.tail
  pub fifo : s.started ++ s.pool.head ≡ s.submitted
  pub heard :
      (s.waiters ≡ 0)
      ⊎ ((s.pool.wait ≡ true) × ((is_empty s.pool.head && is_empty s.pool.active) ≡ false))

pub notify_waiters-Held : (n i : ℕ) (s : State) → Held n i s → Held n i (notify_waiters s)
unfolding notify_waiters
notify_waiters-Held n i s h = elim (Bool-cases (is_empty s.pool.head && is_empty s.pool.active)) [
  | inl quiet ↦ rw quiet (record {
    active = h.active;
    counted = h.counted;
    idling = h.idling;
    bound = h.bound;
    ends = h.ends;
    fifo = h.fifo;
    heard = inl refl;
  })
  | inr busy ↦ rw busy h
]

pub create_worker-Held :
    (made : Option ℕ) (s : State)
    → Held 0 0 s
    → s.pool.nthreads < s.pool.maximum
    → Held 0 0 (create_worker made s)
unfolding create_worker
create_worker-Held none s h room = h
create_worker-Held (some t) s h room = record {
  active = h.active;
  counted = omega (arith, h.counted);
  idling = h.idling;
  bound = omega arith;
  ends = h.ends;
  fifo = h.fifo;
  heard = h.heard;
}

pub worker_cleanup-Held :
    (made : Option ℕ) (s : State) → Held 1 0 s → Held 0 0 (worker_cleanup made s)
unfolding worker_cleanup
worker_cleanup-Held made s h =
    let n = s.pool.nthreads - 1 in
    let s' = record s { pool = record s.pool { nthreads = n } } in
    let h' : Held 0 0 s' = record {
      active = h.active;
      counted = omega (arith, h.counted);
      idling = h.idling;
      bound = omega (arith, h.bound);
      ends = h.ends;
      fifo = h.fifo;
      heard = h.heard;
    } in
    if_ind (Held 0 0) s.pool.destroy _ _
      (λ dying.
        if_ind (Held 0 0) (n == 0) _ _
          (λ last. record {
            active = h.active;
            counted = h'.counted;
            idling = h.idling;
            bound = h'.bound;
            ends = h.ends;
            fifo = h.fifo;
            heard = h.heard;
          })
          (λ other. h'))
      (λ living.
        if_ind (Held 0 0) (not (is_empty s.pool.head) && ltb n s.pool.maximum) _ _
          (λ more. create_worker-Held made s' h' (ground arith)) (λ enough. h'))

Ends-rest :
    (job : ℕ) (rest : List ℕ) (tail : Option ℕ)
    → Ends (job ∷ rest) tail
    → Ends rest (elim tail [ none ↦ none | some last ↦ if job == last then none else some last ])
Ends-rest job [] tail h = tt
Ends-rest job (y ∷ ys) none h = h.1
Ends-rest job (y ∷ ys) (some last) h =
    let ne : (job == last) ≡ false =
      ==_of_ne job last (λ e. h.0 (ap (λ (x : ℕ). some x) (sym e))) in
    rw ne h.1

heard-busy :
    (s : State) (t : ℕ) (rest : List ℕ)
    → Held 1 0 s
    → (s.waiters ≡ 0)
      ⊎ ((s.pool.wait ≡ true) × ((is_empty rest && is_empty (t ∷ s.pool.active)) ≡ false))
heard-busy s t rest h = elim h.heard [ inl nobody ↦ inl nobody | inr w ↦ inr (w.0, busy rest) ]
  where
    busy : (xs : List ℕ) → (is_empty xs && false) ≡ false
    busy [] = refl
    busy (x ∷ xs) = refl

pub take_job-Held :
    (t job : ℕ) (rest : List ℕ) (s : State)
    → job ∷ rest ≡ s.pool.head
    → Held 1 0 s
    → Held 0 0 (take_job t job rest s)
unfolding take_job
take_job-Held t job rest s e h = record {
  active = ap (λ (xs : List ℕ). t ∷ xs) h.active;
  counted = omega (arith, h.counted);
  idling = h.idling;
  bound = h.bound;
  ends = Ends-rest job rest s.pool.tail (subst (λ xs. Ends xs s.pool.tail) (sym e) h.ends);
  fifo =
      append_assoc s.started (job ∷ []) rest ∙ (ap (λ (xs : List ℕ). s.started ++ xs) e ∙ h.fifo);
  heard = heard-busy s t rest h;
}
